-- ===== src/Broker/Secrets/Env.antt =====
-- packages/mcp-broker/src/secrets/env-source.ts: secrets in environment variables.
pub mod Names
pub mod Resolved
use agent_valet.Common.{
  ℕ, ◌-◌, Bool, true, false, ◌&&◌, ◌||◌, Option, none, some, [], ◌∷◌, ◌++◌, Text, codes, ◌==◌, leb,
  truthy, ◌≡◌, ◌↔◌, if◌then◌else◌,
}
use agent_valet.Common.{ap, sym, refl, or_else}
use agent_valet.Common.Js.{is_digit}
use agent_valet.Common.Effects.{Try, ok, threw}
use agent_valet.Broker.Secrets.{narrowed_scope, static_credential}
use agent_valet.Broker.Types.{Decision, CredentialRef, Credential}

-- The part of `toUpperCase` that the next step can see: the characters whose upper case has a
-- letter from A to Z; any other character stands for itself, and is folded all the same.
abbrev upper : ℕ → Text
upper c =
    if leb b'a' c && leb c b'z'
    then (c - 32) ∷ []
    else if c == 223
    then codes "SS"
    else if c == 305
    then codes "I"
    else if c == 329
    then 700 ∷ codes "N"
    else if c == 383
    then codes "S"
    else if c == 496
    then b'J' ∷ 780 ∷ []
    else if c == 7830
    then b'H' ∷ 817 ∷ []
    else if c == 7831
    then b'T' ∷ 776 ∷ []
    else if c == 7832
    then b'W' ∷ 778 ∷ []
    else if c == 7833
    then b'Y' ∷ 778 ∷ []
    else if c == 7834
    then b'A' ∷ 702 ∷ []
    else if c == 64256
    then codes "FF"
    else if c == 64257
    then codes "FI"
    else if c == 64258
    then codes "FL"
    else if c == 64259
    then codes "FFI"
    else if c == 64260
    then codes "FFL"
    else if c == 64261 || c == 64262
    then codes "ST"
    else c ∷ []

abbrev pub to_upper_case : Text → Text
to_upper_case [] = []
to_upper_case (c ∷ cs) = upper c ++ to_upper_case cs

abbrev pub is_name_unit : ℕ → Bool
is_name_unit c = (leb b'A' c && leb c b'Z') || is_digit c

abbrev pub underscore : ℕ
underscore = 95

-- `.replace(/[^A-Z0-9]+/g, "_")`, by whether the character before belongs to a run
unfoldable pub fold_runs : Bool → Text → Text
fold_runs inside [] = []
fold_runs inside (c ∷ cs) =
    let kept = fold_runs false cs in
    let folded = fold_runs true cs in
    if is_name_unit c then c ∷ kept else (if inside then folded else underscore ∷ folded)

abbrev pub strip_start : Text → Text
strip_start [] = []
strip_start (c ∷ cs) = if c == underscore then strip_start cs else c ∷ cs

abbrev pub strip_end : Text → Text
strip_end [] = []
strip_end (c ∷ cs) =
    let rest = strip_end cs in
    if truthy rest then c ∷ rest else (if c == underscore then [] else c ∷ [])

-- `.replace(/^_+|_+$/g, "")`
abbrev pub strip_underscores : Text → Text
strip_underscores s = strip_end (strip_start s)

unfoldable pub env_var_name : Text → Text → Text
unfolding fold_runs
env_var_name ref prefix = prefix ++ strip_underscores (fold_runs false (to_upper_case ref))

abbrev not_found : Text → CredentialRef → Text
not_found name ref =
    codes "env secret not found: "
    ++ (name ++ (codes " (for credential \"" ++ (ref.id ++ codes "\")")))

abbrev pub from_variable : Option Text → Text → CredentialRef → Decision → Try Credential
from_variable none name ref decision = threw (not_found name ref)
from_variable (some []) name ref decision = threw (not_found name ref)
from_variable (some (c ∷ cs)) name ref decision =
    ok (static_credential (c ∷ cs) (narrowed_scope ref decision))

-- `EnvSecretSource.resolve`, by the constructor's two arguments
unfoldable pub resolve : Text → (Text → Option Text) → CredentialRef → Decision → Try Credential
resolve prefix env ref decision =
    from_variable (env (env_var_name ref.id prefix)) (env_var_name ref.id prefix) ref decision
