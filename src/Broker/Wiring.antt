-- ===== src/Broker/Wiring.antt =====
-- packages/mcp-broker/src/sources.ts: the sources that a specification names.
pub mod Named
pub mod Wrapping
pub mod Prompt
pub mod Files
use agent_valet.Common.{
  ℕ, Bool, Option, none, some, [], ◌∷◌, ◌++◌, Text, codes, ◌===◌, ◌==◌, truthy, if◌then◌else◌,
}
use agent_valet.Common.Effects.{Try, ok, threw}

abbrev pub cut_front : ℕ → Option (Text × Text) → Option (Text × Text)
cut_front c none = none
cut_front c (some (scheme, rest)) = some (c ∷ scheme, rest)

-- the text before the first colon and the text after it
unfoldable pub at_colon : Text → Option (Text × Text)
at_colon [] = none
at_colon (c ∷ cs) = let more = at_colon cs in if c == b':' then some ([], cs) else cut_front c more

abbrev pub in_quotes : Text → Text
in_quotes s = 34 ∷ (s ++ (34 ∷ []))

abbrev invalid : Text → Text
invalid spec =
    codes "invalid source spec "
    ++ (in_quotes spec
        ++ (codes " (expected " ++ (in_quotes (codes "<scheme>:<locator>") ++ codes ")")))

abbrev pub scheme_or_error : Text → Option (Text × Text) → Try (Text × Text)
scheme_or_error spec none = threw (invalid spec)
scheme_or_error spec (some parts) = ok parts

unfoldable pub split_scheme : Text → Try (Text × Text)
unfolding at_colon
split_scheme spec = scheme_or_error spec (at_colon spec)

-- A specification: an implementation, or a text.
pub data Spec (A : Type 0) : Type 0 where
  given : A → Spec A
  written : Text → Spec A

pub data PolicyChoice (P : Type 0) : Type 0 where
  policy_given : P → PolicyChoice P
  file_policy : Text → PolicyChoice P
  authzen_policy : Text → PolicyChoice P
  hosted_policy : Option Text → PolicyChoice P

pub data SecretChoice (S : Type 0) : Type 0 where
  secrets_given : S → SecretChoice S
  env_secrets : Text → SecretChoice S
  file_secrets : Text → SecretChoice S
  hosted_secrets : Option Text → SecretChoice S

pub data AuditChoice (A : Type 0) : Type 0 where
  audit_given : A → AuditChoice A
  jsonl_audit : Text → AuditChoice A
  hosted_audit : Option Text → AuditChoice A

-- `rest ? { apiUrl: rest } : {}`
abbrev pub api_url : Text → Option Text
api_url rest = if truthy rest then some rest else none

abbrev pub with_scheme : {A : Type 0} → (Text → Text → Try A) → Try (Text × Text) → Try A
with_scheme choose (ok (scheme, rest)) = choose scheme rest
with_scheme choose (threw m) = threw m

abbrev pub policy_by_scheme : {P : Type 0} → Text → Text → Try (PolicyChoice P)
policy_by_scheme scheme rest =
    if scheme === codes "file"
    then ok (file_policy rest)
    else if scheme === codes "authzen"
    then ok (authzen_policy rest)
    else if scheme === codes "agentvalet"
    then ok (hosted_policy (api_url rest))
    else threw (codes "unknown policy scheme " ++ in_quotes (scheme ++ codes ":"))

unfoldable pub resolve_policy_source : {P : Type 0} → Spec P → Try (PolicyChoice P)
unfolding split_scheme
resolve_policy_source (given source) = ok (policy_given source)
resolve_policy_source (written spec) = with_scheme policy_by_scheme (split_scheme spec)

abbrev secrets_by_scheme : {S : Type 0} → Text → Text → Try (SecretChoice S)
secrets_by_scheme scheme rest =
    if scheme === codes "env"
    then ok (env_secrets rest)
    else if scheme === codes "file"
    then ok (file_secrets rest)
    else if scheme === codes "agentvalet"
    then ok (hosted_secrets (api_url rest))
    else if scheme === codes "vaultref"
    then threw (codes "vaultref: (user-owned vault) is not available in this build")
    else threw (codes "unknown secrets scheme " ++ in_quotes (scheme ++ codes ":"))

unfoldable resolve_secret_source : {S : Type 0} → Spec S → Try (SecretChoice S)
unfolding split_scheme
resolve_secret_source (given source) = ok (secrets_given source)
resolve_secret_source (written spec) = with_scheme secrets_by_scheme (split_scheme spec)

abbrev audit_by_scheme : {A : Type 0} → Text → Text → Try (AuditChoice A)
audit_by_scheme scheme rest =
    if scheme === codes "jsonl"
    then ok (jsonl_audit rest)
    else if scheme === codes "agentvalet"
    then ok (hosted_audit (api_url rest))
    else if scheme === codes "otel"
    then threw (codes "otel: audit sink is not implemented in this build")
    else threw (codes "unknown audit scheme " ++ in_quotes (scheme ++ codes ":"))

unfoldable resolve_audit_sink : {A : Type 0} → Option (Spec A) → Try (AuditChoice A)
unfolding split_scheme
resolve_audit_sink none = ok (jsonl_audit (codes "./audit.log"))
resolve_audit_sink (some (given sink)) = ok (audit_given sink)
resolve_audit_sink (some (written spec)) = with_scheme audit_by_scheme (split_scheme spec)
