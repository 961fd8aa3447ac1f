-- ===== src/Broker/Yaml/Scan.antt =====
-- The scanners of packages/mcp-broker/src/policy/yaml.ts: lines, comments, forbidden syntax,
-- keys and quotes. A regular expression is the function that decides whether it matches.
use agent_valet.Common.{
  ℕ, suc, Bool, true, false, not, ◌&&◌, ◌||◌, Option, none, some, List, [], ◌∷◌, Text, codes, ◌==◌,
  ltb, length, truthy, if◌then◌else◌, all, ◌≡◌, refl,
}
use agent_valet.Common.Js.{
  is_space, is_digit, trim, trim_start, starts_with, ends_with_unit, has_unit, drop_first,
  drop_last,
}

-- Why a policy is refused.
pub data Reason : Type 0 where
  tabs anchors merge_keys interpolation flow_collections : Reason
  empty_value unterminated_quote stray_quote : Reason
  no_key_value : Text → Reason
  bad_rule_effect : Reason
  unknown_rule_key : Text → Reason
  bad_version defaults_inline rules_inline : Reason
  unknown_top_key unknown_defaults_key : Text → Reason
  bad_defaults_effect no_list_item not_indented indented_at_top : Reason
  missing_version : Reason
  unsupported_version : ℕ → Reason
  missing_tool : Reason
  duplicate_tool : Text → Reason

-- `PolicyParseError` carries its line.
pub data Parsed {ℓ} (A : Type ℓ) : Type ℓ where
  ok : A → Parsed A
  err : Reason → ℕ → Parsed A

infixl 5 ◌>>=◌
abbrev pub ◌>>=◌ {ℓ κ} : {A : Type ℓ} {B : Type κ} → Parsed A → (A → Parsed B) → Parsed B
◌>>=◌ m next = elim m [ ok value ↦ next value | err why line ↦ err why line ]

-- The two halves of an accepted sequence.
pub bind-eq-ok {ℓ κ} :
    {A : Type ℓ} {B : Type κ} (m : Parsed A) (next : A → Parsed B) {r : B}
    → m >>= next ≡ ok r
    → (value : A) × (m ≡ ok value) × (next value ≡ ok r)
bind-eq-ok (ok value) next h = (value, refl, h)
bind-eq-ok (err why line) next h = cc

abbrev cons_head : ℕ → List Text → List Text
cons_head c [] = (c ∷ []) ∷ []
cons_head c (l ∷ ls) = (c ∷ l) ∷ ls

-- `source.split(/\r?\n/)`
unfoldable pub split_lines : Text → List Text
split_lines [] = [] ∷ []
split_lines (c ∷ cs) =
    let rest = split_lines cs in
    if c == b'\n'
    then [] ∷ rest
    else if c == b'\r' && starts_with (codes "\n") cs
    then rest
    else cons_head c rest

-- the loop of `stripComment`, behind a code unit that may open a comment
unfoldable pub strip_from : Bool → Bool → Bool → Text → Text
strip_from opens single double [] = []
strip_from opens single double (c ∷ cs) =
    let quote = c == b'\'' && not double in
    let double_quote = c == b'"' && not single in
    let rest =
      strip_from (is_space c) (if quote then not single else single)
        (if quote then double else if double_quote then not double else double) cs in
    if c == b'#' && not single && not double && opens then [] else c ∷ rest

unfoldable pub strip_comment : Text → Text
unfolding strip_from
strip_comment raw = strip_from true false false raw

abbrev opens_with_non_space : Text → Bool
opens_with_non_space [] = false
opens_with_non_space (c ∷ cs) = not (is_space c)

-- `/(^|\s)[&*]\S/`; the flag says that the line starts here or that white space precedes
unfoldable pub has_anchor : Bool → Text → Bool
has_anchor at_edge [] = false
has_anchor at_edge (c ∷ cs) =
    (at_edge && (c == b'&' || c == b'*') && opens_with_non_space cs) || has_anchor (is_space c) cs

-- `/<<\s*:/`
unfoldable pub has_merge_key : Text → Bool
has_merge_key [] = false
has_merge_key (c ∷ cs) =
    (c == b'<'
      && starts_with (codes "<") cs
      && starts_with (codes ":") (trim_start (drop_first cs)))
    || has_merge_key cs

-- `/\$\{/`
unfoldable pub has_interpolation : Text → Bool
has_interpolation [] = false
has_interpolation (c ∷ cs) = (c == b'$' && starts_with (codes "{") cs) || has_interpolation cs

abbrev opens_flow : Text → Bool
opens_flow [] = false
opens_flow (c ∷ cs) = c == b'[' || c == b'{'

-- `/:\s*[[{]/`
unfoldable pub has_flow : Text → Bool
has_flow [] = false
has_flow (c ∷ cs) = (c == b':' && opens_flow (trim_start cs)) || has_flow cs

-- the first entry of `FORBIDDEN` that matches
unfoldable pub forbidden : Text → Option Reason
unfolding has_anchor has_merge_key has_interpolation has_flow
forbidden raw =
    if has_unit b'\t' raw
    then some tabs
    else if has_anchor true raw
    then some anchors
    else if has_merge_key raw
    then some merge_keys
    else if has_interpolation raw
    then some interpolation
    else if has_flow raw
    then some flow_collections
    else none

unfoldable pub indent_of : Text → ℕ
indent_of [] = 0
indent_of (c ∷ cs) = let deeper = suc (indent_of cs) in if c == b' ' then deeper else 0

-- `raw.slice(indentOf(raw))`
unfoldable pub body_of : Text → Text
body_of [] = []
body_of (c ∷ cs) = let rest = body_of cs in if c == b' ' then rest else c ∷ cs

-- the text before and after the first colon
unfoldable pub split_colon : Text → Option (Text × Text)
split_colon [] = none
split_colon (c ∷ cs) =
    let rest = split_colon cs in
    if c == b':'
    then some ([], cs)
    else elim rest [ none ↦ none | some (key, value) ↦ some (c ∷ key, value) ]

unfoldable pub split_key_value : Text → ℕ → Parsed (Text × Text)
unfolding split_colon
split_key_value body line = elim (split_colon body) [
  | none ↦ err (no_key_value (trim body)) line
  | some (key, value) ↦ ok (trim key, trim value)
]

abbrev quoted_by : ℕ → Text → Bool
quoted_by q v = starts_with (q ∷ []) v && ends_with_unit q v

unfoldable pub unquote : Text → ℕ → Parsed Text
unquote value line =
    let v = trim value in
    if not (truthy v)
    then err empty_value line
    else if quoted_by b'"' v || quoted_by b'\'' v
    then (if ltb (length v) 2 then err unterminated_quote line else ok (drop_last (drop_first v)))
    else if has_unit b'"' v || has_unit b'\'' v
    then err stray_quote line
    else ok v

-- `/^\d+$/`
unfoldable pub is_number : Text → Bool
is_number value = truthy value && all is_digit value
