-- ===== src/Broker/Yaml.antt =====
-- packages/mcp-broker/src/policy/yaml.ts: the parser of the local policy format.
pub mod Forbidden
pub mod Scan
pub mod Accepted
pub mod Describe
pub mod Plain
pub mod Lines
pub mod RoundTrip
use agent_valet.Common.{
  ℕ, suc, ◌+◌, Bool, true, false, not, ◌&&◌, ◌||◌, Option, none, some, List, [], ◌∷◌, ◌++◌, Text,
  codes, ◌==◌, ◌===◌, leb, includes, truthy, or_else, if◌then◌else◌,
}
use agent_valet.Common.Js.{trim, drop_first, starts_with, decimal}
use Scan.{
  Parsed, ok, err, ◌>>=◌, split_lines, strip_comment, forbidden, indent_of, body_of,
  split_key_value, unquote, is_number, Reason, bad_rule_effect, unknown_rule_key, bad_version,
  defaults_inline, rules_inline, unknown_top_key, unknown_defaults_key, bad_defaults_effect,
  no_list_item, not_indented, indented_at_top, missing_version, unsupported_version, missing_tool,
  duplicate_tool,
}

pub data RuleEffect : Type 0 where
  allow deny require_approval : RuleEffect

pub data DefaultsEffect : Type 0 where
  allow deny : DefaultsEffect

pub record PolicyRuleDoc : Type 0 where
  pub tool : Text
  pub effect : RuleEffect
  pub credential : Option Text

pub record PolicyDoc : Type 0 where
  pub version : ℕ
  pub defaults : DefaultsEffect
  pub rules : List PolicyRuleDoc

pub record DraftRule : Type 0 where
  pub tool : Option Text
  pub effect : RuleEffect
  pub credential : Option Text
  pub indent : ℕ

pub data Section : Type 0 where
  top defaults rules : Section

-- The variables of `parsePolicy`. Its `current` is null or the object that was pushed to `drafts`
-- last; the model keeps that object in `current` alone, and the others in `drafts`.
pub record Parser : Type 0 where
  pub version : Option ℕ
  pub defaults_effect : Option DefaultsEffect
  pub drafts : List DraftRule
  pub section : Section
  pub current : Option DraftRule

abbrev pub initial : Parser
initial = record {
  version = none;
  defaults_effect = none;
  drafts = [];
  section = top;
  current = none;
}

-- `RULE_EFFECTS`
unfoldable pub rule_effect : Text → Option RuleEffect
rule_effect v =
    if v === codes "allow"
    then some allow
    else if v === codes "deny"
    then some deny
    else if v === codes "require_approval"
    then some require_approval
    else none

abbrev set_effect : DraftRule → Option RuleEffect → ℕ → Parsed DraftRule
set_effect rule none line = err bad_rule_effect line
set_effect rule (some e) line = ok (record rule { effect = e })

abbrev set_field : DraftRule → Text → Text → ℕ → Parsed DraftRule
set_field rule key v line =
    if key === codes "tool"
    then ok (record rule { tool = some v })
    else if key === codes "effect"
    then set_effect rule (rule_effect v) line
    else if key === codes "credential"
    then ok (record rule { credential = some v })
    else err (unknown_rule_key key) line

unfoldable pub apply_rule_field : DraftRule → Text → ℕ → Parsed DraftRule
unfolding rule_effect
apply_rule_field rule body line = do
  kv ← split_key_value body line
  v ← unquote kv.1 line
  set_field rule kv.0 v line

-- `drafts` as the source has it
abbrev pub all_drafts : Parser → List DraftRule
all_drafts p = elim p.current [ none ↦ p.drafts | some d ↦ p.drafts ++ d ∷ [] ]

-- what a top-level key does, once `current` is null
abbrev top_key : Parser → Text → Text → ℕ → Parsed Parser
top_key p key value line =
    if key === codes "version"
    then (if is_number value
        then ok (record p { version = some (decimal 0 value); section = top })
        else err bad_version line)
    else if key === codes "defaults"
    then (if truthy value then err defaults_inline line else ok (record p { section = defaults }))
    else if key === codes "rules"
    then (if truthy value then err rules_inline line else ok (record p { section = rules }))
    else err (unknown_top_key key) line

-- a line with no indent
unfoldable pub top_line : Parser → Text → ℕ → Parsed Parser
top_line p body line = do
  kv ← split_key_value body line
  top_key (record p { drafts = all_drafts p; current = none }) kv.0 kv.1 line

abbrev set_defaults : Parser → Text → ℕ → Parsed Parser
set_defaults p v line =
    if v === codes "allow"
    then ok (record p { defaults_effect = some allow })
    else if v === codes "deny"
    then ok (record p { defaults_effect = some deny })
    else err bad_defaults_effect line

abbrev defaults_key : Parser → Text → Text → ℕ → Parsed Parser
defaults_key p key value line =
    if key === codes "effect"
    then (do v ← unquote value line; set_defaults p v line)
    else err (unknown_defaults_key key) line

unfoldable pub defaults_line : Parser → Text → ℕ → Parsed Parser
defaults_line p body line = do kv ← split_key_value body line; defaults_key p kv.0 kv.1 line

abbrev put_current : Parser → DraftRule → Parser
put_current p d = record p { current = some d }

abbrev fresh_draft : ℕ → DraftRule
fresh_draft indent = record { tool = none; effect = deny; credential = none; indent = indent }

-- a line "- …" under "rules:"
abbrev item_line : Parser → ℕ → Text → ℕ → Parsed Parser
item_line p indent body line =
    let after = trim (drop_first body) in
    let opened = record p { drafts = all_drafts p; current = some (fresh_draft indent) } in
    if truthy after
    then (do d ← apply_rule_field (fresh_draft indent) after line; ok (put_current opened d))
    else ok opened

abbrev field_line : Parser → Option DraftRule → ℕ → Text → ℕ → Parsed Parser
field_line p none indent body line = err no_list_item line
field_line p (some d) indent body line =
    if leb indent d.indent
    then err not_indented line
    else (do d' ← apply_rule_field d body line; ok (put_current p d'))

unfoldable pub rules_line : Parser → ℕ → Text → ℕ → Parsed Parser
unfolding apply_rule_field
rules_line p indent body line =
    if body === codes "-" || starts_with (codes "- ") body
    then item_line p indent body line
    else field_line p p.current indent body line

abbrev indented_line : Parser → Section → ℕ → Text → ℕ → Parsed Parser
indented_line p top indent body line = err indented_at_top line
indented_line p defaults indent body line = defaults_line p body line
indented_line p rules indent body line = rules_line p indent body line

abbrev clean_line : Parser → Text → ℕ → Option Reason → Parsed Parser
clean_line p raw line (some why) = err why line
clean_line p raw line none =
    if indent_of raw == 0
    then top_line p (body_of raw) line
    else indented_line p p.section (indent_of raw) (body_of raw) line

-- the body of the loop over the lines
unfoldable pub step : Parser → Text → ℕ → Parsed Parser
unfolding top_line defaults_line rules_line
step p text line =
    let raw = strip_comment text in
    if not (truthy (trim raw)) then ok p else clean_line p raw line (forbidden raw)

unfoldable pub run : Parser → List Text → ℕ → Parsed Parser
run p [] line = ok p
run p (l ∷ ls) line = do q ← step p l line; run q ls (suc line)

abbrev rule_of : Text → DraftRule → PolicyRuleDoc
rule_of tool d = record { tool = tool; effect = d.effect; credential = d.credential }

abbrev named : Option Text → Option Text
named none = none
named (some []) = none
named (some (c ∷ cs)) = some (c ∷ cs)

-- the last loop; `seen` holds the tools so far
unfoldable pub build_rules : List Text → List DraftRule → Parsed (List PolicyRuleDoc)
build_rules seen [] = ok []
build_rules seen (d ∷ ds) = elim (named d.tool) [
  | none ↦ err missing_tool 0
  | some tool ↦
      if includes seen tool
      then err (duplicate_tool tool) 0
      else (do rs ← build_rules (tool ∷ seen) ds; ok (rule_of tool d ∷ rs))
]

abbrev checked_version : Option ℕ → Parsed ℕ
checked_version none = err missing_version 0
checked_version (some v) = if v == 1 then ok v else err (unsupported_version v) 0

unfoldable pub finish : Parser → Parsed PolicyDoc
finish p = do
  v ← checked_version p.version
  rs ← build_rules [] (all_drafts p)
  ok (record { version = v; defaults = or_else p.defaults_effect deny; rules = rs })

unfoldable pub parse_policy : Text → Parsed PolicyDoc
parse_policy source = do p ← run initial (split_lines source) 1; finish p
