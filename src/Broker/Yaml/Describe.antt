-- ===== src/Broker/Yaml/Describe.antt =====
-- The messages of `PolicyParseError`.
use agent_valet.Common.{ℕ, ◌++◌, Text, codes}
use agent_valet.Common.Js.{decimal_of}
use agent_valet.Broker.Yaml.Scan.{
  Reason, tabs, anchors, merge_keys, interpolation, flow_collections, empty_value,
  unterminated_quote, stray_quote, no_key_value, bad_rule_effect, unknown_rule_key, bad_version,
  defaults_inline, rules_inline, unknown_top_key, unknown_defaults_key, bad_defaults_effect,
  no_list_item, not_indented, indented_at_top, missing_version, unsupported_version, missing_tool,
  duplicate_tool,
}

abbrev pub message : Reason → Text
message tabs = codes "tabs are not allowed; indent with spaces"
message anchors = codes "anchors and aliases are not allowed"
message merge_keys = codes "merge keys are not allowed"
message interpolation = codes "interpolation is not allowed"
message flow_collections = codes "flow collections are not allowed"
message empty_value = codes "empty value"
message unterminated_quote = codes "unterminated quote"
message stray_quote = codes "stray quote in unquoted scalar"
message (no_key_value body) = codes "expected \"key: value\", got \"" ++ (body ++ codes "\"")
message bad_rule_effect = codes "effect must be one of allow, deny, require_approval"
message (unknown_rule_key key) = codes "unknown rule key \"" ++ (key ++ codes "\"")
message bad_version = codes "version must be a non-negative integer"
message defaults_inline = codes "\"defaults:\" takes no inline value"
message rules_inline = codes "\"rules:\" takes no inline value"
message (unknown_top_key key) = codes "unknown top-level key \"" ++ (key ++ codes "\"")
message (unknown_defaults_key key) = codes "unknown defaults key \"" ++ (key ++ codes "\"")
message bad_defaults_effect = codes "defaults.effect must be \"allow\" or \"deny\""
message no_list_item = codes "expected a \"- tool:\" list item under \"rules:\""
message not_indented = codes "rule field must be indented past its list item"
message indented_at_top = codes "unexpected indented content at top level"
message missing_version = codes "missing required \"version\""
message (unsupported_version v) =
    codes "unsupported policy version " ++ (decimal_of v ++ codes "; only version 1 is supported")
message missing_tool = codes "rule is missing \"tool:\""
message (duplicate_tool tool) = codes "duplicate rule for tool \"" ++ (tool ++ codes "\"")

abbrev pub describe : Reason → ℕ → Text
describe why line =
    codes "policy parse error (line " ++ (decimal_of line ++ (codes "): " ++ message why))
