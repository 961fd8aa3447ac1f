-- ===== src/Tests/Policy.antt =====
-- packages/mcp-broker/src/policy on concrete inputs.
use agent_valet.Common.{none, some, [], ◌∷◌, ◌++◌, Text, codes, ◌===◌, All, ◌≡◌, refl, ℕ, suc}
use agent_valet.Common.Effects.{Try, Stateful}
use agent_valet.Common.Effects
use agent_valet.Common.Js.{is_space}
use agent_valet.Broker.FilePolicy.{evaluate_doc, rule_for}
use agent_valet.Broker.FilePolicy.{Source, evaluate}
use agent_valet.Broker.FilePolicy.Loading.{answer, evaluate-print}
use agent_valet.Broker.FilePolicy.Meaning.{meaning, effect_of, evaluate_doc-eq-meaning}
use agent_valet.Broker.Types.{AccessRequest}
use agent_valet.Broker.Yaml.{
  PolicyDoc, allow, deny, require_approval, parse_policy, run, step, finish, build_rules,
}
use agent_valet.Broker.Yaml.Accepted.{NamesDistinct, IsClean, parse_policy_accepted}
use agent_valet.Broker.Yaml.Plain.{is_plain}
use agent_valet.Broker.Yaml.RoundTrip.{IsPrintable, print, parse_policy-print}
use agent_valet.Broker.Yaml.Scan.{
  ok, err, tabs, duplicate_tool, split_lines, strip_comment, forbidden, indent_of, body_of,
  split_key_value, unquote, is_number,
}

abbrev source : Text
source =
    codes "version: 1\n\t\n# all\ndefaults:\r\n  effect: allow # x\nrules:\n  - tool: a\n"
    ++ codes "    effect: require_approval\n  - tool: \"b c\"\n    credential: gh\n"

abbrev doc : PolicyDoc
doc = record {
  version = 1;
  defaults = allow;
  rules =
      record { tool = codes "a"; effect = require_approval; credential = none }
      ∷ record { tool = codes "b c"; effect = deny; credential = some (codes "gh") }
      ∷ [];
}

parse_policy-source : parse_policy source ≡ ok doc
unfolding parse_policy run step finish build_rules split_lines strip_comment is_space forbidden
    indent_of body_of split_key_value unquote is_number ◌===◌
parse_policy-source = refl

parse_policy-tab : parse_policy (codes "version: 1\nrules:\n\t- tool: a\n") ≡ err tabs 3
unfolding parse_policy run step finish build_rules split_lines strip_comment is_space forbidden
    indent_of body_of split_key_value unquote is_number ◌===◌
parse_policy-tab = refl

parse_policy-duplicate :
    parse_policy (codes "version: 1\nrules:\n  - tool: a\n  - tool: a\n")
    ≡ err (duplicate_tool (codes "a")) 0
unfolding parse_policy run step finish build_rules split_lines strip_comment is_space forbidden
    indent_of body_of split_key_value unquote is_number ◌===◌
parse_policy-duplicate = refl

parse_policy_accepted_example :
    (doc.version ≡ 1) × NamesDistinct [] doc.rules × All IsClean (split_lines source)
parse_policy_accepted_example = parse_policy_accepted source doc parse_policy-source

abbrev plain_doc : PolicyDoc
plain_doc = record {
  version = 1;
  defaults = deny;
  rules =
      record { tool = codes "rd"; effect = allow; credential = some (codes "gh") }
      ∷ record { tool = codes "b"; effect = require_approval; credential = none }
      ∷ [];
}

plain_doc-IsPrintable : IsPrintable plain_doc
unfolding is_plain ◌===◌
plain_doc-IsPrintable = record {
  version_one = refl;
  names = (((refl, (refl, tt)), (refl, (refl, tt))), (((refl, tt), tt), tt));
  distinct = (refl, refl, (refl, refl, tt));
}

parse_policy-print_example : parse_policy (print plain_doc) ≡ ok plain_doc
parse_policy-print_example = parse_policy-print plain_doc plain_doc-IsPrintable

abbrev req : AccessRequest
req = record {
  subject = record { id = codes "me"; spiffe_id = none; session_id = codes "s" };
  action = codes "rd";
  resource = record { server = codes "srv"; tool = codes "rd" };
  args_fingerprint = codes "fp";
  transport = codes "stdio";
  ts = codes "now";
}

evaluate_doc-eq-meaning_example :
    evaluate_doc plain_doc req
    ≡ meaning (effect_of deny (rule_for (codes "rd") plain_doc.rules)) plain_doc (codes "rd")
evaluate_doc-eq-meaning_example =
    evaluate_doc-eq-meaning plain_doc req plain_doc-IsPrintable.distinct

-- The world counts the reads of the file.
abbrev read_plain : Stateful ℕ (Try Text)
read_plain reads = (Effects.ok (print plain_doc), suc reads)

abbrev unread : Source ℕ
unread = record { doc = none; world = 0 }

abbrev read_once : Source ℕ
read_once = record { doc = some plain_doc; world = 1 }

evaluate-print_example :
    (evaluate read_plain req unread ≡ (Effects.ok (answer plain_doc req), read_once))
    × (evaluate read_plain req read_once ≡ (Effects.ok (answer plain_doc req), read_once))
evaluate-print_example =
    evaluate-print read_plain unread plain_doc req req refl refl plain_doc-IsPrintable
