-- ===== src/Broker/FilePolicy.antt =====
-- packages/mcp-broker/src/policy/file-source.ts: the local policy, decided by the kernel.
pub mod Loading
pub mod Meaning
use agent_valet.Common.{
  Bool, Option, none, some, List, [], ◌∷◌, ◌++◌, Text, codes, ◌===◌, find, if◌then◌else◌,
}
use agent_valet.Common.Js.{decimal_of}
use agent_valet.Common.Effects.{Try, ok, threw, Stateful, ◌>>=◌, pure}
use agent_valet.Broker.Evaluator.{
  PolicyRule, ApprovalRule, EvaluationInput, scope, platform, member, evaluate_policy,
}
use agent_valet.Broker.Evaluator
use agent_valet.Broker.Evaluator.Decision.{Verdict, allowed, approval_required, denied, verdict}
use agent_valet.Broker.Yaml.{
  RuleEffect, allow, deny, require_approval, DefaultsEffect, PolicyRuleDoc, PolicyDoc, parse_policy,
}
use agent_valet.Broker.Yaml.Describe.{describe}
use agent_valet.Broker.Yaml.Scan
use agent_valet.Broker.Types
use agent_valet.Broker.Types.{AccessRequest, Obligation, Decision, credential}

-- `target`
abbrev pub target : Text → Text → Text
target server tool = server ++ (codes ":" ++ tool)

abbrev pub kernel_effect : RuleEffect → Evaluator.Effect
kernel_effect deny = Evaluator.deny
kernel_effect _ = Evaluator.allow

abbrev kernel_rule : Text → PolicyRuleDoc → PolicyRule
kernel_rule server r = record {
  effect = kernel_effect r.effect;
  target_type = scope;
  target_value = target server r.tool;
}

abbrev approval_rule : Text → PolicyRuleDoc → RuleEffect → List ApprovalRule
approval_rule server r require_approval =
    record { target_type = scope; target_value = target server r.tool } ∷ []
approval_rule server r _ = []

-- the loop over `doc.rules`, by the array that it pushes to
pub kernel_rules : Text → List PolicyRuleDoc → List PolicyRule
kernel_rules server [] = []
kernel_rules server (r ∷ rs) = kernel_rule server r ∷ kernel_rules server rs

pub kernel_approvals : Text → List PolicyRuleDoc → List ApprovalRule
kernel_approvals server [] = []
kernel_approvals server (r ∷ rs) = approval_rule server r r.effect ++ kernel_approvals server rs

abbrev pub default_rules : Text → DefaultsEffect → List PolicyRule
default_rules server allow =
    record { effect = Evaluator.allow; target_type = platform; target_value = server } ∷ []
default_rules server deny = []

pub to_evaluation_input : PolicyDoc → AccessRequest → EvaluationInput
unfolding kernel_rules kernel_approvals
to_evaluation_input doc req =
    let server = req.resource.server in
    record {
      policy = some (record {
        id = codes "local";
        version = doc.version;
        rules = kernel_rules server doc.rules ++ default_rules server doc.defaults;
        approval_rules = kernel_approvals server doc.rules;
      });
      guardrails = [];
      caller_role = member;
      requested_scope_tags = [];
      requested = record { platform_id = server; scope_id = req.resource.tool };
    }

-- `rule?.credential` in a test
abbrev pub credential_of : Option PolicyRuleDoc → List Obligation
credential_of none = []
credential_of (some r) = elim r.credential [
  | none ↦ []
  | some ref ↦ elim ref [ [] ↦ [] | c ∷ cs ↦ credential (c ∷ cs) none ∷ [] ]
]

abbrev pub rule_for : Text → List PolicyRuleDoc → Option PolicyRuleDoc
rule_for tool rules = find (λ r. r.tool === tool) rules

pub obligations_for : PolicyDoc → Text → List Obligation
obligations_for doc tool = credential_of (rule_for tool doc.rules)

abbrev pub local_decision : Types.Effect → List Obligation → PolicyDoc → Decision
local_decision effect obligations doc = record {
  effect = effect;
  obligations = obligations;
  policy_id = codes "local";
  version = decimal_of doc.version;
}

abbrev decision_of : Verdict → PolicyDoc → Text → Decision
decision_of allowed doc tool = local_decision Types.allow (obligations_for doc tool) doc
decision_of approval_required doc tool =
    local_decision Types.require_approval (obligations_for doc tool) doc
decision_of denied doc tool = local_decision Types.deny [] doc

-- `evaluate`, for the document that is loaded
pub evaluate_doc : PolicyDoc → AccessRequest → Decision
unfolding to_evaluation_input obligations_for
evaluate_doc doc req =
    decision_of (verdict (evaluate_policy (to_evaluation_input doc req))) doc req.resource.tool

-- A `FilePolicySource` and the world around it.
pub record Source (W : Type 0) : Type 0 where
  pub doc : Option PolicyDoc
  pub world : W

module _ {W : Type 0} (read_file : Stateful W (Try Text)) where
  abbrev parsed : Scan.Parsed PolicyDoc → Stateful (Source W) (Try PolicyDoc)
  parsed (Scan.ok doc) s = (ok doc, record s { doc = some doc })
  parsed (Scan.err why line) s = (threw (describe why line), s)

  abbrev read_result : Try Text → Stateful (Source W) (Try PolicyDoc)
  read_result (ok raw) s = parsed (parse_policy raw) s
  read_result (threw message) s = (threw message, s)

  abbrev load_missing : Option PolicyDoc → Stateful (Source W) (Try PolicyDoc)
  load_missing (some doc) s = (ok doc, s)
  load_missing none s = let (raw, w) = read_file s.world in read_result raw (record s { world = w })

  pub load : Stateful (Source W) (Try PolicyDoc)
  load s = load_missing s.doc s

  abbrev decided : AccessRequest → Try PolicyDoc → Try Decision
  decided req (ok doc) = ok (evaluate_doc doc req)
  decided req (threw message) = threw message

  pub evaluate : AccessRequest → Stateful (Source W) (Try Decision)
  unfolding load
  evaluate req = do doc ← load; pure (decided req doc)
