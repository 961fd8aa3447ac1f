-- ===== src/Broker/FilePolicy/Meaning.antt =====
-- What a local policy means, tool by tool.
use agent_valet.Common.{
  Bool, true, false, not, ◌&&◌, Option, none, some, List, [], ◌∷◌, ◌++◌, Text, codes, ◌===◌,
  ===_iff, ===_refl, append-===_left, any, any-append, includes, ◌≡◌, refl, ◌∙◌, arith,
}
use agent_valet.Broker.Evaluator
use agent_valet.Broker.Evaluator.{PolicyRule, EvaluationInput, evaluate_policy}
use agent_valet.Broker.Evaluator.Decision.{permits, forbids, asks, evaluate_policy-eq-decide}
use agent_valet.Broker.Yaml.{
  RuleEffect, allow, deny, require_approval, DefaultsEffect, PolicyRuleDoc, PolicyDoc,
}
use agent_valet.Broker.Yaml.Accepted.{NamesDistinct}
use agent_valet.Broker.Types
use agent_valet.Broker.Types.{AccessRequest, Decision}
use agent_valet.Broker.FilePolicy.{
  target, kernel_rules, kernel_approvals, default_rules, to_evaluation_input, rule_for,
  obligations_for, local_decision, evaluate_doc,
}

-- The effect of the rule for a tool, or the default where there is none.
abbrev pub effect_of : DefaultsEffect → Option PolicyRuleDoc → RuleEffect
effect_of allow none = allow
effect_of deny none = deny
effect_of d (some r) = r.effect

-- The decision that an effect stands for; only a call that may go on gets the credential.
abbrev pub meaning : RuleEffect → PolicyDoc → Text → Decision
meaning allow doc tool = local_decision Types.allow (obligations_for doc tool) doc
meaning require_approval doc tool =
    local_decision Types.require_approval (obligations_for doc tool) doc
meaning deny doc tool = local_decision Types.deny [] doc

target-=== : (server a b : Text) → (target server a === target server b) ≡ (a === b)
target-=== server a b =
    append-===_left server (codes ":" ++ a) (codes ":" ++ b) ∙ append-===_left (codes ":") a b

abbrev is_denial : RuleEffect → Bool
is_denial deny = true
is_denial _ = false

abbrev is_asking : RuleEffect → Bool
is_asking require_approval = true
is_asking _ = false

abbrev open_default : DefaultsEffect → Bool
open_default allow = true
open_default deny = false

abbrev holds : (RuleEffect → Bool) → Option PolicyRuleDoc → Bool
holds P none = false
holds P (some r) = P r.effect

-- A tool that is taken is named by no later rule.
any-taken :
    (P : RuleEffect → Bool) (tool : Text) (seen : List Text) (rs : List PolicyRuleDoc)
    → includes seen tool ≡ true
    → NamesDistinct seen rs
    → any (λ r. P r.effect && r.tool === tool) rs ≡ false
any-taken P tool seen [] h d = refl
any-taken P tool seen (r ∷ rs) h d =
    ground (arith, ===_iff r.tool tool, any-taken P tool (r.tool ∷ seen) rs)

-- So a question about all rules for the tool is one about the first.
any-rule_for :
    (P : RuleEffect → Bool) (tool : Text) (seen : List Text) (rs : List PolicyRuleDoc)
    → NamesDistinct seen rs
    → any (λ r. P r.effect && r.tool === tool) rs ≡ holds P (rule_for tool rs)
any-rule_for P tool seen [] d = refl
any-rule_for P tool seen (r ∷ rs) d =
    ground (arith, any-taken P tool (r.tool ∷ seen) rs, any-rule_for P tool (r.tool ∷ seen) rs)

module _ (input : EvaluationInput) where
  abbrev asked_for : PolicyRuleDoc → Bool
  asked_for r = r.tool === input.requested.scope_id

  permits-kernel_rules :
      (rs : List PolicyRuleDoc)
      → any (permits input) (kernel_rules input.requested.platform_id rs)
        ≡ any (λ r. not (is_denial r.effect) && asked_for r) rs
  unfolding kernel_rules Evaluator.target_matches
  permits-kernel_rules [] = refl
  permits-kernel_rules (r ∷ rs) = ground (
    arith,
    target-=== input.requested.platform_id r.tool input.requested.scope_id,
    permits-kernel_rules rs,
  )

  forbids-kernel_rules :
      (rs : List PolicyRuleDoc)
      → any (forbids input) (kernel_rules input.requested.platform_id rs)
        ≡ any (λ r. is_denial r.effect && asked_for r) rs
  unfolding kernel_rules Evaluator.target_matches
  forbids-kernel_rules [] = refl
  forbids-kernel_rules (r ∷ rs) = ground (
    arith,
    target-=== input.requested.platform_id r.tool input.requested.scope_id,
    forbids-kernel_rules rs,
  )

  asks-kernel_approvals :
      (rs : List PolicyRuleDoc)
      → any (asks input) (kernel_approvals input.requested.platform_id rs)
        ≡ any (λ r. is_asking r.effect && asked_for r) rs
  unfolding kernel_approvals Evaluator.target_matches
  asks-kernel_approvals [] = refl
  asks-kernel_approvals (r ∷ rs) = ground (
    arith,
    target-=== input.requested.platform_id r.tool input.requested.scope_id,
    asks-kernel_approvals rs,
  )

  default_rules-permits :
      (d : DefaultsEffect)
      → (any (permits input) (default_rules input.requested.platform_id d) ≡ open_default d)
        × (any (forbids input) (default_rules input.requested.platform_id d) ≡ false)
  unfolding Evaluator.target_matches
  default_rules-permits d = ground (arith, ===_refl input.requested.platform_id)

-- In a policy whose rules name distinct tools, a tool gets what its rule says, or the default where
-- no rule names it: the kernel's platforms, scopes and two passes over the rules add nothing.
pub evaluate_doc-eq-meaning :
    (doc : PolicyDoc) (req : AccessRequest)
    → NamesDistinct [] doc.rules
    → evaluate_doc doc req
      ≡ meaning
          (effect_of doc.defaults (rule_for req.resource.tool doc.rules))
          doc
          req.resource.tool
unfolding evaluate_doc
evaluate_doc-eq-meaning doc req distinct =
    let input = to_evaluation_input doc req in
    let server = req.resource.server in
    let tool = req.resource.tool in
    rw (evaluate_policy-eq-decide input) (
      ground (
        arith,
        any-append (permits input) (kernel_rules server doc.rules)
            (default_rules server doc.defaults),
        any-append (forbids input) (kernel_rules server doc.rules)
            (default_rules server doc.defaults),
        permits-kernel_rules input doc.rules,
        forbids-kernel_rules input doc.rules,
        asks-kernel_approvals input doc.rules,
        default_rules-permits input doc.defaults,
        any-rule_for (λ e. not (is_denial e)) tool [] doc.rules distinct,
        any-rule_for is_denial tool [] doc.rules distinct,
        any-rule_for is_asking tool [] doc.rules distinct,
      ))
