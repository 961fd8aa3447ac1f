-- ===== src/Tests/Kernel.antt =====
-- packages/mcp-broker/src/_evaluator.ts on concrete inputs.
use mathlib.Core.List.Perm
use mathlib.Core.List.Permᴰ
use agent_valet.Common.{
  ◌≤◌, true, false, some, List, [], ◌∷◌, Text, codes, ◌===◌, any, find, ◌≡◌, ◌↔◌, refl,
}
use agent_valet.Broker.Evaluator.{
  PolicyRule, PolicySnapshot, Guardrail, EvaluationInput, EvaluationResult, scope, tag, platform,
  member, admin, deny, require_approval, evaluate_policy, evaluate_policy_with_trace,
  target_matches,
}
use agent_valet.Broker.Evaluator
use agent_valet.Broker.Evaluator.Decision.{
  decide, denies, wants_approval, permits, forbids, asks, verdict, evaluate_policy-eq-decide,
}
use agent_valet.Broker.Evaluator.Order.{SameUpToOrder, evaluate_policy-Perm}
use agent_valet.Broker.Evaluator.Strictness.{
  allow_iff, openness, evaluate_policy-insert_guardrail, evaluate_policy-insert_deny_rule,
}
use agent_valet.Broker.Evaluator.Trace.{replay, replay-trace}

abbrev read_rule : PolicyRule
read_rule = record {
  effect = Evaluator.allow;
  target_type = scope;
  target_value = codes "github:read";
}

abbrev no_github : PolicyRule
no_github = record {
  effect = Evaluator.deny;
  target_type = platform;
  target_value = codes "github";
}

abbrev policy : PolicySnapshot
policy = record { id = codes "p"; version = 3; rules = read_rule ∷ []; approval_rules = [] }

abbrev guard : Text → Guardrail
guard id = record {
  id = id;
  enforcement = require_approval;
  target_type = tag;
  target_value = codes "risky";
  applies_to_role = some member;
}

abbrev input : List Guardrail → EvaluationInput
input gs = record {
  policy = some policy;
  guardrails = gs;
  caller_role = member;
  requested_scope_tags = codes "risky" ∷ [];
  requested = record { platform_id = codes "github"; scope_id = codes "read" };
}

allowed_run : evaluate_policy (input []) ≡ Evaluator.allow (codes "p") 3
unfolding evaluate_policy target_matches ◌===◌
allowed_run = refl

-- A guardrail whose id is empty is not heard.
unheard_run : evaluate_policy (input (guard [] ∷ [])) ≡ Evaluator.allow (codes "p") 3
unfolding evaluate_policy target_matches ◌===◌
unheard_run = refl

evaluate_policy-eq-decide_example :
    evaluate_policy (input (guard (codes "g") ∷ [])) ≡ decide (input (guard (codes "g") ∷ []))
evaluate_policy-eq-decide_example = evaluate_policy-eq-decide (input (guard (codes "g") ∷ []))

allow_iff_example : (evaluate_policy (input []) ≡ Evaluator.allow (codes "p") 3) ↔ (
    (any (denies (input [])) [] ≡ false)
    × ((g : Guardrail) → find (wants_approval (input [])) [] ≡ some g → g.id ≡ [])
    × (any (permits (input [])) policy.rules ≡ true)
    × (any (forbids (input [])) policy.rules ≡ false)
    × (any (asks (input [])) policy.approval_rules ≡ false))
allow_iff_example = allow_iff (input []) policy refl

evaluate_policy-insert_guardrail_example :
    openness (verdict (evaluate_policy (input (guard (codes "g") ∷ []))))
    ≤ openness (verdict (evaluate_policy (input [])))
evaluate_policy-insert_guardrail_example =
    evaluate_policy-insert_guardrail (input []) [] (guard (codes "g")) [] refl

evaluate_policy-insert_deny_rule_example :
    openness (
      verdict (
        evaluate_policy (record (input []) {
          policy = some (record policy { rules = read_rule ∷ no_github ∷ [] });
        })))
    ≤ openness (verdict (evaluate_policy (input [])))
evaluate_policy-insert_deny_rule_example =
    evaluate_policy-insert_deny_rule (input []) policy (read_rule ∷ []) no_github [] refl

abbrev two : PolicySnapshot
two = record policy { rules = read_rule ∷ no_github ∷ [] }

abbrev two_swapped : PolicySnapshot
two_swapped = record policy { rules = no_github ∷ read_rule ∷ [] }

swapped : SameUpToOrder two two_swapped
swapped = record { rules = ∣ Permᴰ.swap refl refl ∣₁; approval_rules = Perm.refl [] }

evaluate_policy-Perm_example :
    verdict (
      evaluate_policy
        (record (input []) { policy = some two; guardrails = guard (codes "g") ∷ [] }))
    ≡ verdict (
        evaluate_policy
          (record (input []) { policy = some two_swapped; guardrails = guard (codes "g") ∷ [] }))
evaluate_policy-Perm_example =
    evaluate_policy-Perm (input []) two two_swapped (guard (codes "g") ∷ [])
      (guard (codes "g") ∷ []) (refl, tt) (refl, tt) (Perm.refl _) swapped

replay-trace_example :
    replay (evaluate_policy_with_trace (input (guard (codes "g") ∷ []))).trace.events
    ≡ verdict (evaluate_policy_with_trace (input (guard (codes "g") ∷ []))).result
replay-trace_example = replay-trace (input (guard (codes "g") ∷ []))
