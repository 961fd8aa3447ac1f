-- ===== src/Broker/Evaluator/Trace.antt =====
-- The decision trace: its events alone give back the verdict.
use agent_valet.Common.{
  ℕ, suc, Bool, true, false, not, ◌&&◌, ◌||◌, Option, none, some, List, [], ◌∷◌, ◌++◌, Text, truthy,
  any, any-append, inl, inr, Option-cases, Bool-cases, if◌then◌else◌, ◌≡◌, arith,
}
use agent_valet.Broker.Evaluator.{
  TargetType, TraceTargetRef, PolicyRule, ApprovalRule, PolicySnapshot, Guardrail, EvaluationInput,
  DecisionTraceEvent, guardrail_skipped_role, guardrail_deny_matched, guardrail_approval_matched,
  no_policy_assigned, policy_allow_matched, policy_no_allow_matched, policy_deny_matched,
  policy_approval_matched, skipped_role, is_deny, matches, Events, deny_pass, approval_pass,
  allow_pass, rule_deny_pass, rule_approval_pass, evaluate_rules, evaluate_policy_with_trace,
}
use agent_valet.Broker.Evaluator.Decision.{Verdict, allowed, approval_required, denied, verdict}

-- What an event says of the verdict.
abbrev pub is_denial : DecisionTraceEvent → Bool
is_denial (guardrail_deny_matched id t) = true
is_denial no_policy_assigned = true
is_denial (policy_no_allow_matched id n) = true
is_denial (policy_deny_matched id t) = true
is_denial _ = false

abbrev pub is_approval : DecisionTraceEvent → Bool
is_approval (guardrail_approval_matched id t) = truthy id
is_approval (policy_approval_matched id t) = true
is_approval _ = false

-- The verdict that a list of events stands for.
abbrev pub replay : Events → Verdict
replay events =
    if any is_denial events
    then denied
    else if any is_approval events
    then approval_required
    else allowed

abbrev target : TargetType → Text → TraceTargetRef
target type value = record { target_type = type; target_value = value }

abbrev heard_id : Option Text → Bool
heard_id none = false
heard_id (some id) = truthy id

abbrev found : Option Guardrail → Bool
found none = false
found (some g) = true

-- The events `after` stand for those `before`, with these two answers added.
abbrev Adds : Events → Events → Bool → Bool → Type 0
Adds before after denial approval =
    (any is_denial after ≡ (any is_denial before || denial))
    × (any is_approval after ≡ (any is_approval before || approval))

Adds-push :
    (ev : Events) (e : DecisionTraceEvent) → Adds ev (ev ++ e ∷ []) (is_denial e) (is_approval e)
Adds-push ev e =
    ground (arith, any-append is_denial ev (e ∷ []), any-append is_approval ev (e ∷ []))

module _ (input : EvaluationInput) where
  deny_pass-Adds :
      (gs : List Guardrail) (ev : Events)
      → Adds ev (deny_pass input gs ev).0 (found (deny_pass input gs ev).1) false
  unfolding deny_pass
  deny_pass-Adds [] ev = ground arith
  deny_pass-Adds (g ∷ gs) ev =
      elim (Option-cases (skipped_role g.applies_to_role input.caller_role)) [
        | inl bound ↦ ground (
          arith,
          deny_pass-Adds gs ev,
          Adds-push ev (guardrail_deny_matched g.id (target g.target_type g.target_value)),
        )
        | inr (r, skipped) ↦ ground (
          arith,
          deny_pass-Adds gs (ev ++ guardrail_skipped_role g.id r ∷ []),
          Adds-push ev (guardrail_skipped_role g.id r),
        )
      ]

  approval_pass-Adds :
      (gs : List Guardrail) (ev : Events)
      → Adds ev (approval_pass input gs ev).0 false (heard_id (approval_pass input gs ev).1)
  unfolding approval_pass
  approval_pass-Adds [] ev = ground arith
  approval_pass-Adds (g ∷ gs) ev =
      elim (Option-cases (skipped_role g.applies_to_role input.caller_role)) [
        | inr (r, skipped) ↦ rw (skipped, approval_pass) (approval_pass-Adds gs ev)
        | inl bound ↦
            elim (Bool-cases
              (matches input g.target_type g.target_value && not (is_deny g.enforcement))) [
                | inr other ↦
                    rw (bound, approval_pass) (rw (other, approval_pass) (approval_pass-Adds gs ev))
                | inl hit ↦
                    rw (bound, approval_pass)
                      (rw (hit, approval_pass)
                        (Adds-push ev
                          (guardrail_approval_matched g.id (target g.target_type g.target_value))))
              ]
      ]

  allow_pass-Adds :
      (id : Text) (rs : List PolicyRule) (n : ℕ) (ev : Events)
      → Adds ev (allow_pass input id rs n ev).0 false false
  unfolding allow_pass
  allow_pass-Adds id [] n ev = ground arith
  allow_pass-Adds id (r ∷ rs) n ev = ground (
    arith,
    allow_pass-Adds id rs n ev,
    allow_pass-Adds id rs (suc n) ev,
    Adds-push ev (policy_allow_matched id (target r.target_type r.target_value)),
  )

  rule_deny_pass-Adds :
      (id : Text) (rs : List PolicyRule) (ev : Events)
      → Adds ev (rule_deny_pass input id rs ev).0 (rule_deny_pass input id rs ev).1 false
  unfolding rule_deny_pass
  rule_deny_pass-Adds id [] ev = ground arith
  rule_deny_pass-Adds id (r ∷ rs) ev = ground (
    arith,
    rule_deny_pass-Adds id rs ev,
    Adds-push ev (policy_deny_matched id (target r.target_type r.target_value)),
  )

  rule_approval_pass-Adds :
      (id : Text) (rs : List ApprovalRule) (ev : Events)
      → Adds ev (rule_approval_pass input id rs ev).0 false (rule_approval_pass input id rs ev).1
  unfolding rule_approval_pass
  rule_approval_pass-Adds id [] ev = ground arith
  rule_approval_pass-Adds id (r ∷ rs) ev = ground (
    arith,
    rule_approval_pass-Adds id rs ev,
    Adds-push ev (policy_approval_matched id (target r.target_type r.target_value)),
  )

  evaluate_rules-replay :
      (p : PolicySnapshot) (id : Option Text) (ev : Events)
      → any is_denial ev ≡ false
      → any is_approval ev ≡ heard_id id
      → replay (evaluate_rules input p id ev).trace.events
        ≡ verdict (evaluate_rules input p id ev).result
  unfolding evaluate_rules
  evaluate_rules-replay p id ev fresh heard =
      let (events₁, has_allow, considered) = allow_pass input p.id p.rules 0 ev in
      let events₂ = (rule_deny_pass input p.id p.rules events₁).0 in
      ground (
        arith,
        allow_pass-Adds p.id p.rules 0 ev,
        Adds-push events₁ (policy_no_allow_matched p.id considered),
        rule_deny_pass-Adds p.id p.rules events₁,
        rule_approval_pass-Adds p.id p.approval_rules events₂,
      )

  -- The recorded events alone give back the verdict of the evaluation that recorded them.
  pub replay-trace :
      replay (evaluate_policy_with_trace input).trace.events
      ≡ verdict (evaluate_policy_with_trace input).result
  unfolding evaluate_policy_with_trace
  replay-trace =
      let (events₁, denier) = deny_pass input input.guardrails [] in
      let (events₂, id) = approval_pass input input.guardrails events₁ in
      elim (Option-cases input.policy) [
        | inl missing ↦ ground (
          arith,
          deny_pass-Adds input.guardrails [],
          approval_pass-Adds input.guardrails events₁,
          Adds-push events₂ no_policy_assigned,
        )
        | inr (p, assigned) ↦ ground (
          arith,
          deny_pass-Adds input.guardrails [],
          approval_pass-Adds input.guardrails events₁,
          evaluate_rules-replay p id events₂,
        )
      ]
