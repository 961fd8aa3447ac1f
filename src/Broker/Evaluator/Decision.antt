-- ===== src/Broker/Evaluator/Decision.antt =====
-- What the kernel decides, with no loop, no early return and no trace.
use mathlib.Core.Option
use agent_valet.Common.{
  ℕ, suc, Bool, not, ◌&&◌, Option, none, some, List, [], ◌∷◌, ◌++◌, Text, is_some, any, find, inl,
  inr, Option-cases, if◌then◌else◌, ◌≡◌, refl, arith,
}
use agent_valet.Broker.Evaluator.{
  PolicyRule, ApprovalRule, PolicySnapshot, Guardrail, EvaluationInput, EvaluationResult, allow,
  approval_required_by_guardrail, approval_required_by_policy, no_policy_assigned,
  denied_by_guardrail, denied_by_policy, skipped_role, is_deny, is_allow, guardrail_skipped_role,
  Events, matches, deny_pass, approval_pass, allow_pass, rule_deny_pass, rule_approval_pass,
  combine, evaluate_rules, evaluate_policy,
}

-- The decision alone, as the `decision` field of a result.
pub data Verdict : Type 0 where
  allowed approval_required denied : Verdict

abbrev pub verdict : EvaluationResult → Verdict
verdict (allow id version) = allowed
verdict (approval_required_by_guardrail id) = approval_required
verdict (approval_required_by_policy id version) = approval_required
verdict _ = denied

module _ (input : EvaluationInput) where
  -- The guardrail binds the caller's role and its target is what is requested.
  abbrev pub applies : Guardrail → Bool
  applies g =
      not (is_some (skipped_role g.applies_to_role input.caller_role))
      && matches input g.target_type g.target_value

  abbrev pub denies : Guardrail → Bool
  denies g = applies g && is_deny g.enforcement

  abbrev pub wants_approval : Guardrail → Bool
  wants_approval g = applies g && not (is_deny g.enforcement)

  abbrev pub permits : PolicyRule → Bool
  permits r = is_allow r.effect && matches input r.target_type r.target_value

  abbrev pub forbids : PolicyRule → Bool
  forbids r = not (is_allow r.effect) && matches input r.target_type r.target_value

  abbrev pub asks : ApprovalRule → Bool
  asks r = matches input r.target_type r.target_value

  abbrev pub guardrail_approval : Option Text
  guardrail_approval = Option.map (λ g. g.id) (find wants_approval input.guardrails)

  abbrev pub decide_rules : PolicySnapshot → EvaluationResult
  decide_rules p =
      if any permits p.rules && not (any forbids p.rules)
      then combine input guardrail_approval (any asks p.approval_rules) p
      else denied_by_policy p.id p.version

  abbrev pub decide_policy : Option PolicySnapshot → EvaluationResult
  decide_policy none = no_policy_assigned
  decide_policy (some p) = decide_rules p

  abbrev pub decide_guarded : Option Guardrail → EvaluationResult
  decide_guarded none = decide_policy input.policy
  decide_guarded (some g) = denied_by_guardrail g.id

  abbrev pub decide : EvaluationResult
  decide = decide_guarded (find denies input.guardrails)

  deny_pass-eq-find :
      (gs : List Guardrail) (ev : Events) → (deny_pass input gs ev).1 ≡ find denies gs
  unfolding deny_pass
  deny_pass-eq-find [] ev = refl
  deny_pass-eq-find (g ∷ gs) ev =
      elim (Option-cases (skipped_role g.applies_to_role input.caller_role)) [
        | inl bound ↦ ground (arith, deny_pass-eq-find gs ev)
        | inr (r, skipped) ↦
            ground (arith, deny_pass-eq-find gs (ev ++ guardrail_skipped_role g.id r ∷ []))
      ]

  approval_pass-eq-find :
      (gs : List Guardrail) (ev : Events)
      → (approval_pass input gs ev).1 ≡ Option.map (λ g. g.id) (find wants_approval gs)
  unfolding approval_pass
  approval_pass-eq-find [] ev = refl
  approval_pass-eq-find (g ∷ gs) ev = ground (arith, approval_pass-eq-find gs ev)

  allow_pass-eq-any :
      (id : Text) (rs : List PolicyRule) (n : ℕ) (ev : Events)
      → (allow_pass input id rs n ev).1 ≡ any permits rs
  unfolding allow_pass
  allow_pass-eq-any id [] n ev = refl
  allow_pass-eq-any id (r ∷ rs) n ev =
      ground (arith, allow_pass-eq-any id rs n ev, allow_pass-eq-any id rs (suc n) ev)

  rule_deny_pass-eq-any :
      (id : Text) (rs : List PolicyRule) (ev : Events)
      → (rule_deny_pass input id rs ev).1 ≡ any forbids rs
  unfolding rule_deny_pass
  rule_deny_pass-eq-any id [] ev = refl
  rule_deny_pass-eq-any id (r ∷ rs) ev = ground (arith, rule_deny_pass-eq-any id rs ev)

  rule_approval_pass-eq-any :
      (id : Text) (rs : List ApprovalRule) (ev : Events)
      → (rule_approval_pass input id rs ev).1 ≡ any asks rs
  unfolding rule_approval_pass
  rule_approval_pass-eq-any id [] ev = refl
  rule_approval_pass-eq-any id (r ∷ rs) ev = ground (arith, rule_approval_pass-eq-any id rs ev)

  evaluate_rules-eq-decide :
      (p : PolicySnapshot) (ev : Events)
      → (evaluate_rules input p guardrail_approval ev).result ≡ decide_rules p
  unfolding evaluate_rules
  evaluate_rules-eq-decide p ev = ground (
    arith,
    allow_pass-eq-any p.id p.rules 0 ev,
    rule_deny_pass-eq-any p.id p.rules (allow_pass input p.id p.rules 0 ev).0,
    rule_approval_pass-eq-any p.id p.approval_rules
        (rule_deny_pass input p.id p.rules (allow_pass input p.id p.rules 0 ev).0).0,
  )

  -- The loops with their early exits compute `decide`, ids and versions included.
  pub evaluate_policy-eq-decide : evaluate_policy input ≡ decide
  unfolding evaluate_policy
  evaluate_policy-eq-decide = elim (Option-cases (find denies input.guardrails)) [
    | inr (g, found) ↦ ground (arith, deny_pass-eq-find input.guardrails [])
    | inl unfound ↦ elim (Option-cases input.policy) [
      | inl missing ↦ ground (arith, deny_pass-eq-find input.guardrails [])
      | inr (p, assigned) ↦ ground (
        arith,
        deny_pass-eq-find input.guardrails [],
        approval_pass-eq-find input.guardrails (deny_pass input input.guardrails []).0,
        evaluate_rules-eq-decide p
            (approval_pass input input.guardrails (deny_pass input input.guardrails []).0).0,
      )
    ]
  ]
