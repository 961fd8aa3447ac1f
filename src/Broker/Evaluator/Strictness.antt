-- ===== src/Broker/Evaluator/Strictness.antt =====
-- What an allowed request has passed, and that restrictions never widen a decision.
use agent_valet.Common.{
  ℕ, ◌≤◌, Bool, true, false, not, ◌&&◌, ◌||◌, Option, none, some, List, [], ◌∷◌, ◌++◌, truthy, any,
  find, if◌then◌else◌, ◌≡◌, ◌↔◌, refl, arith, is_some-find,
}
use agent_valet.Broker.Evaluator.{
  PolicyRule, PolicySnapshot, Guardrail, EvaluationInput, allow, evaluate_policy, deny,
}
use agent_valet.Broker.Evaluator.Decision.{
  Verdict, allowed, approval_required, denied, verdict, denies, wants_approval, permits, forbids,
  asks, evaluate_policy-eq-decide,
}

-- An id that counts in a test.
abbrev pub HasId : Guardrail → Type 0
HasId g = truthy g.id ≡ true

-- Whether the first guardrail that asks for approval is heard.
abbrev pub heard : Option Guardrail → Bool
heard none = false
heard (some g) = truthy g.id

abbrev pub verdict_rules : EvaluationInput → Bool → PolicySnapshot → Verdict
verdict_rules input guarded p =
    if any (permits input) p.rules && not (any (forbids input) p.rules)
    then (if guarded || any (asks input) p.approval_rules then approval_required else allowed)
    else denied

abbrev pub verdict_policy : EvaluationInput → Bool → Option PolicySnapshot → Verdict
verdict_policy input guarded none = denied
verdict_policy input guarded (some p) = verdict_rules input guarded p

-- The verdict by five questions about the input.
pub verdict-evaluate_policy :
    (input : EvaluationInput)
    → verdict (evaluate_policy input) ≡ (
        if any (denies input) input.guardrails
        then denied
        else verdict_policy input
            (heard (find (wants_approval input) input.guardrails))
            input.policy)
verdict-evaluate_policy input =
    rw (evaluate_policy-eq-decide input)
      (ground (arith, is_some-find (denies input) input.guardrails))

-- A request is allowed exactly when no guardrail that binds the caller's role denies it, the first
-- guardrail that asks for its approval, if any, has an empty id, and the assigned policy has an
-- allow rule for it, no deny rule and no approval rule.
pub allow_iff :
    (input : EvaluationInput) (policy : PolicySnapshot)
    → input.policy ≡ some policy
    → (evaluate_policy input ≡ allow policy.id policy.version) ↔ (
        (any (denies input) input.guardrails ≡ false)
        × ((g : Guardrail) → find (wants_approval input) input.guardrails ≡ some g → g.id ≡ [])
        × (any (permits input) policy.rules ≡ true)
        × (any (forbids input) policy.rules ≡ false)
        × (any (asks input) policy.approval_rules ≡ false))
allow_iff input policy assigned =
    rw (evaluate_policy-eq-decide input)
      (grind (arith, is_some-find (denies input) input.guardrails))

abbrev pub openness : Verdict → ℕ
openness denied = 0
openness approval_required = 1
openness allowed = 2

any-insert {ℓ} :
    {A : Type ℓ} (p : A → Bool) (xs : List A) (x : A) (ys : List A)
    → any p (xs ++ x ∷ ys) ≡ (p x || any p (xs ++ ys))
any-insert p [] x ys = refl
any-insert p (y ∷ xs) x ys = ground (arith, any-insert p xs x ys)

heard-insert :
    (p : Guardrail → Bool) (xs : List Guardrail) (g : Guardrail) (ys : List Guardrail)
    → HasId g
    → heard (find p (xs ++ ys)) ≡ true
    → heard (find p (xs ++ g ∷ ys)) ≡ true
heard-insert p [] g ys k h = ground arith
heard-insert p (y ∷ xs) g ys k h = ground (arith, heard-insert p xs g ys k)

-- A further guardrail with an id, wherever it is put, never makes a decision more open.
pub evaluate_policy-insert_guardrail :
    (input : EvaluationInput) (gs : List Guardrail) (g : Guardrail) (hs : List Guardrail)
    → HasId g
    → openness (verdict (evaluate_policy (record input { guardrails = gs ++ g ∷ hs })))
      ≤ openness (verdict (evaluate_policy (record input { guardrails = gs ++ hs })))
evaluate_policy-insert_guardrail input gs g hs k = ground (
  arith,
  verdict-evaluate_policy (record input { guardrails = gs ++ g ∷ hs }),
  verdict-evaluate_policy (record input { guardrails = gs ++ hs }),
  any-insert (denies input) gs g hs,
  heard-insert (wants_approval input) gs g hs k,
)

-- A further deny rule, wherever it is put, never makes a decision more open.
pub evaluate_policy-insert_deny_rule :
    (input : EvaluationInput) (p : PolicySnapshot) (rs : List PolicyRule) (r : PolicyRule)
    (ss : List PolicyRule)
    → r.effect ≡ deny
    → openness (
        verdict
          (evaluate_policy (record input { policy = some (record p { rules = rs ++ r ∷ ss }) })))
      ≤ openness (
          verdict
            (evaluate_policy (record input { policy = some (record p { rules = rs ++ ss }) })))
evaluate_policy-insert_deny_rule input p rs r ss k = ground (
  arith,
  verdict-evaluate_policy (record input { policy = some (record p { rules = rs ++ r ∷ ss }) }),
  verdict-evaluate_policy (record input { policy = some (record p { rules = rs ++ ss }) }),
  any-insert (permits input) rs r ss,
  any-insert (forbids input) rs r ss,
)
