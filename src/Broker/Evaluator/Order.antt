-- ===== src/Broker/Evaluator/Order.antt =====
-- The verdict forgets the order of guardrails, rules and approval rules: it is a function of the
-- three collections as multisets.
use mathlib.Core.List.{Perm, Permᴰ}
use mathlib.Core.List.Permᴰ.{nil, cons, swap, trans}
use mathlib.Core.Logic.{∥∥₁_elim}
use mathlib.Core.Bool.{Bool-set}
use agent_valet.Common.{Bool, some, List, [], ◌∷◌, any, All, find, ◌≡◌, refl, ◌∙◌, arith}
use agent_valet.Broker.Evaluator.{PolicySnapshot, Guardrail, EvaluationInput, evaluate_policy}
use agent_valet.Broker.Evaluator.Decision.{verdict, denies, wants_approval, permits, forbids, asks}
use agent_valet.Broker.Evaluator.Strictness.{HasId, heard, verdict-evaluate_policy}

any-Permᴰ {ℓ} : {A : Type ℓ} (p : A → Bool) {xs ys : List A} → Permᴰ xs ys → any p xs ≡ any p ys
any-Permᴰ p nil = refl
any-Permᴰ p (cons e h) = rw (e, any-Permᴰ p h)
any-Permᴰ p (swap e f) = rw (e, f) (ground arith)
any-Permᴰ p (trans h k) = any-Permᴰ p h ∙ any-Permᴰ p k

any-Perm {ℓ} : {A : Type ℓ} (p : A → Bool) {xs ys : List A} → Perm xs ys → any p xs ≡ any p ys
any-Perm p h = ∥∥₁_elim h (Bool-set _ _) (any-Permᴰ p)

heard-find :
    (p : Guardrail → Bool) (gs : List Guardrail) → All HasId gs → heard (find p gs) ≡ any p gs
heard-find p [] h = refl
heard-find p (g ∷ gs) h = ground (arith, heard-find p gs)

-- Two inputs that differ in the order of their collections only.
pub record SameUpToOrder (p q : PolicySnapshot) : Type 0 where
  pub rules : Perm p.rules q.rules
  pub approval_rules : Perm p.approval_rules q.approval_rules

-- Where every guardrail has an id, reordering the guardrails, the rules and the approval rules
-- leaves the verdict as it is.
pub evaluate_policy-Perm :
    (input : EvaluationInput) (p q : PolicySnapshot) (gs hs : List Guardrail)
    → All HasId gs
    → All HasId hs
    → Perm gs hs
    → SameUpToOrder p q
    → verdict (evaluate_policy (record input { policy = some p; guardrails = gs }))
      ≡ verdict (evaluate_policy (record input { policy = some q; guardrails = hs }))
evaluate_policy-Perm input p q gs hs ids ids' guards same = ground (
  arith,
  verdict-evaluate_policy (record input { policy = some p; guardrails = gs }),
  verdict-evaluate_policy (record input { policy = some q; guardrails = hs }),
  heard-find (wants_approval input) gs ids,
  heard-find (wants_approval input) hs ids',
  any-Perm (denies input) guards,
  any-Perm (wants_approval input) guards,
  any-Perm (permits input) same.rules,
  any-Perm (forbids input) same.rules,
  any-Perm (asks input) same.approval_rules,
)
