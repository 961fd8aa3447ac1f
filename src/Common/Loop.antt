-- ===== src/Common/Loop.antt =====
-- `while (now() < deadline)` over a body that ends the loop or asks for another round.
use agent_valet.Common.Tests.{Bool-cases, ltb, if◌then◌else◌}
use agent_valet.Common.Effects.{Stateful}
use Prim.Native.Nat.{ℕ, zero, suc, ◌+◌, ◌≤◌}
use mathlib.Core.Path.{◌≡◌, refl}
use mathlib.Core.Logic.{◌⊎◌, inl, inr}
use mathlib.Core.Bool.{Bool, true, false}
use native.Mathlib.Omega.{arith}

pub data Round {ℓ} (A : Type ℓ) : Type ℓ where
  stop : A → Round A
  again : Round A

pub data Waited {ℓ} (A : Type ℓ) : Type ℓ where
  answered : A → Waited A
  timed_out : Waited A
  out_of_fuel : Waited A

Round-cases {ℓ} : {A : Type ℓ} (r : Round A) → ((a : A) × (r ≡ stop a)) ⊎ (r ≡ again)
Round-cases (stop a) = inl (a, refl)
Round-cases again = inr refl

abbrev pub is_ended {ℓ} : {A : Type ℓ} → Waited A → Bool
is_ended out_of_fuel = false
is_ended _ = true

-- What makes the loop end: a clock that does not go back, and a round that takes time.
pub record Ticks {ℓ} {W : Type 0} {A : Type ℓ} (now : Stateful W ℕ) (round : Stateful W (Round A))
    (time : W → ℕ) : Type 0 where
  pub reads : (w : W) → (now w).0 ≡ time w
  pub keeps : (w : W) → time w ≤ time (now w).1
  pub passes : (w : W) → suc (time w) ≤ time (round w).1

module _ {ℓ} {W : Type 0} {A : Type ℓ} (now : Stateful W ℕ) (deadline : ℕ)
    (round : Stateful W (Round A)) where
  abbrev continue_with : Stateful W (Waited A) → Round A → Stateful W (Waited A)
  continue_with rest (stop a) w = (answered a, w)
  continue_with rest again w = rest w

  unfoldable pub while_before : ℕ → Stateful W (Waited A)
  while_before zero w = (out_of_fuel, w)
  while_before (suc fuel) w =
      let (t, w') = now w in
      let (r, w'') = round w' in
      if ltb t deadline then continue_with (while_before fuel) r w'' else (timed_out, w')

  -- Fuel for one round per unit of time before the deadline, and one more, is enough.
  pub while_before-ends :
      (time : W → ℕ)
      → Ticks now round time
      → (fuel : ℕ) (w : W) → deadline ≤ time w + fuel
      → is_ended (while_before (suc fuel) w).0 ≡ true
  unfolding while_before
  while_before-ends time ticks zero w h = ground (arith, ticks.reads w)
  while_before-ends time ticks (suc fuel) w h = ground (
    arith,
    ticks.reads w,
    ticks.keeps w,
    ticks.passes (now w).1,
    while_before-ends time ticks fuel (round (now w).1).1,
  )

  -- An answer comes from a round.
  pub while_before-answered :
      (fuel : ℕ) (w : W) (a : A)
      → (while_before fuel w).0 ≡ answered a
      → (w' : W) × ((round w').0 ≡ stop a)
  unfolding while_before
  while_before-answered zero w a = λ h. cc
  while_before-answered (suc fuel) w a = elim (Bool-cases (ltb (now w).0 deadline)) [
    | inr late ↦ rw late (λ h. cc)
    | inl early ↦ elim (Round-cases (round (now w).1).0) [
      | inl (b, e) ↦ rw (early, e) (λ h. ((now w).1, cc))
      | inr e ↦ rw (early, e) (while_before-answered fuel (round (now w).1).1 a)
    ]
  ]

  -- What the clock and every round keep, the loop keeps.
  module _ (Kept : W → Type 0) (keeps_now : (w : W) → Kept w → Kept (now w).1)
      (keeps_round : (w : W) → Kept w → Kept (round w).1) where
    pub while_before-keeps : (fuel : ℕ) (w : W) → Kept w → Kept (while_before fuel w).1
    unfolding while_before
    while_before-keeps zero w h = h
    while_before-keeps (suc fuel) w h = elim (Bool-cases (ltb (now w).0 deadline)) [
      | inr late ↦ rw late (keeps_now w h)
      | inl early ↦
          let kept = keeps_round (now w).1 (keeps_now w h) in
          elim (Round-cases (round (now w).1).0) [
            | inl (a, e) ↦ rw (early, e) kept
            | inr e ↦ rw (early, e) (while_before-keeps fuel (round (now w).1).1 kept)
          ]
    ]
