-- ===== src/Common/Throwing.antt =====
-- Steps that may throw, in a row: the first that throws ends the row.
use agent_valet.Common.Strings.{Text}
use agent_valet.Common.Effects.{Try, ok, threw, Stateful}
use mathlib.Core.Path.{◌≡◌, refl, ap}

abbrev pub Io {ℓ κ} : Type ℓ → Type κ → Type (ℓ ⊔ κ)
Io S A = Stateful S (Try A)

abbrev pub on_ok {ℓ κ μ} : {S : Type ℓ} {A : Type κ} {B : Type μ} → (A → Io S B) → Try A → Io S B
on_ok f (ok a) s = f a s
on_ok f (threw message) s = (threw message, s)

infixl 5 ◌>>=◌
abbrev pub ◌>>=◌ {ℓ κ μ} : {S : Type ℓ} {A : Type κ} {B : Type μ} → Io S A → (A → Io S B) → Io S B
◌>>=◌ step f s = on_ok f (step s).0 (step s).1

abbrev pub give {ℓ κ} : {S : Type ℓ} {A : Type κ} → A → Io S A
give a s = (ok a, s)

abbrev pub raise {ℓ κ} : {S : Type ℓ} {A : Type κ} → Text → Io S A
raise message s = (threw message, s)

-- A row that ends well has steps that end well.
module _ {ℓ κ μ} {S : Type ℓ} {A : Type κ} {B : Type μ} (next : A → Io S B) (b : B) (s' : S) where
  on_ok-ok :
      (r : Try A) (s : S)
      → on_ok next r s ≡ (ok b, s')
      → (a : A) × (r ≡ ok a) × (next a s ≡ (ok b, s'))
  on_ok-ok (ok a) s h = (a, refl, h)
  on_ok-ok (threw m) s h = let differs : threw m ≡ ok b = ap (λ r. r.0) h in cc

  pub >>=-ok :
      (step : Io S A) (s : S)
      → (step >>= next) s ≡ (ok b, s')
      → (a : A) × (t : S) × (step s ≡ (ok a, t)) × (next a t ≡ (ok b, s'))
  >>=-ok step s h =
      let (a, e, rest) = on_ok-ok (step s).0 (step s).1 h in
      (a, (step s).1, ap (λ r. (r, (step s).1)) e, rest)
