-- ===== src/Common/Effects.antt =====
-- Effects by explicit state passing, and calls that may throw.
use agent_valet.Common.Strings.{Text}

-- What a call that may throw leaves; a thrown value is kept by its message.
pub data Try {ℓ} (A : Type ℓ) : Type ℓ where
  ok : A → Try A
  threw : Text → Try A

abbrev pub Stateful {ℓ κ} : Type ℓ → Type κ → Type (ℓ ⊔ κ)
Stateful S A = S → A × S

infixl 5 ◌>>=◌ ◌>>◌
abbrev pub ◌>>=◌ {ℓ κ μ} :
    {S : Type ℓ} {A : Type κ} {B : Type μ} → Stateful S A → (A → Stateful S B) → Stateful S B
◌>>=◌ m f s = let (a, s') = m s in f a s'

abbrev pub ◌>>◌ {ℓ κ μ} :
    {S : Type ℓ} {A : Type κ} {B : Type μ} → Stateful S A → Stateful S B → Stateful S B
◌>>◌ m k s = let (a, s') = m s in k s'

abbrev pub pure {ℓ κ} : {S : Type ℓ} {A : Type κ} → A → Stateful S A
pure a s = (a, s)
