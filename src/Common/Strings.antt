-- ===== src/Common/Strings.antt =====
-- JavaScript strings, as lists of UTF-16 code units.
use Prim.Native.Nat.{ℕ}
use Prim.Native.Char.{code}
use Prim.Native.String.{String}
use mathlib.Core.Path.{◌≡◌, refl}
use mathlib.Core.Logic.{◌↔◌}
use mathlib.Core.Bool.{Bool, true, false, ◌&&◌, ◌||◌}
use mathlib.Core.List.{List, [], ◌∷◌, ◌++◌}
use native.Mathlib.Omega.{arith}
use agent_valet.Common.Tests.{◌==◌}

abbrev pub Text : Type 0
Text = List ℕ

-- The code units of a literal; every literal of the development is ASCII.
abbrev pub codes : String → Text
codes String.[] = []
codes (String.◌∷◌ c s) = code c ∷ codes s

-- `a === b`
infix 50 ◌===◌
unfoldable pub ◌===◌ : Text → Text → Bool
[] === [] = true
(x ∷ xs) === (y ∷ ys) = x == y && xs === ys
_ === _ = false

pub ===_iff : (a b : Text) → ((a === b) ≡ true) ↔ (a ≡ b)
unfolding ◌===◌
===_iff [] [] = ground arith
===_iff (x ∷ xs) (y ∷ ys) = ground (arith, ===_iff xs ys)
===_iff [] (y ∷ ys) = ground arith
===_iff (x ∷ xs) [] = ground arith

pub ===_refl : (a : Text) → (a === a) ≡ true
===_refl a = (===_iff a a).1 refl

-- A common prefix does not matter to equality.
pub append-===_left : (p a b : Text) → ((p ++ a) === (p ++ b)) ≡ (a === b)
unfolding ◌===◌
append-===_left [] a b = refl
append-===_left (x ∷ p) a b = ground (arith, append-===_left p a b)

-- `xs.includes(s)`
abbrev pub includes : List Text → Text → Bool
includes [] s = false
includes (x ∷ xs) s = x === s || includes xs s

-- A string in a test: the empty one is falsy.
abbrev pub truthy : Text → Bool
truthy [] = false
truthy (_ ∷ _) = true
