-- ===== src/Common/Js.antt =====
-- What the sources use of JavaScript's strings: white space, `trim`, `startsWith`, `endsWith`,
-- `includes`, and the digits of `\d`.
use agent_valet.Common.Tests.{leb, ltb, ◌==◌, if◌then◌else◌}
use agent_valet.Common.Lists.{any}
use agent_valet.Common.Strings.{Text, truthy, ◌===◌}
use Prim.Native.Nat.{ℕ, zero, suc, ◌+◌, ◌-◌, ◌*◌, ◌/◌, ◌%◌}
use mathlib.Core.Bool.{Bool, true, false, not, ◌&&◌, ◌||◌}
use mathlib.Core.List.{[], ◌∷◌, ◌++◌}

-- `\s`, which is also what `trim` takes away
unfoldable pub is_space : ℕ → Bool
is_space c =
    (leb 9 c && leb c 13)
    || c == 32
    || c == 160
    || c == 5760
    || (leb 8192 c && leb c 8202)
    || c == 8232
    || c == 8233
    || c == 8239
    || c == 8287
    || c == 12288
    || c == 65279

abbrev pub is_digit : ℕ → Bool
is_digit c = leb b'0' c && leb c b'9'

abbrev pub trim_start : Text → Text
trim_start [] = []
trim_start (c ∷ cs) = if is_space c then trim_start cs else c ∷ cs

abbrev pub trim_end : Text → Text
trim_end [] = []
trim_end (c ∷ cs) =
    let rest = trim_end cs in if is_space c && not (truthy rest) then [] else c ∷ rest

abbrev pub trim : Text → Text
trim s = trim_end (trim_start s)

abbrev pub starts_with : Text → Text → Bool
starts_with [] s = true
starts_with (p ∷ ps) [] = false
starts_with (p ∷ ps) (c ∷ cs) = p == c && starts_with ps cs

-- whether the last code unit is `c`
abbrev pub ends_with_unit : ℕ → Text → Bool
ends_with_unit c [] = false
ends_with_unit c (x ∷ []) = x == c
ends_with_unit c (x ∷ y ∷ ys) = ends_with_unit c (y ∷ ys)

abbrev pub has_unit : ℕ → Text → Bool
has_unit c s = any (λ x. x == c) s

-- `s.slice(1)`
abbrev pub drop_first : Text → Text
drop_first [] = []
drop_first (x ∷ xs) = xs

-- `s.slice(0, -1)`
abbrev pub drop_last : Text → Text
drop_last [] = []
drop_last (x ∷ []) = []
drop_last (x ∷ y ∷ ys) = x ∷ drop_last (y ∷ ys)

-- the number that decimal digits stand for
abbrev pub decimal : ℕ → Text → ℕ
decimal n [] = n
decimal n (c ∷ cs) = decimal (n * 10 + (c - b'0')) cs

abbrev decimal_digits : ℕ → ℕ → Text → Text
decimal_digits zero n rest = rest
decimal_digits (suc fuel) n rest =
    let more = decimal_digits fuel (n / 10) ((b'0' + n % 10) ∷ rest) in
    if ltb n 10 then (b'0' + n) ∷ rest else more

-- `String(n)`; a number has no more digits than its value and one
unfoldable pub decimal_of : ℕ → Text
decimal_of n = decimal_digits (suc n) n []

-- `s.endsWith(t)`
abbrev pub ends_with : Text → Text → Bool
ends_with t [] = t === []
ends_with t (c ∷ cs) = (c ∷ cs) === t || ends_with t cs

-- The part of `toLowerCase` that a search for ASCII text can see.
abbrev lower : ℕ → Text
lower c =
    if leb b'A' c && leb c b'Z'
    then (c + 32) ∷ []
    else if c == 304
    then b'i' ∷ 775 ∷ []
    else if c == 8490
    then b'k' ∷ []
    else c ∷ []

abbrev pub to_lower_case : Text → Text
to_lower_case [] = []
to_lower_case (c ∷ cs) = lower c ++ to_lower_case cs

-- `s.includes(t)`
abbrev pub contains : Text → Text → Bool
contains t [] = starts_with t []
contains t (c ∷ cs) = starts_with t (c ∷ cs) || contains t cs

-- `replace(/\/$/, "")`
abbrev pub drop_slash : Text → Text
drop_slash [] = []
drop_slash (c ∷ []) = if c == b'/' then [] else c ∷ []
drop_slash (c ∷ d ∷ cs) = c ∷ drop_slash (d ∷ cs)

-- `res.ok`
abbrev pub is_ok : ℕ → Bool
is_ok status = leb 200 status && ltb status 300
