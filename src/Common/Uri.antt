-- ===== src/Common/Uri.antt =====
-- `encodeURIComponent`, on UTF-16 code units. A lone surrogate, on which it throws, is none.
use agent_valet.Common.Tests.{leb, ltb, ◌==◌, if◌then◌else◌}
use agent_valet.Common.Js.{is_digit}
use agent_valet.Common.Strings.{Text}
use Prim.Native.Nat.{ℕ, ◌+◌, ◌-◌, ◌*◌, ◌/◌, ◌%◌}
use mathlib.Core.Bool.{Bool, ◌&&◌, ◌||◌}
use mathlib.Core.Option.{Option, none, some, map}
use mathlib.Core.List.{[], ◌∷◌}

-- what is left as it is: letters, digits and - _ . ! ~ * ' ( )
abbrev is_kept : ℕ → Bool
is_kept c =
    (leb b'a' c && leb c b'z')
    || (leb b'A' c && leb c b'Z')
    || is_digit c
    || c == 45
    || c == 95
    || c == 46
    || c == 33
    || c == 126
    || (leb 39 c && leb c 42)

abbrev hex_digit : ℕ → ℕ
hex_digit n = if ltb n 10 then b'0' + n else b'A' + (n - 10)

abbrev escaped : ℕ → Text → Text
escaped byte rest = 37 ∷ hex_digit (byte / 16) ∷ hex_digit (byte % 16) ∷ rest

-- the bytes of a character in UTF-8
abbrev utf_8 : ℕ → Text → Text
utf_8 c rest =
    if ltb c 128
    then escaped c rest
    else if ltb c 2048
    then escaped (192 + c / 64) (escaped (128 + c % 64) rest)
    else if ltb c 65536
    then escaped (224 + c / 4096) (escaped (128 + (c / 64) % 64) (escaped (128 + c % 64) rest))
    else escaped (240 + c / 262144) (
        escaped (128 + (c / 4096) % 64)
          (escaped (128 + (c / 64) % 64) (escaped (128 + c % 64) rest)))

abbrev is_high : ℕ → Bool
is_high c = leb 55296 c && leb c 56319

abbrev is_low : ℕ → Bool
is_low c = leb 56320 c && leb c 57343

-- by the high surrogate that waits for its other half
unfoldable encode_after : Option ℕ → Text → Option Text
encode_after none [] = some []
encode_after (some high) [] = none
encode_after none (c ∷ cs) =
    let rest = encode_after none cs in
    let paired = encode_after (some c) cs in
    if is_high c
    then paired
    else if is_low c
    then none
    else if is_kept c
    then map (λ t. c ∷ t) rest
    else map (utf_8 c) rest
encode_after (some high) (c ∷ cs) =
    let rest = encode_after none cs in
    if is_low c then map (utf_8 (65536 + (high - 55296) * 1024 + (c - 56320))) rest else none

unfoldable pub encode_uri_component : Text → Option Text
unfolding encode_after
encode_uri_component s = encode_after none s
