-- ===== src/Common/Json.antt =====
-- JSON values as JavaScript holds them after `JSON.parse`, and the reads that the sources make.
use agent_valet.Common.Tests.{if◌then◌else◌}
use agent_valet.Common.Strings.{Text, truthy, ◌===◌, codes}
use mathlib.Core.Bool.{Bool, true, false, not, ◌&&◌}
use mathlib.Core.Option.{Option, none, some}
use mathlib.Core.List.{List, [], ◌∷◌}

-- A number is kept by what `String` prints of it.
mutual
  pub data Json : Type 0 where
    null : Json
    boolean : Bool → Json
    number : Text → Json
    string : Text → Json
    array : Items → Json
    object : Fields → Json

  pub data Items : Type 0 where
    no_items : Items
    item : Json → Items → Items

  pub data Fields : Type 0 where
    no_fields : Fields
    field : Text → Json → Fields → Fields

-- The value of a key; none is `undefined`.
abbrev pub get : Text → Fields → Option Json
get key no_fields = none
get key (field k v rest) = if k === key then some v else get key rest

-- A named property of a value. A primitive and an array have none of the names that the sources
-- read; reading one of null throws, which the callers that can meet null write out.
abbrev pub property : Text → Json → Option Json
property key (object fs) = get key fs
property key _ = none

-- `typeof v === "string" ? v : undefined`
abbrev pub as_string : Option Json → Option Text
as_string (some (string s)) = some s
as_string _ = none

-- a value in a test
abbrev pub is_truthy : Option Json → Bool
is_truthy none = false
is_truthy (some null) = false
is_truthy (some (boolean b)) = b
is_truthy (some (number n)) = not (n === codes "0") && not (n === codes "NaN")
is_truthy (some (string s)) = truthy s
is_truthy (some (array _)) = true
is_truthy (some (object _)) = true

abbrev pub is_null : Json → Bool
is_null null = true
is_null _ = false

-- the strings among the items
abbrev pub strings_of : Items → List Text
strings_of no_items = []
strings_of (item (string s) rest) = s ∷ strings_of rest
strings_of (item _ rest) = strings_of rest
