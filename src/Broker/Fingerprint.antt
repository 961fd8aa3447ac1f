-- ===== src/Broker/Fingerprint.antt =====
-- packages/mcp-broker/src/fingerprint.ts: the canonical text of a call's arguments. SHA-256 is a
-- parameter. An argument is a tree here: a value that contains itself is not one.
pub mod Order
use agent_valet.Common.{
  ℕ, ◌+◌, ◌/◌, ◌%◌, Bool, true, false, ◌&&◌, ◌||◌, Option, none, some, List, [], ◌∷◌, ◌++◌, Text,
  codes, ◌==◌, ltb, leb, if◌then◌else◌,
}

mutual
  pub data Value : Type 0 where
    null unserializable nonfinite : Value
    number : Text → Value
    boolean : Bool → Value
    string : Text → Value
    bigint : Text → Value
    array : Values → Value
    object : Properties → Value

  pub data Values : Type 0 where
    no_values : Values
    value : Value → Values → Values

  pub data Properties : Type 0 where
    no_properties : Properties
    prop : Text → Value → Properties → Properties

abbrev hex_digit : ℕ → ℕ
hex_digit n = if ltb n 10 then b'0' + n else 87 + n

abbrev unicode_escape : ℕ → Text → Text
unicode_escape c rest =
    92
    ∷ b'u'
    ∷ hex_digit (c / 4096)
    ∷ hex_digit ((c / 256) % 16)
    ∷ hex_digit ((c / 16) % 16)
    ∷ hex_digit (c % 16)
    ∷ rest

abbrev short_escape : ℕ → Text → Text
short_escape letter rest = 92 ∷ letter ∷ rest

abbrev is_low : ℕ → Bool
is_low c = leb 56320 c && leb c 57343

abbrev starts_low : Text → Bool
starts_low [] = false
starts_low (c ∷ cs) = is_low c

-- `JSON.stringify` of a string, by whether the unit before is the first half of a pair
unfoldable escaped : Bool → Text → Text
escaped paired [] = []
escaped paired (c ∷ cs) =
    let rest = escaped false cs in
    let second = escaped true cs in
    if c == 34 || c == 92
    then short_escape c rest
    else if c == 8
    then short_escape b'b' rest
    else if c == 9
    then short_escape b't' rest
    else if c == 10
    then short_escape b'n' rest
    else if c == 12
    then short_escape b'f' rest
    else if c == 13
    then short_escape b'r' rest
    else if ltb c 32
    then unicode_escape c rest
    else if leb 55296 c && leb c 56319
    then (if starts_low cs then c ∷ second else unicode_escape c rest)
    else if is_low c
    then (if paired then c ∷ rest else unicode_escape c rest)
    else c ∷ rest

unfoldable pub quoted : Text → Text
unfolding escaped
quoted s = 34 ∷ (escaped false s ++ 34 ∷ [])

-- the order of `sort()` without an argument: by code units
unfoldable pub before : Text → Text → Bool
before [] b = true
before (x ∷ xs) [] = false
before (x ∷ xs) (y ∷ ys) = ltb x y || (x == y && before xs ys)

-- a key with the text of its value
abbrev pub Entry : Type 0
Entry = Text × Text

unfoldable pub insert : Entry → List Entry → List Entry
insert e [] = e ∷ []
insert e (f ∷ fs) = let later = insert e fs in if before e.0 f.0 then e ∷ f ∷ fs else f ∷ later

abbrev pub sort : List Entry → List Entry
sort [] = []
sort (e ∷ es) = insert e (sort es)

-- `.join(",")`
abbrev pub join : List Text → Text
join [] = []
join (t ∷ []) = t
join (t ∷ u ∷ us) = t ++ (b',' ∷ join (u ∷ us))

abbrev pub entry_texts : List Entry → List Text
entry_texts [] = []
entry_texts (e ∷ es) = (quoted e.0 ++ (b':' ∷ e.1)) ∷ entry_texts es

-- `canonicalize`; the values' texts are made before the keys are sorted
unfoldable mutual
  pub canonicalize : Value → Text
  canonicalize null = codes "null"
  canonicalize unserializable = codes "\"__unserializable__\""
  canonicalize nonfinite = codes "\"__nonfinite__\""
  canonicalize (number n) = n
  canonicalize (boolean true) = codes "true"
  canonicalize (boolean false) = codes "false"
  canonicalize (string s) = quoted s
  canonicalize (bigint n) = quoted (n ++ codes "n")
  canonicalize (array vs) = codes "[" ++ (join (canonical_items vs) ++ codes "]")
  canonicalize (object ps) = codes "{" ++ (join (entry_texts (sort (entries ps))) ++ codes "}")

  pub canonical_items : Values → List Text
  canonical_items no_values = []
  canonical_items (value v vs) = canonicalize v ∷ canonical_items vs

  pub entries : Properties → List Entry
  entries no_properties = []
  entries (prop k v ps) = (k, canonicalize v) ∷ entries ps

-- `args ?? {}`
abbrev pub args_or_empty : Option Value → Value
args_or_empty none = object no_properties
args_or_empty (some null) = object no_properties
args_or_empty (some v) = v

-- `argsFingerprint`; arguments that are undefined are none
unfoldable pub args_fingerprint : (Text → Text) → Option Value → Text
args_fingerprint sha256_hex args = codes "sha256:" ++ sha256_hex (canonicalize (args_or_empty args))
