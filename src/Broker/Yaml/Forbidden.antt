-- ===== src/Broker/Yaml/Forbidden.antt =====
-- The regular expressions of FORBIDDEN in packages/mcp-broker/src/policy/yaml.ts, as what a text
-- that they match looks like.
use agent_valet.Common.{
  ℕ, Bool, true, false, not, ◌&&◌, Bool-cases, inl, inr, none, [], ◌∷◌, ◌++◌, Text, truthy, All,
  ◌≡◌, ◌⊎◌, refl, arith, if◌then◌else◌,
}
use agent_valet.Common.Js.{is_space, trim, trim_start, trim_end, has_unit}
use agent_valet.Broker.Yaml.Scan.{has_anchor, has_merge_key, has_interpolation, has_flow, forbidden}

abbrev pub IsSpaces : Text → Type 0
IsSpaces = All (λ c. is_space c ≡ true)

-- A place at the start of a line or behind white space; `edge` says so of where the text begins.
abbrev EndsAtEdge : Bool → Text → Type 0
EndsAtEdge edge [] = edge ≡ true
EndsAtEdge edge (c ∷ cs) = EndsAtEdge (is_space c) cs

abbrev pub HasTab : Text → Type 0
HasTab s = (a : Text) × (b : Text) × (s ≡ a ++ b'\t' ∷ b)

-- `&` or `*` at an edge, before a character that is no white space
abbrev pub HasAnchor : Text → Type 0
HasAnchor s =
    (a : Text) × (mark : ℕ) × (c : ℕ) × (b : Text) × (s ≡ a ++ mark ∷ c ∷ b)
    × ((mark ≡ b'&') ⊎ (mark ≡ b'*'))
    × EndsAtEdge true a
    × (is_space c ≡ false)

-- `<<`, white space and a colon
abbrev pub HasMergeKey : Text → Type 0
HasMergeKey s =
    (a : Text) × (gap : Text) × (b : Text) × (s ≡ a ++ b'<' ∷ b'<' ∷ gap ++ b':' ∷ b) × IsSpaces gap

abbrev pub HasInterpolation : Text → Type 0
HasInterpolation s = (a : Text) × (b : Text) × (s ≡ a ++ b'$' ∷ b'{' ∷ b)

-- a colon, white space and `[` or `{`
abbrev pub HasFlow : Text → Type 0
HasFlow s =
    (a : Text) × (gap : Text) × (c : ℕ) × (b : Text) × (s ≡ a ++ b':' ∷ gap ++ c ∷ b)
    × IsSpaces gap
    × ((c ≡ b'[') ⊎ (c ≡ b'{'))

-- None of the five.
abbrev pub IsPlain : Text → Type 0
IsPlain s =
    (¬ HasTab s) × (¬ HasAnchor s) × (¬ HasMergeKey s) × (¬ HasInterpolation s) × (¬ HasFlow s)

has_tab : (a b : Text) → has_unit b'\t' (a ++ b'\t' ∷ b) ≡ true
has_tab [] b = refl
has_tab (c ∷ a) b = ground (arith, has_tab a b)

trim_start-gap :
    (gap : Text) (c : ℕ) (b : Text)
    → IsSpaces gap
    → is_space c ≡ false
    → trim_start (gap ++ c ∷ b) ≡ c ∷ b
trim_start-gap [] c b h k = rw k refl
trim_start-gap (d ∷ gap) c b (h, hs) k = rw h (trim_start-gap gap c b hs k)

anchor-found :
    (edge : Bool) (a : Text) (mark c : ℕ) (b : Text)
    → (mark ≡ b'&') ⊎ (mark ≡ b'*')
    → EndsAtEdge edge a
    → is_space c ≡ false
    → has_anchor edge (a ++ mark ∷ c ∷ b) ≡ true
unfolding has_anchor
anchor-found edge [] mark c b h e k = rw (e, k) (ground (arith, h))
anchor-found edge (d ∷ a) mark c b h e k =
    ground (arith, anchor-found (is_space d) a mark c b h e k)

merge_key-found :
    (a gap b : Text) → IsSpaces gap → has_merge_key (a ++ b'<' ∷ b'<' ∷ gap ++ b':' ∷ b) ≡ true
unfolding has_merge_key is_space
merge_key-found [] gap b h = rw (trim_start-gap gap b':' b h refl) refl
merge_key-found (d ∷ a) gap b h = ground (arith, merge_key-found a gap b h)

interpolation-found : (a b : Text) → has_interpolation (a ++ b'$' ∷ b'{' ∷ b) ≡ true
unfolding has_interpolation
interpolation-found [] b = refl
interpolation-found (d ∷ a) b = ground (arith, interpolation-found a b)

flow-found :
    (a gap : Text) (c : ℕ) (b : Text)
    → IsSpaces gap
    → (c ≡ b'[') ⊎ (c ≡ b'{')
    → has_flow (a ++ b':' ∷ gap ++ c ∷ b) ≡ true
unfolding has_flow is_space
flow-found [] gap c b h (inl e) = rw e (rw (trim_start-gap gap b'[' b h refl) refl)
flow-found [] gap c b h (inr e) = rw e (rw (trim_start-gap gap b'{' b h refl) refl)
flow-found (d ∷ a) gap c b h k = ground (arith, flow-found a gap c b h k)

tests-fail :
    (s : Text)
    → forbidden s ≡ none
    → (has_unit b'\t' s ≡ false)
      × (has_anchor true s ≡ false)
      × (has_merge_key s ≡ false)
      × (has_interpolation s ≡ false)
      × (has_flow s ≡ false)
unfolding forbidden
tests-fail s h = ground arith

-- What no entry of FORBIDDEN matches has none of the five.
pub forbidden-IsPlain : (s : Text) → forbidden s ≡ none → IsPlain s
forbidden-IsPlain s h =
    let (tab, anchor, merge, interpolation, flow) = tests-fail s h in
    (
      λ (a, b, e). let k = has_tab a b in let t = rw e at tab in cc,
      λ (a, mark, c, b, e, m, edge, k).
          let found = anchor-found true a mark c b m edge k in let t = rw e at anchor in cc,
      λ (a, gap, b, e, spaces).
          let found = merge_key-found a gap b spaces in let t = rw e at merge in cc,
      λ (a, b, e). let found = interpolation-found a b in let t = rw e at interpolation in cc,
      λ (a, gap, c, b, e, spaces, k).
          let found = flow-found a gap c b spaces k in let t = rw e at flow in cc,
    )

ended :
    (c : ℕ) (space : Bool) (rest : Text)
    → (if space && not (truthy rest) then [] else c ∷ rest) ≡ []
    → (space ≡ true) × (rest ≡ [])
ended c true [] h = (refl, refl)
ended c true (d ∷ rest) h = absurd cc
ended c false rest h = absurd cc

trim_end-IsSpaces : (s : Text) → trim_end s ≡ [] → IsSpaces s
trim_end-IsSpaces [] h = tt
trim_end-IsSpaces (c ∷ s) h =
    let (space, rest) = ended c (is_space c) (trim_end s) h in (space, trim_end-IsSpaces s rest)

trim_start-IsSpaces : (s : Text) → IsSpaces (trim_start s) → IsSpaces s
trim_start-IsSpaces [] h = tt
trim_start-IsSpaces (c ∷ s) h = elim (Bool-cases (is_space c)) [
  | inl e ↦ (e, trim_start-IsSpaces s (rw e at h))
  | inr e ↦ rw e at h
]

not_truthy : (s : Text) → truthy s ≡ false → s ≡ []
not_truthy [] h = refl
not_truthy (c ∷ s) h = cc

-- What is empty once it is trimmed is white space.
pub trim-IsSpaces : (s : Text) → truthy (trim s) ≡ false → IsSpaces s
trim-IsSpaces s h = trim_start-IsSpaces s (trim_end-IsSpaces (trim_start s) (not_truthy (trim s) h))
