-- ===== src/Broker/Fingerprint/Order.antt =====
-- The order of the keys does not matter to the fingerprint of
-- packages/mcp-broker/src/fingerprint.ts.
use agent_valet.Common.{
  some, true, false, List, [], ◌∷◌, ◌++◌, Text, ◌≡◌, ◌≢◌, refl, ap, sym, ◌∙◌, inl, inr, Bool-cases,
  arith, codes,
}
use agent_valet.Broker.Fingerprint.{
  canonical_items, Values, no_values, value, array, before, insert, sort, Entry, entries,
  canonicalize, Value, Properties, no_properties, prop, object, args_fingerprint, args_or_empty,
  entry_texts, join,
}

before-total : (a b : Text) → before a b ≡ false → before b a ≡ true
unfolding before
before-total [] b = ground arith
before-total (x ∷ xs) [] = ground arith
before-total (x ∷ xs) (y ∷ ys) = ground (arith, before-total xs ys)

before_antisym : (a b : Text) → before a b ≡ true → before b a ≡ true → a ≡ b
unfolding before
before_antisym [] [] = ground arith
before_antisym [] (y ∷ ys) = ground arith
before_antisym (x ∷ xs) [] = ground arith
before_antisym (x ∷ xs) (y ∷ ys) = ground (arith, before_antisym xs ys)

before_trans : (a b c : Text) → before a b ≡ true → before b c ≡ true → before a c ≡ true
unfolding before
before_trans [] b c = ground arith
before_trans (x ∷ xs) [] c = ground arith
before_trans (x ∷ xs) (y ∷ ys) [] = ground arith
before_trans (x ∷ xs) (y ∷ ys) (z ∷ zs) = ground (arith, before_trans xs ys zs)

insert-insert_ordered :
    (e f : Entry) (es : List Entry)
    → before e.0 f.0 ≡ true
    → before f.0 e.0 ≡ false
    → insert e (insert f es) ≡ insert f (insert e es)
unfolding insert
insert-insert_ordered e f [] p q = rw (p, q) refl
insert-insert_ordered e f (g ∷ es) p q = elim (Bool-cases (before f.0 g.0)) [
  | inl r ↦ let s = before_trans e.0 f.0 g.0 p r in rw (r, s) (rw (p, q) (rw r refl))
  | inr r ↦ elim (Bool-cases (before e.0 g.0)) [
    | inl s ↦ rw (r, s) (rw q (rw r refl))
    | inr s ↦ rw (r, s) (rw r (ap (λ fs. g ∷ fs) (insert-insert_ordered e f es p q)))
  ]
]

insert-insert :
    (e f : Entry) (es : List Entry) → e.0 ≢ f.0 → insert e (insert f es) ≡ insert f (insert e es)
insert-insert e f es h = elim (Bool-cases (before e.0 f.0)) [
  | inr p ↦ sym (insert-insert_ordered f e es (before-total e.0 f.0 p) p)
  | inl p ↦ elim (Bool-cases (before f.0 e.0)) [
    | inl q ↦ elim (h (before_antisym e.0 f.0 p q)) [ ]
    | inr q ↦ insert-insert_ordered e f es p q
  ]
]

-- Two values that differ, at any depth, in the order of the keys of objects only: neighbours with
-- different keys may be swapped.
mutual
  pub data Reordered : Value → Value → Type 0 where
    same : (v : Value) → Reordered v v
    in_array : (vs ws : Values) → ReorderedItems vs ws → Reordered (array vs) (array ws)
    in_object : (ps qs : Properties) → ReorderedProperties ps qs → Reordered (object ps) (object qs)

  pub data ReorderedItems : Values → Values → Type 0 where
    no_more : ReorderedItems no_values no_values
    next :
        (v w : Value) (vs ws : Values)
        → Reordered v w
        → ReorderedItems vs ws
        → ReorderedItems (value v vs) (value w ws)

  pub data ReorderedProperties : Properties → Properties → Type 0 where
    done : ReorderedProperties no_properties no_properties
    under :
        (k : Text) (v w : Value) (ps qs : Properties)
        → Reordered v w
        → ReorderedProperties ps qs
        → ReorderedProperties (prop k v ps) (prop k w qs)
    swapped :
        (k l : Text) (v w : Value) (ps : Properties)
        → k ≢ l
        → ReorderedProperties (prop k v (prop l w ps)) (prop l w (prop k v ps))
    then_also :
        (ps qs rs : Properties)
        → ReorderedProperties ps qs
        → ReorderedProperties qs rs
        → ReorderedProperties ps rs

mutual
  unfolding canonicalize

  -- Values that differ only in the order of keys, at any depth, have the same canonical text.
  pub canonicalize-Reordered : (v w : Value) → Reordered v w → canonicalize v ≡ canonicalize w
  canonicalize-Reordered _ _ (same v) = refl
  canonicalize-Reordered _ _ (in_array vs ws h) =
      ap (λ ts. codes "[" ++ (join ts ++ codes "]")) (items-Reordered vs ws h)
  canonicalize-Reordered _ _ (in_object ps qs h) =
      ap (λ es. codes "{" ++ (join (entry_texts es) ++ codes "}")) (entries-Reordered ps qs h)

  items-Reordered :
      (vs ws : Values) → ReorderedItems vs ws → canonical_items vs ≡ canonical_items ws
  items-Reordered _ _ no_more = refl
  items-Reordered _ _ (next v w vs ws h k) =
      rw (canonicalize-Reordered v w h, items-Reordered vs ws k) refl

  entries-Reordered :
      (ps qs : Properties) → ReorderedProperties ps qs → sort (entries ps) ≡ sort (entries qs)
  entries-Reordered _ _ done = refl
  entries-Reordered _ _ (under k v w ps qs h e) =
      rw (canonicalize-Reordered v w h, entries-Reordered ps qs e) refl
  entries-Reordered _ _ (swapped k l v w rest d) =
      insert-insert (k, canonicalize v) (l, canonicalize w) (sort (entries rest)) d
  entries-Reordered _ _ (then_also ps qs rs h k) =
      entries-Reordered ps qs h ∙ entries-Reordered qs rs k

args_or_empty-Reordered :
    (v w : Value) → Reordered v w → Reordered (args_or_empty (some v)) (args_or_empty (some w))
args_or_empty-Reordered _ _ (same v) = same (args_or_empty (some v))
args_or_empty-Reordered _ _ (in_array vs ws h) = in_array vs ws h
args_or_empty-Reordered _ _ (in_object ps qs h) = in_object ps qs h

-- Arguments that differ only in the order of keys, at any depth, have the same fingerprint,
-- whatever the hash function is.
pub args_fingerprint-Reordered :
    (sha256_hex : Text → Text) (v w : Value)
    → Reordered v w
    → args_fingerprint sha256_hex (some v) ≡ args_fingerprint sha256_hex (some w)
unfolding args_fingerprint
args_fingerprint-Reordered sha256_hex v w h =
    ap (λ t. codes "sha256:" ++ sha256_hex t)
      (canonicalize-Reordered (args_or_empty (some v)) (args_or_empty (some w))
        (args_or_empty-Reordered v w h))
