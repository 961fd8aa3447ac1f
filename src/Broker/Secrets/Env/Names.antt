-- ===== src/Broker/Secrets/Env/Names.antt =====
-- The variable's name in packages/mcp-broker/src/secrets/env-source.ts: the words of the reference.
use agent_valet.Common.{
  ℕ, Bool, true, false, Bool-cases, inl, inr, List, [], ◌∷◌, ◌++◌, Text, ◌==◌, ◌&&◌, ◌||◌, leb,
  truthy, ◌≡◌, refl, ap, ◌∙◌, arith, if◌then◌else◌,
}
use agent_valet.Broker.Secrets.Env.{
  is_name_unit, underscore, fold_runs, strip_start, strip_end, strip_underscores, env_var_name,
  to_upper_case,
}

-- a word in front of others, where there is one
abbrev keep : Text → List Text → List Text
keep [] ws = ws
keep (c ∷ cs) ws = (c ∷ cs) ∷ ws

abbrev is_word_unit : ℕ → Bool
is_word_unit c = (leb b'A' c && leb c b'Z') || (leb b'0' c && leb c b'9')

-- The letters and digits that a text starts with, and the words behind.
abbrev split : Text → Text × List Text
split [] = ([], [])
split (c ∷ cs) = let (w, ws) = split cs in if is_word_unit c then (c ∷ w, ws) else ([], keep w ws)

-- The words of a text: its longest runs of upper-case letters and digits.
abbrev pub words : Text → List Text
words s = let (w, ws) = split s in keep w ws

abbrev after_underscore : Text → Text
after_underscore [] = []
after_underscore (c ∷ cs) = underscore ∷ c ∷ cs

-- Words in a row, with an underscore between two.
abbrev pub joined : List Text → Text
joined [] = []
joined (w ∷ ws) = w ++ after_underscore (joined ws)

name_unit-not-underscore : (c : ℕ) → is_name_unit c ≡ true → (c == underscore) ≡ false
name_unit-not-underscore c h = ground (arith, h)

unit_before :
    (c : ℕ) (t : Text)
    → (c == underscore) ≡ false
    → (if truthy t then c ∷ t else (if c == underscore then [] else c ∷ [])) ≡ c ∷ t
unit_before c [] h = rw h refl
unit_before c (_ ∷ _) h = refl

strip_end-unit :
    (c : ℕ) (s : Text) → (c == underscore) ≡ false → strip_end (c ∷ s) ≡ c ∷ strip_end s
strip_end-unit c s h = unit_before c (strip_end s) h

underscore_before : (t : Text) → (if truthy t then underscore ∷ t else []) ≡ after_underscore t
underscore_before [] = refl
underscore_before (_ ∷ _) = refl

-- What is folded, without the underscore at the end: behind a run and behind none.
strip_end-fold_runs :
    (s : Text)
    → (strip_end (fold_runs false s) ≡ (split s).0 ++ after_underscore (joined (split s).1))
      × (strip_end (fold_runs true s) ≡ joined (words s))
unfolding fold_runs
strip_end-fold_runs [] = (refl, refl)
strip_end-fold_runs (c ∷ s) =
    let (outside, inside) = strip_end-fold_runs s in
    elim (Bool-cases (is_name_unit c)) [
      | inl unit ↦
          let e =
            strip_end-unit c (fold_runs false s) (name_unit-not-underscore c unit)
            ∙ ap (λ t. c ∷ t) outside in
          rw unit (e, e)
      | inr gap ↦ rw gap (
        underscore_before (strip_end (fold_runs true s)) ∙ ap (λ t. after_underscore t) inside,
        inside,
      )
    ]

strip_start-fold_runs : (s : Text) → strip_start (fold_runs true s) ≡ fold_runs true s
unfolding fold_runs
strip_start-fold_runs [] = refl
strip_start-fold_runs (c ∷ s) = elim (Bool-cases (is_name_unit c)) [
  | inl unit ↦ rw (unit, name_unit-not-underscore c unit) refl
  | inr gap ↦ rw gap (strip_start-fold_runs s)
]

strip_underscores-fold_runs : (s : Text) → strip_underscores (fold_runs false s) ≡ joined (words s)
unfolding fold_runs
strip_underscores-fold_runs [] = refl
strip_underscores-fold_runs (c ∷ s) = elim (Bool-cases (is_name_unit c)) [
  | inl unit ↦
      let no = name_unit-not-underscore c unit in
      rw (unit, no)
        (strip_end-unit c (fold_runs false s) no ∙ ap (λ t. c ∷ t) (strip_end-fold_runs s).0)
  | inr gap ↦ rw gap (ap (λ t. strip_end t) (strip_start-fold_runs s) ∙ (strip_end-fold_runs s).1)
]

-- The variable is the prefix and the words of the reference in upper case, underscores between them.
pub env_var_name-words :
    (ref prefix : Text) → env_var_name ref prefix ≡ prefix ++ joined (words (to_upper_case ref))
unfolding env_var_name
env_var_name-words ref prefix =
    ap (λ t. prefix ++ t) (strip_underscores-fold_runs (to_upper_case ref))
