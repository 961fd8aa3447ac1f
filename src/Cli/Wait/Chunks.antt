-- ===== src/Cli/Wait/Chunks.antt =====
-- How a stream is cut into chunks does not matter to packages/cli/src/wait.ts.
use agent_valet.Common.{
  ℕ, false, Option, none, some, List, [], ◌∷◌, ◌++◌, Text, ◌==◌, ◌≡◌, refl, sym, ap, fun_ext, ◌∙◌,
  Bool-cases, inl, inr, append_assoc, append-nil, map,
}
use agent_valet.Common.Effects.{Try, Stateful}
use agent_valet.Common.Json.{Json}
use agent_valet.Cli.Wait.{
  WaitResult, split_lines, push, chunk, take_line, take_lines, or_next, read_stream,
}

-- the lines of a text, then those of another from the rest of the first on
abbrev then_split : List Text × Text → Text → List Text × Text
then_split (lines, rest) text =
    let (more, rest') = split_lines (rest ++ text) in (lines ++ more, rest')

push-then_split :
    (c : ℕ) (front : List Text × Text) (text : Text)
    → (c == 10) ≡ false
    → push c (then_split front text) ≡ then_split (push c front) text
push-then_split c ([], rest) text e = rw e refl
push-then_split c (line ∷ lines, rest) text e = refl

split_lines-append : (a b : Text) → split_lines (a ++ b) ≡ then_split (split_lines a) b
split_lines-append [] b = refl
split_lines-append (c ∷ a) b = elim (Bool-cases (c == 10)) [
  | inl e ↦ rw (e, split_lines-append a b) refl
  | inr e ↦
      rw e (ap (λ s. push c s) (split_lines-append a b) ∙ push-then_split c (split_lines a) b e)
]

push-none : (c : ℕ) (front : List Text × Text) → front.0 ≡ [] → (push c front).0 ≡ []
push-none c ([], rest) e = refl
push-none c (line ∷ lines, rest) e = cc

push-rest :
    (c : ℕ) (front : List Text × Text)
    → (c == 10) ≡ false
    → (split_lines front.1).0 ≡ []
    → (split_lines (push c front).1).0 ≡ []
push-rest c ([], rest) n e = rw n (push-none c (split_lines rest) e)
push-rest c (line ∷ lines, rest) n e = e

-- what is left has no line of its own
split_lines-rest : (a : Text) → (split_lines (split_lines a).1).0 ≡ []
split_lines-rest [] = refl
split_lines-rest (c ∷ a) = elim (Bool-cases (c == 10)) [
  | inl e ↦ rw e (split_lines-rest a)
  | inr e ↦ rw e (push-rest c (split_lines a) e (split_lines-rest a))
]

abbrev pub concat : List Text → Text
concat [] = []
concat (t ∷ ts) = t ++ concat ts

or_next_assoc :
    {W : Type 0}
    → (first next : Stateful W (Option WaitResult)) (r : Option WaitResult × W)
    → or_next next (or_next first r) ≡ or_next (λ w. or_next next (first w)) r
or_next_assoc first next (some r, w) = refl
or_next_assoc first next (none, w) = refl

module _ {W : Type 0} (json_parse : Text → Try Json) (tick : W → W) where
  take_lines-append :
      (a b : List Text) (w : W)
      → take_lines json_parse tick (a ++ b) w
        ≡ or_next (take_lines json_parse tick b) (take_lines json_parse tick a w)
  take_lines-append [] b w = refl
  take_lines-append (line ∷ a) b w =
      ap (λ f. or_next f (take_line json_parse tick line w)) (fun_ext (take_lines-append a b))
      ∙ sym (
          or_next_assoc (take_lines json_parse tick a) (take_lines json_parse tick b)
            (take_line json_parse tick line w))

  -- the invariant of the loop: no line is left in the buffer
  read_stream-buffered :
      (buffer : Text) (texts : List Text) (w : W)
      → (split_lines buffer).0 ≡ []
      → read_stream json_parse tick buffer (map (λ t. chunk t) texts) w
        ≡ or_next
            (λ w'. (none, w'))
            (take_lines json_parse tick (split_lines (buffer ++ concat texts)).0 w)
  unfolding read_stream
  read_stream-buffered buffer [] w e = rw (append-nil buffer, e) refl
  read_stream-buffered buffer (t ∷ texts) w e =
      let cut = split_lines (buffer ++ t) in
      let more = (split_lines (cut.1 ++ concat texts)).0 in
      ap (λ f. or_next f (take_lines json_parse tick cut.0 w))
        (fun_ext (λ x. read_stream-buffered cut.1 texts x (split_lines-rest (buffer ++ t))))
      ∙ sym (
          or_next_assoc (take_lines json_parse tick more) (λ w'. (none, w'))
            (take_lines json_parse tick cut.0 w))
      ∙ ap (λ r. or_next (λ w'. (none, w')) r) (sym (take_lines-append cut.0 more w))
      ∙ ap (λ s. or_next (λ w'. (none, w')) (take_lines json_parse tick s.0 w))
          (sym (split_lines-append (buffer ++ t) (concat texts)))
      ∙ ap (λ s. or_next (λ w'. (none, w')) (take_lines json_parse tick (split_lines s).0 w))
          (append_assoc buffer t (concat texts))

  -- A stream that comes without a failed read gives the same result, and ticks as often, however
  -- its text is cut into chunks: as it does where the whole text is one chunk.
  pub read_stream-concat :
      (texts : List Text) (w : W)
      → read_stream json_parse tick [] (map (λ t. chunk t) texts) w
        ≡ read_stream json_parse tick [] (chunk (concat texts) ∷ []) w
  unfolding read_stream
  read_stream-concat texts w = read_stream-buffered [] texts w refl
