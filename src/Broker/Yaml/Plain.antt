-- ===== src/Broker/Yaml/Plain.antt =====
-- Names of letters, digits, "_", "-" and "." pass every scanner of the parser as they are.
use agent_valet.Common.{
  ℕ, Bool, true, false, ◌&&◌, ◌||◌, [], ◌∷◌, Text, All, leb, ◌==◌, ◌≡◌, refl, ap, ◌∙◌, arith,
}
use agent_valet.Common.Js.{is_space, trim, trim_start, trim_end, has_unit}
use agent_valet.Broker.Yaml.Scan.{
  ok, strip_from, has_anchor, has_merge_key, has_interpolation, has_flow, unquote,
}

abbrev within : ℕ → ℕ → ℕ → Bool
within lo hi c = leb lo c && leb c hi

unfoldable pub is_plain : ℕ → Bool
is_plain c =
    within b'a' b'z' c
    || within b'A' b'Z' c
    || within b'0' b'9' c
    || c == b'_'
    || within b'-' b'.' c

abbrev pub Plain : Text → Type 0
Plain name = All (λ c. is_plain c ≡ true) name

-- a code unit that no scanner stops at
pub record IsOrdinary (c : ℕ) : Type 0 where
  pub not_space : is_space c ≡ false
  pub not_hash : (c == b'#') ≡ false
  pub not_quote : (c == b'\'') ≡ false
  pub not_double : (c == b'"') ≡ false
  pub quote_ne : (b'\'' == c) ≡ false
  pub double_ne : (b'"' == c) ≡ false
  pub not_and : (c == b'&') ≡ false
  pub not_star : (c == b'*') ≡ false
  pub not_less : (c == b'<') ≡ false
  pub not_dollar : (c == b'$') ≡ false
  pub not_colon : (c == b':') ≡ false
  pub not_bracket : (c == b'[') ≡ false
  pub not_brace : (c == b'{') ≡ false
  pub not_tab : (c == b'\t') ≡ false
  pub not_newline : (c == b'\n') ≡ false
  pub not_return : (c == b'\r') ≡ false

pub is_plain-IsOrdinary : (c : ℕ) → is_plain c ≡ true → IsOrdinary c
unfolding is_plain is_space
is_plain-IsOrdinary c h = ground arith

pub strip_from-Plain :
    (opens : Bool) (name : Text) → Plain name → strip_from opens false false name ≡ name
unfolding strip_from
strip_from-Plain opens [] h = refl
strip_from-Plain opens (c ∷ cs) h =
    let o = is_plain-IsOrdinary c h.0 in
    rw (o.not_hash)
      (rw (o.not_quote) (rw (o.not_double) (ap (◌∷◌ c) (strip_from-Plain (is_space c) cs h.1))))

pub trim_start-Plain : (name : Text) → Plain name → trim_start name ≡ name
trim_start-Plain [] h = refl
trim_start-Plain (c ∷ cs) h = rw ((is_plain-IsOrdinary c h.0).not_space)

pub trim_end-Plain : (name : Text) → Plain name → trim_end name ≡ name
trim_end-Plain [] h = refl
trim_end-Plain (c ∷ cs) h =
    rw ((is_plain-IsOrdinary c h.0).not_space) (ap (◌∷◌ c) (trim_end-Plain cs h.1))

pub trim-Plain : (name : Text) → Plain name → trim name ≡ name
trim-Plain name h = ap trim_end (trim_start-Plain name h) ∙ trim_end-Plain name h

module _ (q : ℕ) (other : (c : ℕ) → is_plain c ≡ true → (c == q) ≡ false) where
  pub has_unit-Plain : (name : Text) → Plain name → has_unit q name ≡ false
  has_unit-Plain [] h = refl
  has_unit-Plain (c ∷ cs) h = rw (other c h.0) (has_unit-Plain cs h.1)

pub has_anchor-Plain : (edge : Bool) (name : Text) → Plain name → has_anchor edge name ≡ false
unfolding has_anchor
has_anchor-Plain edge [] h = refl
has_anchor-Plain edge (c ∷ cs) h =
    ground (arith, is_plain-IsOrdinary c h.0, has_anchor-Plain (is_space c) cs h.1)

pub has_merge_key-Plain : (name : Text) → Plain name → has_merge_key name ≡ false
unfolding has_merge_key
has_merge_key-Plain [] h = refl
has_merge_key-Plain (c ∷ cs) h =
    rw ((is_plain-IsOrdinary c h.0).not_less) (has_merge_key-Plain cs h.1)

pub has_interpolation-Plain : (name : Text) → Plain name → has_interpolation name ≡ false
unfolding has_interpolation
has_interpolation-Plain [] h = refl
has_interpolation-Plain (c ∷ cs) h =
    rw ((is_plain-IsOrdinary c h.0).not_dollar) (has_interpolation-Plain cs h.1)

pub has_flow-Plain : (name : Text) → Plain name → has_flow name ≡ false
unfolding has_flow
has_flow-Plain [] h = refl
has_flow-Plain (c ∷ cs) h = rw ((is_plain-IsOrdinary c h.0).not_colon) (has_flow-Plain cs h.1)

pub unquote-Plain :
    (c : ℕ) (cs : Text) (line : ℕ) → Plain (c ∷ cs) → unquote (c ∷ cs) line ≡ ok (c ∷ cs)
unfolding unquote
unquote-Plain c cs line h = rw (trim-Plain (c ∷ cs) h) (
    let o = is_plain-IsOrdinary c h.0 in
    rw (o.double_ne) (
      rw (o.quote_ne) (
        rw (o.not_double) (
          rw (o.not_quote) (
            rw (has_unit-Plain b'"' (λ d k. (is_plain-IsOrdinary d k).not_double) cs h.1)
              (rw (has_unit-Plain b'\'' (λ d k. (is_plain-IsOrdinary d k).not_quote) cs h.1)))))))

-- A name that may be written without quotes.
abbrev pub IsName : Text → Type 0
IsName [] = ⊥
IsName (c ∷ cs) = Plain (c ∷ cs)
