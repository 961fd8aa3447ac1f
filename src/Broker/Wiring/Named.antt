-- ===== src/Broker/Wiring/Named.antt =====
-- Which texts name a policy source.
use agent_valet.Common.{
  ℕ, true, Option, none, some, [], ◌∷◌, ◌++◌, Text, codes, ◌===◌, ===_iff, ◌==◌, ◌≡◌, refl, sym, ap,
  ◌∙◌, subst, Bool-cases, inl, inr, arith,
}
use agent_valet.Common.Effects.{ok}
use agent_valet.Broker.Wiring.{
  written, PolicyChoice, policy_given, file_policy, authzen_policy, hosted_policy, at_colon,
  cut_front, split_scheme, scheme_or_error, api_url, policy_by_scheme, with_scheme,
  resolve_policy_source,
}

-- the two parts, with the colon between them
abbrev joined : Text → Text → Text
joined scheme rest = scheme ++ (b':' ∷ rest)

cut_front-joined :
    (c : ℕ) (cs scheme rest : Text) (more : Option (Text × Text))
    → ((s r : Text) → more ≡ some (s, r) → cs ≡ joined s r)
    → cut_front c more ≡ some (scheme, rest)
    → c ∷ cs ≡ joined scheme rest
cut_front-joined c cs scheme rest none h e = cc
cut_front-joined c cs scheme rest (some (s, r)) h e =
    let same : ◌≡◌ {A = Text × Text} (c ∷ s, r) (scheme, rest) = cc in
    ap (λ t. c ∷ t) (h s r refl) ∙ ap (λ p. joined p.0 p.1) same

at_colon-joined :
    (spec scheme rest : Text) → at_colon spec ≡ some (scheme, rest) → spec ≡ joined scheme rest
unfolding at_colon
at_colon-joined [] scheme rest = λ e. cc
at_colon-joined (c ∷ cs) scheme rest = elim (Bool-cases (c == b':')) [
  | inr f ↦ rw f (cut_front-joined c cs scheme rest (at_colon cs) (λ s r. at_colon-joined cs s r))
  | inl f ↦ rw f (λ e.
      let colon : c ≡ b':' = ground (arith, f) in
      let same : ◌≡◌ {A = Text × Text} ([], cs) (scheme, rest) = cc in
      ap (λ x. x ∷ cs) colon ∙ ap (λ p. joined p.0 p.1) same)
]

module _ (P : Type 0) where
  -- the text that names a choice
  abbrev pub IsNameOf : Text → PolicyChoice P → Type 0
  IsNameOf spec (policy_given source) = ⊥
  IsNameOf spec (file_policy path) = spec ≡ joined (codes "file") path
  IsNameOf spec (authzen_policy url) = spec ≡ joined (codes "authzen") url
  IsNameOf spec (hosted_policy none) = spec ≡ joined (codes "agentvalet") []
  IsNameOf spec (hosted_policy (some url)) = spec ≡ joined (codes "agentvalet") url

  hosted-IsNameOf :
      (rest : Text) → IsNameOf (joined (codes "agentvalet") rest) (hosted_policy (api_url rest))
  hosted-IsNameOf [] = refl
  hosted-IsNameOf (c ∷ cs) = refl

  module _ (scheme rest : Text) (choice : PolicyChoice P) where
    -- a choice for a scheme that is this one
    known :
        (name : Text) (made : PolicyChoice P)
        → (scheme === name) ≡ true
        → IsNameOf (joined name rest) made
        → ok made ≡ ok choice
        → IsNameOf (joined scheme rest) choice
    known name made e named h =
        let same : made ≡ choice = cc in
        subst (λ s. IsNameOf (joined s rest) choice) (sym ((===_iff scheme name).0 e))
          (subst (IsNameOf (joined name rest)) same named)

    policy_by_scheme-IsNameOf :
        policy_by_scheme scheme rest ≡ ok choice → IsNameOf (joined scheme rest) choice
    policy_by_scheme-IsNameOf = elim (Bool-cases (scheme === codes "file")) [
      | inl e ↦ rw e (known (codes "file") (file_policy rest) e refl)
      | inr e ↦ elim (Bool-cases (scheme === codes "authzen")) [
        | inl f ↦ rw (e, f) (known (codes "authzen") (authzen_policy rest) f refl)
        | inr f ↦ elim (Bool-cases (scheme === codes "agentvalet")) [
          | inl g ↦
              rw (e, f, g)
                (known (codes "agentvalet") (hosted_policy (api_url rest)) g (hosted-IsNameOf rest))
          | inr g ↦ rw (e, f, g) (λ h. cc)
        ]
      ]
    ]

  by_parts :
      (spec : Text) (choice : PolicyChoice P) (parts : Option (Text × Text))
      → at_colon spec ≡ parts
      → with_scheme policy_by_scheme (scheme_or_error spec parts) ≡ ok choice
      → IsNameOf spec choice
  by_parts spec choice none e h = cc
  by_parts spec choice (some (scheme, rest)) e h =
      subst (λ s. IsNameOf s choice) (sym (at_colon-joined spec scheme rest e))
        (policy_by_scheme-IsNameOf scheme rest choice h)

  -- A text is resolved to a policy source only where it is the source's scheme, a colon and the
  -- source's own locator: no other text falls back to some source.
  pub resolve_policy_source-IsNameOf :
      (spec : Text) (choice : PolicyChoice P)
      → resolve_policy_source (written spec) ≡ ok choice
      → IsNameOf spec choice
  unfolding resolve_policy_source split_scheme
  resolve_policy_source-IsNameOf spec choice h = by_parts spec choice (at_colon spec) refl h
