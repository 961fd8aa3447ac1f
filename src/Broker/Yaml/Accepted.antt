-- ===== src/Broker/Yaml/Accepted.antt =====
-- What a policy that `parsePolicy` accepts is like.
use agent_valet.Common.{
  ℕ, suc, true, false, Bool-cases, inl, inr, Option, none, some, Option-cases, List, [], ◌∷◌, Text,
  truthy, includes, All, ◌≡◌, ◌⊎◌, sym, ap, subst, ◌∙◌, arith,
}
use agent_valet.Common.Js.{trim}
use agent_valet.Broker.Yaml.Forbidden.{IsSpaces, IsPlain, forbidden-IsPlain, trim-IsSpaces}
use agent_valet.Broker.Yaml.{
  PolicyRuleDoc, PolicyDoc, DraftRule, Parser, initial, step, run, build_rules, rule_of, named,
  finish, checked_version, all_drafts, parse_policy, clean_line,
}
use agent_valet.Broker.Yaml.Scan.{
  Reason, ◌>>=◌, Parsed, ok, err, bind-eq-ok, split_lines, strip_comment, forbidden,
}

-- Every rule names a tool, and no two rules the same; `seen` are tools that are taken.
abbrev pub NamesDistinct : List Text → List PolicyRuleDoc → Type 0
NamesDistinct seen [] = Unit
NamesDistinct seen (r ∷ rs) =
    (truthy r.tool ≡ true) × (includes seen r.tool ≡ false) × NamesDistinct (r.tool ∷ seen) rs

named-truthy : (o : Option Text) {t : Text} → named o ≡ some t → truthy t ≡ true
named-truthy none h = cc
named-truthy (some []) h = cc
named-truthy (some (c ∷ cs)) h = ground arith

-- The same of a result; an error has nothing to show.
abbrev Distinct : List Text → Parsed (List PolicyRuleDoc) → Type 0
Distinct seen (ok rs) = NamesDistinct seen rs
Distinct seen (err why line) = Unit

Distinct-cons :
    (seen : List Text) (t : Text) (d : DraftRule) (r : Parsed (List PolicyRuleDoc))
    → truthy t ≡ true
    → includes seen t ≡ false
    → Distinct (t ∷ seen) r
    → Distinct seen (r >>= λ rs. ok (rule_of t d ∷ rs))
Distinct-cons seen t d (ok rs) h k ih = (h, k, ih)
Distinct-cons seen t d (err why line) h k ih = tt

build_rules-Distinct :
    (seen : List Text) (ds : List DraftRule) → Distinct seen (build_rules seen ds)
unfolding build_rules
build_rules-Distinct seen [] = tt
build_rules-Distinct seen (d ∷ ds) = elim (Option-cases (named d.tool)) [
  | inl missing ↦ rw (missing, build_rules) tt
  | inr (t, e) ↦ elim (Bool-cases (includes seen t)) [
    | inl old ↦ rw (e, build_rules) (rw old tt)
    | inr new ↦
        rw (e, build_rules)
          (rw new (
            Distinct-cons seen t d (build_rules (t ∷ seen) ds) (named-truthy d.tool e) new
              (build_rules-Distinct (t ∷ seen) ds)))
  ]
]

-- A line is white space once its comment is off, tabs included, or has no tab and none of the
-- other forbidden syntax.
abbrev pub IsClean : Text → Type 0
IsClean line = IsSpaces (strip_comment line) ⊎ IsPlain (strip_comment line)

step-IsClean : (p : Parser) (l : Text) (n : ℕ) {q : Parser} → step p l n ≡ ok q → IsClean l
unfolding step
step-IsClean p l n {q} h = elim (Bool-cases (truthy (trim (strip_comment l)))) [
  | inr blank ↦ inl (trim-IsSpaces (strip_comment l) blank)
  | inl filled ↦ elim (Option-cases (forbidden (strip_comment l))) [
    | inl clean ↦ inr (forbidden-IsPlain (strip_comment l) clean)
    | inr (why, found) ↦ absurd (refused why found (rw filled at h))
  ]
]
  where
    refused :
        (why : Reason)
        → forbidden (strip_comment l) ≡ some why
        → clean_line p (strip_comment l) n (forbidden (strip_comment l)) ≡ ok q
        → ⊥
    refused why found k = cc (rw found at k)

run-IsClean :
    (ls : List Text) (p : Parser) (n : ℕ) {q : Parser} → run p ls n ≡ ok q → All IsClean ls
unfolding run
run-IsClean [] p n h = tt
run-IsClean (l ∷ ls) p n h =
    let (q, stepped, later) = bind-eq-ok (step p l n) (λ q. run q ls (suc n)) h in
    (step-IsClean p l n stepped, run-IsClean ls q (suc n) later)

abbrev version_of : Parsed PolicyDoc → ℕ
version_of (ok doc) = doc.version
version_of (err why line) = 0

abbrev rules_of : Parsed PolicyDoc → List PolicyRuleDoc
rules_of (ok doc) = doc.rules
rules_of (err why line) = []

checked_version-eq-one : (o : Option ℕ) {v : ℕ} → checked_version o ≡ ok v → v ≡ 1
checked_version-eq-one none h = cc
checked_version-eq-one (some w) h = ground arith

-- What is accepted has version 1 and rules with distinct non-empty tool names; and each of its lines,
-- once its comment is off, is white space alone, which may be tabs, or holds no tab, no anchor or
-- alias, no merge key, no interpolation and no flow collection.
pub parse_policy_accepted :
    (source : Text) (doc : PolicyDoc)
    → parse_policy source ≡ ok doc
    → (doc.version ≡ 1) × NamesDistinct [] doc.rules × All IsClean (split_lines source)
unfolding parse_policy finish
parse_policy_accepted source doc h =
    let (p, ran, finished) = bind-eq-ok (run initial (split_lines source) 1) finish h in
    let (v, versioned, built) = bind-eq-ok (checked_version p.version) _ finished in
    let (rs, listed, made) = bind-eq-ok (build_rules [] (all_drafts p)) _ built in
    let distinct : NamesDistinct [] rs = rw listed at (build_rules-Distinct [] (all_drafts p)) in
    (
      ap version_of (sym made) ∙ checked_version-eq-one p.version versioned,
      subst (λ r. NamesDistinct [] (rules_of r)) made distinct,
      run-IsClean (split_lines source) initial 1 ran,
    )
