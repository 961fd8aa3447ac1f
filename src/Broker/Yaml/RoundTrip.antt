-- ===== src/Broker/Yaml/RoundTrip.antt =====
-- The parser reads back every document that is written in the canonical lines.
use agent_valet.Common.{
  ℕ, suc, true, Option, none, some, List, [], ◌∷◌, ◌++◌, Text, codes, map, not, ◌&&◌, all, truthy,
  All-append, All, ◌==◌, append-nil, append_assoc, ◌≡◌, refl, ap, ◌∙◌, sym, arith,
}
use agent_valet.Broker.Yaml.{
  RuleEffect, allow, deny, require_approval, named, DefaultsEffect, PolicyRuleDoc, PolicyDoc,
  DraftRule, Parser, step, run, all_drafts, build_rules, finish, parse_policy,
}
use agent_valet.Broker.Yaml.Accepted.{NamesDistinct}
use agent_valet.Broker.Yaml.Lines.{
  at_rules, effect_text, defaults_text, drafted, credential_lines, rule_lines, rules_lines,
  doc_lines, unlines, step-tool, step-effect, step-credential, step-head,
}
use agent_valet.Broker.Yaml.Plain.{IsName, Plain, is_plain-IsOrdinary}
use agent_valet.Broker.Yaml.Scan.{ok, strip_comment, split_lines}

abbrev pub IsNamed : Option Text → Type 0
IsNamed none = Unit
IsNamed (some name) = IsName name

-- Tool and credential names can be written without quotes, and no two rules name the same tool.
pub record IsPrintable (doc : PolicyDoc) : Type 0 where
  pub version_one : doc.version ≡ 1
  pub names : All (λ r. IsName r.tool × IsNamed r.credential) doc.rules
  pub distinct : NamesDistinct [] doc.rules

abbrev pub print : PolicyDoc → Text
print doc = unlines (doc_lines doc)

-- a line with no line break
abbrev OnOneLine : Text → Type 0
OnOneLine l = all (λ c. not (c == b'\n') && not (c == b'\r')) l ≡ true

split_lines-line :
    (l rest : Text) → OnOneLine l → split_lines (l ++ (b'\n' ∷ rest)) ≡ l ∷ split_lines rest
unfolding split_lines
split_lines-line [] rest h = refl
split_lines-line (c ∷ cs) rest h = ground (arith, split_lines-line cs rest)

split_lines-unlines : (ls : List Text) → All OnOneLine ls → split_lines (unlines ls) ≡ ls ++ [] ∷ []
unfolding split_lines
split_lines-unlines [] h = refl
split_lines-unlines (l ∷ ls) h =
    split_lines-line l (unlines ls) h.0 ∙ ap (◌∷◌ l) (split_lines-unlines ls h.1)

draft_of : PolicyRuleDoc → DraftRule
draft_of r = drafted r.tool r.effect r.credential

module _ (d : DefaultsEffect) where
  abbrev reading : List DraftRule → Option DraftRule → Parser
  reading ds current = at_rules (some 1) (some d) ds current

  credential_lines-run :
      (ds : List DraftRule) (t : Text) (e : RuleEffect) (c : Option Text) (ls : List Text) (n : ℕ)
      → IsNamed c
      → (m : ℕ) × (run (reading ds (some (drafted t e none))) (credential_lines c ++ ls) n
          ≡ run (reading ds (some (drafted t e c))) ls m)
  unfolding run
  credential_lines-run ds t e none ls n h = (n, refl)
  credential_lines-run ds t e (some name) ls n h =
      (suc n, rw (step-credential (some 1) (some d) ds t e name n h))

  -- the parser behind the lines of one rule, at some line number
  rule_lines-run :
      (ds : List DraftRule) (current : Option DraftRule) (r : PolicyRuleDoc) (ls : List Text)
      (n : ℕ)
      → IsName r.tool
      → IsNamed r.credential
      → (m : ℕ) × (run (reading ds current) (rule_lines r ++ ls) n
          ≡ run (reading (all_drafts (reading ds current)) (some (draft_of r))) ls m)
  unfolding run draft_of
  rule_lines-run ds current r ls n h k =
      let ds' = all_drafts (reading ds current) in
      let (m, ran) = credential_lines-run ds' r.tool r.effect r.credential ls (suc (suc n)) k in
      (
        m,
        rw (step-tool (some 1) (some d) ds current r.tool n h)
            (rw (step-effect (some 1) (some d) ds' r.tool r.effect (suc n)) ran),
      )

  -- the parser behind the lines of all rules: its drafts are theirs, in order
  rules_lines-run :
      (rs : List PolicyRuleDoc) (ds : List DraftRule) (current : Option DraftRule) (ls : List Text)
      (n : ℕ)
      → All (λ r. IsName r.tool × IsNamed r.credential) rs
      → (ds' : List DraftRule) × (current' : Option DraftRule) × (m : ℕ) × (run
            (reading ds current)
            (rules_lines rs ++ ls)
            n
          ≡ run (reading ds' current') ls m)
        × (all_drafts (reading ds' current') ≡ all_drafts (reading ds current) ++ map draft_of rs)
  rules_lines-run [] ds current ls n h = (ds, current, n, refl, sym (append-nil _))
  rules_lines-run (r ∷ rs) ds current ls n ((h, k), hs) =
      let before = all_drafts (reading ds current) in
      let (m, ran) = rule_lines-run ds current r (rules_lines rs ++ ls) n h k in
      let (ds', current', m', ran', same) = rules_lines-run rs before (some (draft_of r)) ls m hs in
      (
        ds',
        current',
        m',
        rw append_assoc (ran ∙ ran'),
        same ∙ append_assoc before (draft_of r ∷ []) (map draft_of rs),
      )

named-some : (t : Text) → truthy t ≡ true → named (some t) ≡ some t
named-some [] h = cc
named-some (c ∷ cs) h = refl

build_rules-draft_of :
    (rs : List PolicyRuleDoc) (seen : List Text)
    → NamesDistinct seen rs
    → build_rules seen (map draft_of rs) ≡ ok rs
unfolding build_rules draft_of
build_rules-draft_of [] seen h = refl
build_rules-draft_of (r ∷ rs) seen (h, k, hs) =
    rw (named-some r.tool h) (rw k (rw (build_rules-draft_of rs (r.tool ∷ seen) hs)))

Plain-OnOneLine : (name : Text) → Plain name → OnOneLine name
Plain-OnOneLine [] h = refl
Plain-OnOneLine (c ∷ cs) h =
    let o = is_plain-IsOrdinary c h.0 in
    rw (o.not_newline) (rw (o.not_return) (Plain-OnOneLine cs h.1))

IsName-OnOneLine : (name : Text) → IsName name → OnOneLine name
IsName-OnOneLine [] h = absurd h
IsName-OnOneLine (c ∷ cs) h = Plain-OnOneLine (c ∷ cs) h

effect_line-OnOneLine : (e : RuleEffect) → OnOneLine (codes "    effect: " ++ effect_text e)
effect_line-OnOneLine allow = refl
effect_line-OnOneLine deny = refl
effect_line-OnOneLine require_approval = refl

credential_lines-OnOneLine : (c : Option Text) → IsNamed c → All OnOneLine (credential_lines c)
credential_lines-OnOneLine none h = tt
credential_lines-OnOneLine (some name) h = (IsName-OnOneLine name h, tt)

rules_lines-OnOneLine :
    (rs : List PolicyRuleDoc)
    → All (λ r. IsName r.tool × IsNamed r.credential) rs
    → All OnOneLine (rules_lines rs)
rules_lines-OnOneLine [] h = tt
rules_lines-OnOneLine (r ∷ rs) ((h, k), hs) =
    All-append OnOneLine (rule_lines r) (rules_lines rs)
      (
        IsName-OnOneLine r.tool h,
        (effect_line-OnOneLine r.effect, credential_lines-OnOneLine r.credential k),
      )
      (rules_lines-OnOneLine rs hs)

defaults_line-OnOneLine : (d : DefaultsEffect) → OnOneLine (codes "  effect: " ++ defaults_text d)
defaults_line-OnOneLine allow = refl
defaults_line-OnOneLine deny = refl

doc_lines-OnOneLine : (doc : PolicyDoc) → IsPrintable doc → All OnOneLine (doc_lines doc)
doc_lines-OnOneLine doc h = (
  refl,
  (refl, (defaults_line-OnOneLine doc.defaults, (refl, rules_lines-OnOneLine doc.rules h.names))),
)

run-end : (p : Parser) (n : ℕ) → run p ([] ∷ []) n ≡ ok p
unfolding run step strip_comment
run-end p n = refl

finish-reading :
    (doc : PolicyDoc) (ds : List DraftRule) (current : Option DraftRule)
    → IsPrintable doc
    → all_drafts (reading doc.defaults ds current) ≡ map draft_of doc.rules
    → finish (reading doc.defaults ds current) ≡ ok doc
unfolding finish
finish-reading doc ds current h drafts =
    rw drafts (rw (build_rules-draft_of doc.rules [] h.distinct) (rw (h.version_one)))

-- The parser reads a printable document back from its canonical text, whatever its defaults, its
-- effects and the number of its rules.
pub parse_policy-print : (doc : PolicyDoc) → IsPrintable doc → parse_policy (print doc) ≡ ok doc
unfolding parse_policy
parse_policy-print doc h =
    let (ds, current, m, ran, drafts) =
      rules_lines-run doc.defaults doc.rules [] none ([] ∷ []) 5 h.names in
    let read = step-head doc.defaults (rules_lines doc.rules ++ [] ∷ []) ∙ ran in
    rw (split_lines-unlines (doc_lines doc) (doc_lines-OnOneLine doc h)) (
      rw read
        (rw (run-end (reading doc.defaults ds current) m) (finish-reading doc ds current h drafts)))
