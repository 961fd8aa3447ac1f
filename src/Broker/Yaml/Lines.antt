-- ===== src/Broker/Yaml/Lines.antt =====
-- The canonical lines of the grammar at the head of yaml.ts, and what the parser does at each.
use agent_valet.Common.{
  ℕ, true, Option, none, some, List, [], ◌∷◌, ◌++◌, Text, codes, ◌===◌, ◌≡◌, refl,
}
use agent_valet.Common.Js.{is_space}
use agent_valet.Broker.Yaml.{
  RuleEffect, allow, deny, require_approval, DefaultsEffect, PolicyRuleDoc, PolicyDoc, DraftRule,
  Parser, step, run, all_drafts, initial, rules,
}
use agent_valet.Broker.Yaml.Plain.{
  IsName, strip_from-Plain, trim_end-Plain, has_unit-Plain, is_plain-IsOrdinary, has_anchor-Plain,
  has_merge_key-Plain, has_interpolation-Plain, has_flow-Plain, unquote-Plain,
}
use agent_valet.Broker.Yaml.Scan.{
  ok, strip_comment, forbidden, indent_of, body_of, split_key_value, is_number, unquote,
}

-- The parser inside the "rules:" section.
abbrev pub at_rules : Option ℕ → Option DefaultsEffect → List DraftRule → Option DraftRule → Parser
at_rules v d ds current = record {
  version = v;
  defaults_effect = d;
  drafts = ds;
  section = rules;
  current = current;
}

abbrev pub effect_text : RuleEffect → Text
effect_text allow = codes "allow"
effect_text deny = codes "deny"
effect_text require_approval = codes "require_approval"

abbrev pub defaults_text : DefaultsEffect → Text
defaults_text allow = codes "allow"
defaults_text deny = codes "deny"

abbrev pub credential_lines : Option Text → List Text
credential_lines none = []
credential_lines (some name) = (codes "    credential: " ++ name) ∷ []

abbrev pub rule_lines : PolicyRuleDoc → List Text
rule_lines r =
    (codes "  - tool: " ++ r.tool)
    ∷ (codes "    effect: " ++ effect_text r.effect)
    ∷ credential_lines r.credential

abbrev pub rules_lines : List PolicyRuleDoc → List Text
rules_lines [] = []
rules_lines (r ∷ rs) = rule_lines r ++ rules_lines rs

-- The text of a document in the grammar, line by line.
abbrev pub doc_lines : PolicyDoc → List Text
doc_lines doc =
    codes "version: 1"
    ∷ codes "defaults:"
    ∷ (codes "  effect: " ++ defaults_text doc.defaults)
    ∷ codes "rules:"
    ∷ rules_lines doc.rules

abbrev pub unlines : List Text → Text
unlines [] = []
unlines (l ∷ ls) = l ++ (b'\n' ∷ unlines ls)

abbrev pub drafted : Text → RuleEffect → Option Text → DraftRule
drafted tool e c = record { tool = some tool; effect = e; credential = c; indent = 2 }

forbidden-tool : (name : Text) → IsName name → forbidden (codes "  - tool: " ++ name) ≡ none
unfolding forbidden is_space
forbidden-tool [] h = absurd h
forbidden-tool (c ∷ cs) h =
    let o = is_plain-IsOrdinary c h.0 in
    rw (has_unit-Plain b'\t' (λ d k. (is_plain-IsOrdinary d k).not_tab) (c ∷ cs) h) (
      rw (has_anchor-Plain true (c ∷ cs) h) (
        rw (has_merge_key-Plain (c ∷ cs) h) (
          rw (has_interpolation-Plain (c ∷ cs) h) (
            rw (o.not_space)
              (rw (o.not_bracket) (rw (o.not_brace) (rw (has_flow-Plain (c ∷ cs) h))))))))

strip_comment-tool :
    (name : Text)
    → IsName name
    → strip_comment (codes "  - tool: " ++ name) ≡ codes "  - tool: " ++ name
unfolding strip_comment is_space
strip_comment-tool [] h = absurd h
strip_comment-tool (c ∷ cs) h = rw (strip_from-Plain true (c ∷ cs) h)

forbidden-credential :
    (name : Text) → IsName name → forbidden (codes "    credential: " ++ name) ≡ none
unfolding forbidden is_space
forbidden-credential [] h = absurd h
forbidden-credential (c ∷ cs) h =
    let o = is_plain-IsOrdinary c h.0 in
    rw (has_unit-Plain b'\t' (λ d k. (is_plain-IsOrdinary d k).not_tab) (c ∷ cs) h) (
      rw (has_anchor-Plain true (c ∷ cs) h) (
        rw (has_merge_key-Plain (c ∷ cs) h) (
          rw (has_interpolation-Plain (c ∷ cs) h) (
            rw (o.not_space)
              (rw (o.not_bracket) (rw (o.not_brace) (rw (has_flow-Plain (c ∷ cs) h))))))))

strip_comment-credential :
    (name : Text)
    → IsName name
    → strip_comment (codes "    credential: " ++ name) ≡ codes "    credential: " ++ name
unfolding strip_comment is_space
strip_comment-credential [] h = absurd h
strip_comment-credential (c ∷ cs) h = rw (strip_from-Plain true (c ∷ cs) h)

module _ (v : Option ℕ) (d : Option DefaultsEffect) (ds : List DraftRule) where
  pub step-tool :
      (current : Option DraftRule) (name : Text) (line : ℕ)
      → IsName name
      → step (at_rules v d ds current) (codes "  - tool: " ++ name) line
        ≡ ok (at_rules v d (all_drafts (at_rules v d ds current)) (some (drafted name deny none)))
  unfolding step is_space indent_of body_of split_key_value ◌===◌
  step-tool current [] line h = absurd h
  step-tool current (c ∷ cs) line h = rw (strip_comment-tool (c ∷ cs) h) (
      rw (forbidden-tool (c ∷ cs) h) (
        rw (trim_end-Plain (c ∷ cs) h) (
          rw ((is_plain-IsOrdinary c h.0).not_space) (
            rw (trim_end-Plain cs h.1)
              (rw ((is_plain-IsOrdinary c h.0).not_space) (rw (unquote-Plain c cs line h)))))))

  pub step-effect :
      (name : Text) (e : RuleEffect) (line : ℕ)
      → step
          (at_rules v d ds (some (drafted name deny none)))
          (codes "    effect: " ++ effect_text e)
          line
        ≡ ok (at_rules v d ds (some (drafted name e none)))
  unfolding step strip_comment is_space forbidden indent_of body_of split_key_value unquote ◌===◌
  step-effect name allow line = refl
  step-effect name deny line = refl
  step-effect name require_approval line = refl

  pub step-credential :
      (tool : Text) (e : RuleEffect) (name : Text) (line : ℕ)
      → IsName name
      → step (at_rules v d ds (some (drafted tool e none))) (codes "    credential: " ++ name) line
        ≡ ok (at_rules v d ds (some (drafted tool e (some name))))
  unfolding step is_space indent_of body_of split_key_value ◌===◌
  step-credential tool e [] line h = absurd h
  step-credential tool e (c ∷ cs) line h = rw (strip_comment-credential (c ∷ cs) h) (
      rw (forbidden-credential (c ∷ cs) h) (
        rw ((is_plain-IsOrdinary c h.0).not_space) (
          rw (trim_end-Plain cs h.1)
            (rw ((is_plain-IsOrdinary c h.0).not_space) (rw (unquote-Plain c cs line h))))))

-- The four lines above the rules.
pub step-head :
    (d : DefaultsEffect) (ls : List Text)
    → run initial
        (codes "version: 1"
          ∷ codes "defaults:"
          ∷ (codes "  effect: " ++ defaults_text d)
          ∷ codes "rules:"
          ∷ ls)
        1
      ≡ run (at_rules (some 1) (some d) [] none) ls 5
unfolding run step strip_comment is_space forbidden indent_of body_of split_key_value is_number
    unquote ◌===◌
step-head allow ls = refl
step-head deny ls = refl
