-- ===== src/Broker/Protection.antt =====
-- packages/mcp-broker/src/pipeline.ts over the policy file of policy/file-source.ts.
use agent_valet.Common.{true, false, Option, some, List, [], Text, ◌≡◌, refl, ap, ◌∙◌}
use agent_valet.Common.Effects.{Try, ok, Stateful}
use agent_valet.Broker.FilePolicy.{Source, evaluate, evaluate_doc, rule_for}
use agent_valet.Broker.FilePolicy.Loading.{evaluate-cached}
use agent_valet.Broker.FilePolicy.Meaning.{meaning, effect_of, evaluate_doc-eq-meaning}
use agent_valet.Broker.Pass.{PipelineDeps, PipelineResult, Run, Pass}
use agent_valet.Broker.Pipeline.{CallParams, run_pipeline}
use agent_valet.Broker.Pipeline.Authorization.{
  Handled, refused, ran, Granted, by_policy, by_approver, by_open_mode, is_blocked,
  run_pipeline-Handled,
}
use agent_valet.Broker.Pipeline.Journal.{invocations, world₁, begun, begun_run}
use agent_valet.Broker.Types.{Subject, AccessRequest, Credential, Decision}
use agent_valet.Broker.Types
use agent_valet.Broker.Yaml.{PolicyDoc, RuleEffect, deny}
use agent_valet.Broker.Yaml.Accepted.{NamesDistinct}

module _ {W V : Type 0} (read_file : Stateful W (Try Text)) (deps : PipelineDeps (Source W) V)
    (params : CallParams) where
  -- The policy file's rule for the tool of the call, or its default where no rule names it.
  abbrev pub ruled : PolicyDoc → RuleEffect
  ruled doc = effect_of doc.defaults (rule_for params.tool_name doc.rules)

  evaluated_doc :
      (p : Pass (Source W) V) (s : Source W) (doc : PolicyDoc)
      → p.deps.policy ≡ evaluate read_file
      → s.doc ≡ some doc
      → (p.deps.policy p.req s).0 ≡ ok (evaluate_doc doc p.req)
  evaluated_doc p s doc file h =
      ap (λ f. (f p.req s).0) file ∙ ap (λ r. r.0) (evaluate-cached read_file s doc p.req h)

  ungranted :
      (p : Pass (Source W) V) (s : Source W) (d e : Decision)
      → (p.deps.policy p.req s).0 ≡ ok e
      → e.effect ≡ Types.deny
      → Granted p s d
      → true ≡ false
  ungranted p s d e said denies (by_policy asked allows) = cc
  ungranted p s d e said denies (by_approver provider answer asked needs _ _ _) = cc
  ungranted p s d e said denies (by_open_mode reason threw_it _ _) = cc

  meaning-denies :
      (e : RuleEffect) (doc : PolicyDoc) (tool : Text)
      → e ≡ deny
      → (meaning e doc tool).effect ≡ Types.deny
  meaning-denies e doc tool h = rw h refl

  left_alone :
      (p : Pass (Source W) V) (s : Source W) (e : Decision) (before : List (Option Credential))
      (r : Try (PipelineResult V) × Run (Source W))
      → (p.deps.policy p.req s).0 ≡ ok e
      → e.effect ≡ Types.deny
      → Handled p (Granted p s) before r
      → (is_blocked r.0 ≡ true) × (invocations r.1.journal ≡ before)
  left_alone p s e before r said denies (refused blocks none_called) = (blocks, none_called)
  left_alone p s e before r said denies (ran d c grant _ _ _) =
      let absurd = ungranted p s d e said denies grant in (cc, cc)

  -- Over a policy file whose document is loaded and names no tool twice, a call of a tool that the
  -- file denies, by its rule or by the default, is blocked without calling the handler, whatever
  -- the approval provider, the secret source, the sink and the fail mode are.
  pub run_pipeline-denied_by_file :
      (invoke : Option Credential → Stateful (Source W) (Try V)) (s : Run (Source W))
      (subject : Subject) (doc : PolicyDoc)
      → deps.policy ≡ evaluate read_file
      → (deps.identity params.extra (world₁ deps params s)).0 ≡ ok subject
      → (begun_run deps params s).world.doc ≡ some doc
      → NamesDistinct [] doc.rules
      → ruled doc ≡ deny
      → (is_blocked (run_pipeline deps params invoke s).0 ≡ true)
        × (invocations (run_pipeline deps params invoke s).1.journal ≡ invocations s.journal)
  run_pipeline-denied_by_file invoke s subject doc file known loaded distinct denies =
      let p = begun deps params s subject in
      let w = (begun_run deps params s).world in
      left_alone p w (evaluate_doc doc p.req) (invocations s.journal) _
        (evaluated_doc p w doc file loaded)
        (ap (λ d. d.effect) (evaluate_doc-eq-meaning doc p.req distinct)
          ∙ meaning-denies (ruled doc) doc params.tool_name denies)
        (run_pipeline-Handled deps params invoke s subject known)
