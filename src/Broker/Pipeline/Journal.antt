-- ===== src/Broker/Pipeline/Journal.antt =====
-- Questions about the journal of a pass, and what the pieces of the pipeline add to it.
use agent_valet.Common.{List, [], ◌∷◌, Option, Text, ◌≡◌, refl}
use agent_valet.Common.Effects.{Try, ok, threw, Stateful}
use agent_valet.Broker.Types.{Subject, Outcome, Decision, Credential, AuditEvent}
use agent_valet.Broker.Pass.{PipelineDeps, Call, audited, invoked, Run, Pass, audit_event}
use agent_valet.Broker.Pipeline.{CallParams, pass_of, run_pipeline, evaluate, after_audit, emit}

-- The audit events that were handed to the sink, newest first.
abbrev pub audits : List Call → List AuditEvent
audits [] = []
audits (audited e ∷ cs) = e ∷ audits cs
audits (c ∷ cs) = audits cs

-- The credentials that the handler was called with, newest first.
abbrev pub invocations : List Call → List (Option Credential)
invocations [] = []
invocations (invoked c ∷ cs) = c ∷ invocations cs
invocations (c ∷ cs) = invocations cs

module _ {W V : Type 0} (p : Pass W V) where
  after_audit-journal : (r : Try (Unit {0})) (s : Run W) → (after_audit p r s).1.journal ≡ s.journal
  after_audit-journal (ok u) s = refl
  after_audit-journal (threw m) s = refl

  -- The event that `emit` builds in a world.
  abbrev pub emitted :
      List Text → Outcome → Decision → Option (List Text) → Option Text → W → AuditEvent
  emitted warnings outcome decision scope error w =
      let (ts, w₁) = p.deps.clock w in
      let (now, w₂) = p.deps.now w₁ in audit_event p warnings outcome decision scope error ts now

  -- `emit` makes one call, of the sink, also where the sink throws.
  pub emit-journal :
      (warnings : List Text) (o : Outcome) (d : Decision) (scope : Option (List Text))
      (error : Option Text) (s : Run W)
      → (emit p warnings o d scope error s).1.journal
        ≡ audited (emitted warnings o d scope error s.world) ∷ s.journal
  unfolding emit
  emit-journal warnings o d scope error s = after_audit-journal _ _

module _ {W V : Type 0} (deps : PipelineDeps W V) (params : CallParams) (s : Run W) where
  -- the world after `now()` and after the caller is identified
  abbrev pub world₁ : W
  world₁ = (deps.now s.world).1

  abbrev pub world₂ : W
  world₂ = (deps.identity params.extra world₁).1

  -- The pass that begins once the caller is identified.
  abbrev pub begun : Subject → Pass W V
  begun subject = pass_of deps params (deps.now s.world).0 subject (deps.clock world₂).0

  abbrev pub begun_run : Run W
  begun_run = record s { world = (deps.clock world₂).1 }

  pub run_pipeline-identified :
      (invoke : Option Credential → Stateful W (Try V)) (subject : Subject)
      → (deps.identity params.extra world₁).0 ≡ ok subject
      → run_pipeline deps params invoke s ≡ evaluate (begun subject) invoke begun_run
  unfolding run_pipeline
  run_pipeline-identified invoke subject known = rw known
