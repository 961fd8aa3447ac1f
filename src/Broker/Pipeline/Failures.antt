-- ===== src/Broker/Pipeline/Failures.antt =====
-- What the failures of the pipeline's collaborators lead to.
use agent_valet.Common.{
  Option, none, some, List, [], ◌∷◌, ◌++◌, Text, codes, ◌≡◌, refl, ◌⊎◌, inl, inr,
}
use agent_valet.Common.Effects.{Try, ok, threw, Stateful}
use agent_valet.Broker.Types.{
  Subject, Effect, allow, deny, Decision, CredentialRef, Credential, credential_obligation, Outcome,
  denied, AuditEvent,
}
use agent_valet.Broker.Pass.{
  PipelineDeps, PipelineResult, blocked, Run, Pass, audited, evaluated, invoked, closed,
  unavailable,
}
use agent_valet.Broker.Pipeline.{
  after_audit, emit, redact_with, complete, after_handler, invoke_handler, with_credential,
  resolve_credential, by_effect, enforce, after_policy, evaluate, CallParams, run_pipeline,
}
use agent_valet.Broker.Pipeline.Journal.{
  invocations, audits, emitted, emit-journal, world₁, begun, begun_run, run_pipeline-identified,
}

-- What handing an event to the sink does to the world: the two clocks are read and the sink is
-- called, and, only where the sink throws, one warning is given.
abbrev pub Reported : {W V : Type 0} → PipelineDeps W V → AuditEvent → W → W → Type 0
Reported deps event w w' =
    let written = deps.audit event (deps.now (deps.clock w).1).1 in
    ((written.0 ≡ ok tt) × (w' ≡ written.1))
    ⊎ ((message text : Text) × (written.0 ≡ threw message) × (w' ≡ deps.warn text written.1))

module _ {W V : Type 0} (p : Pass W V) where
  after_audit-Reported :
      (r : Try (Unit {0})) (s : Run W)
      → ((r ≡ ok tt) × ((after_audit p r s).1.world ≡ s.world))
        ⊎ ((message text : Text) × (r ≡ threw message)
            × ((after_audit p r s).1.world ≡ p.deps.warn text s.world))
  after_audit-Reported (ok u) s = inl (refl, refl)
  after_audit-Reported (threw m) s = inr (m, _, refl, refl)

  emit-Reported :
      (warnings : List Text) (o : Outcome) (d : Decision) (scope : Option (List Text))
      (error : Option Text) (s : Run W)
      → Reported p.deps
          (emitted p warnings o d scope error s.world)
          s.world
          (emit p warnings o d scope error s).1.world
  unfolding emit
  emit-Reported warnings o d scope error s = after_audit-Reported _ _

-- The event of a denial with one warning.
abbrev pub IsDenial : Text → AuditEvent → Type 0
IsDenial warning event =
    (event.outcome ≡ denied) × (event.effect ≡ deny) × (event.warnings ≡ warning ∷ [])

-- Where the policy source throws and fail mode is "closed", the call is blocked as denied. After the
-- policy source one call is made, of the audit sink, with one event, which denies the call and warns
-- that the policy source is unreachable; the world changes by this call, by the clocks read for the
-- event and, where the sink throws, by one warning, and by nothing else.
pub run_pipeline-closed :
    {W V : Type 0} (deps : PipelineDeps W V) (params : CallParams)
    (invoke : Option Credential → Stateful W (Try V)) (s : Run W) (subject : Subject)
    (reason : Text)
    → (deps.identity params.extra (world₁ deps params s)).0 ≡ ok subject
    → (deps.policy (begun deps params s subject).req (begun_run deps params s).world).0
      ≡ threw reason
    → deps.fail_mode ≡ closed
    → let req = (begun deps params s subject).req in
      let asked = deps.policy req (begun_run deps params s).world in
      let (result, after) = run_pipeline deps params invoke s in
      (result ≡ ok (blocked deny (codes "policy source unreachable")))
      × (event : AuditEvent) × IsDenial (codes "policy_source_unreachable: " ++ reason) event
      × (after.journal ≡ audited event ∷ evaluated req ∷ s.journal)
      × Reported deps event asked.1 after.world
unfolding evaluate
run_pipeline-closed {W = W} deps params invoke s subject reason known failed mode =
    let p = begun deps params s subject in
    let asked = deps.policy p.req (begun_run deps params s).world in
    let t : Run W = record { world = asked.1; journal = evaluated p.req ∷ s.journal } in
    let warnings : List Text = (codes "policy_source_unreachable: " ++ reason) ∷ [] in
    rw (run_pipeline-identified deps params s invoke subject known) (
      rw failed (
        rw mode (
          refl,
          emitted p warnings denied (unavailable deny) none none asked.1,
          (refl, refl, refl),
          emit-journal p warnings denied (unavailable deny) none none t,
          emit-Reported p warnings denied (unavailable deny) none none t,
        )))

-- The caller sees the hook's error, after one more call of the handler and no audit event.
abbrev Unaudited : {W V : Type 0} → Text → Run W → Try (PipelineResult V) × Run W → Type 0
Unaudited message s r =
    (r.0 ≡ threw message)
    × (invocations r.1.journal ≡ none ∷ invocations s.journal)
    × (audits r.1.journal ≡ audits s.journal)

module _ {W V : Type 0} (p : Pass W V) (invoke : Option Credential → Stateful W (Try V))
    (d : Decision) (hook : V → Decision → Stateful W (Try V)) (v : V) (m : Text) where
  redact-Unaudited :
      (o : Option (V → Decision → Stateful W (Try V))) (warnings : List Text)
      (scope : Option (List Text)) (s t : Run W)
      → o ≡ some hook
      → (hook v d s.world).0 ≡ threw m
      → s.journal ≡ invoked none ∷ t.journal
      → Unaudited m t
          (let (shown, s') = redact_with p o v d s in complete p warnings d scope shown s')
  redact-Unaudited o warnings scope s t e h j = rw e (rw h (rw j (refl, refl, refl)))

  after_handler-Unaudited :
      (r : Try V) (warnings : List Text) (scope : Option (List Text)) (s t : Run W)
      → r ≡ ok v
      → p.deps.redact ≡ some hook
      → (hook v d s.world).0 ≡ threw m
      → s.journal ≡ invoked none ∷ t.journal
      → Unaudited m t (after_handler p warnings d scope r s)
  after_handler-Unaudited r warnings scope s t e f h j =
      rw e (redact-Unaudited p.deps.redact warnings scope s t f h j)

  with_credential-Unaudited :
      (ref : Option CredentialRef) (warnings : List Text) (s : Run W)
      → ref ≡ none
      → (invoke none s.world).0 ≡ ok v
      → p.deps.redact ≡ some hook
      → (hook v d (invoke none s.world).1).0 ≡ threw m
      → Unaudited m s (with_credential p invoke warnings d ref s)
  unfolding invoke_handler
  with_credential-Unaudited ref warnings s g e f h = rw g (
      after_handler-Unaudited (invoke none s.world).0 warnings none
        (record { world = (invoke none s.world).1; journal = invoked none ∷ s.journal }) s e f h
        refl)

  by_effect-Unaudited :
      (effect : Effect) (warnings : List Text) (s : Run W)
      → effect ≡ allow
      → credential_obligation d.obligations ≡ none
      → (invoke none s.world).0 ≡ ok v
      → p.deps.redact ≡ some hook
      → (hook v d (invoke none s.world).1).0 ≡ threw m
      → Unaudited m s (by_effect p invoke warnings d effect s)
  unfolding resolve_credential
  by_effect-Unaudited effect warnings s k g e f h =
      rw k (with_credential-Unaudited (credential_obligation d.obligations) warnings s g e f h)

  after_policy-Unaudited :
      (r : Try Decision) (s : Run W)
      → r ≡ ok d
      → d.effect ≡ allow
      → credential_obligation d.obligations ≡ none
      → (invoke none s.world).0 ≡ ok v
      → p.deps.redact ≡ some hook
      → (hook v d (invoke none s.world).1).0 ≡ threw m
      → Unaudited m s (after_policy p invoke r s)
  unfolding enforce
  after_policy-Unaudited r s q k g e f h = rw q (by_effect-Unaudited d.effect [] s k g e f h)

-- Where the policy allows, no credential is named, the handler returns a value and the redaction
-- hook throws, the pass throws too: the handler has run, and no audit event was handed to the sink.
pub run_pipeline-redact_throws :
    {W V : Type 0} (deps : PipelineDeps W V) (params : CallParams)
    (invoke : Option Credential → Stateful W (Try V)) (s : Run W) (subject : Subject) (d : Decision)
    (hook : V → Decision → Stateful W (Try V)) (v : V) (message : Text)
    → (deps.identity params.extra (world₁ deps params s)).0 ≡ ok subject
    → (let asked = deps.policy (begun deps params s subject).req (begun_run deps params s).world in
        let answered = invoke none asked.1 in
        (asked.0 ≡ ok d) × (answered.0 ≡ ok v) × ((hook v d answered.1).0 ≡ threw message))
    → d.effect ≡ allow
    → credential_obligation d.obligations ≡ none
    → deps.redact ≡ some hook
    → ((run_pipeline deps params invoke s).0 ≡ threw message)
      × (invocations (run_pipeline deps params invoke s).1.journal ≡ none ∷ invocations s.journal)
      × (audits (run_pipeline deps params invoke s).1.journal ≡ audits s.journal)
unfolding evaluate
run_pipeline-redact_throws deps params invoke s subject d hook v message known h f g hooked =
    let p = begun deps params s subject in
    let asked = deps.policy p.req (begun_run deps params s).world in
    rw (run_pipeline-identified deps params s invoke subject known) (
      after_policy-Unaudited p invoke d hook v message asked.0
        (record { world = asked.1; journal = evaluated p.req ∷ s.journal }) h.0 f g h.1 hooked h.2)
