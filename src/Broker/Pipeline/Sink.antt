-- ===== src/Broker/Pipeline/Sink.antt =====
-- The audit sink is best-effort: it cannot change what a pass does.
use agent_valet.Common.{
  Bool-cases, Option, none, some, List, [], ◌∷◌, Text, inl, inr, ◌≡◌, refl, sym, ◌∙◌,
}
use agent_valet.Common.Effects.{Try, ok, threw, Stateful}
use agent_valet.Broker.Types.{
  Subject, AccessRequest, Effect, allow, deny, require_approval, Decision, CredentialRef,
  Credential, ApprovalResult, Outcome, allowed, handler_error, denied, AuditEvent,
  credential_obligation,
}
use agent_valet.Broker.Pass.{
  PipelineDeps, PipelineResult, Run, Pass, evaluated, invoked, resolved, asked_approval, redacted,
  approved_of, FailMode, closed, open_for_dev, scope_of,
}
use agent_valet.Broker.Pipeline.{
  emit, refuse, redact_with, complete, after_handler, invoke_handler, after_secrets,
  with_credential, resolve_credential, after_approval, ask_provider, by_effect, enforce,
  without_policy, after_policy, evaluate, CallParams, run_pipeline,
}
use agent_valet.Broker.Pipeline.Journal.{
  emit-journal, world₁, begun, begun_run, run_pipeline-identified,
}

-- Two passes that the caller and the journal cannot tell apart.
abbrev pub Same :
    {W V : Type 0} → Try (PipelineResult V) × Run W → Try (PipelineResult V) × Run W → Type 0
Same r t = (r.0 ≡ t.0) × (r.1.journal ≡ t.1.journal)

abbrev pub with_sink :
    {W V : Type 0}
    → PipelineDeps W V
    → (AuditEvent → Stateful W (Try (Unit {0})))
    → PipelineDeps W V
with_sink deps sink = record deps { audit = sink }

module _ {W V : Type 0} (p : Pass W V) (sink : AuditEvent → Stateful W (Try (Unit {0}))) where
  abbrev resunk : Pass W V
  resunk = record p { deps = with_sink p.deps sink }

  emit-Same :
      (warnings : List Text) (o : Outcome) (d : Decision) (scope : Option (List Text))
      (error : Option Text) (s : Run W)
      → (emit resunk warnings o d scope error s).1.journal
        ≡ (emit p warnings o d scope error s).1.journal
  emit-Same warnings o d scope error s =
      emit-journal resunk warnings o d scope error s
      ∙ sym (emit-journal p warnings o d scope error s)

  refuse-Same :
      (warnings : List Text) (o : Outcome) (d : Decision) (effect : Effect) (reason : Text)
      (s : Run W)
      → Same (refuse resunk warnings o d effect reason s) (refuse p warnings o d effect reason s)
  refuse-Same warnings o d effect reason s = (refl, emit-Same warnings o d none none s)

  complete-Same :
      (warnings : List Text) (d : Decision) (scope : Option (List Text)) (r : Try V) (s : Run W)
      → Same (complete resunk warnings d scope r s) (complete p warnings d scope r s)
  complete-Same warnings d scope (ok v) s = (refl, emit-Same warnings allowed d scope none s)
  complete-Same warnings d scope (threw m) s = (refl, refl)

  redacted-Same :
      (hook : Option (V → Decision → Stateful W (Try V))) (warnings : List Text) (d : Decision)
      (scope : Option (List Text)) (v : V) (s : Run W)
      → Same
          (let (shown, s') = redact_with resunk hook v d s in
            complete resunk warnings d scope shown s')
          (let (shown, s') = redact_with p hook v d s in complete p warnings d scope shown s')
  redacted-Same none warnings d scope v s = complete-Same warnings d scope (ok v) s
  redacted-Same (some hook) warnings d scope v s =
      complete-Same warnings d scope (hook v d s.world).0
        (record { world = (hook v d s.world).1; journal = redacted d ∷ s.journal })

  after_handler-Same :
      (warnings : List Text) (d : Decision) (scope : Option (List Text)) (r : Try V) (s : Run W)
      → Same (after_handler resunk warnings d scope r s) (after_handler p warnings d scope r s)
  after_handler-Same warnings d scope (ok v) s = redacted-Same p.deps.redact warnings d scope v s
  after_handler-Same warnings d scope (threw m) s =
      (refl, emit-Same warnings handler_error d scope (some m) s)

  module _ (invoke : Option Credential → Stateful W (Try V)) where
    invoke_handler-Same :
        (warnings : List Text) (d : Decision) (c : Option Credential) (s : Run W)
        → Same
            (invoke_handler resunk invoke warnings d c s)
            (invoke_handler p invoke warnings d c s)
    unfolding invoke_handler
    invoke_handler-Same warnings d c s =
        after_handler-Same warnings d (scope_of c) (invoke c s.world).0
          (record { world = (invoke c s.world).1; journal = invoked c ∷ s.journal })

    after_secrets-Same :
        (warnings : List Text) (d : Decision) (r : Try Credential) (s : Run W)
        → Same (after_secrets resunk invoke warnings d r s) (after_secrets p invoke warnings d r s)
    after_secrets-Same warnings d (ok c) s = invoke_handler-Same _ d (some c) s
    after_secrets-Same warnings d (threw m) s = refuse-Same _ denied d deny _ s

    with_credential-Same :
        (warnings : List Text) (d : Decision) (ref : Option CredentialRef) (s : Run W)
        → Same
            (with_credential resunk invoke warnings d ref s)
            (with_credential p invoke warnings d ref s)
    with_credential-Same warnings d none s = invoke_handler-Same warnings d none s
    with_credential-Same warnings d (some ref) s =
        after_secrets-Same warnings d (p.deps.secrets ref d s.world).0 (record {
          world = (p.deps.secrets ref d s.world).1;
          journal = resolved ref d ∷ s.journal;
        })

    resolve_credential-Same :
        (warnings : List Text) (d : Decision) (s : Run W)
        → Same
            (resolve_credential resunk invoke warnings d s)
            (resolve_credential p invoke warnings d s)
    unfolding resolve_credential
    resolve_credential-Same warnings d s =
        with_credential-Same warnings d (credential_obligation d.obligations) s

    after_approval-Same :
        (warnings : List Text) (d : Decision) (r : Try ApprovalResult) (s : Run W)
        → Same
            (after_approval resunk invoke warnings d r s)
            (after_approval p invoke warnings d r s)
    after_approval-Same warnings d r s = elim (Bool-cases (approved_of r)) [
      | inl given ↦ rw given (resolve_credential-Same warnings d s)
      | inr missing ↦ rw missing (refuse-Same _ _ d require_approval _ s)
    ]

    ask_provider-Same :
        (warnings : List Text) (d : Decision)
        (provider : Option (AccessRequest → Decision → Stateful W (Try ApprovalResult))) (s : Run W)
        → Same
            (ask_provider resunk invoke warnings d provider s)
            (ask_provider p invoke warnings d provider s)
    ask_provider-Same warnings d none s = refuse-Same _ _ d require_approval _ s
    ask_provider-Same warnings d (some provider) s =
        after_approval-Same warnings d (provider p.req d s.world).0 (record {
          world = (provider p.req d s.world).1;
          journal = asked_approval p.req d ∷ s.journal;
        })

    by_effect-Same :
        (warnings : List Text) (d : Decision) (effect : Effect) (s : Run W)
        → Same
            (by_effect resunk invoke warnings d effect s)
            (by_effect p invoke warnings d effect s)
    by_effect-Same warnings d deny s = refuse-Same _ denied d deny _ s
    by_effect-Same warnings d require_approval s = ask_provider-Same warnings d p.deps.approval s
    by_effect-Same warnings d allow s = resolve_credential-Same warnings d s

    enforce-Same :
        (warnings : List Text) (d : Decision) (s : Run W)
        → Same (enforce resunk invoke warnings d s) (enforce p invoke warnings d s)
    unfolding enforce
    enforce-Same warnings d s = by_effect-Same warnings d d.effect s

    without_policy-Same :
        (mode : FailMode) (reason : Text) (s : Run W)
        → Same (without_policy resunk invoke mode reason s) (without_policy p invoke mode reason s)
    without_policy-Same closed reason s = refuse-Same _ denied _ deny _ s
    without_policy-Same open_for_dev reason s = enforce-Same _ _ _

    after_policy-Same :
        (r : Try Decision) (s : Run W)
        → Same (after_policy resunk invoke r s) (after_policy p invoke r s)
    after_policy-Same (ok d) s = enforce-Same [] d s
    after_policy-Same (threw reason) s = without_policy-Same p.deps.fail_mode reason s

    evaluate-Same : (s : Run W) → Same (evaluate resunk invoke s) (evaluate p invoke s)
    unfolding evaluate
    evaluate-Same s =
        after_policy-Same (p.deps.policy p.req s.world).0 (record {
          world = (p.deps.policy p.req s.world).1;
          journal = evaluated p.req ∷ s.journal;
        })

-- The audit sink cannot change an outcome: with any other sink in its place, one that throws
-- included, the pass returns or throws the same and makes the same calls with the same arguments.
pub run_pipeline-with_sink :
    {W V : Type 0} (deps : PipelineDeps W V) (params : CallParams)
    (invoke : Option Credential → Stateful W (Try V)) (s : Run W) (subject : Subject)
    (sink : AuditEvent → Stateful W (Try (Unit {0})))
    → (deps.identity params.extra (world₁ deps params s)).0 ≡ ok subject
    → Same (run_pipeline (with_sink deps sink) params invoke s) (run_pipeline deps params invoke s)
run_pipeline-with_sink deps params invoke s subject sink known =
    rw (run_pipeline-identified (with_sink deps sink) params s invoke subject known) (
      rw (run_pipeline-identified deps params s invoke subject known)
        (evaluate-Same (begun deps params s subject) sink invoke (begun_run deps params s)))
