-- ===== src/Broker/Pipeline/Audit.antt =====
-- One audit event for each pass, with the outcome that the caller sees.
use agent_valet.Common.{
  Bool-cases, Option, none, some, List, [], ◌∷◌, Text, ◌⊎◌, inl, inr, ◌≡◌, refl, arith,
}
use agent_valet.Common.Effects.{Try, ok, threw, Stateful}
use agent_valet.Broker.Identity.{non_empty}
use agent_valet.Broker.Types.{
  Subject, Effect, allow, deny, require_approval, Decision, CredentialRef, Credential,
  ApprovalResult, AccessRequest, Outcome, allowed, denied, approval_timeout, approval_denied,
  handler_error, AuditEvent, credential_obligation,
}
use agent_valet.Broker.Pass.{
  PipelineDeps, PipelineResult, completed, blocked, Run, Pass, approved_of, reason_of,
  refusal_outcome, FailMode, closed, open_for_dev, evaluated, redacted, asked_approval,
}
use agent_valet.Broker.Pipeline.{
  refuse, complete, redact_with, after_handler, invoke_handler, after_secrets, with_credential,
  resolve_credential, after_approval, ask_provider, by_effect, enforce, without_policy,
  after_policy, evaluate, CallParams, run_pipeline,
}
use agent_valet.Broker.Pipeline.Journal.{
  audits, emitted, emit-journal, world₁, begun, begun_run, run_pipeline-identified,
}

-- The audit outcome that belongs to what the caller gets.
abbrev pub Fits : {V : Type 0} → Try (PipelineResult V) → AuditEvent → Type 0
Fits (ok (completed v)) e = e.outcome ≡ allowed
Fits (ok (blocked deny reason)) e = e.outcome ≡ denied
Fits (ok (blocked require_approval reason)) e =
    (e.outcome ≡ approval_timeout) ⊎ (e.outcome ≡ approval_denied)
Fits (ok (blocked allow reason)) e = ⊥
Fits (threw message) e = (e.outcome ≡ handler_error) × (e.error ≡ non_empty (some message))

-- After the events `before` the pass has handed exactly one to the sink, and it fits.
pub record Audited {W V : Type 0} (before : List AuditEvent) (r : Try (PipelineResult V) × Run W)
    : Type 0 where
  pub event : AuditEvent
  pub once : audits r.1.journal ≡ event ∷ before
  pub fits : Fits r.0 event

-- The redaction hook, if there is one, never throws.
abbrev pub RedactReturns : {W V : Type 0} → PipelineDeps W V → Type 0
RedactReturns {W} {V} deps =
    (value : V) (d : Decision) (hook : V → Decision → Stateful W (Try V)) (w : W)
    → deps.redact ≡ some hook
    → (shown : V) × ((hook value d w).0 ≡ ok shown)

module _ {W V : Type 0} (p : Pass W V) where
  abbrev event_of :
      List Text → Outcome → Decision → Option (List Text) → Option Text → Run W → AuditEvent
  event_of warnings o d scope error s = emitted p warnings o d scope error s.world

  refuse-Audited :
      (warnings : List Text) (o : Outcome) (d : Decision) (effect : Effect) (reason : Text)
      (s : Run W)
      → Fits {V = V} (ok (blocked effect reason)) (event_of warnings o d none none s)
      → Audited (audits s.journal) (refuse p warnings o d effect reason s)
  refuse-Audited warnings o d effect reason s h = record {
    event = event_of warnings o d none none s;
    once = rw (emit-journal p warnings o d none none s);
    fits = h;
  }

  complete-Audited :
      (warnings : List Text) (d : Decision) (scope : Option (List Text)) (v : V) (s : Run W)
      → Audited (audits s.journal) (complete p warnings d scope (ok v) s)
  complete-Audited warnings d scope v s = record {
    event = event_of warnings allowed d scope none s;
    once = rw (emit-journal p warnings allowed d scope none s);
    fits = refl;
  }

  module _ (safe : RedactReturns p.deps) where
    redacted-Audited :
        (hook : Option (V → Decision → Stateful W (Try V)))
        → p.deps.redact ≡ hook
        → (warnings : List Text) (d : Decision) (scope : Option (List Text)) (v : V) (s : Run W)
        → Audited
            (audits s.journal)
            (let (shown, s') = redact_with p hook v d s in complete p warnings d scope shown s')
    redacted-Audited none e warnings d scope v s = complete-Audited warnings d scope v s
    redacted-Audited (some hook) e warnings d scope v s =
        let (shown, returned) = safe v d hook s.world e in
        rw returned (
          complete-Audited warnings d scope shown
            (record { world = (hook v d s.world).1; journal = redacted d ∷ s.journal }))

    after_handler-Audited :
        (warnings : List Text) (d : Decision) (scope : Option (List Text)) (r : Try V) (s : Run W)
        → Audited (audits s.journal) (after_handler p warnings d scope r s)
    after_handler-Audited warnings d scope (ok v) s =
        redacted-Audited p.deps.redact refl warnings d scope v s
    after_handler-Audited warnings d scope (threw m) s = record {
      event = event_of warnings handler_error d scope (some m) s;
      once = rw (emit-journal p warnings handler_error d scope (some m) s);
      fits = (refl, refl);
    }

    module _ (invoke : Option Credential → Stateful W (Try V)) where
      invoke_handler-Audited :
          (warnings : List Text) (d : Decision) (c : Option Credential) (s : Run W)
          → Audited (audits s.journal) (invoke_handler p invoke warnings d c s)
      unfolding invoke_handler
      invoke_handler-Audited warnings d c s = after_handler-Audited warnings d _ _ _

      after_secrets-Audited :
          (warnings : List Text) (d : Decision) (r : Try Credential) (s : Run W)
          → Audited (audits s.journal) (after_secrets p invoke warnings d r s)
      after_secrets-Audited warnings d (ok c) s = invoke_handler-Audited _ d (some c) s
      after_secrets-Audited warnings d (threw m) s = refuse-Audited _ denied d deny _ s refl

      with_credential-Audited :
          (warnings : List Text) (d : Decision) (ref : Option CredentialRef) (s : Run W)
          → Audited (audits s.journal) (with_credential p invoke warnings d ref s)
      with_credential-Audited warnings d none s = invoke_handler-Audited warnings d none s
      with_credential-Audited warnings d (some ref) s = after_secrets-Audited warnings d _ _

      resolve_credential-Audited :
          (warnings : List Text) (d : Decision) (s : Run W)
          → Audited (audits s.journal) (resolve_credential p invoke warnings d s)
      unfolding resolve_credential
      resolve_credential-Audited warnings d s =
          with_credential-Audited warnings d (credential_obligation d.obligations) s

      refusal_outcome-cases :
          (reason : Option Text)
          → (refusal_outcome reason ≡ approval_timeout) ⊎ (refusal_outcome reason ≡ approval_denied)
      refusal_outcome-cases none = inr refl
      refusal_outcome-cases (some reason) = ground arith

      after_approval-Audited :
          (warnings : List Text) (d : Decision) (r : Try ApprovalResult) (s : Run W)
          → Audited (audits s.journal) (after_approval p invoke warnings d r s)
      after_approval-Audited warnings d r s = elim (Bool-cases (approved_of r)) [
        | inl yes' ↦ rw yes' (resolve_credential-Audited warnings d s)
        | inr no' ↦
            rw no' (refuse-Audited _ _ d require_approval _ s (refusal_outcome-cases (reason_of r)))
      ]

      ask_provider-Audited :
          (warnings : List Text) (d : Decision)
          (provider : Option (AccessRequest → Decision → Stateful W (Try ApprovalResult)))
          (s : Run W)
          → Audited (audits s.journal) (ask_provider p invoke warnings d provider s)
      ask_provider-Audited warnings d none s =
          refuse-Audited _ approval_denied d require_approval _ s (inr refl)
      ask_provider-Audited warnings d (some provider) s =
          after_approval-Audited warnings d (provider p.req d s.world).0 (record {
            world = (provider p.req d s.world).1;
            journal = asked_approval p.req d ∷ s.journal;
          })

      by_effect-Audited :
          (warnings : List Text) (d : Decision) (effect : Effect) (s : Run W)
          → Audited (audits s.journal) (by_effect p invoke warnings d effect s)
      by_effect-Audited warnings d deny s = refuse-Audited _ denied d deny _ s refl
      by_effect-Audited warnings d require_approval s =
          ask_provider-Audited warnings d p.deps.approval s
      by_effect-Audited warnings d allow s = resolve_credential-Audited warnings d s

      enforce-Audited :
          (warnings : List Text) (d : Decision) (s : Run W)
          → Audited (audits s.journal) (enforce p invoke warnings d s)
      unfolding enforce
      enforce-Audited warnings d s = by_effect-Audited warnings d d.effect s

      without_policy-Audited :
          (mode : FailMode) (reason : Text) (s : Run W)
          → Audited (audits s.journal) (without_policy p invoke mode reason s)
      without_policy-Audited closed reason s = refuse-Audited _ denied _ deny _ s refl
      without_policy-Audited open_for_dev reason s = enforce-Audited _ _ _

      after_policy-Audited :
          (r : Try Decision) (s : Run W) → Audited (audits s.journal) (after_policy p invoke r s)
      after_policy-Audited (ok d) s = enforce-Audited [] d s
      after_policy-Audited (threw reason) s = without_policy-Audited p.deps.fail_mode reason s

      evaluate-Audited : (s : Run W) → Audited (audits s.journal) (evaluate p invoke s)
      unfolding evaluate
      evaluate-Audited s = after_policy-Audited (p.deps.policy p.req s.world).0 (record {
        world = (p.deps.policy p.req s.world).1;
        journal = evaluated p.req ∷ s.journal;
      })

-- A pass whose caller is identified and whose redaction hook does not throw hands exactly one
-- event to the audit sink, whatever the policy, the secrets, the approval provider, the handler
-- and the sink itself do; and the event's outcome is the one that the caller sees.
pub run_pipeline-Audited :
    {W V : Type 0} (deps : PipelineDeps W V) (params : CallParams)
    (invoke : Option Credential → Stateful W (Try V)) (s : Run W) (subject : Subject)
    → RedactReturns deps
    → (deps.identity params.extra (world₁ deps params s)).0 ≡ ok subject
    → Audited (audits s.journal) (run_pipeline deps params invoke s)
run_pipeline-Audited deps params invoke s subject safe known =
    rw (run_pipeline-identified deps params s invoke subject known)
      (evaluate-Audited (begun deps params s subject) safe invoke (begun_run deps params s))
