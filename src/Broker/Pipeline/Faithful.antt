-- ===== src/Broker/Pipeline/Faithful.antt =====
-- The journal of a pass is true: it notes a call of the handler exactly where the handler is called.
use agent_valet.Common.{ℕ, Bool-cases, Option, none, some, List, [], ◌∷◌, Text, inl, inr, ◌≡◌, refl}
use agent_valet.Common.Effects.{Try, ok, threw, Stateful}
use agent_valet.Broker.Types.{
  McpHandlerExtra, Subject, AccessRequest, Effect, allow, deny, require_approval, Decision,
  CredentialRef, Credential, ApprovalResult, Outcome, allowed, handler_error, denied, AuditEvent,
}
use agent_valet.Broker.Pass.{
  PipelineDeps, Run, Pass, evaluated, asked_approval, approved_of, FailMode, closed, open_for_dev,
  scope_of,
}
use agent_valet.Broker.Pipeline.{
  after_audit, emit, redact_with, complete, after_handler, invoke_handler, after_secrets,
  with_credential, resolve_credential, after_approval, ask_provider, by_effect, enforce,
  without_policy, after_policy, evaluate, CallParams, run_pipeline, pass_of, after_identity,
}
use agent_valet.Broker.Pipeline.Journal.{invocations}

-- A relation between the calls of the handler and the world that no collaborator changes.
pub record Unseen {W V : Type 0} (deps : PipelineDeps W V) (R : W → Type 0) : Type 0 where
  pub by_policy : (req : AccessRequest) (w : W) → R w → R (deps.policy req w).1
  pub by_secrets : (ref : CredentialRef) (d : Decision) (w : W) → R w → R (deps.secrets ref d w).1
  pub by_audit : (event : AuditEvent) (w : W) → R w → R (deps.audit event w).1
  pub by_identity : (extra : McpHandlerExtra) (w : W) → R w → R (deps.identity extra w).1
  pub by_approval :
      (provider : AccessRequest → Decision → Stateful W (Try ApprovalResult))
      → deps.approval ≡ some provider
      → (req : AccessRequest) (d : Decision) (w : W) → R w
      → R (provider req d w).1
  pub by_redact :
      (hook : V → Decision → Stateful W (Try V))
      → deps.redact ≡ some hook
      → (v : V) (d : Decision) (w : W) → R w
      → R (hook v d w).1
  pub by_warn : (text : Text) (w : W) → R w → R (deps.warn text w)
  pub by_now : (w : W) → R w → R (deps.now w).1
  pub by_clock : (w : W) → R w → R (deps.clock w).1

module _ {W : Type 0} (R : List (Option Credential) → W → Type 0) where
  -- The world is related to the calls of the handler that the journal notes.
  abbrev pub Tracked : Run W → Type 0
  Tracked s = R (invocations s.journal) s.world

  module _ {V : Type 0} (p : Pass W V)
      (unseen : (cs : List (Option Credential)) → Unseen p.deps (R cs)) where
    after_audit-Tracked :
        (r : Try (Unit {0})) (s : Run W) → Tracked s → Tracked (after_audit p r s).1
    after_audit-Tracked (ok u) s k = k
    after_audit-Tracked (threw m) s k = (unseen _).by_warn _ _ k

    emit-Tracked :
        (warnings : List Text) (o : Outcome) (d : Decision) (scope : Option (List Text))
        (error : Option Text) (s : Run W)
        → Tracked s
        → Tracked (emit p warnings o d scope error s).1
    unfolding emit
    emit-Tracked warnings o d scope error s k =
        let kept = unseen (invocations s.journal) in
        after_audit-Tracked _ _ (kept.by_audit _ _ (kept.by_now _ (kept.by_clock _ k)))

    complete-Tracked :
        (warnings : List Text) (d : Decision) (scope : Option (List Text)) (r : Try V) (s : Run W)
        → Tracked s
        → Tracked (complete p warnings d scope r s).1
    complete-Tracked warnings d scope (ok v) s k = emit-Tracked warnings allowed d scope none s k
    complete-Tracked warnings d scope (threw m) s k = k

    redacted-Tracked :
        (hook : Option (V → Decision → Stateful W (Try V))) (warnings : List Text) (d : Decision)
        (scope : Option (List Text)) (v : V) (s : Run W)
        → p.deps.redact ≡ hook
        → Tracked s
        → Tracked
            (let (shown, s') = redact_with p hook v d s in complete p warnings d scope shown s').1
    redacted-Tracked none warnings d scope v s e k = complete-Tracked warnings d scope (ok v) s k
    redacted-Tracked (some hook) warnings d scope v s e k =
        complete-Tracked warnings d scope _ _ ((unseen _).by_redact hook e v d s.world k)

    after_handler-Tracked :
        (warnings : List Text) (d : Decision) (scope : Option (List Text)) (r : Try V) (s : Run W)
        → Tracked s
        → Tracked (after_handler p warnings d scope r s).1
    after_handler-Tracked warnings d scope (ok v) s k =
        redacted-Tracked p.deps.redact warnings d scope v s refl k
    after_handler-Tracked warnings d scope (threw m) s k =
        emit-Tracked warnings handler_error d scope (some m) s k

    module _ (invoke : Option Credential → Stateful W (Try V))
        (runs : (c : Option Credential) (cs : List (Option Credential)) (w : W)
          → R cs w
          → R (c ∷ cs) (invoke c w).1) where
      invoke_handler-Tracked :
          (warnings : List Text) (d : Decision) (c : Option Credential) (s : Run W)
          → Tracked s
          → Tracked (invoke_handler p invoke warnings d c s).1
      unfolding invoke_handler
      invoke_handler-Tracked warnings d c s k =
          after_handler-Tracked warnings d (scope_of c) _ _ (runs c _ s.world k)

      after_secrets-Tracked :
          (warnings : List Text) (d : Decision) (r : Try Credential) (s : Run W)
          → Tracked s
          → Tracked (after_secrets p invoke warnings d r s).1
      after_secrets-Tracked warnings d (ok c) s k = invoke_handler-Tracked _ d (some c) s k
      after_secrets-Tracked warnings d (threw m) s k = emit-Tracked _ denied d none none s k

      with_credential-Tracked :
          (warnings : List Text) (d : Decision) (ref : Option CredentialRef) (s : Run W)
          → Tracked s
          → Tracked (with_credential p invoke warnings d ref s).1
      with_credential-Tracked warnings d none s k = invoke_handler-Tracked warnings d none s k
      with_credential-Tracked warnings d (some ref) s k =
          after_secrets-Tracked warnings d _ _ ((unseen _).by_secrets ref d s.world k)

      resolve_credential-Tracked :
          (warnings : List Text) (d : Decision) (s : Run W)
          → Tracked s
          → Tracked (resolve_credential p invoke warnings d s).1
      unfolding resolve_credential
      resolve_credential-Tracked warnings d s k = with_credential-Tracked warnings d _ s k

      after_approval-Tracked :
          (warnings : List Text) (d : Decision) (r : Try ApprovalResult) (s : Run W)
          → Tracked s
          → Tracked (after_approval p invoke warnings d r s).1
      after_approval-Tracked warnings d r s k = elim (Bool-cases (approved_of r)) [
        | inl given ↦ rw given (resolve_credential-Tracked warnings d s k)
        | inr missing ↦ rw missing (emit-Tracked _ _ d none none s k)
      ]

      ask_provider-Tracked :
          (warnings : List Text) (d : Decision)
          (provider : Option (AccessRequest → Decision → Stateful W (Try ApprovalResult)))
          (s : Run W)
          → p.deps.approval ≡ provider
          → Tracked s
          → Tracked (ask_provider p invoke warnings d provider s).1
      ask_provider-Tracked warnings d none s e k = emit-Tracked _ _ d none none s k
      ask_provider-Tracked warnings d (some provider) s e k =
          after_approval-Tracked warnings d (provider p.req d s.world).0
            (record {
              world = (provider p.req d s.world).1;
              journal = asked_approval p.req d ∷ s.journal;
            })
            ((unseen _).by_approval provider e p.req d s.world k)

      by_effect-Tracked :
          (warnings : List Text) (d : Decision) (effect : Effect) (s : Run W)
          → Tracked s
          → Tracked (by_effect p invoke warnings d effect s).1
      by_effect-Tracked warnings d deny s k = emit-Tracked _ denied d none none s k
      by_effect-Tracked warnings d require_approval s k =
          ask_provider-Tracked warnings d p.deps.approval s refl k
      by_effect-Tracked warnings d allow s k = resolve_credential-Tracked warnings d s k

      enforce-Tracked :
          (warnings : List Text) (d : Decision) (s : Run W)
          → Tracked s
          → Tracked (enforce p invoke warnings d s).1
      unfolding enforce
      enforce-Tracked warnings d s k = by_effect-Tracked warnings d d.effect s k

      without_policy-Tracked :
          (mode : FailMode) (reason : Text) (s : Run W)
          → Tracked s
          → Tracked (without_policy p invoke mode reason s).1
      without_policy-Tracked closed reason s k = emit-Tracked _ denied _ none none s k
      without_policy-Tracked open_for_dev reason s k =
          enforce-Tracked _ _ _ ((unseen _).by_warn _ s.world k)

      after_policy-Tracked :
          (r : Try Decision) (s : Run W) → Tracked s → Tracked (after_policy p invoke r s).1
      after_policy-Tracked (ok d) s k = enforce-Tracked [] d s k
      after_policy-Tracked (threw reason) s k = without_policy-Tracked p.deps.fail_mode reason s k

      evaluate-Tracked : (s : Run W) → Tracked s → Tracked (evaluate p invoke s).1
      unfolding evaluate
      evaluate-Tracked s k =
          after_policy-Tracked (p.deps.policy p.req s.world).0
            (record {
              world = (p.deps.policy p.req s.world).1;
              journal = evaluated p.req ∷ s.journal;
            })
            ((unseen _).by_policy p.req s.world k)

  module _ {V : Type 0} (deps : PipelineDeps W V) (params : CallParams)
      (unseen : (cs : List (Option Credential)) → Unseen deps (R cs))
      (invoke : Option Credential → Stateful W (Try V))
      (runs : (c : Option Credential) (cs : List (Option Credential)) (w : W)
        → R cs w
        → R (c ∷ cs) (invoke c w).1) where
    after_identity-Tracked :
        (started : ℕ) (r : Try Subject) (s : Run W)
        → Tracked s
        → Tracked (after_identity deps params invoke started r s).1
    after_identity-Tracked started (threw m) s k = k
    after_identity-Tracked started (ok subject) s k =
        evaluate-Tracked (pass_of deps params started subject (deps.clock s.world).0) unseen invoke
          runs _ ((unseen _).by_clock s.world k)

    -- What every collaborator keeps, and what a call of the handler steps along, holds of the
    -- noted calls and the world after a pass where it held before.
    pub run_pipeline-Tracked :
        (s : Run W) → Tracked s → Tracked (run_pipeline deps params invoke s).1
    unfolding run_pipeline
    run_pipeline-Tracked s k =
        let kept = unseen (invocations s.journal) in
        after_identity-Tracked _ _ _ (kept.by_identity _ _ (kept.by_now s.world k))
