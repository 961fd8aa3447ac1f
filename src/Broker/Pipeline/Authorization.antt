-- ===== src/Broker/Pipeline/Authorization.antt =====
-- When the handler runs, and with which credential.
use agent_valet.Common.{
  Bool, true, false, Bool-cases, Option, none, some, List, [], ◌∷◌, Text, inl, inr, ◌≡◌, refl,
}
use agent_valet.Common.Effects.{Try, ok, threw, Stateful}
use agent_valet.Broker.Types.{
  Subject, AccessRequest, Effect, allow, deny, require_approval, Decision, CredentialRef,
  Credential, ApprovalResult, Outcome, allowed, handler_error, denied, approval_denied,
  credential_obligation,
}
use agent_valet.Broker.Pass.{
  PipelineDeps, PipelineResult, blocked, Run, Pass, Call, evaluated, invoked, resolved,
  asked_approval, redacted, approved_of, unavailable, FailMode, closed, open_for_dev, scope_of,
}
use agent_valet.Broker.Pipeline.{
  refuse, redact_with, complete, after_handler, invoke_handler, after_secrets, with_credential,
  resolve_credential, after_approval, ask_provider, by_effect, enforce, without_policy,
  after_policy, evaluate, CallParams, run_pipeline,
}
use agent_valet.Broker.Pipeline.Journal.{
  invocations, emit-journal, world₁, begun, begun_run, run_pipeline-identified,
}

abbrev pub is_blocked : {V : Type 0} → Try (PipelineResult V) → Bool
is_blocked (ok (blocked effect reason)) = true
is_blocked _ = false

-- The ways in which a decision may lead to the handler; the policy is asked in world `w`.
pub data Granted {W V : Type 0} (p : Pass W V) (w : W) : Decision → Type 0 where
  by_policy : {d : Decision} → (p.deps.policy p.req w).0 ≡ ok d → d.effect ≡ allow → Granted p w d
  by_approver :
      {d : Decision} (provider : AccessRequest → Decision → Stateful W (Try ApprovalResult))
      (answer : ApprovalResult)
      → (p.deps.policy p.req w).0 ≡ ok d
      → d.effect ≡ require_approval
      → p.deps.approval ≡ some provider
      → (provider p.req d (p.deps.policy p.req w).1).0 ≡ ok answer
      → answer.approved ≡ true
      → Granted p w d
  by_open_mode :
      {d : Decision} (reason : Text)
      → (p.deps.policy p.req w).0 ≡ threw reason
      → p.deps.fail_mode ≡ open_for_dev
      → d ≡ unavailable allow
      → Granted p w d

-- The credential that the handler gets for a decision: the one that the secret source resolves for
-- its first credential obligation, or none where it has no such obligation.
pub data Carries {W V : Type 0} (p : Pass W V) (d : Decision) : Option Credential → Type 0 where
  bare :
      {c : Option Credential}
      → credential_obligation d.obligations ≡ none
      → c ≡ none
      → Carries p d c
  minted :
      {c : Option Credential} (ref : CredentialRef) (w : W) (found : Credential)
      → credential_obligation d.obligations ≡ some ref
      → (p.deps.secrets ref d w).0 ≡ ok found
      → c ≡ some found
      → Carries p d c

-- A pass blocks and leaves the handler alone, or calls it once, under a decision in `G`.
pub data Handled {W V : Type 0} (p : Pass W V) (G : Decision → Type 0)
    (before : List (Option Credential)) (r : Try (PipelineResult V) × Run W) : Type 0 where
  refused : is_blocked r.0 ≡ true → invocations r.1.journal ≡ before → Handled p G before r
  ran :
      (d : Decision) (c : Option Credential)
      → G d
      → Carries p d c
      → is_blocked r.0 ≡ false
      → invocations r.1.journal ≡ c ∷ before
      → Handled p G before r

module _ {W V : Type 0} (p : Pass W V) where
  -- What follows the handler adds no call of it and never blocks.
  complete-invocations :
      (warnings : List Text) (d : Decision) (scope : Option (List Text)) (r : Try V) (s : Run W)
      → (is_blocked (complete p warnings d scope r s).0 ≡ false)
        × (invocations (complete p warnings d scope r s).1.journal ≡ invocations s.journal)
  complete-invocations warnings d scope (ok v) s =
      (refl, rw (emit-journal p warnings allowed d scope none s))
  complete-invocations warnings d scope (threw m) s = (refl, refl)

  redacted-invocations :
      (hook : Option (V → Decision → Stateful W (Try V))) (warnings : List Text) (d : Decision)
      (scope : Option (List Text)) (v : V) (s : Run W)
      → let (shown, s') = redact_with p hook v d s in
        let r = complete p warnings d scope shown s' in
        (is_blocked r.0 ≡ false) × (invocations r.1.journal ≡ invocations s.journal)
  redacted-invocations none warnings d scope v s = complete-invocations warnings d scope (ok v) s
  redacted-invocations (some hook) warnings d scope v s =
      complete-invocations warnings d scope (hook v d s.world).0
        (record { world = (hook v d s.world).1; journal = redacted d ∷ s.journal })

  after_handler-invocations :
      (warnings : List Text) (d : Decision) (scope : Option (List Text)) (r : Try V) (s : Run W)
      → (is_blocked (after_handler p warnings d scope r s).0 ≡ false)
        × (invocations (after_handler p warnings d scope r s).1.journal ≡ invocations s.journal)
  after_handler-invocations warnings d scope (ok v) s =
      redacted-invocations p.deps.redact warnings d scope v s
  after_handler-invocations warnings d scope (threw m) s =
      (refl, rw (emit-journal p warnings handler_error d scope (some m) s))

module _ {W V : Type 0} (p : Pass W V) {G : Decision → Type 0} where
  refuse-Handled :
      (warnings : List Text) (o : Outcome) (d : Decision) (effect : Effect) (reason : Text)
      (s : Run W)
      → Handled p G (invocations s.journal) (refuse p warnings o d effect reason s)
  refuse-Handled warnings o d effect reason s =
      refused refl (rw (emit-journal p warnings o d none none s))

  module _ (invoke : Option Credential → Stateful W (Try V)) where
    invoke_handler-Handled :
        (warnings : List Text) (d : Decision) (c : Option Credential) (s : Run W)
        → G d
        → Carries p d c
        → Handled p G (invocations s.journal) (invoke_handler p invoke warnings d c s)
    unfolding invoke_handler
    invoke_handler-Handled warnings d c s g k =
        let after =
          after_handler-invocations p warnings d (scope_of c) (invoke c s.world).0
            (record { world = (invoke c s.world).1; journal = invoked c ∷ s.journal }) in
        ran d c g k after.0 after.1

    after_secrets-Handled :
        (warnings : List Text) (d : Decision) (r : Try Credential) (s : Run W)
        → G d
        → ((c : Credential) → r ≡ ok c → Carries p d (some c))
        → Handled p G (invocations s.journal) (after_secrets p invoke warnings d r s)
    after_secrets-Handled warnings d (ok c) s g k =
        invoke_handler-Handled _ d (some c) s g (k c refl)
    after_secrets-Handled warnings d (threw m) s g k = refuse-Handled _ denied d deny _ s

    with_credential-Handled :
        (warnings : List Text) (d : Decision) (ref : Option CredentialRef) (s : Run W)
        → credential_obligation d.obligations ≡ ref
        → G d
        → Handled p G (invocations s.journal) (with_credential p invoke warnings d ref s)
    with_credential-Handled warnings d none s e g =
        invoke_handler-Handled warnings d none s g (bare e refl)
    with_credential-Handled warnings d (some ref) s e g =
        after_secrets-Handled warnings d (p.deps.secrets ref d s.world).0
          (record {
            world = (p.deps.secrets ref d s.world).1;
            journal = resolved ref d ∷ s.journal;
          })
          g (λ c found. minted ref s.world c e found refl)

    resolve_credential-Handled :
        (warnings : List Text) (d : Decision) (s : Run W)
        → G d
        → Handled p G (invocations s.journal) (resolve_credential p invoke warnings d s)
    unfolding resolve_credential
    resolve_credential-Handled warnings d s g =
        with_credential-Handled warnings d (credential_obligation d.obligations) s refl g

    after_approval-Handled :
        (warnings : List Text) (d : Decision) (r : Try ApprovalResult) (s : Run W)
        → (approved_of r ≡ true → G d)
        → Handled p G (invocations s.journal) (after_approval p invoke warnings d r s)
    after_approval-Handled warnings d r s g = elim (Bool-cases (approved_of r)) [
      | inl given ↦ rw given (resolve_credential-Handled warnings d s (g given))
      | inr missing ↦ rw missing (refuse-Handled _ _ d require_approval _ s)
    ]

module _ {W V : Type 0} (p : Pass W V) (invoke : Option Credential → Stateful W (Try V)) where
  module _ (w : W) where
    ask_provider-Handled :
        (warnings : List Text) (d : Decision)
        (provider : Option (AccessRequest → Decision → Stateful W (Try ApprovalResult)))
        (journal : List Call)
        → (p.deps.policy p.req w).0 ≡ ok d
        → d.effect ≡ require_approval
        → p.deps.approval ≡ provider
        → Handled p (Granted p w) (invocations journal) (
            ask_provider p invoke warnings d provider
              (record { world = (p.deps.policy p.req w).1; journal = journal }))
    ask_provider-Handled warnings d none journal e f h =
        refuse-Handled p _ approval_denied d require_approval _ _
    ask_provider-Handled warnings d (some provider) journal e f h =
        let answer = provider p.req d (p.deps.policy p.req w).1 in
        after_approval-Handled p invoke warnings d answer.0
          (record { world = answer.1; journal = asked_approval p.req d ∷ journal })
          (granted answer.0 refl)
      where
        granted :
            (r : Try ApprovalResult)
            → (provider p.req d (p.deps.policy p.req w).1).0 ≡ r
            → approved_of r ≡ true
            → Granted p w d
        granted (ok r) q a = by_approver provider r e f h q a
        granted (threw m) q a = cc

    by_effect-Handled :
        (warnings : List Text) (d : Decision) (effect : Effect) (journal : List Call)
        → (p.deps.policy p.req w).0 ≡ ok d
        → d.effect ≡ effect
        → Handled p (Granted p w) (invocations journal) (
            by_effect p invoke warnings d effect
              (record { world = (p.deps.policy p.req w).1; journal = journal }))
    by_effect-Handled warnings d deny journal e f = refuse-Handled p _ denied d deny _ _
    by_effect-Handled warnings d require_approval journal e f =
        ask_provider-Handled warnings d p.deps.approval journal e f refl
    by_effect-Handled warnings d allow journal e f =
        resolve_credential-Handled p invoke warnings d _ (by_policy e f)

    without_policy-Handled :
        (mode : FailMode) (reason : Text) (s : Run W)
        → p.deps.fail_mode ≡ mode
        → (p.deps.policy p.req w).0 ≡ threw reason
        → Handled p (Granted p w) (invocations s.journal) (without_policy p invoke mode reason s)
    unfolding enforce
    without_policy-Handled closed reason s f e = refuse-Handled p _ denied _ deny _ s
    without_policy-Handled open_for_dev reason s f e =
        resolve_credential-Handled p invoke _ (unavailable allow) _ (by_open_mode reason e f refl)

    after_policy-Handled :
        (r : Try Decision) (journal : List Call)
        → (p.deps.policy p.req w).0 ≡ r
        → Handled p (Granted p w) (invocations journal) (
            after_policy p invoke r
              (record { world = (p.deps.policy p.req w).1; journal = journal }))
    unfolding enforce
    after_policy-Handled (ok d) journal e = by_effect-Handled [] d d.effect journal e refl
    after_policy-Handled (threw reason) journal e =
        without_policy-Handled p.deps.fail_mode reason _ refl e

  evaluate-Handled :
      (s : Run W) → Handled p (Granted p s.world) (invocations s.journal) (evaluate p invoke s)
  unfolding evaluate
  evaluate-Handled s =
      after_policy-Handled s.world (p.deps.policy p.req s.world).0 (evaluated p.req ∷ s.journal)
        refl

-- A pass whose caller is identified either blocks and does not call the handler, or does not block
-- and calls it exactly once. It calls it only under a decision that allows, that requires approval
-- and was approved by the configured provider, or that stands in for an unreachable policy source
-- in fail mode "open"; and only with the credential that the secret source resolved for the
-- decision's first credential obligation, or with none where the decision has no such obligation.
pub run_pipeline-Handled :
    {W V : Type 0} (deps : PipelineDeps W V) (params : CallParams)
    (invoke : Option Credential → Stateful W (Try V)) (s : Run W) (subject : Subject)
    → (deps.identity params.extra (world₁ deps params s)).0 ≡ ok subject
    → Handled
        (begun deps params s subject)
        (Granted (begun deps params s subject) (begun_run deps params s).world)
        (invocations s.journal)
        (run_pipeline deps params invoke s)
run_pipeline-Handled deps params invoke s subject known =
    rw (run_pipeline-identified deps params s invoke subject known)
      (evaluate-Handled (begun deps params s subject) invoke (begun_run deps params s))
