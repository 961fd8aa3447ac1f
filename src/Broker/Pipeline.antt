-- ===== src/Broker/Pipeline.antt =====
-- packages/mcp-broker/src/pipeline.ts: one pass of enforcement for one tool call. What the pipeline
-- calls (policy, secrets, approval, audit, identity, redaction, the handler, the clock, the
-- logger) acts on a world `W` that the model does not look into; each call is also noted in a
-- journal, newest first, so that theorems can speak about what was called.
pub mod Journal
pub mod Audit
pub mod Authorization
pub mod Failures
pub mod Faithful
pub mod Sink
use agent_valet.Common.{
  ℕ, Bool, false, Option, none, some, List, [], ◌∷◌, ◌++◌, Text, codes, ◌===◌, truthy, or_else,
  if◌then◌else◌,
}
use agent_valet.Common.Int.{sub_ℕ}
use agent_valet.Common.Effects.{Try, ok, threw, Stateful, ◌>>=◌, ◌>>◌, pure}
use agent_valet.Broker.Identity.{non_empty}
use agent_valet.Broker.Types.{
  McpHandlerExtra, Subject, AccessRequest, Effect, allow, deny, require_approval, Decision,
  CredentialRef, Credential, ApprovalResult, Outcome, allowed, denied, approval_timeout,
  approval_denied, handler_error, AuditEvent, credential_obligation,
}
use agent_valet.Broker.Pass.{
  Call, FailMode, M, Pass, PipelineDeps, PipelineResult, Run, approved_of, asked_approval,
  audit_event, audited, blocked, calling, closed, completed, evaluated, expiry_warnings, invoked,
  open_for_dev, quietly, reason_of, redacted, refusal_outcome, refusal_warnings, resolved, scope_of,
  silently, unavailable,
}

module _ {W V : Type 0} (p : Pass W V) where
  abbrev pub after_audit : Try (Unit {0}) → M W (Unit {0})
  after_audit (ok _) = pure tt
  after_audit (threw message) = silently (
      p.deps.warn (
        codes "[mcp-broker] audit sink failed for \""
        ++ (p.tool_name ++ (codes "\": " ++ message))))

  -- `emit`; the sink is best-effort
  pub emit : List Text → Outcome → Decision → Option (List Text) → Option Text → M W (Unit {0})
  emit warnings outcome decision scope error = do
    ts ← quietly p.deps.clock
    now ← quietly p.deps.now
    let event = audit_event p warnings outcome decision scope error ts now
    written ← calling (audited event) (p.deps.audit event)
    after_audit written

  abbrev pub refuse : List Text → Outcome → Decision → Effect → Text → M W (Try (PipelineResult V))
  refuse warnings outcome decision effect reason = do
    emit warnings outcome decision none none
    pure (ok (blocked effect reason))

  abbrev pub complete :
      List Text → Decision → Option (List Text) → Try V → M W (Try (PipelineResult V))
  complete warnings decision scope (ok value) = do
    emit warnings allowed decision scope none
    pure (ok (completed value))
  complete warnings decision scope (threw message) = pure (threw message)

  abbrev pub redact_with : Option (V → Decision → Stateful W (Try V)) → V → Decision → M W (Try V)
  redact_with none value decision = pure (ok value)
  redact_with (some hook) value decision = calling (redacted decision) (hook value decision)

  -- step 6, and the handler's own failure of step 5
  abbrev pub after_handler :
      List Text → Decision → Option (List Text) → Try V → M W (Try (PipelineResult V))
  after_handler warnings decision scope (ok value) = do
    shown ← redact_with p.deps.redact value decision
    complete warnings decision scope shown
  after_handler warnings decision scope (threw message) = do
    emit warnings handler_error decision scope (some message)
    pure (threw message)

  module _ (invoke : Option Credential → Stateful W (Try V)) where
    -- step 5
    pub invoke_handler : List Text → Decision → Option Credential → M W (Try (PipelineResult V))
    invoke_handler warnings decision credential = do
      result ← calling (invoked credential) (invoke credential)
      after_handler warnings decision (scope_of credential) result

    abbrev pub after_secrets : List Text → Decision → Try Credential → M W (Try (PipelineResult V))
    after_secrets warnings decision (ok c) =
        invoke_handler (warnings ++ expiry_warnings c) decision (some c)
    after_secrets warnings decision (threw message) =
        refuse (warnings ++ (codes "credential_unresolved: " ++ message) ∷ []) denied decision deny
          (codes "credential could not be resolved")

    abbrev pub with_credential :
        List Text → Decision → Option CredentialRef → M W (Try (PipelineResult V))
    with_credential warnings decision none = invoke_handler warnings decision none
    with_credential warnings decision (some ref) = do
      found ← calling (resolved ref decision) (p.deps.secrets ref decision)
      after_secrets warnings decision found

    -- step 4
    pub resolve_credential : List Text → Decision → M W (Try (PipelineResult V))
    unfolding invoke_handler
    resolve_credential warnings decision =
        with_credential warnings decision (credential_obligation decision.obligations)

    abbrev pub after_approval :
        List Text → Decision → Try ApprovalResult → M W (Try (PipelineResult V))
    after_approval warnings decision answer =
        if approved_of answer
        then resolve_credential warnings decision
        else refuse (warnings ++ refusal_warnings (reason_of answer))
            (refusal_outcome (reason_of answer)) decision require_approval
            (codes "approval " ++ or_else (reason_of answer) (codes "not granted"))

    abbrev pub ask_provider :
        List Text
        → Decision
        → Option (AccessRequest → Decision → Stateful W (Try ApprovalResult))
        → M W (Try (PipelineResult V))
    ask_provider warnings decision none =
        refuse (warnings ++ codes "require_approval_without_provider" ∷ []) approval_denied decision
          require_approval (codes "approval required but no approval provider is configured")
    ask_provider warnings decision (some provider) = do
      answer ← calling (asked_approval p.req decision) (provider p.req decision)
      after_approval warnings decision answer

    -- steps 2 and 3, by the decision's effect
    abbrev pub by_effect : List Text → Decision → Effect → M W (Try (PipelineResult V))
    by_effect warnings decision deny =
        refuse warnings denied decision deny (codes "denied by policy")
    by_effect warnings decision require_approval = ask_provider warnings decision p.deps.approval
    by_effect warnings decision allow = resolve_credential warnings decision

    pub enforce : List Text → Decision → M W (Try (PipelineResult V))
    unfolding resolve_credential
    enforce warnings decision = by_effect warnings decision decision.effect

    abbrev pub without_policy : FailMode → Text → M W (Try (PipelineResult V))
    without_policy open_for_dev reason = do
      silently (
          p.deps.warn (
            codes "[mcp-broker] failMode=open: policy source unreachable, ALLOWING \""
            ++ (p.tool_name
                ++ (codes "\" (" ++ (reason ++ codes "). This is unsafe outside a dev loop.")))))
      enforce ((codes "failMode_open_policy_unreachable: " ++ reason) ∷ []) (unavailable allow)
    without_policy closed reason =
        refuse ((codes "policy_source_unreachable: " ++ reason) ∷ []) denied (unavailable deny) deny
          (codes "policy source unreachable")

    abbrev pub after_policy : Try Decision → M W (Try (PipelineResult V))
    after_policy (ok decision) = enforce [] decision
    after_policy (threw reason) = without_policy p.deps.fail_mode reason

    -- step 1
    pub evaluate : M W (Try (PipelineResult V))
    unfolding enforce
    evaluate = do answer ← calling (evaluated p.req) (p.deps.policy p.req); after_policy answer

-- the arguments of `runPipeline`, with `argsFingerprint(args)`
pub record CallParams : Type 0 where
  pub tool_name : Text
  pub fingerprint : Text
  pub extra : McpHandlerExtra

module _ {W V : Type 0} (deps : PipelineDeps W V) (params : CallParams) where
  abbrev pub transport : Text
  transport = if params.extra.request_info then codes "http" else codes "stdio"

  abbrev pub pass_of : ℕ → Subject → Text → Pass W V
  pass_of started subject ts = record {
    deps = deps;
    tool_name = params.tool_name;
    subject = subject;
    transport = transport;
    fingerprint = params.fingerprint;
    req = record {
      subject = subject;
      action = params.tool_name;
      resource = record { server = deps.server_name; tool = params.tool_name };
      args_fingerprint = params.fingerprint;
      transport = transport;
      ts = ts;
    };
    started = started;
  }

  abbrev pub after_identity :
      (Option Credential → Stateful W (Try V)) → ℕ → Try Subject → M W (Try (PipelineResult V))
  after_identity invoke started (threw message) = pure (threw message)
  after_identity invoke started (ok subject) = do
    ts ← quietly deps.clock
    evaluate (pass_of started subject ts) invoke

  pub run_pipeline : (Option Credential → Stateful W (Try V)) → M W (Try (PipelineResult V))
  unfolding evaluate
  run_pipeline invoke = do
    started ← quietly deps.now
    subject ← quietly (deps.identity params.extra)
    after_identity invoke started subject
