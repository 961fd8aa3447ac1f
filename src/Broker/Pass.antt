-- ===== src/Broker/Pass.antt =====
-- packages/mcp-broker/src/pipeline.ts: what one pass of enforcement is given, what it captures, and
-- the calls that it notes.
use agent_valet.Common.{
  ℕ, Bool, false, Option, none, some, List, [], ◌∷◌, ◌++◌, Text, codes, ◌===◌, truthy,
  if◌then◌else◌,
}
use agent_valet.Common.Int.{sub_ℕ}
use agent_valet.Common.Effects.{Try, ok, threw, Stateful}
use agent_valet.Broker.Identity.{non_empty}
use agent_valet.Broker.Types.{
  McpHandlerExtra, Subject, AccessRequest, Effect, Decision, CredentialRef, Credential,
  ApprovalResult, Outcome, approval_timeout, approval_denied, AuditEvent,
}

pub data FailMode : Type 0 where
  closed open_for_dev : FailMode

pub record PipelineDeps (W V : Type 0) : Type 0 where
  pub server_name : Text
  pub policy : AccessRequest → Stateful W (Try Decision)
  pub secrets : CredentialRef → Decision → Stateful W (Try Credential)
  pub audit : AuditEvent → Stateful W (Try (Unit {0}))
  pub identity : McpHandlerExtra → Stateful W (Try Subject)
  pub approval : Option (AccessRequest → Decision → Stateful W (Try ApprovalResult))
  pub redact : Option (V → Decision → Stateful W (Try V))
  pub fail_mode : FailMode
  pub warn : Text → W → W
  pub now : Stateful W ℕ
  pub clock : Stateful W Text

pub data PipelineResult (V : Type 0) : Type 0 where
  completed : V → PipelineResult V
  blocked : Effect → Text → PipelineResult V

-- A call that the pipeline has made.
pub data Call : Type 0 where
  evaluated : AccessRequest → Call
  asked_approval : AccessRequest → Decision → Call
  resolved : CredentialRef → Decision → Call
  invoked : Option Credential → Call
  redacted : Decision → Call
  audited : AuditEvent → Call

pub record Run (W : Type 0) : Type 0 where
  pub world : W
  pub journal : List Call

abbrev pub M : Type 0 → Type 0 → Type 0
M W A = Stateful (Run W) A

abbrev pub quietly : {W A : Type 0} → Stateful W A → M W A
quietly act s = let (a, w) = act s.world in (a, record s { world = w })

abbrev pub calling : {W A : Type 0} → Call → Stateful W A → M W A
calling c act s = let (a, w) = act s.world in (a, record { world = w; journal = c ∷ s.journal })

abbrev pub silently : {W : Type 0} → (W → W) → M W (Unit {0})
silently f s = (tt, record s { world = f s.world })

-- What the closures of one pass capture.
pub record Pass (W V : Type 0) : Type 0 where
  pub deps : PipelineDeps W V
  pub tool_name : Text
  pub subject : Subject
  pub transport : Text
  pub fingerprint : Text
  pub req : AccessRequest
  pub started : ℕ

abbrev pub audit_event :
    {W V : Type 0}
    → Pass W V
    → List Text
    → Outcome
    → Decision
    → Option (List Text)
    → Option Text
    → Text
    → ℕ
    → AuditEvent
audit_event p warnings outcome decision scope error ts now = record {
  schema_version = 1;
  ts = ts;
  subject = p.subject;
  resource = p.req.resource;
  action = p.tool_name;
  args_fingerprint = p.fingerprint;
  effect = decision.effect;
  policy_id = decision.policy_id;
  version = decision.version;
  credential_scope = scope;
  transport = p.transport;
  latency_ms = sub_ℕ now p.started;
  outcome = outcome;
  warnings = warnings;
  error = non_empty error;
}

abbrev pub scope_of : Option Credential → Option (List Text)
scope_of none = none
scope_of (some c) = c.scope

abbrev pub expiry_warnings : Credential → List Text
expiry_warnings c = elim c.expires_at [
  | none ↦ codes "credential_no_expiry_static_secret" ∷ []
  | some _ ↦ []
]

-- `approved` and `approvalReason` after the call of the provider
abbrev pub approved_of : Try ApprovalResult → Bool
approved_of (ok r) = r.approved
approved_of (threw message) = false

abbrev pub reason_of : Try ApprovalResult → Option Text
reason_of (ok r) = r.reason
reason_of (threw message) = some message

abbrev pub refusal_outcome : Option Text → Outcome
refusal_outcome none = approval_denied
refusal_outcome (some reason) =
    if reason === codes "timeout" then approval_timeout else approval_denied

abbrev pub refusal_warnings : Option Text → List Text
refusal_warnings none = []
refusal_warnings (some reason) = if truthy reason then (codes "approval_" ++ reason) ∷ [] else []

abbrev pub unavailable : Effect → Decision
unavailable effect = record {
  effect = effect;
  obligations = [];
  policy_id = codes "unavailable";
  version = codes "0";
}
