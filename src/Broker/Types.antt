-- ===== src/Broker/Types.antt =====
-- packages/mcp-broker/src/types.ts: what the parts of the broker exchange. A `Date` is the text
-- that it is made from; a decision's `obligations` that are absent are the empty list, which every
-- reader puts in their place.
use agent_valet.Common.Int.{ℤ}
use agent_valet.Common.{ℕ, Bool, Option, none, some, List, [], ◌∷◌, Text}

-- `extra`, by the fields that the broker reads; `spiffe_id` is `authInfo.extra.spiffeId` where it
-- is a string, and `request_info` whether `requestInfo` is truthy.
pub record McpHandlerExtra : Type 0 where
  pub session_id : Option Text
  pub request_id : Option Text
  pub client_id : Option Text
  pub spiffe_id : Option Text
  pub request_info : Bool

pub record Subject : Type 0 where
  pub id : Text
  pub spiffe_id : Option Text
  pub session_id : Text

pub record Resource : Type 0 where
  pub server : Text
  pub tool : Text

pub record AccessRequest : Type 0 where
  pub subject : Subject
  pub action : Text
  pub resource : Resource
  pub args_fingerprint : Text
  pub transport : Text
  pub ts : Text

pub data Effect : Type 0 where
  allow deny require_approval : Effect

pub data Obligation : Type 0 where
  credential : Text → Option (List Text) → Obligation
  narrow_scope : List Text → Obligation
  other : Text → Obligation

pub record Decision : Type 0 where
  pub effect : Effect
  pub obligations : List Obligation
  pub policy_id : Text
  pub version : Text

pub record CredentialRef : Type 0 where
  pub id : Text
  pub scope : Option (List Text)

pub record Credential : Type 0 where
  pub token : Text
  pub expires_at : Option Text
  pub scope : Option (List Text)

pub record ApprovalResult : Type 0 where
  pub approved : Bool
  pub reason : Option Text

pub data Outcome : Type 0 where
  allowed denied approval_timeout approval_denied handler_error : Outcome

pub record AuditEvent : Type 0 where
  pub schema_version : ℕ
  pub ts : Text
  pub subject : Subject
  pub resource : Resource
  pub action : Text
  pub args_fingerprint : Text
  pub effect : Effect
  pub policy_id : Text
  pub version : Text
  pub credential_scope : Option (List Text)
  pub transport : Text
  pub latency_ms : ℤ
  pub outcome : Outcome
  pub warnings : List Text
  pub error : Option Text

-- `(decision.obligations ?? []).find((o) => o.type === "credential")`
abbrev pub credential_obligation : List Obligation → Option CredentialRef
credential_obligation [] = none
credential_obligation (credential ref scope ∷ os) = some (record { id = ref; scope = scope })
credential_obligation (o ∷ os) = credential_obligation os
