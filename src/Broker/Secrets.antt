-- ===== src/Broker/Secrets.antt =====
-- packages/mcp-broker/src/secrets: the narrowing of scopes and the two local secret sources. The
-- decoding of the key, AES-256-GCM, `JSON.parse` and the reading of the file are parameters.
pub mod Env
pub mod File
use agent_valet.Common.{Option, none, some, List, [], ◌∷◌, Text}
use agent_valet.Broker.Types.{
  Obligation, credential, narrow_scope, Decision, CredentialRef, Credential, credential_obligation,
}

-- `ofType(decision, "narrow_scope")`
abbrev pub narrow_obligation : List Obligation → Option (List Text)
narrow_obligation [] = none
narrow_obligation (narrow_scope scope ∷ os) = some scope
narrow_obligation (o ∷ os) = narrow_obligation os

abbrev pub scope_of_ref : Option CredentialRef → Option (List Text)
scope_of_ref none = none
scope_of_ref (some ref) = ref.scope

-- `a ?? b`
abbrev pub first_scope : Option (List Text) → Option (List Text) → Option (List Text)
first_scope none b = b
first_scope (some a) b = some a

unfoldable pub narrowed_scope : CredentialRef → Decision → Option (List Text)
narrowed_scope ref decision =
    first_scope (narrow_obligation decision.obligations)
      (first_scope (scope_of_ref (credential_obligation decision.obligations)) ref.scope)

-- a credential with no expiry
abbrev pub static_credential : Text → Option (List Text) → Credential
static_credential token scope = record { token = token; expires_at = none; scope = scope }
