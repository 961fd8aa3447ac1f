-- ===== src/Broker/Hosted/Sources.antt =====
-- packages/mcp-broker/src/hosted/{policy-source,secret-source,audit-sink,endpoints}.ts.
use agent_valet.Common.{true, false, Option, none, some, List, [], ◌∷◌, ◌++◌, Text, codes}
use agent_valet.Common.Effects.{Try, ok, threw}
use agent_valet.Common.Json.{
  Json, null, string, array, object, Items, no_items, item, Fields, no_fields, field, property,
  as_string,
}
use agent_valet.Common.Throwing.{Io, ◌>>=◌, give}
use agent_valet.Broker.Authzen.{is_true, scope_of}
use agent_valet.Broker.Hosted.{HostedClient, request, subject_id}
use agent_valet.Broker.Types.{
  AccessRequest, Decision, Effect, allow, deny, Obligation, credential, narrow_scope, other,
  CredentialRef, Credential, AuditEvent,
}

abbrev pub authzen_access : Text
authzen_access = codes "/v1/authzen/access"

abbrev pub broker_credential : Text
broker_credential = codes "/v1/broker/credential"

abbrev pub broker_audit : Text
broker_audit = codes "/v1/broker/audit"

abbrev pub resource_id : AccessRequest → Text
resource_id req = req.resource.server ++ (codes ":" ++ req.resource.tool)

abbrev access_body : AccessRequest → Text → Json
access_body req subject = object (
    field (codes "subject")
      (object (
        field (codes "type") (string (codes "agent"))
          (field (codes "id") (string subject) no_fields)))
      (field (codes "action") (object (field (codes "name") (string req.action) no_fields)) (
        field (codes "resource")
          (object (
            field (codes "type") (string (codes "tool"))
              (field (codes "id") (string (resource_id req)) no_fields)))
          (field (codes "context")
            (object (
              field (codes "timestamp") (string req.ts) (
                field (codes "session_id") (string req.subject.session_id)
                  (field (codes "args_fingerprint") (string req.args_fingerprint) no_fields))))
            no_fields))))

abbrev hosted_decision : Effect → List Obligation → Decision
hosted_decision effect obligations = record {
  effect = effect;
  obligations = obligations;
  policy_id = codes "agentvalet";
  version = codes "1";
}

-- the thrown message of a read of null
abbrev pub null_read : Text → Text
null_read key = codes "Cannot read properties of null (reading '" ++ (key ++ codes "')")

-- the end of `AgentvaletPolicySource.evaluate`
abbrev decided : AccessRequest → Json → Try Decision
decided req null = threw (null_read (codes "decision"))
decided req result = elim (is_true (property (codes "decision") result)) [
  | true ↦ ok (hosted_decision allow (credential (resource_id req) none ∷ []))
  | false ↦ ok (hosted_decision deny [])
]

abbrev scope_items : List Text → Items
scope_items [] = no_items
scope_items (s ∷ ss) = item (string s) (scope_items ss)

abbrev pub scope_field : Text → Option (List Text) → Fields → Fields
scope_field key none rest = rest
scope_field key (some scope) rest = field key (array (scope_items scope)) rest

-- an obligation as JSON, of which an unknown one keeps its type
abbrev obligation_json : Obligation → Json
obligation_json (credential ref scope) = object (
    field (codes "type") (string (codes "credential"))
      (field (codes "ref") (string ref) (scope_field (codes "scope") scope no_fields)))
obligation_json (narrow_scope scope) = object (
    field (codes "type") (string (codes "narrow_scope"))
      (scope_field (codes "scope") (some scope) no_fields))
obligation_json (other type_name) = object (field (codes "type") (string type_name) no_fields)

abbrev pub obligations_json : List Obligation → Items
obligations_json [] = no_items
obligations_json (o ∷ os) = item (obligation_json o) (obligations_json os)

abbrev mint_body : CredentialRef → Decision → Json
mint_body ref decision = object (
    field (codes "ref") (string ref.id) (
      field (codes "obligations") (array (obligations_json decision.obligations))
        (scope_field (codes "requestedScope") ref.scope no_fields)))

abbrev no_token : CredentialRef → Text
no_token ref = codes "hosted credential mint returned no token for \"" ++ (ref.id ++ codes "\"")

abbrev expiry_of : Option Text → Option Text
expiry_of none = none
expiry_of (some []) = none
expiry_of (some (c ∷ cs)) = some (c ∷ cs)

abbrev minted_with : CredentialRef → Json → Option Text → Try Credential
minted_with ref minted none = threw (no_token ref)
minted_with ref minted (some token) = ok (record {
  token = token;
  expires_at = expiry_of (as_string (property (codes "expiresAt") minted));
  scope = scope_of (property (codes "scope") minted);
})

-- the end of `AgentvaletSecretSource.resolve`
abbrev minted_credential : CredentialRef → Json → Try Credential
minted_credential ref minted = minted_with ref minted (as_string (property (codes "token") minted))

abbrev settle : {W A : Type 0} → Try A → Io W A
settle r w = (r, w)

module _ {W : Type 0} (client : HostedClient W) where
  -- `AgentvaletPolicySource.evaluate`
  unfoldable pub evaluate : (Text → Option Json) → Option Text → AccessRequest → Io W Decision
  evaluate decode_payload agent_id req = do
    subject ← subject_id client decode_payload agent_id
    result ← request client (codes "POST") authzen_access (some (access_body req subject))
    settle (decided req result)

  -- `AgentvaletSecretSource.resolve`
  unfoldable pub resolve : CredentialRef → Decision → Io W Credential
  resolve ref decision = do
    minted ← request client (codes "POST") broker_credential (some (mint_body ref decision))
    settle (minted_credential ref minted)

  abbrev done : Json → Io W (Unit {0})
  done answer = give tt

  -- `AgentvaletAuditSink.emit`, by the event as JSON
  unfoldable pub emit : (AuditEvent → Json) → AuditEvent → Io W (Unit {0})
  emit event_json event = do
    answer ← request client (codes "POST") broker_audit (some (event_json event))
    done answer
