-- ===== src/Broker/Authzen.antt =====
-- packages/mcp-broker/src/policy/authzen-source.ts: a policy decision point that speaks AuthZEN.
pub mod Approval
use agent_valet.Common.{
  ℕ, Bool, true, false, Option, none, some, List, [], ◌∷◌, ◌++◌, Text, codes, ◌===◌, ◌||◌, leb,
  ◌&&◌, ltb, truthy, or_else, length, if◌then◌else◌,
}
use agent_valet.Common.Js.{decimal_of, ends_with}
use agent_valet.Common.Effects.{Try, ok, threw, Stateful}
use agent_valet.Common.Json.{
  Json, null, boolean, string, array, object, Items, no_items, item, Fields, no_fields, field,
  property, as_string, strings_of,
}
use agent_valet.Common.Throwing.{Io, ◌>>=◌, give, raise}
use agent_valet.Broker.Types.{
  AccessRequest, Decision, Effect, allow, deny, require_approval, Obligation, credential,
  narrow_scope,
}

-- the end of `mapObligations`
pub record Mapped : Type 0 where
  pub obligations : List Obligation
  pub requires_approval : Bool

abbrev pub no_obligations : Mapped
no_obligations = record { obligations = []; requires_approval = false }

-- `attributes`, or an object without keys
abbrev pub attributes_of : Json → Json
attributes_of o = or_else (property (codes "attributes") o) (object no_fields)

abbrev pub scope_of : Option Json → Option (List Text)
scope_of (some (array xs)) = some (strings_of xs)
scope_of _ = none

abbrev credential_from : Option Text → Option (List Text) → List Obligation
credential_from none scope = []
credential_from (some ref) scope = credential ref scope ∷ []

abbrev narrowing_from : Option (List Text) → List Obligation
narrowing_from none = []
narrowing_from (some scope) = narrow_scope scope ∷ []

abbrev pub asks_approval : Text → Bool
asks_approval id = id === codes "approval" || id === codes "require_approval"

-- what one directive that asks for no approval adds to the obligations
abbrev obligation_from : Option Text → Json → List Obligation
obligation_from none attrs = []
obligation_from (some id) attrs =
    if id === codes "credential"
    then credential_from (as_string (property (codes "ref") attrs))
        (scope_of (property (codes "scope") attrs))
    else if id === codes "narrow_scope"
    then narrowing_from (scope_of (property (codes "scope") attrs))
    else []

abbrev pub directive_id : Json → Option Text
directive_id o = as_string (property (codes "id") o)

abbrev pub is_approval : Json → Bool
is_approval o = elim (directive_id o) [ none ↦ false | some id ↦ asks_approval id ]

abbrev add_directive : Json → Mapped → Mapped
add_directive o m = if is_approval o then record m { requires_approval = true } else record m {
  obligations = obligation_from (directive_id o) (attributes_of o) ++ m.obligations;
}

-- the loop; a primitive has no id, and adds nothing
unfoldable pub map_items : Items → Mapped
map_items no_items = no_obligations
map_items (item o rest) = add_directive o (map_items rest)

abbrev pub map_obligations : Option Json → Mapped
map_obligations (some (array xs)) = map_items xs
map_obligations _ = no_obligations

-- `if (s) o.key = s`
abbrev truthy_field : Text → Option Text → Fields
truthy_field key none = no_fields
truthy_field key (some s) = if truthy s then field key (string s) no_fields else no_fields

abbrev pub to_authzen_request : AccessRequest → Json
to_authzen_request req = object (
    field (codes "subject")
      (object (
        field (codes "type") (string (codes "agent")) (
          field (codes "id") (string req.subject.id) (
            field (codes "properties")
              (object (
                field (codes "sessionId") (string req.subject.session_id)
                  (truthy_field (codes "spiffeId") req.subject.spiffe_id)))
              no_fields))))
      (field (codes "action") (object (field (codes "name") (string req.action) no_fields)) (
        field (codes "resource")
          (object (
            field (codes "type") (string (codes "tool")) (
              field (codes "id") (string req.resource.tool) (
                field (codes "properties")
                  (object (field (codes "server") (string req.resource.server) no_fields))
                  no_fields))))
          (field (codes "context")
            (object (
              field (codes "argsFingerprint") (string req.args_fingerprint) (
                field (codes "transport") (string req.transport)
                  (field (codes "ts") (string req.ts) no_fields))))
            no_fields))))

-- `replace(/\/+$/, "")`
abbrev pub drop_slashes : Text → Text
drop_slashes [] = []
drop_slashes (c ∷ cs) =
    let rest = drop_slashes cs in
    if truthy rest then c ∷ rest else (if (c ∷ []) === codes "/" then [] else c ∷ [])

abbrev pub evaluation_url : Text → Text
evaluation_url pdp_base_url =
    let base = drop_slashes pdp_base_url in
    if ends_with (codes "/evaluation") base then base else base ++ codes "/access/v1/evaluation"

-- what `fetch` leaves: `ok` and `status`, and the answer of `json()`
pub record Response (W : Type 0) : Type 0 where
  pub is_ok : Bool
  pub status : ℕ
  pub json : Io W Json

-- `body?.decision === true`
abbrev pub is_true : Option Json → Bool
is_true (some (boolean b)) = b
is_true _ = false

abbrev pub obligations_in : Option Json → Option Json
obligations_in none = none
obligations_in (some context) = property (codes "obligations") context

abbrev pub decision_with : Effect → List Obligation → Decision
decision_with effect obligations = record {
  effect = effect;
  obligations = obligations;
  policy_id = codes "authzen";
  version = codes "1";
}

abbrev elevated : Mapped → Decision
elevated m =
    if m.requires_approval
    then decision_with require_approval m.obligations
    else decision_with allow m.obligations

unfoldable pub decision_of : Json → Decision
decision_of body =
    if is_true (property (codes "decision") body)
    then elevated (map_obligations (obligations_in (property (codes "context") body)))
    else decision_with deny []

module _ {W : Type 0} (fetch : Text → List (Text × Text) → Json → Io W (Response W))
    (pdp_base_url : Text) (extra_headers : List (Text × Text)) where
  abbrev headers : List (Text × Text)
  headers =
      (codes "content-type", codes "application/json")
      ∷ (codes "accept", codes "application/json")
      ∷ extra_headers

  abbrev answer_of : Json → Io W Decision
  answer_of body = give (decision_of body)

  abbrev read_answer : Response W → Io W Decision
  read_answer res =
      if res.is_ok
      then (do body ← res.json; answer_of body)
      else raise (codes "authzen PDP returned HTTP " ++ decimal_of res.status)

  -- `AuthzenPolicySource.evaluate`
  unfoldable pub evaluate : AccessRequest → Io W Decision
  evaluate req = do
    res ← fetch (evaluation_url pdp_base_url) headers (to_authzen_request req)
    read_answer res
