-- ===== src/Mcp/Handlers.antt =====
-- packages/mcp-server/src/tools/handlers.ts: the handlers of one request each.
pub mod Diagnostic
use agent_valet.Common.{
  ℕ, false, Option, none, some, List, [], ◌∷◌, ◌++◌, Text, codes, if◌then◌else◌,
}
use agent_valet.Common.Js.{decimal_of, is_ok}
use agent_valet.Common.Effects.{Try, ok, threw, Stateful}
use agent_valet.Common.Throwing.{Io, ◌>>=◌, give, raise}
use agent_valet.Common.Json.{Json, string, object, Fields, no_fields, field, get, property}
use agent_valet.Common.Uri.{encode_uri_component}
use agent_valet.Mcp.Net.{
  ToolResult, Request, Response, Outside, error_content, json_content, try_parse_json,
  is_structured, diagnose_network_error,
}
use agent_valet.Mcp.Auth.{ServerContext, json_type, require_credentials, fetch_with_auth}

abbrev pub network_error : Text → ToolResult
network_error m = error_content (codes "Network error: " ++ m)

abbrev pub proxy_error : ℕ → Text → ToolResult
proxy_error status text =
    error_content (codes "Proxy error " ++ (decimal_of status ++ (codes ": " ++ text)))

abbrev pub optional_field : Text → Option Json → Fields → Fields
optional_field key none rest = rest
optional_field key (some v) rest = field key v rest

-- `if (args[k] !== undefined) body[k] = args[k]`, for each key in turn
abbrev pub copied : List Text → Fields → Fields
copied [] args = no_fields
copied (key ∷ keys) args = optional_field key (get key args) (copied keys args)

-- An undefined field is not written by `JSON.stringify`.
unfoldable pub diagnostic_body : Fields → Fields
diagnostic_body args = optional_field (codes "severity") (get (codes "severity") args) (
    optional_field (codes "message") (get (codes "message") args) (
      copied
        (codes "code"
          ∷ codes "platform"
          ∷ codes "endpoint"
          ∷ codes "correlation_id"
          ∷ codes "context"
          ∷ [])
        args))

module _ {W K B : Type 0} (out : Outside W K B) (ctx : ServerContext K) where
  abbrev pub request : Text → Text → Option Json → Request
  request method path body = record {
    url = ctx.proxy_url ++ path;
    method = method;
    headers = [];
    body = body;
  }

  -- `if (gate) return gate;`
  abbrev pub unless_gated :
      {R : Type 0} → (ToolResult → R) → Stateful W R → Option ToolResult → Stateful W R
  unless_gated finish next (some refusal) w = (finish refusal, w)
  unless_gated finish next none w = next w

  abbrev pub gated : {R : Type 0} → (ToolResult → R) → Stateful W R → Stateful W R
  gated finish next w =
      let (gate, w') = require_credentials out ctx w in unless_gated finish next gate w'

  -- `catch (err) { return ...; }` around a request
  abbrev pub or_return :
      {A : Type 0} → (Text → ToolResult) → (A → Io W ToolResult) → Try A → Io W ToolResult
  or_return recover next (ok a) = next a
  or_return recover next (threw m) = give (recover m)

  abbrev pub caught :
      {A : Type 0} → (Text → ToolResult) → Io W A → (A → Io W ToolResult) → Io W ToolResult
  caught recover step next w = or_return recover next (step w).0 (step w).1

  abbrev pub by_status : ℕ → Text → ToolResult
  by_status status text = if is_ok status then json_content out text else proxy_error status text

  -- the end of most handlers
  abbrev pub relayed : Response B → Io W ToolResult
  relayed res = do text ← out.read_text res.body; give (by_status res.status text)

  abbrev unwrapped : Json → Option Json → Option Json
  unwrapped parsed none = some parsed
  unwrapped parsed (some inner) = some inner

  -- `inner`, which is `.data` where the parsed body has one
  abbrev inner_of : Option Json → Option Json
  inner_of none = none
  inner_of (some parsed) = unwrapped parsed (property (codes "data") parsed)

  abbrev with_inner : Text → Option Json → ToolResult
  with_inner body none = json_content out body
  with_inner body (some inner) =
      if is_structured inner
      then record { text = body; structured_content = some inner; is_error = false }
      else json_content out body

  abbrev pub listed : Response B → Io W ToolResult
  listed res = do
    body ← out.read_text res.body
    give (
        if is_ok res.status
        then with_inner body (inner_of (try_parse_json out body))
        else proxy_error res.status body)

  unfoldable pub handle_list_platforms : Io W ToolResult
  handle_list_platforms = gated ok (
      caught (λ m. error_content (diagnose_network_error m ctx.proxy_url))
        (fetch_with_auth out ctx (request (codes "GET") (codes "/v1/agent/permissions") none))
        listed)

  abbrev pub plain : Request → Request
  plain init = record init { headers = json_type ∷ [] }

  unfoldable pub handle_agent_register : Fields → Io W ToolResult
  handle_agent_register args =
      caught network_error
        (out.fetch (plain (request (codes "POST") (codes "/v1/register") (some (object args))))
          15000)
        relayed

  abbrev pub fetch_status : Option Text → Io W (Response B)
  fetch_status (some token) =
      out.fetch (plain (request (codes "GET") (codes "/v1/register/status/" ++ token) none)) 15000
  fetch_status none = raise (codes "URI malformed")

  unfoldable pub handle_agent_status : Text → Io W ToolResult
  handle_agent_status token =
      caught network_error (fetch_status (encode_uri_component token)) relayed

  abbrev authzen_body : Text → Text → Json
  authzen_body platform_id scope = object (
      field (codes "subject")
        (object (
          field (codes "type") (string (codes "agent"))
            (field (codes "id") (string ctx.agent_id) no_fields)))
        (field (codes "action")
          (object (field (codes "name") (string (codes "tool_call")) no_fields))
          (field (codes "resource")
            (object (
              field (codes "type") (string (codes "platform_scope"))
                (field (codes "id") (string (platform_id ++ (codes ":" ++ scope))) no_fields)))
            no_fields)))

  unfoldable pub handle_authzen_evaluate : Text → Text → Io W ToolResult
  handle_authzen_evaluate platform_id scope = gated ok (
      caught network_error
        (fetch_with_auth out ctx (
          request (codes "POST") (codes "/v1/authzen/access")
            (some (authzen_body platform_id scope))))
        relayed)

  unfoldable pub handle_list_my_pending_actions : Io W ToolResult
  handle_list_my_pending_actions = gated ok (
      caught network_error
        (fetch_with_auth out ctx
          (request (codes "GET") (codes "/v1/agents/me/pending-actions") none))
        relayed)

  unfoldable pub handle_report_self_diagnostic : Fields → Io W ToolResult
  handle_report_self_diagnostic args = gated ok (
      caught network_error
        (fetch_with_auth out ctx (
          request (codes "POST") (codes "/v1/agents/self/diagnostics")
            (some (object (diagnostic_body args)))))
        relayed)
