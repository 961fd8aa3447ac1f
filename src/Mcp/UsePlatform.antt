-- ===== src/Mcp/UsePlatform.antt =====
-- packages/mcp-server/src/tools/handlers.ts: `handleUsePlatform`.
use agent_valet.Common.{
  ℕ, Bool, ◌&&◌, ◌||◌, Option, none, some, [], ◌∷◌, ◌++◌, Text, codes, ◌===◌, ◌==◌, truthy,
  if◌then◌else◌,
}
use agent_valet.Common.Js.{is_ok}
use agent_valet.Common.Effects.{Try, ok, threw, Stateful}
use agent_valet.Common.Throwing.{Io}
use agent_valet.Common.Json.{Json, string, object, Fields, no_fields, field, property, is_truthy}
use agent_valet.Mcp.Net.{ToolResult, Request, Response, Outside, json_content, safe_json_parse}
use agent_valet.Mcp.Auth.{ServerContext, fetch_with_auth}
use agent_valet.Mcp.Handlers.{
  request, gated, caught, relayed, network_error, proxy_error, optional_field,
}
use agent_valet.Mcp.Waiting.{Awaited, wait_for_approval}

pub record PlatformCall : Type 0 where
  pub platform : Text
  pub endpoint : Text
  pub method : Text
  pub scope : Text
  pub data_sent : Option Json
  pub connection_id : Option Text

abbrev pub observe_header : Text
observe_header = codes "X-AV-Observe-Credential"

abbrev observe_body : PlatformCall → Json
observe_body params = object (
    field (codes "platform") (string params.platform) (
      field (codes "endpoint") (string params.endpoint) (
        field (codes "method") (string params.method) (
          field (codes "action") (string params.scope)
            (optional_field (codes "body") params.data_sent no_fields)))))

-- `...(id ? { connection_id: id } : {})`
abbrev connection_field : Option Text → Fields
connection_field none = no_fields
connection_field (some id) =
    if truthy id then field (codes "connection_id") (string id) no_fields else no_fields

abbrev request_body : PlatformCall → Json
request_body params = object (
    field (codes "platform") (string params.platform) (
      field (codes "endpoint") (string params.endpoint) (
        field (codes "method") (string params.method) (
          field (codes "scope") (string params.scope) (
            optional_field (codes "data") params.data_sent
              (connection_field params.connection_id))))))

abbrev hint : ℕ → Text
hint status =
    if status == 403
    then codes "  You can call request_platform_access({ platform, scope, reason })"
      ++ codes " to ask an org admin to grant this."
    else []

abbrev optional_property : Text → Option Json → Option Json
optional_property key none = none
optional_property key (some v) = property key v

-- a value that passes a test of its own
abbrev truthy_id : Option Json → Option Json
truthy_id v = if is_truthy v then v else none

module _ {W K B : Type 0} (out : Outside W K B) (ctx : ServerContext K) where
  -- `observePlatformMatch`
  abbrev pub observes : Text → Bool
  observes platform =
      truthy ctx.observe_credential
      && (ctx.observe_platform === [] || ctx.observe_platform === platform)

  abbrev pub observe_request : PlatformCall → Request
  observe_request params =
      record (request out ctx (codes "POST") (codes "/v1/observe/actions")
        (some (observe_body params))) { headers = (observe_header, ctx.observe_credential) ∷ [] }

  abbrev pub action_request : PlatformCall → Request
  action_request params =
      request out ctx (codes "POST") (codes "/v1/actions") (some (request_body params))

  abbrev pub observed : PlatformCall → Io W ToolResult
  observed params =
      caught out ctx network_error (fetch_with_auth out ctx (observe_request params))
        (relayed out ctx)

  abbrev pub final : ℕ → Text → ToolResult
  final status body =
      if is_ok status then json_content out body else proxy_error status (body ++ hint status)

  module _ (params : PlatformCall) (progress_token : Option Json) (fuel : ℕ) where
    abbrev pub awaited : Json → Awaited
    awaited id = record {
      approval_id = id;
      platform = params.platform;
      scope = params.scope;
      progress_token = progress_token;
    }

    abbrev pub or_wait : ToolResult → Option Json → Stateful W (Option (Try ToolResult))
    or_wait otherwise none w = (some (ok otherwise), w)
    or_wait otherwise (some id) w = wait_for_approval out ctx (awaited id) fuel w

    abbrev pub by_body : ℕ → Try Text → Stateful W (Option (Try ToolResult))
    by_body status (threw m) w = (some (threw m), w)
    by_body status (ok body) w =
        if status == 202
        then or_wait (final status body)
            (truthy_id (optional_property (codes "approval_id") (safe_json_parse out body))) w
        else (some (ok (final status body)), w)

    abbrev pub by_fetch : Try (Response B) → Stateful W (Option (Try ToolResult))
    by_fetch (threw m) w = (some (ok (network_error m)), w)
    by_fetch (ok res) w = let (body, w') = out.read_text res.body w in by_body res.status body w'

    -- the governed path
    abbrev pub governed : Stateful W (Option (Try ToolResult))
    governed w =
        let (res, w') = fetch_with_auth out ctx (action_request params) w in by_fetch res w'

    abbrev pub finished : Io W ToolResult → Stateful W (Option (Try ToolResult))
    finished step w = let (r, w') = step w in (some r, w')

    abbrev pub routed : Stateful W (Option (Try ToolResult))
    routed w = if observes params.platform then finished (observed params) w else governed w

    -- none where the fuel of the wait is used up
    unfoldable pub handle_use_platform : Stateful W (Option (Try ToolResult))
    handle_use_platform = gated out ctx (λ r. some (ok r)) routed
