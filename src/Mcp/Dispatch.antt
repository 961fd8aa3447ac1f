-- ===== src/Mcp/Dispatch.antt =====
-- packages/mcp-server/src/index.ts: the handler of a tool call.
pub mod Cases
pub mod Gating
pub mod Blind
pub mod Confined
pub mod Replies
use agent_valet.Common.{
  ℕ, Bool, true, false, ◌&&◌, ◌||◌, Option, none, some, List, [], ◌∷◌, ◌++◌, Text, codes, ◌===◌,
  includes, is_some, if◌then◌else◌,
}
use agent_valet.Common.Effects.{Try, ok, threw, Stateful}
use agent_valet.Common.Throwing.{Io}
use agent_valet.Common.Json.{Json, null, array, Fields, no_fields, field, get, as_string}
use agent_valet.Mcp.Net.{ToolResult, Outside, error_content}
use agent_valet.Mcp.Auth.{ServerContext}
use agent_valet.Mcp.Handlers.{
  handle_list_platforms, handle_agent_register, handle_agent_status, handle_authzen_evaluate,
  handle_list_my_pending_actions, handle_report_self_diagnostic,
}
use agent_valet.Mcp.UsePlatform.{PlatformCall, handle_use_platform}
use agent_valet.Mcp.Access.{handle_request_platform_access}

-- `ALLOWED_METHODS` of tools/schemas.ts
abbrev pub allowed_methods : List Text
allowed_methods = codes "GET" ∷ codes "POST" ∷ codes "PUT" ∷ codes "PATCH" ∷ codes "DELETE" ∷ []

-- `a ?? b`
abbrev coalesce : Option Json → Option Json → Option Json
coalesce none b = b
coalesce (some null) b = b
coalesce (some v) b = some v

abbrev is_array : Option Json → Bool
is_array (some (array xs)) = true
is_array _ = false

-- a `tools/call` request
pub record ToolCall : Type 0 where
  pub name : Text
  pub args : Option Fields
  pub progress_token : Option Json

-- `args?.key`, where it is a string
abbrev pub text_arg : Text → Option Fields → Option Text
text_arg key none = none
text_arg key (some args) = as_string (get key args)

-- The tools that work without a key.
abbrev pub is_open : Text → Bool
is_open name = name === codes "agent_register" || name === codes "agent_status"

-- the arguments that `use_platform` checks, in their order
abbrev platform_call :
    Fields → Option Text → Option Text → Option Text → Option Text → Option PlatformCall
platform_call args (some platform) (some endpoint) (some method) (some scope) = some (record {
  platform = platform;
  endpoint = endpoint;
  method = method;
  scope = scope;
  data_sent = coalesce (get (codes "body") args) (get (codes "data") args);
  connection_id = as_string (get (codes "connection_id") args);
})
platform_call args _ _ _ _ = none

unfoldable pub platform_call_of : Option Fields → Option PlatformCall
platform_call_of none = none
platform_call_of (some args) =
    platform_call args (as_string (get (codes "platform") args))
      (as_string (get (codes "endpoint") args)) (as_string (get (codes "method") args))
      (as_string (get (codes "scope") args))

module _ {W K B : Type 0} (out : Outside W K B) (ctx : ServerContext K) (fuel : ℕ) where
  abbrev pub Reply : Type 0
  Reply = Stateful W (Option (Try ToolResult))

  abbrev pub finished : Io W ToolResult → Reply
  finished step w = let (r, w') = step w in (some r, w')

  abbrev pub refused : Text → Reply
  refused message w = (some (ok (error_content message)), w)

  abbrev pub by_platform_call : Option Json → Option PlatformCall → Reply
  by_platform_call token none = refused (codes "Invalid or missing tool arguments")
  by_platform_call token (some params) =
      if includes allowed_methods params.method
      then handle_use_platform out ctx params token fuel
      else refused (codes "Invalid method: " ++ params.method)

  abbrev pub with_arguments : (Fields → Reply) → Text → Bool → Option Fields → Reply
  with_arguments handle message good none = refused message
  with_arguments handle message good (some args) = if good then handle args else refused message

  abbrev raw : Text → Option Fields → Option Json
  raw key none = none
  raw key (some args) = get key args

  abbrev register_message : Text
  register_message =
      codes "Invalid or missing arguments: owner_id, agent_name, requested_scopes are required"

  abbrev register : Option Fields → Reply
  register args =
      with_arguments (λ given. finished (handle_agent_register out ctx given)) register_message
        (is_some (text_arg (codes "owner_id") args)
          && is_some (text_arg (codes "agent_name") args)
          && is_array (raw (codes "requested_scopes") args))
        args

  abbrev pub by_token : Option Text → Reply
  by_token none = refused (codes "Invalid or missing argument: token is required")
  by_token (some token) = finished (handle_agent_status out ctx token)

  abbrev pub by_platform_and_scope : Option Text → Option Text → Reply
  by_platform_and_scope (some platform_id) (some scope) =
      finished (handle_authzen_evaluate out ctx platform_id scope)
  by_platform_and_scope _ _ =
      refused (codes "Invalid or missing arguments: platform_id and scope are required")

  abbrev diagnose : Option Fields → Reply
  diagnose args =
      with_arguments (λ given. finished (handle_report_self_diagnostic out ctx given))
        (codes "Invalid or missing arguments: severity and message are required")
        (is_some (text_arg (codes "severity") args) && is_some (text_arg (codes "message") args))
        args

  abbrev ask_access : Option Fields → Reply
  ask_access args =
      with_arguments (handle_request_platform_access out ctx fuel)
        (codes "Invalid or missing argument: platform is required")
        (is_some (text_arg (codes "platform") args)) args

  -- The handler of `CallToolRequestSchema`; none where the fuel of a wait is used up.
  unfoldable pub call_tool : ToolCall → Reply
  call_tool call =
      if call.name === codes "list_platforms"
      then finished (handle_list_platforms out ctx)
      else if call.name === codes "use_platform"
      then by_platform_call call.progress_token (platform_call_of call.args)
      else if call.name === codes "agent_register"
      then register call.args
      else if call.name === codes "agent_status"
      then by_token (text_arg (codes "token") call.args)
      else if call.name === codes "authzen_evaluate"
      then by_platform_and_scope (text_arg (codes "platform_id") call.args)
          (text_arg (codes "scope") call.args)
      else if call.name === codes "list_my_pending_actions"
      then finished (handle_list_my_pending_actions out ctx)
      else if call.name === codes "report_self_diagnostic"
      then diagnose call.args
      else if call.name === codes "request_platform_access"
      then ask_access call.args
      else refused (codes "Unknown tool: " ++ call.name)
