-- ===== src/Mcp/Access.antt =====
-- packages/mcp-server/src/tools/handlers.ts: `handleRequestPlatformAccess`.
use agent_valet.Common.{
  ℕ, ◌+◌, ◌&&◌, not, Option, none, some, [], ◌++◌, Text, codes, ◌==◌, truthy, if◌then◌else◌,
}
use agent_valet.Common.Js.{decimal_of, is_ok}
use agent_valet.Common.Effects.{Try, ok, threw, Stateful}
use agent_valet.Common.Throwing.{Io, raise}
use agent_valet.Common.Json.{
  Json, string, object, Fields, no_fields, field, get, property, as_string, is_truthy, is_null,
}
use agent_valet.Common.Loop.{
  Round, stop, again, Waited, answered, timed_out, out_of_fuel, while_before,
}
use agent_valet.Common.Uri.{encode_uri_component}
use agent_valet.Client.Approval.{null_read, is_status}
use agent_valet.Mcp.Net.{
  ToolResult, Request, Response, Outside, error_content, json_content, read_json,
  diagnose_network_error, dash,
}
use agent_valet.Mcp.Auth.{ServerContext, fetch_with_auth}
use agent_valet.Mcp.Handlers.{request, gated}
use agent_valet.Mcp.Waiting.{text_of}

abbrev string_field : Text → Option Text → Fields → Fields
string_field key none rest = rest
string_field key (some s) rest = field key (string s) rest

abbrev pub outcome : Text → Text → Json
outcome status message =
    object
      (field (codes "status") (string status) (field (codes "message") (string message) no_fields))

module _ {W K B : Type 0} (out : Outside W K B) (ctx : ServerContext K) where
  abbrev reported : Text → Text → ToolResult
  reported status message = json_content out (out.stringify (outcome status message))

  abbrev pub by_status : Option Text → Round (Try ToolResult)
  by_status status =
      if is_status (codes "approved") status
      then stop (
          ok (
            reported (codes "approved")
              (codes "Access granted" ++ (dash ++ codes "retry your original use_platform call."))))
      else if is_status (codes "denied") status
      then stop (ok (reported (codes "denied") (codes "An admin denied this access request.")))
      else again

  abbrev pub by_body : Try Json → Round (Try ToolResult)
  by_body (threw m) = stop (threw m)
  by_body (ok body) =
      if is_null body
      then stop (threw (null_read (codes "status")))
      else by_status (as_string (property (codes "status") body))

  abbrev pub by_response : Try (Response B) → Stateful W (Round (Try ToolResult))
  by_response (threw m) w = (again, w)
  by_response (ok res) w =
      if is_ok res.status
      then (let (body, w') = read_json out res.body w in (by_body body, w'))
      else (again, w)

  abbrev pub status_request : Text → Request
  status_request token =
      request out ctx (codes "GET") (codes "/v1/access-request/status/" ++ token) none

  abbrev pub fetch_status : Option Text → Io W (Response B)
  fetch_status (some token) = fetch_with_auth out ctx (status_request token)
  fetch_status none = raise (codes "URI malformed")

  -- the body of the loop
  unfoldable pub poll_access : Text → Stateful W (Round (Try ToolResult))
  poll_access token w =
      let (res, w') = fetch_status (encode_uri_component token) (out.sleep 2000 w) in
      by_response res w'

  abbrev pub concluded : Waited (Try ToolResult) → Option (Try ToolResult)
  concluded (answered r) = some r
  concluded timed_out = some (
      ok (
        reported (codes "pending")
          (codes "Request submitted and awaiting admin approval. Retry your call later.")))
  concluded out_of_fuel = none

  -- the poll of the request's status
  unfoldable pub wait_for_access : Text → ℕ → Stateful W (Option (Try ToolResult))
  wait_for_access token fuel w =
      let (started, w') = out.now w in
      let (r, w'') = while_before out.now (started + 50000) (poll_access token) fuel w' in
      (concluded r, w'')

  module _ (fuel : ℕ) where
    abbrev pub no_token : ToolResult
    no_token = error_content (codes "Access request did not return a token.")

    abbrev pub by_token : Option Json → Stateful W (Option (Try ToolResult))
    by_token none w = (some (ok no_token), w)
    by_token (some token) w =
        if is_truthy (some token)
        then wait_for_access (text_of out token) fuel w
        else (some (ok no_token), w)

    abbrev pub by_submitted : Try Json → Stateful W (Option (Try ToolResult))
    by_submitted (threw m) w = (some (threw m), w)
    by_submitted (ok body) w =
        if is_null body
        then (some (threw (null_read (codes "request_token"))), w)
        else by_token (property (codes "request_token") body) w

    abbrev failed_with : ℕ → Try Text → Try ToolResult
    failed_with status (threw m) = threw m
    failed_with status (ok text) = ok (
        error_content
          (codes "Access request failed (" ++ (decimal_of status ++ (codes "): " ++ text))))

    abbrev pub by_submit : Try (Response B) → Stateful W (Option (Try ToolResult))
    by_submit (threw m) w = (some (ok (error_content (diagnose_network_error m ctx.proxy_url))), w)
    by_submit (ok res) w =
        if not (is_ok res.status) && not (res.status == 202) && not (res.status == 200)
        then (let (text, w') = out.read_text res.body w in (some (failed_with res.status text), w'))
        else (let (body, w') = read_json out res.body w in by_submitted body w')

    abbrev pub submit_request : Text → Fields → Request
    submit_request platform args = request out ctx (codes "POST") (codes "/v1/access-request") (
        some (
          object (
            field (codes "platform") (string platform) (
              string_field (codes "scope") (as_string (get (codes "scope") args)) (
                string_field (codes "reason") (as_string (get (codes "reason") args)) no_fields)))))

    abbrev submitted : Text → Fields → Stateful W (Option (Try ToolResult))
    submitted platform args w =
        let (res, w') = fetch_with_auth out ctx (submit_request platform args) w in by_submit res w'

    abbrev pub string_or_empty : Option Text → Text
    string_or_empty none = []
    string_or_empty (some s) = s

    abbrev pub asked : Fields → Stateful W (Option (Try ToolResult))
    asked args w =
        let platform = string_or_empty (as_string (get (codes "platform") args)) in
        if truthy platform
        then submitted platform args w
        else (some (ok (error_content (codes "platform is required"))), w)

    -- none where the fuel of the wait is used up
    unfoldable pub handle_request_platform_access : Fields → Stateful W (Option (Try ToolResult))
    handle_request_platform_access args = gated out ctx (λ r. some (ok r)) (asked args)
