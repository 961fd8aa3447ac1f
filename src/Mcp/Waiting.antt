-- ===== src/Mcp/Waiting.antt =====
-- packages/mcp-server/src/tools/handlers.ts: `waitForApproval` and `sendProgress`.
pub mod Ends
pub mod Granted
use agent_valet.Common.{
  ℕ, ◌+◌, ◌/◌, Bool, true, false, ◌&&◌, Option, none, some, [], ◌∷◌, ◌++◌, Text, codes, leb, ltb,
  is_some, if◌then◌else◌,
}
use agent_valet.Common.Int.{ℤ, pos, negsuc, sub_ℕ}
use agent_valet.Common.Js.{decimal_of, is_ok}
use agent_valet.Common.Effects.{Try, ok, threw, Stateful}
use agent_valet.Common.Json.{
  Json, null, string, object, no_fields, field, property, as_string, is_truthy, is_null,
}
use agent_valet.Common.Loop.{
  Round, stop, again, Waited, answered, timed_out, out_of_fuel, while_before,
}
use agent_valet.Client.Approval.{upstream_failure, null_read, is_status}
use agent_valet.Mcp.Net.{
  ToolResult, Request, Response, Outside, error_content, json_content, read_json, dash,
}
use agent_valet.Mcp.Auth.{ServerContext, fetch_with_auth}
use agent_valet.Mcp.Handlers.{request}

-- `Math.round(elapsed / 1000)`, printed
abbrev pub seconds : ℤ → Text
seconds (pos n) = decimal_of ((n + 500) / 1000)
seconds (negsuc n) = if ltb n 500 then codes "0" else codes "-" ++ decimal_of ((n + 500) / 1000)

-- the world, and `lastProgressAt`
pub record Wait (W : Type 0) : Type 0 where
  pub world : W
  pub last_progress_at : ℕ

abbrev is_object : Json → Bool
is_object (object fs) = true
is_object _ = false

-- `a ?? null`
abbrev value_or_null : Option Json → Json
value_or_null none = null
value_or_null (some v) = v

-- what the wait is for
pub record Awaited : Type 0 where
  pub approval_id : Json
  pub platform : Text
  pub scope : Text
  pub progress_token : Option Json

module _ {W K B : Type 0} (out : Outside W K B) where
  -- `${v}`
  abbrev pub text_of : Json → Text
  text_of (string s) = s
  text_of v = out.shown v

  abbrev stringified : Option Json → Text
  stringified none = codes "undefined"
  stringified (some v) = out.stringify v

  abbrev text_or_undefined : Option Json → Text
  text_or_undefined none = codes "undefined"
  text_or_undefined (some v) = text_of v

  abbrev upstream_text : Json → Text
  upstream_text result =
      codes "Upstream returned "
      ++ (text_or_undefined (property (codes "status") result)
          ++ (codes ": " ++ stringified (property (codes "data") result)))

  abbrev pub granted : ℤ → Json → ToolResult
  granted elapsed v = record {
    text =
        codes "[Owner approved after "
        ++ (seconds elapsed ++ (codes "s]" ++ (10 ∷ out.stringify v)));
    structured_content = if is_object v then some v else none;
    is_error = false;
  }

  -- the return of an approved action, by the result of its execution
  abbrev pub executed : ℤ → Json → ToolResult
  executed elapsed result =
      if is_some (upstream_failure (property (codes "status") result))
      then error_content (upstream_text result)
      else granted elapsed (value_or_null (property (codes "data") result))

  abbrev pub truthy_value : Option Json → Option Json
  truthy_value v = if is_truthy v then v else none

  abbrev denied_text : Option Json → Text
  denied_text (some detail) = codes "Owner denied this action" ++ (codes ": " ++ text_of detail)
  denied_text none = codes "Owner denied this action."

  abbrev pub unless_failed : Option Json → Round ToolResult
  unless_failed (some detail) =
      stop (error_content (codes "Approved but re-execution failed: " ++ text_of detail))
  unless_failed none = again

  abbrev pub not_executed : Option Text → Option Json → Round ToolResult
  not_executed status detail =
      if is_status (codes "denied") status
      then stop (error_content (denied_text detail))
      else if is_status (codes "expired") status
      then stop (error_content (codes "Approval request expired before the owner responded."))
      else unless_failed detail

  abbrev pub by_fields :
      ℤ → Option Text → Option Json → Option Json → Option Json → Round ToolResult
  by_fields elapsed status executed_at (some result) detail =
      if is_status (codes "approved") status && is_truthy executed_at
      then stop (executed elapsed result)
      else not_executed status detail
  by_fields elapsed status executed_at none detail = not_executed status detail

  -- what one answer of the status endpoint means
  unfoldable pub by_answer : ℤ → Json → Round ToolResult
  by_answer elapsed body =
      by_fields elapsed (as_string (property (codes "status") body))
        (property (codes "executed_at") body) (truthy_value (property (codes "result") body))
        (truthy_value (property (codes "execution_error") body))

  -- `sendProgress`; `notify` stands for a notification whose failure is left alone
  unfoldable pub send_progress : Option Json → ℤ → ℕ → Text → W → W
  send_progress none progress total message w = w
  send_progress (some token) progress total message w =
      out.notify (record { token = token; progress = progress; total = total; message = message }) w

  abbrev pub read_clock : Stateful (Wait W) ℕ
  read_clock s = let (t, w) = out.now s.world in (t, record s { world = w })

  module _ (ctx : ServerContext K) (call : Awaited) where
    abbrev pub waiting_text : ℤ → Text
    waiting_text elapsed =
        codes "Waiting for owner approval" ++ (dash ++ (seconds elapsed ++ codes "s elapsed"))

    abbrev report : ℤ → Wait W → Wait W
    report elapsed s =
        let w = send_progress call.progress_token elapsed 50000 (waiting_text elapsed) s.world in
        let (t, w') = out.now w in record { world = w'; last_progress_at = t }

    abbrev pub progress_due : ℤ → Wait W → Wait W
    progress_due elapsed s =
        let (t, s') = read_clock s in
        if leb (s.last_progress_at + 5000) t then report elapsed s' else s'

    abbrev pub or_report : ℤ → Round ToolResult → Stateful (Wait W) (Round (Try ToolResult))
    or_report elapsed (stop r) s = (stop (ok r), s)
    or_report elapsed again s = (again, progress_due elapsed s)

    abbrev pub by_body : ℤ → Try Json → Stateful (Wait W) (Round (Try ToolResult))
    by_body elapsed (threw m) s = (stop (threw m), s)
    by_body elapsed (ok body) s =
        if is_null body
        then (stop (threw (null_read (codes "status"))), s)
        else or_report elapsed (by_answer elapsed body) s

    abbrev pub status_error : ℕ → Try Text → Try ToolResult
    status_error status (threw m) = threw m
    status_error status (ok text) = ok (
        error_content
          (codes "Approval status error " ++ (decimal_of status ++ (codes ": " ++ text))))

    abbrev pub by_response : ℤ → Response B → Stateful (Wait W) (Round (Try ToolResult))
    by_response elapsed res s =
        if is_ok res.status
        then (let (body, w) = read_json out res.body s.world in
            by_body elapsed body (record s { world = w }))
        else (let (text, w) = out.read_text res.body s.world in
            (stop (status_error res.status text), record s { world = w }))

    abbrev pub by_fetch : ℤ → Try (Response B) → Stateful (Wait W) (Round (Try ToolResult))
    by_fetch elapsed (threw m) s = (again, s)
    by_fetch elapsed (ok res) s = by_response elapsed res s

    abbrev pub status_request : Request
    status_request =
        request out ctx (codes "GET") (codes "/v1/approvals/" ++ text_of call.approval_id) none

    -- the body of the loop
    unfoldable pub poll_approval : ℕ → Stateful (Wait W) (Round (Try ToolResult))
    poll_approval started s =
        let (t, w) = out.now (out.sleep 2000 s.world) in
        let (res, w') = fetch_with_auth out ctx status_request w in
        by_fetch (sub_ℕ t started) res (record s { world = w' })

    abbrev pub queued : Json
    queued = object (
        field (codes "status") (string (codes "pending_approval")) (
          field (codes "approval_id") call.approval_id (
            field (codes "message")
              (string (
                codes "Owner hasn't approved within 50s. The action is queued"
                ++ (dash
                    ++ (codes "your owner will be notified, and you'll see it "
                        ++ codes
                            "complete next time we chat (or you can ask me to check pending actions)."))))
              no_fields)))

    abbrev pub concluded : Waited (Try ToolResult) → Option (Try ToolResult)
    concluded (answered r) = some r
    concluded timed_out = some (ok (json_content out (out.stringify queued)))
    concluded out_of_fuel = none

    abbrev pub required_text : Text
    required_text =
        codes "Owner approval required for "
        ++ (call.platform
            ++ (codes ":" ++ (call.scope ++ (dash ++ (codes "waiting" ++ (8230 ∷ []))))))

    abbrev pub begun : ℕ → W → Wait W
    begun started w = record {
      world = send_progress call.progress_token (pos 0) 50000 required_text w;
      last_progress_at = 0;
    }

    -- `waitForApproval`; none where the fuel is used up
    unfoldable pub wait_for_approval : ℕ → Stateful W (Option (Try ToolResult))
    wait_for_approval fuel w =
        let (started, w') = out.now w in
        let (r, s) =
          while_before read_clock (started + 50000) (poll_approval started) fuel
            (begun started w') in
        (concluded r, s.world)
