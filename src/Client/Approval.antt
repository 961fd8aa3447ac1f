-- ===== src/Client/Approval.antt =====
-- packages/client/src/client.ts: `waitForApproval` and `requestAccess`, which poll.
pub mod Ends
pub mod Granted
use agent_valet.Common.{
  ℕ, ◌+◌, Bool, true, false, ◌&&◌, ◌||◌, Option, none, some, List, [], ◌∷◌, ◌++◌, Text, codes,
  ◌===◌, ◌==◌, leb, ltb, truthy, or_else, is_some, if◌then◌else◌,
}
use agent_valet.Common.Int.{ℤ, sub_ℕ}
use agent_valet.Common.Js.{is_ok, is_digit, decimal}
use agent_valet.Common.Effects.{Try, ok, threw, Stateful}
use agent_valet.Common.Json.{
  Json, null, number, string, object, Fields, no_fields, field, property, as_string, is_truthy,
}
use agent_valet.Common.Loop.{
  Round, stop, again, Waited, answered, timed_out, out_of_fuel, while_before,
}
use agent_valet.Common.Uri.{encode_uri_component}
use agent_valet.Client.Errors.{
  ClientError, proxy_error, approval_denied, approval_expired, approval_timeout, upstream_error,
  thrown, Exit, returned, raised, Run,
}
use agent_valet.Client.Transport.{
  AgentValet, Session, Outside, Response, authed_fetch, response_text, response_json,
}

-- the digits of a number in front of its fraction; a status is a number below 10^21
abbrev leading : ℕ → Text → ℕ
leading n [] = n
leading n (c ∷ cs) = if is_digit c then leading (decimal n (c ∷ [])) cs else n

abbrev status_value : Text → ℕ
status_value n = leading 0 n

-- `r.status < 200 || r.status >= 300`, by the status that the error carries; a missing status
-- compares as false both times
abbrev pub upstream_failure : Option Json → Option ℕ
upstream_failure (some (number n)) =
    if leb 200 (status_value n) && ltb (status_value n) 300 then none else some (status_value n)
upstream_failure _ = none

abbrev pub null_read : Text → Text
null_read key = codes "Cannot read properties of null (reading '" ++ (key ++ codes "')")

-- `while` answers `result`, or what the code does after the loop
abbrev pub concluded : {A : Type 0} → Exit A → Waited (Exit A) → Option (Exit A)
concluded late (answered r) = some r
concluded late timed_out = some late
concluded late out_of_fuel = none

-- the outcome of an approval whose time is not up
abbrev executed : Option Json → Round (Exit (Option Json))
executed none = again
executed (some result) = elim (upstream_failure (property (codes "status") result)) [
  | some status ↦ stop (raised (upstream_error status (property (codes "data") result)))
  | none ↦ stop (returned (property (codes "data") result))
]

abbrev truthy_value : Option Json → Option Json
truthy_value v = if is_truthy v then v else none

-- the three conditions of an executed approval
abbrev if_executed : Json → Option Text → Round (Exit (Option Json))
if_executed body none = again
if_executed body (some status) =
    if status === codes "approved" && is_truthy (property (codes "executed_at") body)
    then executed (truthy_value (property (codes "result") body))
    else again

abbrev unless_failed : Json → Option Text → Option Text → Round (Exit (Option Json))
unless_failed body status none = if_executed body status
unless_failed body status (some detail) =
    if truthy detail
    then stop (raised (proxy_error 502 (codes "Approved but re-execution failed: " ++ detail)))
    else if_executed body status

abbrev pub is_status : Text → Option Text → Bool
is_status name none = false
is_status name (some status) = status === name

abbrev by_fields : Text → Json → Option Text → Option Text → Round (Exit (Option Json))
by_fields id body status detail =
    if is_status (codes "denied") status
    then stop (raised (approval_denied id detail))
    else if is_status (codes "expired") status
    then stop (raised (approval_expired id))
    else unless_failed body status detail

-- what one answer of the status endpoint means
unfoldable pub by_status : Text → Json → Round (Exit (Option Json))
by_status id null = stop (raised (thrown (null_read (codes "status"))))
by_status id body =
    by_fields id body (as_string (property (codes "status") body))
      (as_string (property (codes "execution_error") body))

module _ {W K : Type 0} (out : Outside W K) (client : AgentValet) where
  abbrev pub S : Type 0
  S = Session W K

  abbrev pub read_clock : Stateful S ℕ
  read_clock s = let (t, w) = out.now s.world in (t, record s { world = w })

  abbrev pub pause : S → S
  pause s = record s { world = out.sleep client.approval_poll_ms s.world }

  abbrev pub fetch_status : Text → Option Text → Run S (Response W)
  fetch_status path (some id) s = authed_fetch out client (path ++ id) (codes "GET") none s
  fetch_status path none s = (raised (thrown (codes "URI malformed")), s)

  abbrev refused_with : {A : Type 0} → ℕ → Exit Text → Exit A
  refused_with status (returned text) = raised (proxy_error status text)
  refused_with status (raised e) = raised e

  abbrev refuse : {A : Type 0} → Response W → Stateful S (Round (Exit A))
  refuse res s =
      let (text, s') = response_text out res s in (stop (refused_with res.status text), s')

  -- after `onApprovalPending`, which may throw
  abbrev pub noticed : Exit (Unit {0}) → Round (Exit (Option Json))
  noticed (returned _) = again
  noticed (raised e) = stop (raised e)

  module _ (pending : ℤ → Run S (Unit {0})) (id : Text) where
    abbrev notice : ℤ → Round (Exit (Option Json)) → Stateful S (Round (Exit (Option Json)))
    notice elapsed (stop r) s = (stop r, s)
    notice elapsed again s = let (r, s') = pending elapsed s in (noticed r, s')

    abbrev by_body : ℤ → Exit Json → Stateful S (Round (Exit (Option Json)))
    by_body elapsed (returned body) s = notice elapsed (by_status id body) s
    by_body elapsed (raised e) s = (stop (raised e), s)

    abbrev by_response : ℤ → Response W → Stateful S (Round (Exit (Option Json)))
    by_response elapsed res s =
        if is_ok res.status
        then (let (body, s') = response_json out res s in by_body elapsed body s')
        else refuse res s

    -- a failed fetch is tried again
    abbrev by_fetch : ℤ → Exit (Response W) → Stateful S (Round (Exit (Option Json)))
    by_fetch elapsed (returned res) s = by_response elapsed res s
    by_fetch elapsed (raised e) s = (again, s)

    -- the body of the loop of `waitForApproval`
    unfoldable pub poll_approval : ℕ → Stateful S (Round (Exit (Option Json)))
    poll_approval started s =
        let (t, s') = read_clock (pause s) in
        let (res, s'') = fetch_status (codes "/v1/approvals/") (encode_uri_component id) s' in
        by_fetch (sub_ℕ t started) res s''

    -- `waitForApproval`; none where the fuel is used up
    unfoldable pub wait_for_approval : ℕ → ℕ → Stateful S (Option (Exit (Option Json)))
    wait_for_approval budget fuel s =
        let (started, s') = read_clock s in
        let (r, s'') = while_before read_clock (started + budget) (poll_approval started) fuel s' in
        (concluded (raised (approval_timeout id budget)) r, s'')

  -- `requestAccess` from here on

  abbrev by_access_status : Option Text → Round (Exit Text)
  by_access_status none = again
  by_access_status (some status) =
      if status === codes "approved"
      then stop (returned (codes "approved"))
      else if status === codes "denied"
      then stop (returned (codes "denied"))
      else again

  abbrev by_access_body : Exit Json → Round (Exit Text)
  by_access_body (raised e) = stop (raised e)
  by_access_body (returned null) = stop (raised (thrown (null_read (codes "status"))))
  by_access_body (returned body) = by_access_status (as_string (property (codes "status") body))

  abbrev by_access_response : Exit (Response W) → Stateful S (Round (Exit Text))
  by_access_response (raised e) s = (again, s)
  by_access_response (returned res) s =
      if is_ok res.status
      then (let (body, s') = response_json out res s in (by_access_body body, s'))
      else (again, s)

  -- the body of the loop of `requestAccess`
  unfoldable pub poll_access : Text → Stateful S (Round (Exit Text))
  poll_access token s =
      let (res, s') =
        fetch_status (codes "/v1/access-request/status/") (encode_uri_component token) (pause s) in
      by_access_response res s'

  -- the status that `requestAccess` returns beside the token
  unfoldable pub wait_for_access : ℕ → ℕ → Text → Stateful S (Option (Exit Text))
  wait_for_access budget fuel token s =
      let (started, s') = read_clock s in
      let (r, s'') = while_before read_clock (started + budget) (poll_access token) fuel s' in
      (concluded (returned (codes "pending")) r, s'')
