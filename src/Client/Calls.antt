-- ===== src/Client/Calls.antt =====
-- packages/client/src/client.ts: `call`, `evaluate` and the submission of `requestAccess`.
use agent_valet.Common.{
  ℕ, Option, none, some, [], ◌∷◌, ◌++◌, Text, codes, ◌==◌, truthy, or_else, if◌then◌else◌,
}
use agent_valet.Common.Int.{ℤ}
use agent_valet.Common.Js.{is_ok}
use agent_valet.Common.Effects.{Stateful}
use agent_valet.Common.Json.{
  Json, null, string, object, Fields, no_fields, field, property, as_string,
}
use agent_valet.Client.Approval.{S, wait_for_approval, wait_for_access}
use agent_valet.Client.Errors.{
  access_denied, proxy_error, thrown, Exit, returned, raised, Run, ◌>>=◌, give, raise,
}
use agent_valet.Client.Transport.{
  AgentValet, Session, Outside, Response, authed_fetch, response_text, response_json,
  try_parse_json, body_of_ok, text_or_json,
}

pub record CallRequest : Type 0 where
  pub platform : Text
  pub endpoint : Text
  pub method : Option Text
  pub scope : Text
  pub data_sent : Option Json
  pub connection_id : Option Text
  pub reason : Option Text
  pub approval_timeout_ms : Option ℕ

abbrev optional_value : Text → Option Json → Fields → Fields
optional_value key none rest = rest
optional_value key (some v) rest = field key v rest

-- `...(s ? { key: s } : {})`
abbrev truthy_field : Text → Option Text → Fields → Fields
truthy_field key none rest = rest
truthy_field key (some s) rest = if truthy s then field key (string s) rest else rest

abbrev call_body : CallRequest → Json
call_body req = object (
    field (codes "platform") (string req.platform) (
      field (codes "endpoint") (string req.endpoint) (
        field (codes "method") (string (or_else req.method (codes "GET"))) (
          field (codes "scope") (string req.scope) (
            optional_value (codes "data") req.data_sent (
              truthy_field (codes "connection_id") req.connection_id
                (truthy_field (codes "reason") req.reason no_fields)))))))

-- `tryParseJson(text)?.approval_id`
abbrev approval_id_of : Option Json → Option Text
approval_id_of none = none
approval_id_of (some v) = as_string (property (codes "approval_id") v)

abbrev non_empty : Option Text → Option Text
non_empty none = none
non_empty (some []) = none
non_empty (some (c ∷ cs)) = some (c ∷ cs)

module _ {W K : Type 0} (out : Outside W K) (client : AgentValet) where
  -- the end of `call`, where no approval is waited for
  abbrev pub final : CallRequest → ℕ → Text → Exit (Option Json)
  final req status text =
      if is_ok status
      then returned (some (text_or_json out client text))
      else if status == 403
      then raised (access_denied status text req.platform req.scope)
      else raised (proxy_error status text)

  abbrev awaited :
      (ℤ → Run (S out client) (Unit {0}))
      → CallRequest
      → ℕ
      → ℕ
      → Text
      → Option Text
      → Stateful (S out client) (Option (Exit (Option Json)))
  awaited pending req fuel status text none s = (some (final req status text), s)
  awaited pending req fuel status text (some id) s =
      wait_for_approval out client pending id
        (or_else req.approval_timeout_ms client.approval_timeout_ms) fuel s

  abbrev by_text :
      (ℤ → Run (S out client) (Unit {0}))
      → CallRequest
      → ℕ
      → ℕ
      → Exit Text
      → Stateful (S out client) (Option (Exit (Option Json)))
  by_text pending req fuel status (raised e) s = (some (raised e), s)
  by_text pending req fuel status (returned text) s =
      if status == 202
      then awaited pending req fuel status text
          (non_empty (approval_id_of (try_parse_json out text))) s
      else (some (final req status text), s)

  abbrev by_fetch :
      (ℤ → Run (S out client) (Unit {0}))
      → CallRequest
      → ℕ
      → Exit (Response W)
      → Stateful (S out client) (Option (Exit (Option Json)))
  by_fetch pending req fuel (raised e) s = (some (raised e), s)
  by_fetch pending req fuel (returned res) s =
      let (text, s') = response_text out res s in by_text pending req fuel res.status text s'

  -- `call`; none where the fuel of the wait is used up
  unfoldable pub call :
      (ℤ → Run (S out client) (Unit {0}))
      → CallRequest
      → ℕ
      → Stateful (S out client) (Option (Exit (Option Json)))
  call pending req fuel s =
      let (res, s') =
        authed_fetch out client (codes "/v1/actions") (codes "POST") (some (call_body req)) s in
      by_fetch pending req fuel res s'

  abbrev evaluation_body : Text → Text → Json
  evaluation_body platform scope = object (
      field (codes "subject")
        (object (
          field (codes "type") (string (codes "agent"))
            (field (codes "id") (string client.agent_id) no_fields)))
        (field (codes "action")
          (object (field (codes "name") (string (codes "tool_call")) no_fields))
          (field (codes "resource")
            (object (
              field (codes "type") (string (codes "platform_scope"))
                (field (codes "id") (string (platform ++ (codes ":" ++ scope))) no_fields)))
            no_fields)))

  unfoldable pub evaluate : Text → Text → Run (Session W K) Json
  evaluate platform scope = do
    res ←
        authed_fetch out client (codes "/v1/authzen/access") (codes "POST")
          (some (evaluation_body platform scope))
    text ← response_text out res
    body_of_ok out client res.status text

  abbrev optional_string : Text → Option Text → Fields → Fields
  optional_string key none rest = rest
  optional_string key (some s) rest = field key (string s) rest

  abbrev access_body : Text → Option Text → Option Text → Json
  access_body platform scope reason = object (
      field (codes "platform") (string platform)
        (optional_string (codes "scope") scope (optional_string (codes "reason") reason no_fields)))

  abbrev token_or_error : ℕ → Option Text → Run (Session W K) Text
  token_or_error status none =
      raise (proxy_error status (codes "Access request did not return a request_token."))
  token_or_error status (some []) =
      raise (proxy_error status (codes "Access request did not return a request_token."))
  token_or_error status (some (c ∷ cs)) = give (c ∷ cs)

  abbrev token_in : ℕ → Json → Run (Session W K) Text
  token_in status null = raise (
      thrown (
        codes
          "Cannot destructure property 'request_token' of '(intermediate value)' as it is null."))
  token_in status body = token_or_error status (as_string (property (codes "request_token") body))

  abbrev accepted : Response W → Run (Session W K) Text
  accepted res =
      if is_ok res.status
      then (do body ← response_json out res; token_in res.status body)
      else (do text ← response_text out res; raise (proxy_error res.status text))

  -- `requestAccess` up to the token that the poll uses
  unfoldable submit_access : Text → Option Text → Option Text → Run (Session W K) Text
  submit_access platform scope reason = do
    submit ←
        authed_fetch out client (codes "/v1/access-request") (codes "POST")
          (some (access_body platform scope reason))
    accepted submit

  abbrev with_token : Text → Exit Text → Exit (Text × Text)
  with_token token (returned status) = returned (status, token)
  with_token token (raised e) = raised e

  abbrev with_token_found : Text → Option (Exit Text) → Option (Exit (Text × Text))
  with_token_found token none = none
  with_token_found token (some r) = some (with_token token r)

  abbrev after_submit : ℕ → ℕ → Exit Text → Stateful (S out client) (Option (Exit (Text × Text)))
  after_submit budget fuel (raised e) s = (some (raised e), s)
  after_submit budget fuel (returned token) s =
      let (r, s') = wait_for_access out client budget fuel token s in (with_token_found token r, s')

  -- `requestAccess`, by its budget in milliseconds: a status and the request's token
  unfoldable request_access :
      Text
      → Option Text
      → Option Text
      → Option ℕ
      → ℕ
      → Stateful (S out client) (Option (Exit (Text × Text)))
  unfolding submit_access
  request_access platform scope reason timeout_ms fuel s =
      let (token, s') = submit_access platform scope reason s in
      after_submit (or_else timeout_ms client.approval_timeout_ms) fuel token s'
