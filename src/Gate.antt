-- ===== src/Gate.antt =====
-- packages/mcp-server/src/gate-client.ts: the client of the public governance gate, which maps
-- every answer to one decision. The network is a parameter: what `fetch` leaves, and what reading
-- the body of its answer leaves.
pub mod Documented
pub mod Failures
use agent_valet.Common.{
  ℕ, Bool, true, false, Option, none, some, List, [], ◌∷◌, ◌++◌, Text, codes, ◌===◌, ◌||◌, ◌&&◌,
  ◌==◌, ltb, leb, or_else, includes, truthy, if◌then◌else◌,
}
use agent_valet.Common.Effects.{Try, ok, threw, Stateful, ◌>>=◌, pure}
use agent_valet.Common.Json.{
  Json, null, string, object, Fields, no_fields, field, property, as_string,
}

-- `GateOutcome` and `GateObserved`; the fields that only repeat the body are its `raw` or `data`.
pub data GateOutcome : Type 0 where
  allowed : ℕ → Json → GateOutcome
  denied : ℕ → Option Text → Option Text → Json → GateOutcome
  pending_approval : ℕ → Option Text → Option Text → Json → GateOutcome
  error : ℕ → Option Text → Option Text → Json → GateOutcome
  suspended : ℕ → Text → Json → GateOutcome
  observed : ℕ → Json → GateOutcome

pub data GateDecision : Type 0 where
  allowed denied pending_approval error suspended observed : GateDecision

abbrev pub decision : GateOutcome → GateDecision
decision (allowed _ _) = allowed
decision (denied _ _ _ _) = denied
decision (pending_approval _ _ _ _) = pending_approval
decision (error _ _ _ _) = error
decision (suspended _ _ _) = suspended
decision (observed _ _) = observed

pub record GateClient : Type 0 where
  pub proxy_url : Text
  pub token : Text

pub record GateRequest : Type 0 where
  pub platform : Text
  pub endpoint : Text
  pub method : Text
  pub scope : Text
  pub data_sent : Option Json
  pub connection_id : Option Text

pub record ObserveRequest : Type 0 where
  pub platform : Text
  pub endpoint : Text
  pub method : Text
  pub action : Option Text
  pub body : Option Json
  pub credential : Text

-- `SUSPENDED_REASONS`
abbrev pub suspended_reasons : List Text
suspended_reasons = codes "agent_suspended" ∷ codes "circuit_breaker_open" ∷ []

abbrev pub read_field : Json → Text → Option Text
read_field body key = as_string (property key body)

-- `a ?? b` where `b` may be missing too
abbrev pub first_of : Option Text → Option Text → Option Text
first_of none b = b
first_of (some a) b = some a

-- the reason of a 403 that says that the agent is halted
abbrev pub halted : Option Text → Option Text
halted none = none
halted (some reason) =
    if truthy reason && includes suspended_reasons reason then some reason else none

-- the last two answers, for a status that is neither 202 nor a success
abbrev pub refused : ℕ → Json → GateOutcome
refused status body =
    if status == 401 || leb 500 status
    then error status
        (first_of (read_field body (codes "code"))
          (if status == 401 then some (codes "unauthorized") else none))
        (read_field body (codes "correlation_id")) body
    else denied status
        (first_of (read_field body (codes "reason")) (read_field body (codes "error")))
        (read_field body (codes "correlation_id")) body

abbrev pub forbidden : ℕ → Json → Option Text → GateOutcome
forbidden status body none = refused status body
forbidden status body (some reason) = suspended status reason body

unfoldable pub classify_gate_response : ℕ → Json → GateOutcome
classify_gate_response status body =
    if status == 202
    then pending_approval status (read_field body (codes "approval_id"))
        (read_field body (codes "message")) body
    else if leb 200 status && ltb status 300
    then allowed status body
    else if status == 403
    then forbidden status body (halted (read_field body (codes "reason")))
    else refused status body

-- What `fetch` is called with; the body is the value before `JSON.stringify`.
pub record HttpRequest : Type 0 where
  pub url : Text
  pub method : Text
  pub headers : List (Text × Text)
  pub body : Json

pub record HttpResponse (W : Type 0) : Type 0 where
  pub status : ℕ
  pub text : Stateful W (Try Text)

abbrev pub optional_field : Text → Option Json → Fields → Fields
optional_field key none rest = rest
optional_field key (some v) rest = field key v rest

-- `...(s ? { key: s } : {})`
abbrev pub truthy_field : Text → Option Text → Fields → Fields
truthy_field key none rest = rest
truthy_field key (some s) rest = if truthy s then field key (string s) rest else rest

abbrev pub string_or_undefined : Option Text → Option Json
string_or_undefined none = none
string_or_undefined (some s) = some (string s)

abbrev pub gate_body : GateRequest → Json
gate_body req = object (
    field (codes "platform") (string req.platform) (
      field (codes "endpoint") (string req.endpoint) (
        field (codes "method") (string req.method) (
          field (codes "scope") (string req.scope) (
            optional_field (codes "data") req.data_sent
              (truthy_field (codes "connection_id") req.connection_id no_fields))))))

abbrev pub relay_body : ObserveRequest → Json
relay_body req = object (
    field (codes "platform") (string req.platform) (
      field (codes "endpoint") (string req.endpoint) (
        field (codes "method") (string req.method) (
          optional_field (codes "action") (string_or_undefined req.action)
            (optional_field (codes "body") req.body no_fields)))))

abbrev pub authorization : GateClient → Text × Text
authorization client = (codes "Authorization", codes "Bearer " ++ client.token)

abbrev pub content_type : Text × Text
content_type = (codes "Content-Type", codes "application/json")

abbrev pub gate_call : GateClient → GateRequest → HttpRequest
gate_call client req = record {
  url = client.proxy_url ++ codes "/v1/actions";
  method = codes "POST";
  headers = authorization client ∷ content_type ∷ [];
  body = gate_body req;
}

abbrev pub relay_call : GateClient → ObserveRequest → HttpRequest
relay_call client req = record {
  url = client.proxy_url ++ codes "/v1/observe/actions";
  method = codes "POST";
  headers =
      authorization client ∷ content_type ∷ (codes "X-AV-Observe-Credential", req.credential) ∷ [];
  body = relay_body req;
}

abbrev pub network_error : Text → GateOutcome
network_error message =
    error 0 (some (codes "network_error")) none
      (object (field (codes "error") (string message) no_fields))

module _ {W : Type 0} (json_parse : Text → Option Json)
    (fetch : HttpRequest → Stateful W (Try (HttpResponse W))) where
  abbrev pub parsed : Text → Json
  parsed text = or_else (json_parse text) (string text)

  abbrev pub after_text : (Json → GateOutcome) → Try Text → Try GateOutcome
  after_text classify (ok text) = ok (classify (parsed text))
  after_text classify (threw message) = threw message

  -- the end of both calls: a failing `fetch` is caught, and the body is read outside the `try`
  abbrev pub after_fetch :
      (ℕ → Json → GateOutcome) → Try (HttpResponse W) → Stateful W (Try GateOutcome)
  after_fetch classify (ok res) = do text ← res.text; pure (after_text (classify res.status) text)
  after_fetch classify (threw message) = pure (ok (network_error message))

  unfoldable pub call_gate : GateClient → GateRequest → Stateful W (Try GateOutcome)
  call_gate client req = do
    res ← fetch (gate_call client req)
    after_fetch classify_gate_response res

  unfoldable pub observe : GateClient → ObserveRequest → Stateful W (Try GateOutcome)
  observe client req = do res ← fetch (relay_call client req); after_fetch observed res
