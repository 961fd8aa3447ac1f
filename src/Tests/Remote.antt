-- ===== src/Tests/Remote.antt =====
-- packages/mcp-server/src/gate-client.ts and packages/client/src/client.ts on concrete inputs.
use agent_valet.Common.{
  ℕ, suc, ◌+◌, ◌≤◌, ◌<◌, none, some, Text, Option, codes, ◌===◌, true, is_some, ◌≡◌, ◌≢◌, ◌↔◌, ◌⊎◌,
  refl, arith,
}
use agent_valet.Common.Effects.{Try, ok, threw, Stateful}
use agent_valet.Common.Int.{ℤ}
use agent_valet.Common.Json.{Json, number, string, object, no_fields, field}
use agent_valet.Common.Loop.{Ticks, while_before}
use agent_valet.Common.Uri.{encode_uri_component}
use agent_valet.Gate
use agent_valet.Gate.{
  GateClient, GateRequest, HttpRequest, HttpResponse, call_gate, gate_call, classify_gate_response,
  network_error,
}
use agent_valet.Gate.Documented.{IsHalted, classify_gate_response_iff}
use agent_valet.Gate.Failures.{TextThrew, call_gate_threw_iff}
use agent_valet.Client.Transport.{AgentValet, Outside, Session, authed_fetch, sign_jwt}
use agent_valet.Client.Errors.{Exit, returned}
use agent_valet.Client.Approval.{
  read_clock, poll_approval, poll_access, wait_for_approval, wait_for_access, by_status,
}
use agent_valet.Client.Approval.Ends.{wait_for_approval-ends, wait_for_access-ends}
use agent_valet.Client.Approval.Granted.{SaidExecuted, wait_for_approval-returned}

abbrev halted_body : Json
halted_body = object (field (codes "reason") (string (codes "agent_suspended")) no_fields)

abbrev code : ℕ
code = 403

classify_gate_response_iff_example :
    ((Gate.decision (classify_gate_response code halted_body) ≡ Gate.allowed)
      ↔ ((200 ≤ code) × (code < 300) × (code ≢ 202)))
    × ((Gate.decision (classify_gate_response code halted_body) ≡ Gate.pending_approval)
        ↔ (code ≡ 202))
    × ((Gate.decision (classify_gate_response code halted_body) ≡ Gate.suspended)
        ↔ ((code ≡ 403) × IsHalted halted_body))
    × ((Gate.decision (classify_gate_response code halted_body) ≡ Gate.error)
        ↔ ((code ≡ 401) ⊎ (500 ≤ code)))
    × ((Gate.decision (classify_gate_response code halted_body) ≡ Gate.denied) ↔ (
        ((code < 200) ⊎ (300 ≤ code))
        × (code ≢ 401)
        × (code < 500)
        × ((code ≡ 403) → ¬ IsHalted halted_body)))
classify_gate_response_iff_example = classify_gate_response_iff code halted_body

abbrev gate : GateClient
gate = record { proxy_url = codes "http://gate"; token = codes "t" }

abbrev gate_request : GateRequest
gate_request = record {
  platform = codes "gh";
  endpoint = codes "/user";
  method = codes "GET";
  scope = codes "read";
  data_sent = none;
  connection_id = none;
}

abbrev no_json : Text → Option Json
no_json text = none

-- the answer arrives, and its body does not
abbrev cut_off : HttpRequest → Stateful ℕ (Try (HttpResponse ℕ))
cut_off call n =
    (ok (record { status = 200; text = λ n'. (threw (codes "terminated"), n') }), suc n)

call_gate_threw_iff_example :
    (((call_gate no_json cut_off gate gate_request 0).0 ≡ threw (codes "terminated"))
      ↔ TextThrew no_json cut_off (gate_call gate gate_request) 0 (codes "terminated"))
    × ((cut_off (gate_call gate gate_request) 0).0 ≡ threw (codes "terminated")
        → (call_gate no_json cut_off gate gate_request 0).0
          ≡ ok (network_error (codes "terminated")))
call_gate_threw_iff_example =
    call_gate_threw_iff no_json cut_off gate gate_request 0 (codes "terminated")

abbrev body : Text → Json
body status = object (
    field (codes "status") (string status) (
      field (codes "executed_at") (string (codes "now")) (
        field (codes "result") (object (field (codes "status") (number (codes "200")) no_fields))
          no_fields)))

-- The world is the time; every answer is a success with this body.
abbrev outside_with : Json → Outside ℕ ℕ
outside_with answer = record {
  import_key = λ pem t. (ok 7, t);
  sign = λ key agent owner t. (ok (codes "jwt"), t);
  fetch = λ call ms t. (ok (record { status = 200; text = λ t'. (ok (codes "{}"), t') }), suc t);
  sleep = λ ms t. t + ms;
  now = λ t. (t, t);
  json_parse = λ text. ok answer;
}

abbrev client : AgentValet
client = record {
  agent_id = codes "a";
  owner_id = codes "o";
  private_key_pem = codes "k";
  proxy_url = codes "http://proxy";
  timeout_ms = 10;
  approval_timeout_ms = 5;
  approval_poll_ms = 2;
}

abbrev waiting : Outside ℕ ℕ
waiting = outside_with (body (codes "pending"))

abbrev approving : Outside ℕ ℕ
approving = outside_with (body (codes "approved"))

abbrev fresh : Session ℕ ℕ
fresh = record { imported_key = none; world = 0 }

abbrev unheard : ℤ → Session ℕ ℕ → Exit (Unit {0}) × Session ℕ ℕ
unheard elapsed s = (returned tt, s)

abbrev time_of : Session ℕ ℕ → ℕ
time_of s = s.world

approval-passes :
    (started : ℕ) (key : Option ℕ) (t : ℕ)
    → suc t
      ≤ (poll_approval waiting client unheard
          (codes "a1")
          started
          (record { imported_key = key; world = t })).1.world
unfolding poll_approval authed_fetch sign_jwt encode_uri_component by_status ◌===◌
approval-passes started none t = omega arith
approval-passes started (some key) t = omega arith

access-passes :
    (key : Option ℕ) (t : ℕ)
    → suc t
      ≤ (poll_access waiting client (codes "r1") (record { imported_key = key; world = t })).1.world
unfolding poll_access authed_fetch sign_jwt encode_uri_component ◌===◌
access-passes none t = omega arith
access-passes (some key) t = omega arith

approval-Ticks :
    (started : ℕ)
    → Ticks
        (read_clock waiting client)
        (poll_approval waiting client unheard (codes "a1") started)
        time_of
approval-Ticks started = record {
  reads = λ s. refl;
  keeps = λ s. omega arith;
  passes = λ s. approval-passes started s.imported_key s.world;
}

access-Ticks : Ticks (read_clock waiting client) (poll_access waiting client (codes "r1")) time_of
access-Ticks = record {
  reads = λ s. refl;
  keeps = λ s. omega arith;
  passes = λ s. access-passes s.imported_key s.world;
}

wait_for_approval-ends_example :
    is_some (wait_for_approval waiting client unheard (codes "a1") 5 6 fresh).0 ≡ true
wait_for_approval-ends_example =
    wait_for_approval-ends waiting client time_of unheard (codes "a1") 5 5 fresh approval-Ticks
      (omega arith)

wait_for_access-ends_example :
    is_some (wait_for_access waiting client 5 6 (codes "r1") fresh).0 ≡ true
wait_for_access-ends_example =
    wait_for_access-ends waiting client time_of (codes "r1") 5 5 fresh access-Ticks (omega arith)

wait_for_approval-returned_example : SaidExecuted approving client unheard (codes "a1")
unfolding wait_for_approval while_before poll_approval authed_fetch sign_jwt encode_uri_component
    by_status ◌===◌
wait_for_approval-returned_example =
    wait_for_approval-returned approving client unheard (codes "a1") 5 6 fresh refl
