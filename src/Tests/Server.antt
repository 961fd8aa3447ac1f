-- ===== src/Tests/Server.antt =====
-- packages/mcp-server/src on concrete inputs.
use agent_valet.Common.{
  ℕ, suc, ◌+◌, true, false, Option, none, some, List, [], ◌∷◌, ◌++◌, Text, codes, ◌===◌, is_some,
  All, includes, ◌≡◌, ◌⊎◌, refl, arith, if◌then◌else◌,
}
use agent_valet.Common.Js.{decimal_of}
use agent_valet.Common.Effects.{ok}
use agent_valet.Common.Json.{Json, number, string, object, Fields, no_fields, field, get}
use agent_valet.Common.Loop.{while_before}
use agent_valet.Mcp.Net.{ToolResult, Request, Outside, json_content}
use agent_valet.Mcp.Auth.{ServerContext, fetch_with_auth, sign_jwt}
use agent_valet.Mcp.Handlers.{diagnostic_body}
use agent_valet.Mcp.Handlers.Diagnostic.{get-diagnostic_body, reported_keys}
use agent_valet.Mcp.Keeps.{Keeping}
use agent_valet.Mcp.Waiting.{
  Awaited, wait_for_approval, poll_approval, by_answer, send_progress, queued,
}
use agent_valet.Mcp.Waiting.Ends.{Clocked}
use agent_valet.Mcp.Waiting.Granted.{wait_for_approval-Executed, SaidExecuted}
use agent_valet.Mcp.Dispatch.{ToolCall, call_tool}
use agent_valet.Mcp.Dispatch.Gating.{call_tool-keyless, IsRefusal}
use agent_valet.Mcp.Dispatch.Confined.{call_tool-IsConfined, IsBelowProxy, IsToRelay}
use agent_valet.Mcp.Dispatch.Blind.{is_relayed, without_credential}
use agent_valet.Mcp.Dispatch.Replies.{call_tool-ends}

abbrev server : Option Text → ServerContext ℕ
server key = record {
  agent_id = codes "a";
  owner_id = codes "o";
  proxy_url = codes "http://proxy";
  agent_private_key_raw = key;
  private_key = some 7;
  observe_platform = codes "gh";
  observe_credential = codes "secret";
}

abbrev arguments : Fields
arguments = field (codes "platform") (string (codes "gh")) (
    field (codes "endpoint") (string (codes "/user")) (
      field (codes "method") (string (codes "GET"))
        (field (codes "scope") (string (codes "read")) no_fields)))

abbrev use_call : ToolCall
use_call = record { name = codes "use_platform"; args = some arguments; progress_token = none }

-- The world is the list of the requests sent.
abbrev logging : Outside (List Request) ℕ Text
logging = record {
  sign = λ key agent owner log. (ok (codes "jwt"), log);
  fetch = λ sent ms log. (ok (record { status = 200; body = codes "{}" }), sent ∷ log);
  read_text = λ body log. (ok body, log);
  sleep = λ ms log. log;
  now = λ log. (0, log);
  notify = λ progress log. log;
  json_parse = λ text. ok (object no_fields);
  stringify = λ v. codes "{}";
  shown = λ v. codes "?";
}

abbrev keyed : ServerContext ℕ
keyed = server (some (codes "pem"))

logging-Keeping : (Allowed : Request → Type 0) → Keeping logging Allowed (All Allowed)
logging-Keeping Allowed = record {
  signs = λ key agent owner log k. k;
  fetches = λ sent ms log allowed k. (allowed, k);
  reads = λ body log k. k;
  sleeps = λ ms log k. k;
  reads_clock = λ log k. k;
  notifies = λ progress log k. k;
}

call_tool-IsConfined_example :
    All (IsBelowProxy logging keyed) (call_tool logging keyed 3 use_call []).1
    × (((is_relayed logging keyed use_call ≡ true)
          × All (IsToRelay logging keyed) (call_tool logging keyed 3 use_call []).1)
        ⊎ ((is_relayed logging keyed use_call ≡ false)
            × (call_tool logging keyed 3 use_call []
                ≡ call_tool logging (without_credential keyed) 3 use_call [])))
call_tool-IsConfined_example =
    call_tool-IsConfined logging keyed (All (IsBelowProxy logging keyed))
      (All (IsToRelay logging keyed)) (logging-Keeping (IsBelowProxy logging keyed))
      (logging-Keeping (IsToRelay logging keyed)) 3 use_call [] tt tt

call_tool-keyless_example :
    IsRefusal logging (server none) [] (call_tool logging (server none) 3 use_call [])
unfolding ◌===◌
call_tool-keyless_example = call_tool-keyless logging (server none) refl 3 [] use_call refl

-- The world is the time; every body is this value.
abbrev timed : Json → Outside ℕ ℕ Text
timed answer = record {
  sign = λ key agent owner t. (ok (codes "jwt"), t);
  fetch = λ sent ms t. (ok (record { status = 200; body = codes "{}" }), suc t);
  read_text = λ body t. (ok body, t);
  sleep = λ ms t. t + ms;
  now = λ t. (t, t);
  notify = λ progress t. t;
  json_parse = λ text. ok answer;
  stringify = λ v. codes "{}";
  shown = λ v. codes "?";
}

abbrev silent : Outside ℕ ℕ Text
silent = timed (object no_fields)

timed-Clocked : Clocked silent (λ t. t)
timed-Clocked = record {
  reads = λ t. refl;
  keeps = λ n. record {
    signs = λ key agent owner t k. k;
    fetches = λ sent ms t allowed k. omega (arith, k);
    reads = λ body t k. k;
    sleeps = λ ms t k. omega (arith, k);
    reads_clock = λ t k. k;
    notifies = λ progress t k. k;
  };
  pauses = λ t. omega arith;
}

call_tool-ends_example :
    is_some (call_tool silent (server (some (codes "pem"))) 50001 use_call 0).0 ≡ true
call_tool-ends_example =
    call_tool-ends silent (server (some (codes "pem"))) (λ t. t) timed-Clocked 50000 (omega arith)
      use_call 0

abbrev approved_body : Json
approved_body = object (
    field (codes "status") (string (codes "approved")) (
      field (codes "executed_at") (string (codes "now")) (
        field (codes "result") (object (field (codes "status") (number (codes "200")) no_fields))
          no_fields)))

abbrev approving : Outside ℕ ℕ Text
approving = timed approved_body

abbrev awaiting : Awaited
awaiting = record {
  approval_id = string (codes "a1");
  platform = codes "gh";
  scope = codes "read";
  progress_token = none;
}

abbrev granted : ToolResult
granted = record {
  text = codes "[Owner approved after 2s]" ++ (10 ∷ codes "{}");
  structured_content = none;
  is_error = false;
}

wait_for_approval-Executed_example :
    SaidExecuted approving (server none) awaiting
    ⊎ (granted
        ≡ json_content approving (approving.stringify (queued approving (server none) awaiting)))
unfolding wait_for_approval while_before poll_approval fetch_with_auth sign_jwt by_answer
    send_progress decimal_of ◌===◌
wait_for_approval-Executed_example =
    wait_for_approval-Executed approving (server none) awaiting 2 0 granted refl refl

get-diagnostic_body_example :
    get (codes "owner_id") (diagnostic_body arguments)
    ≡ (if includes reported_keys (codes "owner_id") then get (codes "owner_id") arguments else none)
get-diagnostic_body_example = get-diagnostic_body (codes "owner_id") arguments
