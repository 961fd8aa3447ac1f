-- ===== src/Tests/Approvals.antt =====
-- packages/mcp-broker/src/hosted/approval-provider.ts on concrete inputs.
use agent_valet.Common.{ℕ, suc, ◌+◌, none, [], Text, codes, ◌===◌, true, is_some, ◌≡◌, refl, arith}
use agent_valet.Common.Effects.{ok}
use agent_valet.Common.Json.{string, object, no_fields, field}
use agent_valet.Common.Loop.{Ticks, while_before}
use agent_valet.Common.Throwing.{Io}
use agent_valet.Common.Uri.{encode_uri_component}
use agent_valet.Broker.Authzen.{Response}
use agent_valet.Broker.Hosted.{HostedCall, fixed, request}
use agent_valet.Broker.Hosted.Approvals.{Provider, poll_once, wait_for, request_approval}
use agent_valet.Broker.Hosted.Approvals.Waiting.{
  IsApproved, created_by, request_approval-ends, request_approval-IsApproved,
}
use agent_valet.Broker.Types.{AccessRequest, Decision, require_approval}

-- The world is the time in milliseconds; the plane answers the same to every call, which takes one.
abbrev answered_with : Text → Text → HostedCall → Io ℕ (Response ℕ)
answered_with id status call t = (
  ok (record {
    is_ok = true;
    status = 200;
    json = λ t'. (
      ok (
          object
            (field (codes "id") (string id) (field (codes "status") (string status) no_fields))),
      t',
    );
  }),
  suc t,
)

abbrev provider : Text → Provider ℕ
provider status = record {
  client = record {
    base_url = codes "http://plane";
    token = fixed (codes "t");
    fetch = answered_with (codes "a1") status;
  };
  timeout_ms = 5;
  poll_ms = 2;
  sleep = λ ms t. t + ms;
  now = λ t. (t, t);
}

abbrev req : AccessRequest
req = record {
  subject = record { id = codes "me"; spiffe_id = none; session_id = codes "s" };
  action = codes "rd";
  resource = record { server = codes "srv"; tool = codes "rd" };
  args_fingerprint = codes "fp";
  transport = codes "stdio";
  ts = codes "now";
}

abbrev decision : Decision
decision = record {
  effect = require_approval;
  obligations = [];
  policy_id = codes "p";
  version = codes "1";
}

abbrev time_of : ℕ → ℕ
time_of t = t

provider-Ticks :
    (path : Text)
    → Ticks (provider (codes "pending")).now (poll_once (provider (codes "pending")) path) time_of
unfolding poll_once request ◌===◌
provider-Ticks path = record {
  reads = λ t. refl;
  keeps = λ t. omega arith;
  passes = λ t. omega arith;
}

request_approval-ends_example :
    is_some (request_approval (provider (codes "pending")) 6 req decision 0).0 ≡ true
request_approval-ends_example =
    request_approval-ends (provider (codes "pending")) time_of provider-Ticks 5 req decision 0
      (omega arith)

request_approval-IsApproved_example :
    IsApproved
      (provider (codes "approved"))
      (created_by (provider (codes "approved")) req decision 0)
unfolding request_approval wait_for while_before poll_once request encode_uri_component ◌===◌
request_approval-IsApproved_example =
    request_approval-IsApproved (provider (codes "approved")) 6 req decision 0 refl
