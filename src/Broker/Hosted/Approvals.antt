-- ===== src/Broker/Hosted/Approvals.antt =====
-- packages/mcp-broker/src/hosted/approval-provider.ts: an approval is asked for once, and its
-- status is polled until it is decided or the time is up.
pub mod Waiting
use agent_valet.Common.{
  ℕ, ◌+◌, suc, ◌≤◌, Bool, true, false, Option, none, some, List, [], ◌∷◌, ◌++◌, Text, codes, ◌===◌,
  truthy, is_some, ◌≡◌, refl, if◌then◌else◌,
}
use agent_valet.Common.Effects.{Try, ok, threw, Stateful}
use agent_valet.Common.Json.{
  Json, null, string, object, no_fields, field, property, as_string, Fields,
}
use agent_valet.Common.Loop.{
  Round, stop, again, Waited, answered, timed_out, out_of_fuel, while_before, Ticks,
}
use agent_valet.Common.Throwing.{Io}
use agent_valet.Common.Uri.{encode_uri_component}
use agent_valet.Broker.Hosted.{HostedClient, request}
use agent_valet.Broker.Hosted.Sources.{null_read}
use agent_valet.Broker.Types.{AccessRequest, Subject, Decision, ApprovalResult}

pub record Provider (W : Type 0) : Type 0 where
  pub client : HostedClient W
  pub timeout_ms : ℕ
  pub poll_ms : ℕ
  pub sleep : ℕ → W → W
  pub now : Stateful W ℕ

abbrev pub broker_approvals : Text
broker_approvals = codes "/v1/broker/approvals"

abbrev optional_string : Text → Option Text → Fields → Fields
optional_string key none rest = rest
optional_string key (some s) rest = field key (string s) rest

abbrev subject_json : Subject → Json
subject_json s = object (
    field (codes "id") (string s.id) (
      optional_string (codes "spiffeId") s.spiffe_id
        (field (codes "sessionId") (string s.session_id) no_fields)))

abbrev approval_body : AccessRequest → Decision → Json
approval_body req decision = object (
    field (codes "server") (string req.resource.server) (
      field (codes "tool") (string req.resource.tool) (
        field (codes "subject") (subject_json req.subject) (
          field (codes "argsFingerprint") (string req.args_fingerprint) (
            field (codes "policyId") (string decision.policy_id)
              (field (codes "policyVersion") (string decision.version) no_fields))))))

-- `APPROVAL_STATUS`; none where `encodeURIComponent` throws
abbrev status_path : Option Text → Option Text
status_path none = none
status_path (some id) = some (codes "/v1/broker/approvals/" ++ id)

abbrev granted : ApprovalResult
granted = record { approved = true; reason = none }

abbrev refused : Text → ApprovalResult
refused reason = record { approved = false; reason = some reason }

module _ {W : Type 0} (p : Provider W) where
  abbrev pending : Stateful W (Round (Try ApprovalResult))
  pending w = (again, p.sleep p.poll_ms w)

  abbrev by_status : Option Text → Stateful W (Round (Try ApprovalResult))
  by_status none w = pending w
  by_status (some status) w =
      if status === codes "approved"
      then (stop (ok granted), w)
      else if status === codes "denied"
      then (stop (ok (refused (codes "declined"))), w)
      else if status === codes "expired"
      then (stop (ok (refused (codes "timeout"))), w)
      else pending w

  abbrev by_answer : Try Json → Stateful W (Round (Try ApprovalResult))
  by_answer (threw message) w = (stop (threw message), w)
  by_answer (ok null) w = (stop (threw (null_read (codes "status"))), w)
  by_answer (ok status) w = by_status (as_string (property (codes "status") status)) w

  -- the body of the loop
  unfoldable pub poll_once : Text → Stateful W (Round (Try ApprovalResult))
  poll_once path w =
      let (answer, w') = request p.client (codes "GET") path none w in by_answer answer w'

  abbrev pub conclude : Waited (Try ApprovalResult) → Option (Try ApprovalResult)
  conclude (answered r) = some r
  conclude timed_out = some (ok (refused (codes "timeout")))
  conclude out_of_fuel = none

  -- the loop from the reading of the deadline on
  unfoldable pub wait_for : ℕ → Text → Stateful W (Option (Try ApprovalResult))
  wait_for fuel path w =
      let (started, w') = p.now w in
      let (r, w'') = while_before p.now (started + p.timeout_ms) (poll_once path) fuel w' in
      (conclude r, w'')

  abbrev poll_path : ℕ → Option Text → Stateful W (Option (Try ApprovalResult))
  poll_path fuel none w = (some (threw (codes "URI malformed")), w)
  poll_path fuel (some path) w = wait_for fuel path w

  abbrev missing_id : Option (Try ApprovalResult)
  missing_id = some (threw (codes "hosted approval create returned no id"))

  abbrev poll_created : ℕ → Option Text → Stateful W (Option (Try ApprovalResult))
  poll_created fuel none w = (missing_id, w)
  poll_created fuel (some []) w = (missing_id, w)
  poll_created fuel (some (c ∷ cs)) w =
      poll_path fuel (status_path (encode_uri_component (c ∷ cs))) w

  abbrev after_create : ℕ → Try Json → Stateful W (Option (Try ApprovalResult))
  after_create fuel (threw message) w = (some (threw message), w)
  after_create fuel (ok created) w = poll_created fuel (as_string (property (codes "id") created)) w

  -- `AgentvaletApprovalProvider.request`; none where the fuel is used up
  unfoldable pub request_approval :
      ℕ → AccessRequest → Decision → Stateful W (Option (Try ApprovalResult))
  unfolding wait_for
  request_approval fuel req decision w =
      let (created, w') =
        request p.client (codes "POST") broker_approvals (some (approval_body req decision)) w in
      after_create fuel created w'
