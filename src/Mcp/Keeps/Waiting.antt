-- ===== src/Mcp/Keeps/Waiting.antt =====
-- The two polls of packages/mcp-server/src/tools/handlers.ts keep what every call outside keeps.
use agent_valet.Common.{ℕ, ◌+◌, Option, none, some, Text, leb, Bool-cases, inl, inr}
use agent_valet.Common.Int.{ℤ, pos, sub_ℕ}
use agent_valet.Common.Js.{is_ok}
use agent_valet.Common.Effects.{Try, ok, threw}
use agent_valet.Common.Json.{Json, is_null}
use agent_valet.Common.Loop.{Round, stop, again, while_before-keeps}
use agent_valet.Common.Uri.{encode_uri_component}
use agent_valet.Mcp.Net.{ToolResult, Request, Response, Outside}
use agent_valet.Mcp.Auth.{ServerContext, signed, fetch_with_auth}
use agent_valet.Mcp.Waiting.{
  Wait, Awaited, send_progress, read_clock, progress_due, or_report, by_answer, by_body, by_fetch,
  poll_approval, wait_for_approval, status_request, begun, waiting_text, required_text,
}
use agent_valet.Mcp.Access
use agent_valet.Mcp.Keeps.{Keeping, Keeps, read_json-Keeps, fetch_with_auth-Keeps}

module _ {W K B : Type 0} (out : Outside W K B) (Allowed : Request → Type 0) (Kept : W → Type 0)
    (keeping : Keeping out Allowed Kept) (ctx : ServerContext K) where
  pub send_progress-Keeps :
      (token : Option Json) (progress : ℤ) (total : ℕ) (message : Text) (w : W)
      → Kept w
      → Kept (send_progress out token progress total message w)
  unfolding send_progress
  send_progress-Keeps none progress total message w k = k
  send_progress-Keeps (some token) progress total message w k = keeping.notifies _ w k

  module _ (call : Awaited)
      (allowed : (token : Text)
        → Allowed (signed out ctx (status_request out ctx call) token)) where
    progress_due-Keeps :
        (elapsed : ℤ) (s : Wait W) → Kept s.world → Kept (progress_due out ctx call elapsed s).world
    progress_due-Keeps elapsed s k =
        elim (Bool-cases (leb (s.last_progress_at + 5000) (out.now s.world).0)) [
          | inl e ↦ rw e (
              keeping.reads_clock _ (
                send_progress-Keeps call.progress_token elapsed 50000
                  (waiting_text out ctx call elapsed) (out.now s.world).1
                  (keeping.reads_clock s.world k)))
          | inr e ↦ rw e (keeping.reads_clock s.world k)
        ]

    or_report-Keeps :
        (elapsed : ℤ) (r : Round ToolResult) (s : Wait W)
        → Kept s.world
        → Kept (or_report out ctx call elapsed r s).1.world
    or_report-Keeps elapsed (stop r) s k = k
    or_report-Keeps elapsed again s k = progress_due-Keeps elapsed s k

    by_body-Keeps :
        (elapsed : ℤ) (body : Try Json) (s : Wait W)
        → Kept s.world
        → Kept (by_body out ctx call elapsed body s).1.world
    by_body-Keeps elapsed (threw m) s k = k
    by_body-Keeps elapsed (ok body) s k = elim (Bool-cases (is_null body)) [
      | inl e ↦ rw e k
      | inr e ↦ rw e (or_report-Keeps elapsed (by_answer out elapsed body) s k)
    ]

    by_fetch-Keeps :
        (elapsed : ℤ) (res : Try (Response B)) (s : Wait W)
        → Kept s.world
        → Kept (by_fetch out ctx call elapsed res s).1.world
    by_fetch-Keeps elapsed (threw m) s k = k
    by_fetch-Keeps elapsed (ok res) s k = elim (Bool-cases (is_ok res.status)) [
      | inl e ↦
          rw e (
            by_body-Keeps elapsed _ _ (read_json-Keeps out Allowed Kept keeping res.body s.world k))
      | inr e ↦ rw e (keeping.reads res.body s.world k)
    ]

    -- what holds after the pause
    pub poll_approval-Keeps :
        (started : ℕ) (s : Wait W)
        → Kept (out.sleep 2000 s.world)
        → Kept (poll_approval out ctx call started s).1.world
    unfolding poll_approval
    poll_approval-Keeps started s k =
        let read = out.now (out.sleep 2000 s.world) in
        let fetched = fetch_with_auth out ctx (status_request out ctx call) read.1 in
        by_fetch-Keeps (sub_ℕ read.0 started) fetched.0 (record s { world = fetched.1 })
          (fetch_with_auth-Keeps out Allowed Kept keeping ctx (status_request out ctx call) allowed
            _ (keeping.reads_clock _ k))

    pub wait_for_approval-Keeps :
        (fuel : ℕ) → Keeps out Allowed Kept keeping (wait_for_approval out ctx call fuel)
    unfolding wait_for_approval
    wait_for_approval-Keeps fuel w k =
        let started = (out.now w).0 in
        while_before-keeps (read_clock out) (started + 50000) (poll_approval out ctx call started)
          (λ s. Kept s.world) (λ s. keeping.reads_clock s.world)
          (λ s k'. poll_approval-Keeps started s (keeping.sleeps 2000 s.world k')) fuel
          (begun out ctx call started (out.now w).1)
          (send_progress-Keeps call.progress_token (pos 0) 50000 (required_text out ctx call)
            (out.now w).1 (keeping.reads_clock w k))

  module _
      (allowed : (token jwt : Text)
        → Allowed (signed out ctx (Access.status_request out ctx token) jwt)) where
    fetch_status-Keeps :
        (token : Option Text) → Keeps out Allowed Kept keeping (Access.fetch_status out ctx token)
    fetch_status-Keeps (some token) =
        fetch_with_auth-Keeps out Allowed Kept keeping ctx (Access.status_request out ctx token)
          (allowed token)
    fetch_status-Keeps none = λ w k. k

    by_response-Keeps :
        (res : Try (Response B)) → Keeps out Allowed Kept keeping (Access.by_response out ctx res)
    by_response-Keeps (threw m) w k = k
    by_response-Keeps (ok res) w k = elim (Bool-cases (is_ok res.status)) [
      | inl e ↦ rw e (read_json-Keeps out Allowed Kept keeping res.body w k)
      | inr e ↦ rw e k
    ]

    -- what holds after the pause
    pub poll_access-Keeps :
        (token : Text) (w : W)
        → Kept (out.sleep 2000 w)
        → Kept (Access.poll_access out ctx token w).1
    unfolding Access.poll_access
    poll_access-Keeps token w k =
        by_response-Keeps
          (Access.fetch_status out ctx (encode_uri_component token) (out.sleep 2000 w)).0 _
          (fetch_status-Keeps (encode_uri_component token) _ k)

    pub wait_for_access-Keeps :
        (token : Text) (fuel : ℕ)
        → Keeps out Allowed Kept keeping (Access.wait_for_access out ctx token fuel)
    unfolding Access.wait_for_access
    wait_for_access-Keeps token fuel w k =
        while_before-keeps out.now ((out.now w).0 + 50000) (Access.poll_access out ctx token) Kept
          keeping.reads_clock (λ v h. poll_access-Keeps token v (keeping.sleeps 2000 v h)) fuel
          (out.now w).1 (keeping.reads_clock w k)
