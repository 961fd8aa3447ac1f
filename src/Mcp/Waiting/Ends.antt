-- ===== src/Mcp/Waiting/Ends.antt =====
-- The two polls of packages/mcp-server/src/tools/handlers.ts end.
use agent_valet.Common.{ℕ, suc, ◌+◌, ◌≤◌, true, Text, is_some, ◌≡◌, refl, arith}
use agent_valet.Common.Int.{pos}
use agent_valet.Common.Effects.{Try}
use agent_valet.Common.Loop.{
  Waited, answered, timed_out, out_of_fuel, while_before-ends, Ticks, is_ended,
}
use agent_valet.Mcp.Net.{ToolResult, Request, Outside}
use agent_valet.Mcp.Auth.{ServerContext}
use agent_valet.Mcp.Waiting.{
  Awaited, read_clock, poll_approval, wait_for_approval, begun, concluded, required_text,
}
use agent_valet.Mcp.Access
use agent_valet.Mcp.Access.{poll_access, wait_for_access}
use agent_valet.Mcp.Keeps.{Keeping}
use agent_valet.Mcp.Keeps.Waiting.{poll_approval-Keeps, poll_access-Keeps, send_progress-Keeps}

abbrev Anything : Request → Type 0
Anything request = Unit

-- A clock that no call outside sets back, and a pause that takes at least a millisecond.
pub record Clocked {W K B : Type 0} (out : Outside W K B) (time : W → ℕ) : Type 0 where
  pub reads : (w : W) → (out.now w).0 ≡ time w
  pub keeps : (n : ℕ) → Keeping out Anything (λ w. n ≤ time w)
  pub pauses : (w : W) → suc (time w) ≤ time (out.sleep 2000 w)

module _ {W K B : Type 0} (out : Outside W K B) (ctx : ServerContext K) (time : W → ℕ)
    (clocked : Clocked out time) where
  abbrev Later : ℕ → W → Type 0
  Later n w = n ≤ time w

  approval-Ticks :
      (call : Awaited) (started : ℕ)
      → Ticks (read_clock out) (poll_approval out ctx call started) (λ s. time s.world)
  approval-Ticks call started = record {
    reads = λ s. clocked.reads s.world;
    keeps = λ s. (clocked.keeps (time s.world)).reads_clock s.world (omega arith);
    passes = λ s.
        poll_approval-Keeps out Anything (Later (suc (time s.world)))
          (clocked.keeps (suc (time s.world))) ctx call (λ token. tt) started s
          (clocked.pauses s.world);
  }

  access-Ticks : (token : Text) → Ticks out.now (poll_access out ctx token) time
  access-Ticks token = record {
    reads = clocked.reads;
    keeps = λ w. (clocked.keeps (time w)).reads_clock w (omega arith);
    passes = λ w.
        poll_access-Keeps out Anything (Later (suc (time w))) (clocked.keeps (suc (time w))) ctx
          (λ path jwt. tt) token w (clocked.pauses w);
  }

  concluded-ended :
      (call : Awaited) (r : Waited (Try ToolResult))
      → is_ended r ≡ true
      → is_some (concluded out ctx call r) ≡ true
  concluded-ended call (answered r) h = refl
  concluded-ended call timed_out h = refl
  concluded-ended call out_of_fuel h = cc

  pub wait_for_approval_some :
      (call : Awaited) (fuel : ℕ) (w : W)
      → 50000 ≤ fuel
      → is_some (wait_for_approval out ctx call (suc fuel) w).0 ≡ true
  unfolding wait_for_approval
  wait_for_approval_some call fuel w h =
      let started = (out.now w).0 in
      let later =
        send_progress-Keeps out Anything (Later (time w)) (clocked.keeps (time w)) ctx
          call.progress_token (pos 0) 50000 (required_text out ctx call) (out.now w).1
          ((clocked.keeps (time w)).reads_clock w (omega arith)) in
      concluded-ended call _ (
        while_before-ends (read_clock out) (started + 50000) (poll_approval out ctx call started)
          (λ s. time s.world) (approval-Ticks call started) fuel
          (begun out ctx call started (out.now w).1) (omega (arith, h, later, clocked.reads w)))

  access_concluded-ended :
      (r : Waited (Try ToolResult))
      → is_ended r ≡ true
      → is_some (Access.concluded out ctx r) ≡ true
  access_concluded-ended (answered r) h = refl
  access_concluded-ended timed_out h = refl
  access_concluded-ended out_of_fuel h = cc

  pub wait_for_access_some :
      (token : Text) (fuel : ℕ) (w : W)
      → 50000 ≤ fuel
      → is_some (wait_for_access out ctx token (suc fuel) w).0 ≡ true
  unfolding wait_for_access
  wait_for_access_some token fuel w h =
      let later = (clocked.keeps (time w)).reads_clock w (omega arith) in
      access_concluded-ended _ (
        while_before-ends out.now ((out.now w).0 + 50000) (poll_access out ctx token) time
          (access-Ticks token) fuel (out.now w).1 (omega (arith, h, later, clocked.reads w)))
