-- ===== src/Cli/Wait/Ends.antt =====
-- Waiting in packages/cli/src/wait.ts ends.
use agent_valet.Common.{ℕ, ◌+◌, suc, ◌≤◌, true, Option, none, some, Text, is_some, ◌≡◌, refl, arith}
use agent_valet.Common.Loop.{
  Waited, answered, timed_out, out_of_fuel, while_before-ends, Ticks, is_ended,
}
use agent_valet.Cli.Wait.{
  WaitResult, Outside, try_sse, poll_round, ended, or_poll, enriched, wait_for_approval,
}

ended-some : (r : Waited WaitResult) → is_ended r ≡ true → is_some (ended r) ≡ true
ended-some (answered r) h = refl
ended-some timed_out h = refl
ended-some out_of_fuel h = cc

module _ {W B : Type 0} (outside : Outside W B) (api_url token : Text) (time : W → ℕ) where
  enriched-some :
      (r : Option WaitResult) (w : W)
      → is_some r ≡ true
      → is_some (enriched outside api_url token r w).0 ≡ true
  enriched-some none w h = h
  enriched-some (some r) w h = refl

  or_poll-some :
      (timeout_ms started fuel : ℕ) (by_sse : Option WaitResult) (w : W)
      → Ticks outside.now (poll_round outside api_url token) time
      → started + timeout_ms ≤ time w + fuel
      → is_some (or_poll outside api_url token (started + timeout_ms) (suc fuel) by_sse w).0 ≡ true
  or_poll-some timeout_ms started fuel (some r) w ticks h = refl
  or_poll-some timeout_ms started fuel none w ticks h = ended-some _ (
      while_before-ends outside.now (started + timeout_ms) (poll_round outside api_url token) time
        ticks fuel w h)

  -- Where neither the clock nor the stream goes back in time and every round of the poll takes at
  -- least a millisecond, waiting has a result: rounds for every millisecond of the time given, and
  -- one more, are enough.
  wait_for_approval-some :
      (timeout_ms fuel : ℕ) (w : W)
      → Ticks outside.now (poll_round outside api_url token) time
      → ((v : W) → time v ≤ time (try_sse outside api_url token v).1)
      → timeout_ms ≤ fuel
      → is_some (wait_for_approval outside api_url token timeout_ms (suc fuel) w).0 ≡ true
  unfolding wait_for_approval
  wait_for_approval-some timeout_ms fuel w ticks keeps h = enriched-some _ _ (
      or_poll-some timeout_ms (outside.now w).0 fuel _ _ ticks
        (omega (arith, h, ticks.reads w, ticks.keeps w, keeps (outside.now w).1)))
