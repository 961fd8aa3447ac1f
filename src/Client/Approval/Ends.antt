-- ===== src/Client/Approval/Ends.antt =====
-- The polls of packages/client/src/client.ts end.
use agent_valet.Common.{ℕ, ◌+◌, suc, ◌≤◌, true, Text, is_some, ◌≡◌, refl, arith}
use agent_valet.Common.Int.{ℤ}
use agent_valet.Common.Loop.{
  Waited, answered, timed_out, out_of_fuel, while_before-ends, Ticks, is_ended,
}
use agent_valet.Client.Errors.{Exit, Run}
use agent_valet.Client.Approval.{
  S, read_clock, poll_approval, poll_access, wait_for_approval, wait_for_access, concluded,
}
use agent_valet.Client.Transport.{AgentValet, Outside}

concluded-ended :
    {A : Type 0} (late : Exit A) (r : Waited (Exit A))
    → is_ended r ≡ true
    → is_some (concluded late r) ≡ true
concluded-ended late (answered r) h = refl
concluded-ended late timed_out h = refl
concluded-ended late out_of_fuel h = cc

module _ {W K : Type 0} (out : Outside W K) (client : AgentValet) (time : S out client → ℕ) where
  -- Where the clock does not go back and every round takes at least a millisecond, waiting for an
  -- approval ends with a value or an error: rounds for every millisecond of the budget, and one
  -- more, are enough.
  pub wait_for_approval-ends :
      (pending : ℤ → Run (S out client) (Unit {0})) (id : Text) (budget fuel : ℕ) (s : S out client)
      → ((started : ℕ)
          → Ticks (read_clock out client) (poll_approval out client pending id started) time)
      → budget ≤ fuel
      → is_some (wait_for_approval out client pending id budget (suc fuel) s).0 ≡ true
  unfolding wait_for_approval
  wait_for_approval-ends pending id budget fuel s ticks h =
      let started = (read_clock out client s).0 in
      let tick = ticks started in
      concluded-ended _ _ (
        while_before-ends (read_clock out client) (started + budget)
          (poll_approval out client pending id started) time tick fuel (read_clock out client s).1
          (omega (arith, h, tick.reads s, tick.keeps s)))

  -- Where the clock does not go back and every round takes at least a millisecond, waiting for
  -- access ends with a status or an error: rounds for every millisecond of the budget, and one
  -- more, are enough.
  pub wait_for_access-ends :
      (token : Text) (budget fuel : ℕ) (s : S out client)
      → Ticks (read_clock out client) (poll_access out client token) time
      → budget ≤ fuel
      → is_some (wait_for_access out client budget (suc fuel) token s).0 ≡ true
  unfolding wait_for_access
  wait_for_access-ends token budget fuel s tick h = concluded-ended _ _ (
      while_before-ends (read_clock out client) ((read_clock out client s).0 + budget)
        (poll_access out client token) time tick fuel (read_clock out client s).1
        (omega (arith, h, tick.reads s, tick.keeps s)))
