-- ===== src/Mcp/Waiting/Granted.antt =====
-- What `waitForApproval` of packages/mcp-server/src/tools/handlers.ts returns without an error for.
use agent_valet.Common.{
  ℕ, ◌+◌, Bool, true, false, not, Option, none, some, Text, codes, ===_iff, ◌≡◌, refl, ap, ◌∙◌, inl,
  inr, ◌⊎◌, Bool-cases,
}
use agent_valet.Common.Int.{ℤ}
use agent_valet.Common.Js.{is_ok}
use agent_valet.Common.Effects.{Try, ok, threw}
use agent_valet.Common.Json.{Json, property, as_string, is_truthy, is_null}
use agent_valet.Common.Loop.{
  Round, stop, again, Waited, answered, timed_out, out_of_fuel, while_before, while_before-answered,
}
use agent_valet.Client.Approval.{is_status}
use agent_valet.Mcp.Net.{ToolResult, Response, Outside, error_content, read_json, json_content}
use agent_valet.Mcp.Auth.{ServerContext, fetch_with_auth}
use agent_valet.Mcp.Waiting.{
  Wait, Awaited, read_clock, by_answer, by_fields, not_executed, unless_failed, or_report, by_body,
  by_fetch, poll_approval, wait_for_approval, status_request, begun, concluded, queued,
  status_error, truthy_value,
}

-- the round ends in a result that is no error
abbrev succeeds : Round ToolResult → Bool
succeeds (stop r) = not r.is_error
succeeds again = false

abbrev tried : Try ToolResult → Bool
tried (ok r) = not r.is_error
tried (threw m) = false

abbrev gives : Round (Try ToolResult) → Bool
gives (stop r) = tried r
gives again = false

-- The answer says that the action was approved and has been executed.
pub record SaysExecuted (body : Json) : Type 0 where
  pub approved : as_string (property (codes "status") body) ≡ some (codes "approved")
  pub executed : is_truthy (property (codes "executed_at") body) ≡ true

is_status-some :
    (name : Text) (status : Option Text) → is_status name status ≡ true → status ≡ some name
is_status-some name none h = cc
is_status-some name (some s) h = ap some ((===_iff s name).0 h)

module _ {W K B : Type 0} (out : Outside W K B) where
  not_executed-fails :
      (status : Option Text) (detail : Option Json)
      → succeeds (not_executed out status detail) ≡ false
  unfolding error_content
  not_executed-fails status detail = elim (Bool-cases (is_status (codes "denied") status)) [
    | inl e ↦ rw e refl
    | inr e ↦ rw e (elim (Bool-cases (is_status (codes "expired") status)) [
      | inl f ↦ rw f refl
      | inr f ↦ rw f (failed detail)
    ])
  ]
    where
      failed : (d : Option Json) → succeeds (unless_failed out d) ≡ false
      failed none = refl
      failed (some v) = refl

  by_fields-Executed :
      (elapsed : ℤ) (status : Option Text) (executed_at result detail : Option Json)
      → succeeds (by_fields out elapsed status executed_at result detail) ≡ true
      → (status ≡ some (codes "approved")) × (is_truthy executed_at ≡ true)
  by_fields-Executed elapsed status executed_at none detail =
      λ h. let fails = not_executed-fails status detail in cc
  by_fields-Executed elapsed status executed_at (some result) detail =
      elim (Bool-cases (is_status (codes "approved") status)) [
        | inr e ↦ rw e (λ h. let fails = not_executed-fails status detail in cc)
        | inl e ↦ elim (Bool-cases (is_truthy executed_at)) [
          | inr f ↦ rw (e, f) (λ h. let fails = not_executed-fails status detail in cc)
          | inl f ↦ λ h. (is_status-some (codes "approved") status e, f)
        ]
      ]

  by_answer-Executed :
      (elapsed : ℤ) (body : Json) → succeeds (by_answer out elapsed body) ≡ true → SaysExecuted body
  unfolding by_answer
  by_answer-Executed elapsed body h =
      let (approved, executed) =
        by_fields-Executed elapsed (as_string (property (codes "status") body))
          (property (codes "executed_at") body) (truthy_value out (property (codes "result") body))
          (truthy_value out (property (codes "execution_error") body)) h in
      record { approved = approved; executed = executed }

  module _ (ctx : ServerContext K) (call : Awaited) where
    -- A success, with a body that says so.
    abbrev Executed : Try (Response B) → W → Type 0
    Executed answer w =
        (res : Response B) × (body : Json) × (answer ≡ ok res)
        × (is_ok res.status ≡ true)
        × ((read_json out res.body w).0 ≡ ok body)
        × SaysExecuted body

    abbrev poll_from : W → Try (Response B) × W
    poll_from w = fetch_with_auth out ctx (status_request out ctx call) w

    -- Some request for the approval's status was answered so.
    abbrev pub SaidExecuted : Type 0
    SaidExecuted = (w : W) × Executed (poll_from w).0 (poll_from w).1

    or_report-gives :
        (elapsed : ℤ) (r : Round ToolResult) (s : Wait W)
        → gives (or_report out ctx call elapsed r s).0 ≡ true
        → succeeds r ≡ true
    or_report-gives elapsed (stop r) s h = h
    or_report-gives elapsed again s h = h

    by_body-Executed :
        (elapsed : ℤ) (body : Try Json) (s : Wait W)
        → gives (by_body out ctx call elapsed body s).0 ≡ true
        → (b : Json) × (body ≡ ok b) × SaysExecuted b
    by_body-Executed elapsed (threw m) s = λ h. cc
    by_body-Executed elapsed (ok b) s = elim (Bool-cases (is_null b)) [
      | inl e ↦ rw e (λ h. cc)
      | inr e ↦ rw e (λ h. (
        b,
        refl,
        by_answer-Executed elapsed b (or_report-gives elapsed (by_answer out elapsed b) s h),
      ))
    ]

    status_error-fails :
        (status : ℕ) (text : Try Text) → tried (status_error out ctx call status text) ≡ false
    unfolding error_content
    status_error-fails status (ok text) = refl
    status_error-fails status (threw m) = refl

    by_fetch-Executed :
        (elapsed : ℤ) (answer : Try (Response B)) (s : Wait W)
        → gives (by_fetch out ctx call elapsed answer s).0 ≡ true
        → Executed answer s.world
    by_fetch-Executed elapsed (threw m) s = λ h. cc
    by_fetch-Executed elapsed (ok res) s = elim (Bool-cases (is_ok res.status)) [
      | inl e ↦ rw e (λ h.
          let (body, read, says) =
            by_body-Executed elapsed (read_json out res.body s.world).0 _ h in
          (res, body, refl, e, read, says))
      | inr e ↦
          rw e (λ h.
            let fails = status_error-fails res.status (out.read_text res.body s.world).0 in cc)
    ]

    poll_approval-Executed :
        (started : ℕ) (s : Wait W)
        → gives (poll_approval out ctx call started s).0 ≡ true
        → SaidExecuted
    unfolding poll_approval
    poll_approval-Executed started s h =
        let w = (out.now (out.sleep 2000 s.world)).1 in
        (
          w,
          by_fetch-Executed _ (poll_from w).0
              (record { world = (poll_from w).1; last_progress_at = s.last_progress_at }) h,
        )

    concluded-Executed :
        (fuel started : ℕ) (s : Wait W) (waited : Waited (Try ToolResult)) (r : ToolResult)
        → (while_before
            (read_clock out)
            (started + 50000)
            (poll_approval out ctx call started)
            fuel
            s).0
          ≡ waited
        → concluded out ctx call waited ≡ some (ok r)
        → r.is_error ≡ false
        → SaidExecuted ⊎ (r ≡ json_content out (out.stringify (queued out ctx call)))
    concluded-Executed fuel started s (answered (ok t)) r e h clean =
        let same : t ≡ r = cc in
        let (s', stopped) =
          while_before-answered (read_clock out) (started + 50000)
            (poll_approval out ctx call started) fuel s (ok t) e in
        inl (
          poll_approval-Executed started s'
            (ap gives stopped ∙ ap (λ x. not x) (ap (λ x. x.is_error) same ∙ clean)))
    concluded-Executed fuel started s (answered (threw m)) r e h clean = cc
    concluded-Executed fuel started s timed_out r e h clean = inr cc
    concluded-Executed fuel started s out_of_fuel r e h clean = cc

    -- Waiting for an approval ends in a result that is no error only where some request for the
    -- approval's status was answered with a success whose body says that the action is approved and
    -- executed, or where the result is the one that says that the action is still queued.
    pub wait_for_approval-Executed :
        (fuel : ℕ) (w : W) (r : ToolResult)
        → (wait_for_approval out ctx call fuel w).0 ≡ some (ok r)
        → r.is_error ≡ false
        → SaidExecuted ⊎ (r ≡ json_content out (out.stringify (queued out ctx call)))
    unfolding wait_for_approval
    wait_for_approval-Executed fuel w r h clean =
        concluded-Executed fuel (out.now w).0 (begun out ctx call (out.now w).0 (out.now w).1) _ r
          refl h clean
