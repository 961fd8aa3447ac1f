-- ===== src/Client/Approval/Granted.antt =====
-- What `waitForApproval` of packages/client/src/client.ts returns a value for.
use agent_valet.Common.{
  ℕ, ◌+◌, Bool, true, false, Option, none, some, ◌∷◌, [], Text, codes, ◌===◌, ===_iff, ◌≡◌, refl,
  ap, ◌∙◌, inl, inr, Bool-cases,
}
use agent_valet.Common.Int.{ℤ}
use agent_valet.Common.Js.{is_ok}
use agent_valet.Common.Json.{
  Json, null, boolean, number, string, array, object, property, as_string, is_truthy,
}
use agent_valet.Common.Loop.{
  Round, stop, again, Waited, answered, timed_out, out_of_fuel, while_before, while_before-answered,
}
use agent_valet.Common.Uri.{encode_uri_component}
use agent_valet.Client.Errors.{Exit, returned, raised, approval_timeout, Run}
use agent_valet.Client.Approval.{
  S, by_status, read_clock, pause, fetch_status, poll_approval, wait_for_approval, concluded,
  is_status, by_fields, unless_failed, if_executed, by_fetch, by_response, by_body, notice, noticed,
  refused_with,
}
use agent_valet.Client.Transport.{AgentValet, Outside, Response, response_json, response_text}

abbrev pub gives : {A : Type 0} → Exit A → Bool
gives (returned a) = true
gives (raised e) = false

abbrev stops_well : {A : Type 0} → Round (Exit A) → Bool
stops_well (stop r) = gives r
stops_well again = false

-- The answer says that the action was approved and has been executed, without an error.
pub record SaysExecuted (body : Json) : Type 0 where
  pub approved : as_string (property (codes "status") body) ≡ some (codes "approved")
  pub executed : is_truthy (property (codes "executed_at") body) ≡ true

if_executed-Well :
    (body : Json) (status : Option Text)
    → stops_well (if_executed body status) ≡ true
    → (status ≡ some (codes "approved")) × (is_truthy (property (codes "executed_at") body) ≡ true)
if_executed-Well body none = λ h. cc
if_executed-Well body (some s) = elim (Bool-cases (s === codes "approved")) [
  | inr e ↦ rw e (λ h. cc)
  | inl e ↦ elim (Bool-cases (is_truthy (property (codes "executed_at") body))) [
    | inl f ↦ λ h. (ap some ((===_iff s (codes "approved")).0 e), f)
    | inr f ↦ rw (e, f) (λ h. cc)
  ]
]

unless_failed-Well :
    (body : Json) (status detail : Option Text)
    → stops_well (unless_failed body status detail) ≡ true
    → (status ≡ some (codes "approved")) × (is_truthy (property (codes "executed_at") body) ≡ true)
unless_failed-Well body status none h = if_executed-Well body status h
unless_failed-Well body status (some []) h = if_executed-Well body status h
unless_failed-Well body status (some (c ∷ cs)) h = cc

by_fields-Well :
    (id : Text) (body : Json) (status detail : Option Text)
    → stops_well (by_fields id body status detail) ≡ true
    → (status ≡ some (codes "approved")) × (is_truthy (property (codes "executed_at") body) ≡ true)
by_fields-Well id body status detail = elim (Bool-cases (is_status (codes "denied") status)) [
  | inl e ↦ rw e (λ h. cc)
  | inr e ↦ rw e (elim (Bool-cases (is_status (codes "expired") status)) [
    | inl f ↦ rw f (λ h. cc)
    | inr f ↦ rw f (unless_failed-Well body status detail)
  ])
]

by_status-Well :
    (id : Text) (body : Json) → stops_well (by_status id body) ≡ true → SaysExecuted body
unfolding by_status
by_status-Well id (object fs) h =
    let (approved, executed) =
      by_fields-Well id (object fs) (as_string (property (codes "status") (object fs)))
        (as_string (property (codes "execution_error") (object fs))) h in
    record { approved = approved; executed = executed }
by_status-Well id null h = cc
by_status-Well id (boolean b) h = cc
by_status-Well id (number n) h = cc
by_status-Well id (string s) h = cc
by_status-Well id (array xs) h = cc

module _ {W K : Type 0} (out : Outside W K) (client : AgentValet)
    (pending : ℤ → Run (S out client) (Unit {0})) (id : Text) where
  -- An answer with a success, whose body says that the action has been executed.
  abbrev Well : Exit (Response W) → S out client → Type 0
  Well answer s =
      (res : Response W) × (body : Json) × (answer ≡ returned res)
      × (is_ok res.status ≡ true)
      × ((response_json out res s).0 ≡ returned body)
      × SaysExecuted body

  abbrev pub poll_from : S out client → Exit (Response W) × S out client
  poll_from s = fetch_status out client (codes "/v1/approvals/") (encode_uri_component id) s

  -- Some poll of the approval's status was answered so.
  abbrev pub SaidExecuted : Type 0
  SaidExecuted = (s : S out client) × Well (poll_from s).0 (poll_from s).1

  noticed-fails : (r : Exit (Unit {0})) → stops_well (noticed out client r) ≡ true → ⊥
  noticed-fails (returned u) h = cc
  noticed-fails (raised e) h = cc

  notice-Well :
      (elapsed : ℤ) (r : Round (Exit (Option Json))) (s : S out client)
      → stops_well (notice out client pending id elapsed r s).0 ≡ true
      → stops_well r ≡ true
  notice-Well elapsed (stop r) s h = h
  notice-Well elapsed again s h = absurd (noticed-fails (pending elapsed s).0 h)

  by_body-Well :
      (elapsed : ℤ) (body : Exit Json) (s : S out client)
      → stops_well (by_body out client pending id elapsed body s).0 ≡ true
      → (b : Json) × (body ≡ returned b) × SaysExecuted b
  by_body-Well elapsed (returned b) s h =
      (b, refl, by_status-Well id b (notice-Well elapsed (by_status id b) s h))
  by_body-Well elapsed (raised e) s h = cc

  refused_with-raises :
      (status : ℕ) (text : Exit Text)
      → gives (refused_with out client {A = Option Json} status text) ≡ false
  refused_with-raises status (returned text) = refl
  refused_with-raises status (raised e) = refl

  by_response-Well :
      (elapsed : ℤ) (res : Response W) (s : S out client)
      → stops_well (by_response out client pending id elapsed res s).0 ≡ true
      → Well (returned res) s
  by_response-Well elapsed res s = elim (Bool-cases (is_ok res.status)) [
    | inl e ↦ rw e (λ h.
        let (body, read, says) =
          by_body-Well elapsed (response_json out res s).0 (response_json out res s).1 h in
        (res, body, refl, e, read, says))
    | inr e ↦
        rw e (λ h. let raises = refused_with-raises res.status (response_text out res s).0 in cc)
  ]

  by_fetch-Well :
      (elapsed : ℤ) (answer : Exit (Response W)) (s : S out client)
      → stops_well (by_fetch out client pending id elapsed answer s).0 ≡ true
      → Well answer s
  by_fetch-Well elapsed (returned res) s h = by_response-Well elapsed res s h
  by_fetch-Well elapsed (raised e) s h = cc

  poll_approval-Well :
      (started : ℕ) (s : S out client)
      → stops_well (poll_approval out client pending id started s).0 ≡ true
      → SaidExecuted
  unfolding poll_approval
  poll_approval-Well started s h =
      let s' = (read_clock out client (pause out client s)).1 in
      (s', by_fetch-Well _ (poll_from s').0 (poll_from s').1 h)

  abbrev gave : Option (Exit (Option Json)) → Bool
  gave none = false
  gave (some r) = gives r

  concluded-Well :
      (budget fuel started : ℕ) (s : S out client) (waited : Waited (Exit (Option Json)))
      → (while_before
          (read_clock out client)
          (started + budget)
          (poll_approval out client pending id started)
          fuel
          s).0
        ≡ waited
      → gave (concluded (raised (approval_timeout id budget)) waited) ≡ true
      → SaidExecuted
  concluded-Well budget fuel started s (answered r) e h =
      let (s', stopped) =
        while_before-answered (read_clock out client) (started + budget)
          (poll_approval out client pending id started) fuel s r e in
      poll_approval-Well started s' (ap stops_well stopped ∙ h)
  concluded-Well budget fuel started s timed_out e h = cc
  concluded-Well budget fuel started s out_of_fuel e h = cc

  -- Waiting for an approval returns a value only where some poll of the approval's status was
  -- answered with a success whose body says that the action is approved and executed.
  pub wait_for_approval-returned :
      (budget fuel : ℕ) (s : S out client)
      → gave (wait_for_approval out client pending id budget fuel s).0 ≡ true
      → SaidExecuted
  unfolding wait_for_approval
  wait_for_approval-returned budget fuel s h =
      concluded-Well budget fuel (read_clock out client s).0 (read_clock out client s).1 _ refl h
