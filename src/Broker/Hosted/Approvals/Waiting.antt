-- ===== src/Broker/Hosted/Approvals/Waiting.antt =====
-- How the poll of packages/mcp-broker/src/hosted/approval-provider.ts ends, and what grants it.
use agent_valet.Common.{
  ℕ, ◌+◌, suc, ◌≤◌, Bool, true, false, Option, none, some, [], ◌∷◌, Text, codes, ◌===◌, ===_iff,
  is_some, ◌≡◌, refl, ap, ◌∙◌, inl, inr, Bool-cases, arith,
}
use agent_valet.Common.Effects.{Try, ok, threw}
use agent_valet.Common.Json.{
  Json, null, object, boolean, number, string, array, property, as_string,
}
use agent_valet.Common.Loop.{
  Round, stop, again, Waited, answered, timed_out, out_of_fuel, while_before, while_before-ends,
  Ticks, while_before-answered, is_ended,
}
use agent_valet.Common.Uri.{encode_uri_component}
use agent_valet.Broker.Hosted.{request}
use agent_valet.Broker.Hosted.Approvals.{
  Provider, wait_for, poll_once, request_approval, conclude, poll_path, poll_created, after_create,
  by_status, by_answer, status_path, approval_body, broker_approvals,
}
use agent_valet.Broker.Types.{AccessRequest, Decision, ApprovalResult}

module _ {W : Type 0} (p : Provider W) where
  conclude-ended :
      (r : Waited (Try ApprovalResult)) → is_ended r ≡ true → is_some (conclude p r) ≡ true
  conclude-ended (answered r) h = refl
  conclude-ended timed_out h = refl
  conclude-ended out_of_fuel h = cc

  module _ (time : W → ℕ) (ticks : (path : Text) → Ticks p.now (poll_once p path) time) where
    wait_for-ends :
        (fuel : ℕ) (path : Text) (w : W)
        → p.timeout_ms ≤ fuel
        → is_some (wait_for p (suc fuel) path w).0 ≡ true
    unfolding wait_for
    wait_for-ends fuel path w h =
        let tick = ticks path in
        conclude-ended _ (
          while_before-ends p.now ((p.now w).0 + p.timeout_ms) (poll_once p path) time tick fuel
            (p.now w).1 (omega (arith, h, tick.reads w, tick.keeps w)))

    poll_path-ends :
        (fuel : ℕ) (path : Option Text) (w : W)
        → p.timeout_ms ≤ fuel
        → is_some (poll_path p (suc fuel) path w).0 ≡ true
    poll_path-ends fuel none w h = refl
    poll_path-ends fuel (some path) w h = wait_for-ends fuel path w h

    poll_created-ends :
        (fuel : ℕ) (id : Option Text) (w : W)
        → p.timeout_ms ≤ fuel
        → is_some (poll_created p (suc fuel) id w).0 ≡ true
    poll_created-ends fuel none w h = refl
    poll_created-ends fuel (some []) w h = refl
    poll_created-ends fuel (some (c ∷ cs)) w h =
        poll_path-ends fuel (status_path (encode_uri_component (c ∷ cs))) w h

    after_create-ends :
        (fuel : ℕ) (created : Try Json) (w : W)
        → p.timeout_ms ≤ fuel
        → is_some (after_create p (suc fuel) created w).0 ≡ true
    after_create-ends fuel (threw message) w h = refl
    after_create-ends fuel (ok created) w h = poll_created-ends fuel _ w h

    -- Where the clock does not go back and a round of polling takes at least a millisecond, an
    -- approval request ends: rounds for every millisecond of the time-out, and one more, are enough.
    pub request_approval-ends :
        (fuel : ℕ) (req : AccessRequest) (decision : Decision) (w : W)
        → p.timeout_ms ≤ fuel
        → is_some (request_approval p (suc fuel) req decision w).0 ≡ true
    unfolding request_approval
    request_approval-ends fuel req decision w h = after_create-ends fuel _ _ h

  -- The plane answered a poll of this status path with "approved".
  abbrev pub SaidApproved : Text → Type 0
  SaidApproved path =
      (w : W) × (status : Json) × ((request p.client (codes "GET") path none w).0 ≡ ok status)
      × (as_string (property (codes "status") status) ≡ some (codes "approved"))

  abbrev is_granted : Try ApprovalResult → Bool
  is_granted (ok r) = r.approved
  is_granted (threw message) = false

  abbrev grants : Round (Try ApprovalResult) → Bool
  grants (stop r) = is_granted r
  grants again = false

  by_status-granted :
      (status : Option Text) (w : W)
      → grants (by_status p status w).0 ≡ true
      → status ≡ some (codes "approved")
  by_status-granted none w = λ h. cc
  by_status-granted (some s) w = elim (Bool-cases (s === codes "approved")) [
    | inl e ↦ λ h. ap some ((===_iff s (codes "approved")).0 e)
    | inr e ↦ rw e (elim (Bool-cases (s === codes "denied")) [
      | inl f ↦ rw f (λ h. cc)
      | inr f ↦ rw f (elim (Bool-cases (s === codes "expired")) [
        | inl g ↦ rw g (λ h. cc)
        | inr g ↦ rw g (λ h. cc)
      ])
    ])
  ]

  by_answer-granted :
      (answer : Try Json) (w : W)
      → grants (by_answer p answer w).0 ≡ true
      → (status : Json) × (answer ≡ ok status)
        × (as_string (property (codes "status") status) ≡ some (codes "approved"))
  by_answer-granted (threw message) w h = cc
  by_answer-granted (ok null) w h = cc
  by_answer-granted (ok (object fs)) w h =
      (object fs, refl, by_status-granted (as_string (property (codes "status") (object fs))) w h)
  by_answer-granted (ok (boolean b)) w h = cc
  by_answer-granted (ok (number n)) w h = cc
  by_answer-granted (ok (string s)) w h = cc
  by_answer-granted (ok (array xs)) w h = cc

  poll_once-granted :
      (path : Text) (w : W) → grants (poll_once p path w).0 ≡ true → SaidApproved path
  unfolding poll_once
  poll_once-granted path w h =
      let (status, asked, said) =
        by_answer-granted (request p.client (codes "GET") path none w).0 _ h in
      (w, status, asked, said)

  abbrev gave : Option (Try ApprovalResult) → Bool
  gave none = false
  gave (some r) = is_granted r

  conclude-granted :
      (fuel : ℕ) (deadline : ℕ) (path : Text) (w : W) (waited : Waited (Try ApprovalResult))
      → (while_before p.now deadline (poll_once p path) fuel w).0 ≡ waited
      → gave (conclude p waited) ≡ true
      → SaidApproved path
  conclude-granted fuel deadline path w (answered r) e h =
      let (w', stopped) = while_before-answered p.now deadline (poll_once p path) fuel w r e in
      poll_once-granted path w' (ap grants stopped ∙ h)
  conclude-granted fuel deadline path w timed_out e h = cc
  conclude-granted fuel deadline path w out_of_fuel e h = cc

  wait_for-granted :
      (fuel : ℕ) (path : Text) (w : W) → gave (wait_for p fuel path w).0 ≡ true → SaidApproved path
  unfolding wait_for
  wait_for-granted fuel path w h =
      conclude-granted fuel ((p.now w).0 + p.timeout_ms) path (p.now w).1 _ refl h

  poll_path-granted :
      (fuel : ℕ) (path : Option Text) (w : W)
      → gave (poll_path p fuel path w).0 ≡ true
      → (known : Text) × (path ≡ some known) × SaidApproved known
  poll_path-granted fuel none w h = cc
  poll_path-granted fuel (some path) w h = (path, refl, wait_for-granted fuel path w h)

  -- The id of a created approval, and its status path.
  abbrev pub Polled : Option Text → Type 0
  Polled created =
      (id : Text) × (path : Text) × (created ≡ some id)
      × (status_path (encode_uri_component id) ≡ some path)
      × SaidApproved path

  poll_created-granted :
      (fuel : ℕ) (id : Option Text) (w : W) → gave (poll_created p fuel id w).0 ≡ true → Polled id
  poll_created-granted fuel none w h = cc
  poll_created-granted fuel (some []) w h = cc
  poll_created-granted fuel (some (c ∷ cs)) w h =
      let (path, known, said) =
        poll_path-granted fuel (status_path (encode_uri_component (c ∷ cs))) w h in
      (c ∷ cs, path, refl, known, said)

  -- What the plane answers to the creation of the approval.
  abbrev pub created_by : AccessRequest → Decision → W → Try Json
  created_by req decision w =
      (request p.client (codes "POST") broker_approvals (some (approval_body req decision)) w).0

  abbrev pub IsApproved : Try Json → Type 0
  IsApproved answer =
      (created : Json) × (answer ≡ ok created) × Polled (as_string (property (codes "id") created))

  after_create-granted :
      (fuel : ℕ) (answer : Try Json) (w : W)
      → gave (after_create p fuel answer w).0 ≡ true
      → IsApproved answer
  after_create-granted fuel (threw message) w h = cc
  after_create-granted fuel (ok created) w h =
      (created, refl, poll_created-granted fuel (as_string (property (codes "id") created)) w h)

  -- A request is approved only where the plane created an approval with an id, and answered
  -- "approved" to a poll of the status path of that id.
  pub request_approval-IsApproved :
      (fuel : ℕ) (req : AccessRequest) (decision : Decision) (w : W)
      → gave (request_approval p fuel req decision w).0 ≡ true
      → IsApproved (created_by req decision w)
  unfolding request_approval
  request_approval-IsApproved fuel req decision w h =
      after_create-granted fuel (created_by req decision w) _ h
