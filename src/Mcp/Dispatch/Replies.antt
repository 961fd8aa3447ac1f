-- ===== src/Mcp/Dispatch/Replies.antt =====
-- Every tool call gets its reply.
use agent_valet.Common.{
  ℕ, suc, ◌≤◌, true, Option, none, some, Text, codes, ◌==◌, not, ◌&&◌, truthy, is_some, ◌≡◌, refl,
  Bool-cases, inl, inr,
}
use agent_valet.Common.Js.{is_ok}
use agent_valet.Common.Effects.{Try, ok, threw, Stateful}
use agent_valet.Common.Json.{Json, Fields, get, as_string, is_null, is_truthy}
use agent_valet.Mcp.Net.{ToolResult, Response, Outside, read_json}
use agent_valet.Mcp.Auth.{ServerContext, fetch_with_auth, require_credentials}
use agent_valet.Mcp.Handlers.{gated, unless_gated}
use agent_valet.Mcp.Waiting
use agent_valet.Mcp.Waiting.Ends.{Clocked, wait_for_approval_some, wait_for_access_some}
use agent_valet.Mcp.UsePlatform
use agent_valet.Mcp.UsePlatform.{PlatformCall, handle_use_platform}
use agent_valet.Mcp.Access
use agent_valet.Mcp.Access.{handle_request_platform_access}
use agent_valet.Mcp.Dispatch.{ToolCall, call_tool}
use agent_valet.Mcp.Dispatch.Cases.{call_tool-cases}

module _ {W K B : Type 0} (out : Outside W K B) (ctx : ServerContext K) (time : W → ℕ)
    (clocked : Clocked out time) (fuel : ℕ) (enough : 50000 ≤ fuel) where
  abbrev Replies : Stateful W (Option (Try ToolResult)) → Type 0
  Replies reply = (w : W) → is_some (reply w).0 ≡ true

  gated-Replies :
      (next : Stateful W (Option (Try ToolResult)))
      → Replies next
      → Replies (gated out ctx (λ r. some (ok r)) next)
  gated-Replies next h w = by_gate (require_credentials out ctx w).0
    where
      by_gate :
          (gate : Option ToolResult)
          → is_some
              (unless_gated out ctx
                (λ r. some (ok r))
                next
                gate
                (require_credentials out ctx w).1).0
            ≡ true
      by_gate (some refusal) = refl
      by_gate none = h _

  module _ (params : PlatformCall) (token : Option Json) where
    by_body-Replies :
        (status : ℕ) (body : Try Text)
        → Replies (UsePlatform.by_body out ctx params token (suc fuel) status body)
    by_body-Replies status (threw m) w = refl
    by_body-Replies status (ok body) w = elim (Bool-cases (status == 202)) [
      | inl e ↦ rw e (waits _)
      | inr e ↦ rw e refl
    ]
      where
        waits :
            (id : Option Json)
            → is_some
                (UsePlatform.or_wait out ctx params token
                  (suc fuel)
                  (UsePlatform.final out ctx status body)
                  id
                  w).0
              ≡ true
        waits none = refl
        waits (some id) =
            wait_for_approval_some out ctx time clocked
              (UsePlatform.awaited out ctx params token (suc fuel) id) fuel w enough

    by_fetch-Replies :
        (res : Try (Response B))
        → Replies (UsePlatform.by_fetch out ctx params token (suc fuel) res)
    by_fetch-Replies (threw m) w = refl
    by_fetch-Replies (ok res) w = by_body-Replies res.status (out.read_text res.body w).0 _

    routed-Replies : Replies (UsePlatform.routed out ctx params token (suc fuel))
    routed-Replies w = elim (Bool-cases (UsePlatform.observes out ctx params.platform)) [
      | inl e ↦ rw e refl
      | inr e ↦ rw e (
          by_fetch-Replies (fetch_with_auth out ctx (UsePlatform.action_request out ctx params) w).0
            _)
    ]

  by_token-Replies : (token : Option Json) → Replies (Access.by_token out ctx (suc fuel) token)
  by_token-Replies none w = refl
  by_token-Replies (some token) w = elim (Bool-cases (is_truthy (some token))) [
    | inl e ↦
        rw e (wait_for_access_some out ctx time clocked (Waiting.text_of out token) fuel w enough)
    | inr e ↦ rw e refl
  ]

  by_submitted-Replies : (body : Try Json) → Replies (Access.by_submitted out ctx (suc fuel) body)
  by_submitted-Replies (threw m) w = refl
  by_submitted-Replies (ok body) w = elim (Bool-cases (is_null body)) [
    | inl e ↦ rw e refl
    | inr e ↦ rw e (by_token-Replies _ w)
  ]

  by_submit-Replies : (res : Try (Response B)) → Replies (Access.by_submit out ctx (suc fuel) res)
  by_submit-Replies (threw m) w = refl
  by_submit-Replies (ok res) w =
      elim (Bool-cases
        (not (is_ok res.status) && not (res.status == 202) && not (res.status == 200))) [
          | inl e ↦ rw e refl
          | inr e ↦ rw e (by_submitted-Replies (read_json out res.body w).0 _)
        ]

  asked-Replies : (args : Fields) → Replies (Access.asked out ctx (suc fuel) args)
  asked-Replies args w =
      let platform =
        Access.string_or_empty out ctx (suc fuel) (as_string (get (codes "platform") args)) in
      elim (Bool-cases (truthy platform)) [
        | inl e ↦ rw e (
            by_submit-Replies
              (fetch_with_auth out ctx (Access.submit_request out ctx (suc fuel) platform args) w).0
              _)
        | inr e ↦ rw e refl
      ]

  -- Where no call sets the clock back and the pause of the polls takes at least a millisecond,
  -- every tool call gets a reply, a result or a thrown error: fuel for one round of polling per
  -- millisecond of the 50 seconds, and one more, is enough.
  pub call_tool-ends :
      (call : ToolCall) (w : W) → is_some (call_tool out ctx (suc fuel) call w).0 ≡ true
  unfolding handle_use_platform handle_request_platform_access
  call_tool-ends call = call_tool-cases out ctx (suc fuel) Replies call (record {
    refuses = λ message w. refl;
    lists = λ w. refl;
    uses = λ params e. gated-Replies _ (routed-Replies params call.progress_token);
    registers = λ h args w. refl;
    reads_status = λ h token w. refl;
    evaluates = λ platform_id scope w. refl;
    lists_pending = λ w. refl;
    diagnoses = λ args w. refl;
    asks = λ args. gated-Replies _ (asked-Replies args);
  })
