-- ===== src/Mcp/Dispatch/Blind.antt =====
-- What a tool call does with the observe credential: nothing, where it does not go to the observe
-- relay.
use agent_valet.Common.{
  ℕ, Bool, false, Bool-cases, inl, inr, ◌&&◌, Option, none, some, Option-cases, [], codes, ◌===◌,
  ===_iff, includes, is_some, truthy, ◌≡◌, refl, ap, sym, ◌∙◌,
}
use agent_valet.Common.Json.{Json}
use agent_valet.Common.Loop.{while_before}
use agent_valet.Mcp.Net.{Outside}
use agent_valet.Mcp.Auth.{
  ServerContext, pending_first_call, sign_jwt, require_credentials, fetch_with_auth,
}
use agent_valet.Mcp.Handlers.{
  handle_list_platforms, handle_agent_register, handle_agent_status, handle_authzen_evaluate,
  handle_list_my_pending_actions, handle_report_self_diagnostic,
}
use agent_valet.Mcp.UsePlatform.{PlatformCall, observes, handle_use_platform}
use agent_valet.Mcp.Waiting.{wait_for_approval, poll_approval}
use agent_valet.Mcp.Access.{handle_request_platform_access, wait_for_access, poll_access}
use agent_valet.Mcp.Dispatch.{
  ToolCall, call_tool, by_platform_call, platform_call_of, allowed_methods,
}

-- The same server, without an observe credential.
abbrev pub without_credential : {K : Type 0} → ServerContext K → ServerContext K
without_credential ctx = record ctx { observe_credential = [] }

module _ {W K B : Type 0} (out : Outside W K B) (ctx : ServerContext K) where
  abbrev pub is_observed : Option PlatformCall → Bool
  is_observed none = false
  is_observed (some params) = observes out ctx params.platform

  -- The call uses a platform that the observe mode is for, on a server that has a key.
  abbrev pub is_relayed : ToolCall → Bool
  is_relayed call =
      call.name === codes "use_platform"
      && is_some ctx.agent_private_key_raw
      && is_observed (platform_call_of call.args)

  module _ (fuel : ℕ) where
    pub call_tool-uses :
        (call : ToolCall)
        → call.name ≡ codes "use_platform"
        → call_tool out ctx fuel call
          ≡ by_platform_call out ctx fuel call.progress_token (platform_call_of call.args)
    unfolding call_tool ◌===◌
    call_tool-uses call e = rw e refl

    handle_use_platform-blind :
        (params : PlatformCall) (token : Option Json) (w : W)
        → (is_some ctx.agent_private_key_raw && observes out ctx params.platform) ≡ false
        → handle_use_platform out ctx params token fuel w
          ≡ handle_use_platform out (without_credential ctx) params token fuel w
    unfolding handle_use_platform require_credentials fetch_with_auth sign_jwt wait_for_approval
        while_before poll_approval pending_first_call
    handle_use_platform-blind params token w h = elim (Option-cases ctx.agent_private_key_raw) [
      | inl keyless ↦ elim (Bool-cases (truthy ctx.agent_id && truthy ctx.owner_id)) [
        | inl named ↦ rw (keyless, named) refl
        | inr unnamed ↦ rw (keyless, unnamed) refl
      ]
      | inr (pem, keyed) ↦
          let governs : observes out ctx params.platform ≡ false = rw keyed at h in
          rw (keyed, governs) refl
    ]

    platform_call-blind :
        (token : Option Json) (params : Option PlatformCall) (w : W)
        → (is_some ctx.agent_private_key_raw && is_observed params) ≡ false
        → by_platform_call out ctx fuel token params w
          ≡ by_platform_call out (without_credential ctx) fuel token params w
    platform_call-blind token none w h = refl
    platform_call-blind token (some params) w h =
        elim (Bool-cases (includes allowed_methods params.method)) [
          | inl known ↦ rw known (handle_use_platform-blind params token w h)
          | inr unknown ↦ rw unknown refl
        ]

    other-blind :
        (call : ToolCall) (w : W)
        → (call.name === codes "use_platform") ≡ false
        → call_tool out ctx fuel call w ≡ call_tool out (without_credential ctx) fuel call w
    unfolding call_tool require_credentials fetch_with_auth sign_jwt while_before pending_first_call
        handle_list_platforms handle_agent_register handle_agent_status handle_authzen_evaluate
        handle_list_my_pending_actions handle_report_self_diagnostic handle_request_platform_access
        wait_for_access poll_access
    other-blind call w h = rw h refl

module _ {W K B : Type 0} (out : Outside W K B) (ctx : ServerContext K) (fuel : ℕ) where
  -- A call that is not relayed does not see the observe credential: its reply and all that it does
  -- are those of a server without one.
  pub call_tool-blind :
      (call : ToolCall) (w : W)
      → is_relayed out ctx call ≡ false
      → call_tool out ctx fuel call w ≡ call_tool out (without_credential ctx) fuel call w
  call_tool-blind call w h = elim (Bool-cases (call.name === codes "use_platform")) [
    | inr other ↦ other-blind out ctx fuel call w other
    | inl uses ↦
        let named = (===_iff _ _).0 uses in
        ap (λ r. r w) (call_tool-uses out ctx fuel call named)
        ∙ platform_call-blind out ctx fuel call.progress_token (platform_call_of call.args) w
            (rw uses at h)
        ∙ ap (λ r. r w) (sym (call_tool-uses out (without_credential ctx) fuel call named))
  ]
