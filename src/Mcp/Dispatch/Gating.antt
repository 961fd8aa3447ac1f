-- ===== src/Mcp/Dispatch/Gating.antt =====
-- What a tool call does while the server has no key.
use agent_valet.Common.{
  ℕ, Bool, true, false, ◌&&◌, Option, none, some, Text, truthy, Bool-cases, ◌≡◌, refl, sym, subst,
  ap, ◌⊎◌, inl, inr,
}
use agent_valet.Common.Effects.{Try, ok, Stateful}
use agent_valet.Mcp.Net.{ToolResult, Outside, error_content}
use agent_valet.Mcp.Auth.{
  ServerContext, require_credentials, credentials_not_configured, pending_first_call,
  notify_bind_secret, without_key, gate_by_key,
}
use agent_valet.Mcp.Handlers.{
  gated, unless_gated, handle_list_platforms, handle_authzen_evaluate,
  handle_list_my_pending_actions, handle_report_self_diagnostic,
}
use agent_valet.Mcp.UsePlatform.{handle_use_platform, routed}
use agent_valet.Mcp.Access.{handle_request_platform_access, asked}
use agent_valet.Mcp.Dispatch.Cases.{Branches, call_tool-cases}
use agent_valet.Mcp.Dispatch.{ToolCall, call_tool, is_open, finished}

module _ {W K B : Type 0} (out : Outside W K B) (ctx : ServerContext K) where
  abbrev has_identity : Bool
  has_identity = truthy ctx.agent_id && truthy ctx.owner_id

  -- An error at once, or the reminder of a bind whose key is still to come.
  abbrev pub IsRefusal : W → Option (Try ToolResult) × W → Type 0
  IsRefusal w reply =
      ((message : Text) × (reply ≡ (some (ok (error_content message)), w)))
      ⊎ ((has_identity ≡ true)
          × (reply ≡ (some (ok (pending_first_call out ctx)), notify_bind_secret out ctx w)))

  module _ {R : Type 0} (finish : ToolResult → R) (embed : R → Option (Try ToolResult))
      (embed-finish : (r : ToolResult) → embed (finish r) ≡ some (ok r)) (next : Stateful W R)
      (w : W) where
    abbrev embedded : R × W → Option (Try ToolResult) × W
    embedded reply = (embed reply.0, reply.1)

    abbrev after_gate : Option ToolResult × W → Option (Try ToolResult) × W
    after_gate gate = embedded (unless_gated out ctx finish next gate.0 gate.1)

    without_key-Refusal : IsRefusal w (after_gate (without_key out ctx w))
    unfolding credentials_not_configured
    without_key-Refusal = elim (Bool-cases has_identity) [
      | inl h ↦ rw h (inr (refl, ap (λ r. (r, notify_bind_secret out ctx w)) (embed-finish _)))
      | inr h ↦ rw h (inl (_, ap (λ r. (r, w)) (embed-finish _)))
    ]

    gated-Refusal :
        ctx.agent_private_key_raw ≡ none → IsRefusal w (embedded (gated out ctx finish next w))
    unfolding require_credentials
    gated-Refusal keyless =
        subst (λ gate. IsRefusal w (after_gate gate))
          (ap (λ key. gate_by_key out ctx key w) (sym keyless)) without_key-Refusal

  module _ (keyless : ctx.agent_private_key_raw ≡ none) (fuel : ℕ) (w : W) where
    handled :
        (next : Stateful W (Try ToolResult))
        → IsRefusal w (finished out ctx fuel (gated out ctx ok next) w)
    handled next = gated-Refusal ok some (λ r. refl) next w keyless

    waited :
        (next : Stateful W (Option (Try ToolResult)))
        → IsRefusal w (gated out ctx (λ r. some (ok r)) next w)
    waited next = gated-Refusal (λ r. some (ok r)) (λ r. r) (λ r. refl) next w keyless

    branches :
        (call : ToolCall)
        → is_open call.name ≡ false
        → Branches out ctx fuel (λ reply. IsRefusal w (reply w)) call
    unfolding handle_list_platforms handle_list_my_pending_actions handle_use_platform
        handle_authzen_evaluate handle_report_self_diagnostic handle_request_platform_access
    branches call closed = record {
      refuses = λ message. inl (message, refl);
      lists = handled _;
      uses = λ params e. waited (routed out ctx params call.progress_token fuel);
      registers = λ h. cc;
      reads_status = λ h. cc;
      evaluates = λ platform_id scope. handled _;
      lists_pending = handled _;
      diagnoses = λ args. handled _;
      asks = λ args. waited (asked out ctx fuel args);
    }

    -- Without a key, a call of any tool but `agent_register` and `agent_status` ends at once, in an
    -- error that leaves the world alone, or, where the server has an agent and an owner, possibly
    -- in the answer that the owner's confirmation is pending, after the one request that reports
    -- the bind.
    pub call_tool-keyless :
        (call : ToolCall) → is_open call.name ≡ false → IsRefusal w (call_tool out ctx fuel call w)
    call_tool-keyless call closed =
        call_tool-cases out ctx fuel (λ reply. IsRefusal w (reply w)) call (branches call closed)
