-- ===== src/Mcp/Dispatch/Cases.antt =====
-- A property of every reply follows from the branches of the dispatch.
use agent_valet.Common.{
  ℕ, Bool, true, false, Option, none, some, Text, codes, ◌===◌, ◌≡◌, refl, includes, arith,
  if◌then◌else◌,
}
use agent_valet.Common.Json.{Fields}
use agent_valet.Mcp.Net.{Outside}
use agent_valet.Mcp.Auth.{ServerContext}
use agent_valet.Mcp.Handlers.{
  handle_list_platforms, handle_agent_register, handle_agent_status, handle_authzen_evaluate,
  handle_list_my_pending_actions, handle_report_self_diagnostic,
}
use agent_valet.Mcp.UsePlatform.{PlatformCall, handle_use_platform}
use agent_valet.Mcp.Access.{handle_request_platform_access}
use agent_valet.Mcp.Dispatch.{
  ToolCall, call_tool, is_open, Reply, finished, by_platform_call, platform_call_of, text_arg,
  by_platform_and_scope, with_arguments, refused, allowed_methods, by_token,
}

by_test {ℓ} :
    {A : Type ℓ} (P : A → Type 0) (test : Bool) {x y : A}
    → (test ≡ true → P x)
    → (test ≡ false → P y)
    → P (if test then x else y)
by_test P true h k = h refl
by_test P false h k = k refl

module _ {W K B : Type 0} (out : Outside W K B) (ctx : ServerContext K) (fuel : ℕ)
    (P : Reply out ctx fuel → Type 0) where
  -- What each branch has to keep; the handlers that need no key only where the tool is open.
  pub record Branches (call : ToolCall) : Type 0 where
    pub refuses : (message : Text) → P (refused out ctx fuel message)
    pub lists : P (finished out ctx fuel (handle_list_platforms out ctx))
    pub uses :
        (params : PlatformCall)
        → platform_call_of call.args ≡ some params
        → P (handle_use_platform out ctx params call.progress_token fuel)
    pub registers :
        is_open call.name ≡ true
        → (args : Fields) → P (finished out ctx fuel (handle_agent_register out ctx args))
    pub reads_status :
        is_open call.name ≡ true
        → (token : Text) → P (finished out ctx fuel (handle_agent_status out ctx token))
    pub evaluates :
        (platform_id scope : Text)
        → P (finished out ctx fuel (handle_authzen_evaluate out ctx platform_id scope))
    pub lists_pending : P (finished out ctx fuel (handle_list_my_pending_actions out ctx))
    pub diagnoses :
        (args : Fields) → P (finished out ctx fuel (handle_report_self_diagnostic out ctx args))
    pub asks : (args : Fields) → P (handle_request_platform_access out ctx fuel args)

  module _ (call : ToolCall) (branches : Branches call) where
    platform-cases :
        (params : Option PlatformCall)
        → platform_call_of call.args ≡ params
        → P (by_platform_call out ctx fuel call.progress_token params)
    platform-cases none e = branches.refuses _
    platform-cases (some params) e =
        by_test P (includes allowed_methods params.method) (λ h. branches.uses params e)
          (λ h. branches.refuses _)

    evaluate-cases :
        (platform_id scope : Option Text) → P (by_platform_and_scope out ctx fuel platform_id scope)
    evaluate-cases (some platform_id) (some scope) = branches.evaluates platform_id scope
    evaluate-cases (some platform_id) none = branches.refuses _
    evaluate-cases none scope = branches.refuses _

    arguments-cases :
        (handle : Fields → Reply out ctx fuel) (message : Text) (good : Bool) (args : Option Fields)
        → ((given : Fields) → P (handle given))
        → P (with_arguments out ctx fuel handle message good args)
    arguments-cases handle message good none h = branches.refuses _
    arguments-cases handle message good (some args) h =
        by_test P good (λ e. h args) (λ e. branches.refuses _)

    token-cases : is_open call.name ≡ true → (token : Option Text) → P (by_token out ctx fuel token)
    token-cases opened none = branches.refuses _
    token-cases opened (some token) = branches.reads_status opened token

    pub call_tool-cases : P (call_tool out ctx fuel call)
    unfolding call_tool
    call_tool-cases =
        by_test P (call.name === codes "list_platforms") (λ h. branches.lists)
          (λ a.
            by_test P (call.name === codes "use_platform")
              (λ h. platform-cases (platform_call_of call.args) refl)
              (λ b.
                by_test P (call.name === codes "agent_register")
                  (λ h. arguments-cases _ _ _ call.args (branches.registers (ground (arith, h))))
                  (λ c.
                    by_test P (call.name === codes "agent_status")
                      (λ h. token-cases (ground (arith, h)) (text_arg (codes "token") call.args))
                      (λ d.
                        by_test P (call.name === codes "authzen_evaluate")
                          (λ h.
                            evaluate-cases (text_arg (codes "platform_id") call.args)
                              (text_arg (codes "scope") call.args))
                          (λ e.
                            by_test P (call.name === codes "list_my_pending_actions")
                              (λ h. branches.lists_pending)
                              (λ f.
                                by_test P (call.name === codes "report_self_diagnostic")
                                  (λ h. arguments-cases _ _ _ call.args branches.diagnoses)
                                  (λ g.
                                    by_test P (call.name === codes "request_platform_access")
                                      (λ h. arguments-cases _ _ _ call.args branches.asks)
                                      (λ i. branches.refuses _))))))))
