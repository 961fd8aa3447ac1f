-- ===== src/Mcp/Keeps/Handling.antt =====
-- The handlers of packages/mcp-server/src/tools/handlers.ts keep what every call outside keeps, by
-- the requests that each may send.
use agent_valet.Common.{
  ℕ, true, Option, none, some, Text, codes, ◌==◌, not, ◌&&◌, truthy, Bool-cases, inl, inr, ◌≡◌,
}
use agent_valet.Common.Js.{is_ok}
use agent_valet.Common.Effects.{Try, ok, threw, Stateful}
use agent_valet.Common.Json.{Json, Fields, is_null, is_truthy, get, as_string}
use agent_valet.Common.Uri.{encode_uri_component}
use agent_valet.Mcp.Net.{ToolResult, Request, Response, Outside, read_json}
use agent_valet.Mcp.Auth.{ServerContext, signed, fetch_with_auth, bind_secret}
use agent_valet.Mcp.Handlers.{
  request, plain, gated, caught, relayed, listed, fetch_status, handle_list_platforms,
  handle_agent_status, handle_authzen_evaluate, handle_list_my_pending_actions,
  handle_report_self_diagnostic, network_error,
}
use agent_valet.Mcp.Waiting
use agent_valet.Mcp.Waiting.{Awaited}
use agent_valet.Mcp.UsePlatform.{
  PlatformCall, observes, observe_request, action_request, governed, routed, by_fetch, by_body,
  or_wait, awaited, final, handle_use_platform,
}
use agent_valet.Mcp.Access
use agent_valet.Mcp.Keeps.{
  Keeping, Keeps, >>=-Keeps, read_json-Keeps, fetch_with_auth-Keeps, caught-Keeps, relayed-Keeps,
  gated-Keeps,
}
use agent_valet.Mcp.Keeps.Waiting.{wait_for_approval-Keeps, wait_for_access-Keeps}

module _ {W K B : Type 0} (out : Outside W K B) (ctx : ServerContext K) (Allowed : Request → Type 0)
    (Kept : W → Type 0) (keeping : Keeping out Allowed Kept) where
  abbrev pub Lasts : {A : Type 0} → Stateful W A → Type 0
  Lasts step = Keeps out Allowed Kept keeping step

  -- a request of this method below the proxy's address, whatever its body is
  abbrev AllowedSigned : Request → Type 0
  AllowedSigned init = (token : Text) → Allowed (signed out ctx init token)

  fetched-Keeps : (init : Request) → AllowedSigned init → Lasts (fetch_with_auth out ctx init)
  fetched-Keeps = fetch_with_auth-Keeps out Allowed Kept keeping ctx

  abbrev relaying : Request → Stateful W (Try ToolResult)
  relaying init = caught out ctx network_error (fetch_with_auth out ctx init) (relayed out ctx)

  pub relaying-Keeps : (init : Request) → AllowedSigned init → Lasts (relaying init)
  relaying-Keeps init allowed =
      caught-Keeps out Allowed Kept keeping ctx network_error (fetch_with_auth out ctx init)
        (relayed out ctx) (fetched-Keeps init allowed) (relayed-Keeps out Allowed Kept keeping ctx)

  pub relaying_plain-Keeps :
      (init : Request)
      → Allowed (plain out ctx init)
      → Lasts
          (caught out ctx network_error (out.fetch (plain out ctx init) 15000) (relayed out ctx))
  relaying_plain-Keeps init allowed =
      caught-Keeps out Allowed Kept keeping ctx network_error (out.fetch (plain out ctx init) 15000)
        (relayed out ctx) (λ w k. keeping.fetches _ 15000 w allowed k)
        (relayed-Keeps out Allowed Kept keeping ctx)

  pub handle_agent_status-Keeps :
      (token : Text)
      → ((path : Text) → Allowed (plain out ctx (request out ctx (codes "GET") path none)))
      → Lasts (handle_agent_status out ctx token)
  unfolding handle_agent_status
  handle_agent_status-Keeps token allowed =
      caught-Keeps out Allowed Kept keeping ctx network_error
        (fetch_status out ctx (encode_uri_component token)) (relayed out ctx)
        (fetched (encode_uri_component token)) (relayed-Keeps out Allowed Kept keeping ctx)
    where
      fetched : (token : Option Text) → Lasts (fetch_status out ctx token)
      fetched (some path) w k = keeping.fetches _ 15000 w (allowed _) k
      fetched none w k = k

  module _ (binds : Allowed (bind_secret out ctx))
      (gets : (path : Text) → AllowedSigned (request out ctx (codes "GET") path none))
      (posts : (path : Text) (body : Option Json)
        → AllowedSigned (request out ctx (codes "POST") path body)) where
    gate-Keeps :
        {R : Type 0} (finish : ToolResult → R) (next : Stateful W R)
        → Lasts next
        → Lasts (gated out ctx finish next)
    gate-Keeps finish next h = gated-Keeps out Allowed Kept keeping ctx finish next binds h

    pub handle_list_platforms-Keeps : Lasts (handle_list_platforms out ctx)
    unfolding handle_list_platforms
    handle_list_platforms-Keeps = gate-Keeps ok _ (
        caught-Keeps out Allowed Kept keeping ctx _ _ (listed out ctx) (fetched-Keeps _ (gets _))
          (λ res.
            >>=-Keeps out Allowed Kept keeping (out.read_text res.body) _ (keeping.reads res.body)
              (λ text w k. k)))

    pub handle_authzen_evaluate-Keeps :
        (platform_id scope : Text) → Lasts (handle_authzen_evaluate out ctx platform_id scope)
    unfolding handle_authzen_evaluate
    handle_authzen_evaluate-Keeps platform_id scope = gate-Keeps ok _ (relaying-Keeps _ (posts _ _))

    pub handle_list_my_pending_actions-Keeps : Lasts (handle_list_my_pending_actions out ctx)
    unfolding handle_list_my_pending_actions
    handle_list_my_pending_actions-Keeps = gate-Keeps ok _ (relaying-Keeps _ (gets _))

    pub handle_report_self_diagnostic-Keeps :
        (args : Fields) → Lasts (handle_report_self_diagnostic out ctx args)
    unfolding handle_report_self_diagnostic
    handle_report_self_diagnostic-Keeps args = gate-Keeps ok _ (relaying-Keeps _ (posts _ _))

    module _ (params : PlatformCall) (token : Option Json) (fuel : ℕ) where
      or_wait-Keeps :
          (otherwise : ToolResult) (id : Option Json)
          → Lasts (or_wait out ctx params token fuel otherwise id)
      or_wait-Keeps otherwise none w k = k
      or_wait-Keeps otherwise (some id) w k =
          wait_for_approval-Keeps out Allowed Kept keeping ctx
            (awaited out ctx params token fuel id) (gets _) fuel w k

      by_body-Keeps :
          (status : ℕ) (body : Try Text) → Lasts (by_body out ctx params token fuel status body)
      by_body-Keeps status (threw m) w k = k
      by_body-Keeps status (ok body) w k = elim (Bool-cases (status == 202)) [
        | inl e ↦ rw e (or_wait-Keeps (final out ctx status body) _ w k)
        | inr e ↦ rw e k
      ]

      by_fetch-Keeps : (res : Try (Response B)) → Lasts (by_fetch out ctx params token fuel res)
      by_fetch-Keeps (threw m) w k = k
      by_fetch-Keeps (ok res) w k =
          by_body-Keeps res.status (out.read_text res.body w).0 (out.read_text res.body w).1
            (keeping.reads res.body w k)

      governed-Keeps : Lasts (governed out ctx params token fuel)
      governed-Keeps w k =
          by_fetch-Keeps (fetch_with_auth out ctx (action_request out ctx params) w).0 _
            (fetched-Keeps (action_request out ctx params) (posts _ _) w k)

      pub handle_use_platform-Keeps :
          (observes out ctx params.platform ≡ true → AllowedSigned (observe_request out ctx params))
          → Lasts (handle_use_platform out ctx params token fuel)
      unfolding handle_use_platform
      handle_use_platform-Keeps allowed =
          gate-Keeps (λ r. some (ok r)) (routed out ctx params token fuel) routes
        where
          routes : Lasts (routed out ctx params token fuel)
          routes w k = elim (Bool-cases (observes out ctx params.platform)) [
            | inl e ↦ rw e (relaying-Keeps (observe_request out ctx params) (allowed e) w k)
            | inr e ↦ rw e (governed-Keeps w k)
          ]

    module _ (fuel : ℕ) where
      by_token-Keeps : (token : Option Json) → Lasts (Access.by_token out ctx fuel token)
      by_token-Keeps none w k = k
      by_token-Keeps (some token) w k = elim (Bool-cases (is_truthy (some token))) [
        | inl e ↦ rw e (
            wait_for_access-Keeps out Allowed Kept keeping ctx (λ path. gets _)
              (Waiting.text_of out token) fuel w k)
        | inr e ↦ rw e k
      ]

      by_submitted-Keeps : (body : Try Json) → Lasts (Access.by_submitted out ctx fuel body)
      by_submitted-Keeps (threw m) w k = k
      by_submitted-Keeps (ok body) w k = elim (Bool-cases (is_null body)) [
        | inl e ↦ rw e k
        | inr e ↦ rw e (by_token-Keeps _ w k)
      ]

      by_submit-Keeps : (res : Try (Response B)) → Lasts (Access.by_submit out ctx fuel res)
      by_submit-Keeps (threw m) w k = k
      by_submit-Keeps (ok res) w k =
          elim (Bool-cases
            (not (is_ok res.status) && not (res.status == 202) && not (res.status == 200))) [
              | inl e ↦ rw e (keeping.reads res.body w k)
              | inr e ↦ rw e (
                  by_submitted-Keeps (read_json out res.body w).0 _
                    (read_json-Keeps out Allowed Kept keeping res.body w k))
            ]

      asked-Keeps : (args : Fields) → Lasts (Access.asked out ctx fuel args)
      asked-Keeps args w k =
          let platform =
            Access.string_or_empty out ctx fuel (as_string (get (codes "platform") args)) in
          elim (Bool-cases (truthy platform)) [
            | inl e ↦ rw e (
                by_submit-Keeps
                  (fetch_with_auth out ctx (Access.submit_request out ctx fuel platform args) w).0 _
                  (fetched-Keeps (Access.submit_request out ctx fuel platform args) (posts _ _) w
                    k))
            | inr e ↦ rw e k
          ]

      pub handle_request_platform_access-Keeps :
          (args : Fields) → Lasts (Access.handle_request_platform_access out ctx fuel args)
      unfolding Access.handle_request_platform_access
      handle_request_platform_access-Keeps args =
          gate-Keeps (λ r. some (ok r)) (Access.asked out ctx fuel args) (asked-Keeps args)
