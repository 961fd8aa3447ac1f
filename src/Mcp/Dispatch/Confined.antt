-- ===== src/Mcp/Dispatch/Confined.antt =====
-- Where a tool call sends its requests, and where the observe credential goes.
use agent_valet.Common.{
  ℕ, true, false, Bool-cases, ◌&&◌, inl, inr, ◌⊎◌, Option, none, some, Option-cases, [], ◌∷◌, ◌++◌,
  Text, codes, ◌===◌, ===_iff, includes, is_some, ◌≡◌, refl, arith,
}
use agent_valet.Common.Js.{starts_with}
use agent_valet.Common.Json.{Json, object}
use agent_valet.Mcp.Net.{Request, Outside}
use agent_valet.Mcp.Auth.{ServerContext, signed, bind_secret, require_credentials, fetch_with_auth}
use agent_valet.Mcp.Handlers.{request, plain, handle_agent_register}
use agent_valet.Mcp.UsePlatform.{PlatformCall, observe_request, observes, handle_use_platform}
use agent_valet.Mcp.Keeps.{Keeping}
use agent_valet.Mcp.Keeps.Handling.{
  handle_list_platforms-Keeps, handle_authzen_evaluate-Keeps, handle_list_my_pending_actions-Keeps,
  handle_report_self_diagnostic-Keeps, handle_use_platform-Keeps, relaying_plain-Keeps,
  relaying-Keeps, handle_agent_status-Keeps, handle_request_platform_access-Keeps, Lasts,
}
use agent_valet.Mcp.Dispatch.{
  ToolCall, call_tool, by_platform_call, platform_call_of, allowed_methods,
}
use agent_valet.Mcp.Dispatch.Blind.{
  is_observed, is_relayed, without_credential, call_tool-uses, call_tool-blind,
}
use agent_valet.Mcp.Dispatch.Cases.{Branches, call_tool-cases}

starts_with-append : (s t : Text) → starts_with s (s ++ t) ≡ true
starts_with-append [] t = refl
starts_with-append (c ∷ s) t = ground (arith, starts_with-append s t)

module _ {W K B : Type 0} (out : Outside W K B) (ctx : ServerContext K) where
  abbrev pub IsBelowProxy : Request → Type 0
  IsBelowProxy sent = starts_with ctx.proxy_url sent.url ≡ true

  abbrev pub IsToRelay : Request → Type 0
  IsToRelay sent = sent.url ≡ ctx.proxy_url ++ codes "/v1/observe/actions"

  signed-below :
      (method path : Text) (body : Option Json) (token : Text)
      → IsBelowProxy (signed out ctx (request out ctx method path body) token)
  signed-below method path body token = starts_with-append ctx.proxy_url path

  plain-below :
      (method path : Text) (body : Option Json)
      → IsBelowProxy (plain out ctx (request out ctx method path body))
  plain-below method path body = starts_with-append ctx.proxy_url path

  bind_secret-below : IsBelowProxy (bind_secret out ctx)
  bind_secret-below = starts_with-append ctx.proxy_url (codes "/v1/bind-secret")

  gets :
      (path token : Text)
      → IsBelowProxy (signed out ctx (request out ctx (codes "GET") path none) token)
  gets path = signed-below (codes "GET") path none

  posts :
      (path : Text) (body : Option Json) (token : Text)
      → IsBelowProxy (signed out ctx (request out ctx (codes "POST") path body) token)
  posts path body = signed-below (codes "POST") path body

  module _ (fuel : ℕ) (Below : W → Type 0) (keeping : Keeping out IsBelowProxy Below) where
    abbrev Stays : {A : Type 0} → (W → A × W) → Type 0
    Stays reply = Lasts out ctx IsBelowProxy Below keeping reply

    branches : (call : ToolCall) → Branches out ctx fuel Stays call
    unfolding handle_agent_register
    branches call = record {
      refuses = λ message w k. k;
      lists =
          handle_list_platforms-Keeps out ctx IsBelowProxy Below keeping bind_secret-below gets
            posts;
      uses = λ params e.
          handle_use_platform-Keeps out ctx IsBelowProxy Below keeping bind_secret-below gets posts
            params call.progress_token fuel
            (λ h token. starts_with-append ctx.proxy_url (codes "/v1/observe/actions"));
      registers = λ h args.
          relaying_plain-Keeps out ctx IsBelowProxy Below keeping
            (request out ctx (codes "POST") (codes "/v1/register") (some (object args)))
            (plain-below (codes "POST") (codes "/v1/register") (some (object args)));
      reads_status = λ h token.
          handle_agent_status-Keeps out ctx IsBelowProxy Below keeping token
            (λ path. plain-below (codes "GET") path none);
      evaluates = λ platform_id scope.
          handle_authzen_evaluate-Keeps out ctx IsBelowProxy Below keeping bind_secret-below gets
            posts platform_id scope;
      lists_pending =
          handle_list_my_pending_actions-Keeps out ctx IsBelowProxy Below keeping bind_secret-below
            gets posts;
      diagnoses = λ args.
          handle_report_self_diagnostic-Keeps out ctx IsBelowProxy Below keeping bind_secret-below
            gets posts args;
      asks = λ args.
          handle_request_platform_access-Keeps out ctx IsBelowProxy Below keeping bind_secret-below
            gets posts fuel args;
    }

  module _ (fuel : ℕ) (Relayed : W → Type 0) (keeping : Keeping out IsToRelay Relayed) where
    observed-Keeps :
        (params : PlatformCall) (token : Option Json) (w : W)
        → (is_some ctx.agent_private_key_raw && observes out ctx params.platform) ≡ true
        → Relayed w
        → Relayed (handle_use_platform out ctx params token fuel w).1
    unfolding handle_use_platform require_credentials fetch_with_auth
    observed-Keeps params token w h = elim (Option-cases ctx.agent_private_key_raw) [
      | inl keyless ↦ cc (rw keyless at h)
      | inr (pem, keyed) ↦
          let observing : observes out ctx params.platform ≡ true = rw keyed at h in
          rw (keyed, observing)
            (relaying-Keeps out ctx IsToRelay Relayed keeping (observe_request out ctx params)
              (λ token. refl) w)
    ]

    platform_call-Keeps :
        (token : Option Json) (params : Option PlatformCall) (w : W)
        → (is_some ctx.agent_private_key_raw && is_observed out ctx params) ≡ true
        → Relayed w
        → Relayed (by_platform_call out ctx fuel token params w).1
    platform_call-Keeps token none w h k = k
    platform_call-Keeps token (some params) w h k =
        elim (Bool-cases (includes allowed_methods params.method)) [
          | inl known ↦ rw known (observed-Keeps params token w h k)
          | inr unknown ↦ rw unknown k
        ]

    relayed-Keeps :
        (call : ToolCall) (w : W)
        → is_relayed out ctx call ≡ true
        → Relayed w
        → Relayed (call_tool out ctx fuel call w).1
    relayed-Keeps call w h k = elim (Bool-cases (call.name === codes "use_platform")) [
      | inr other ↦ cc (rw other at h)
      | inl uses ↦
          rw (call_tool-uses out ctx fuel call ((===_iff _ _).0 uses)) (
            platform_call-Keeps call.progress_token (platform_call_of call.args) w (rw uses at h) k)
    ]

  -- The requests of a tool call, by what they can do to the world: `Below` is any property that all
  -- calls outside keep, requests below the proxy's address being the only ones known to keep it, and
  -- `Relayed` is one that requests to `/v1/observe/actions` alone are known to keep. A tool call
  -- keeps the first. A call of `use_platform`, by a server with a key, for a platform that the
  -- observe mode is for keeps the second too; every other call does not see the observe credential
  -- at all: its reply and the world after it are those of a server without one.
  pub call_tool-IsConfined :
      (Below Relayed : W → Type 0)
      → Keeping out IsBelowProxy Below
      → Keeping out IsToRelay Relayed
      → (fuel : ℕ) (call : ToolCall) (w : W) → Below w
      → Relayed w
      → Below (call_tool out ctx fuel call w).1
        × (((is_relayed out ctx call ≡ true) × Relayed (call_tool out ctx fuel call w).1)
            ⊎ ((is_relayed out ctx call ≡ false)
                × (call_tool out ctx fuel call w
                    ≡ call_tool out (without_credential ctx) fuel call w)))
  call_tool-IsConfined Below Relayed below relaying fuel call w b r = (
    call_tool-cases out ctx fuel (λ reply. Lasts out ctx IsBelowProxy Below below reply) call
        (branches fuel Below below call) w b,
    elim (Bool-cases (is_relayed out ctx call)) [
      | inl relayed ↦ inl (relayed, relayed-Keeps fuel Relayed relaying call w relayed r)
      | inr plain ↦ inr (plain, call_tool-blind out ctx fuel call w plain)
    ],
  )
