-- ===== src/Mcp/Keeps.antt =====
-- What every call outside the server keeps of the world, the server's steps keep; a request is
-- only known to be kept where it is one of those allowed.
pub mod Waiting
pub mod Handling
use agent_valet.Common.{
  ℕ, Bool, true, false, Option, none, some, Text, ◌==◌, Bool-cases, inl, inr, truthy, ◌&&◌,
  if◌then◌else◌,
}
use agent_valet.Common.Effects.{Try, ok, threw, Stateful}
use agent_valet.Common.Throwing.{Io, ◌>>=◌, on_ok}
use agent_valet.Common.Json.{Json}
use agent_valet.Mcp.Net.{ToolResult, Request, Response, Progress, Outside, read_json}
use agent_valet.Mcp.Auth.{
  ServerContext, sign_jwt, sign_with, signed, make_request, again_on_401, fetch_with_auth,
  bind_secret, require_credentials, gate_by_key,
}
use agent_valet.Mcp.Handlers.{gated, unless_gated, caught, or_return, relayed}

-- What is assumed of the calls outside: `Kept` of the world lasts.
pub record Keeping {W K B : Type 0} (out : Outside W K B) (Allowed : Request → Type 0)
    (Kept : W → Type 0) : Type 0 where
  pub signs :
      (key : K) (agent_id owner_id : Text) (w : W)
      → Kept w
      → Kept (out.sign key agent_id owner_id w).1
  pub fetches :
      (request : Request) (ms : ℕ) (w : W)
      → Allowed request
      → Kept w
      → Kept (out.fetch request ms w).1
  pub reads : (body : B) (w : W) → Kept w → Kept (out.read_text body w).1
  pub sleeps : (ms : ℕ) (w : W) → Kept w → Kept (out.sleep ms w)
  pub reads_clock : (w : W) → Kept w → Kept (out.now w).1
  pub notifies : (progress : Progress) (w : W) → Kept w → Kept (out.notify progress w)

module _ {W K B : Type 0} (out : Outside W K B) (Allowed : Request → Type 0) (Kept : W → Type 0)
    (keeping : Keeping out Allowed Kept) where
  abbrev pub Keeps : {A : Type 0} → Stateful W A → Type 0
  Keeps step = (w : W) → Kept w → Kept (step w).1

  on_ok-Keeps :
      {A C : Type 0} (next : A → Io W C)
      → ((a : A) → Keeps (next a))
      → (r : Try A) → Keeps (on_ok next r)
  on_ok-Keeps next h (ok a) = h a
  on_ok-Keeps next h (threw m) = λ w k. k

  pub >>=-Keeps :
      {A C : Type 0} (step : Io W A) (next : A → Io W C)
      → Keeps step
      → ((a : A) → Keeps (next a))
      → Keeps (step >>= next)
  >>=-Keeps step next h k w kept = on_ok-Keeps next k (step w).0 (step w).1 (h w kept)

  pub read_json-Keeps : (body : B) → Keeps (read_json out body)
  read_json-Keeps body =
      >>=-Keeps (out.read_text body) (λ text w. (out.json_parse text, w)) (keeping.reads body)
        (λ text w k. k)

  module _ (ctx : ServerContext K) where
    sign_with-Keeps : (key : Option K) → Keeps (sign_with out ctx key)
    sign_with-Keeps (some key) = keeping.signs key ctx.agent_id ctx.owner_id
    sign_with-Keeps none = λ w k. k

    make_request-Keeps :
        (init : Request)
        → ((token : Text) → Allowed (signed out ctx init token))
        → Keeps (make_request out ctx init)
    unfolding sign_jwt
    make_request-Keeps init allowed =
        >>=-Keeps (sign_with out ctx ctx.private_key) _ (sign_with-Keeps ctx.private_key)
          (λ token w k. keeping.fetches _ 15000 w (allowed token) k)

    again_on_401-Keeps :
        (init : Request) (res : Response B)
        → ((token : Text) → Allowed (signed out ctx init token))
        → Keeps (again_on_401 out ctx init res)
    again_on_401-Keeps init res allowed = elim (Bool-cases (res.status == 401)) [
      | inl e ↦ rw e (make_request-Keeps init allowed)
      | inr e ↦ rw e (λ w k. k)
    ]

    pub fetch_with_auth-Keeps :
        (init : Request)
        → ((token : Text) → Allowed (signed out ctx init token))
        → Keeps (fetch_with_auth out ctx init)
    unfolding fetch_with_auth
    fetch_with_auth-Keeps init allowed =
        >>=-Keeps (make_request out ctx init) (again_on_401 out ctx init)
          (make_request-Keeps init allowed) (λ res. again_on_401-Keeps init res allowed)

    or_return-Keeps :
        {A : Type 0} (recover : Text → ToolResult) (next : A → Io W ToolResult)
        → ((a : A) → Keeps (next a))
        → (r : Try A) → Keeps (or_return out ctx recover next r)
    or_return-Keeps recover next h (ok a) = h a
    or_return-Keeps recover next h (threw m) = λ w k. k

    pub caught-Keeps :
        {A : Type 0} (recover : Text → ToolResult) (step : Io W A) (next : A → Io W ToolResult)
        → Keeps step
        → ((a : A) → Keeps (next a))
        → Keeps (caught out ctx recover step next)
    caught-Keeps recover step next h k w kept =
        or_return-Keeps recover next k (step w).0 (step w).1 (h w kept)

    pub relayed-Keeps : (res : Response B) → Keeps (relayed out ctx res)
    relayed-Keeps res =
        >>=-Keeps (out.read_text res.body) _ (keeping.reads res.body) (λ text w k. k)

    unless_gated-Keeps :
        {R : Type 0} (finish : ToolResult → R) (next : Stateful W R)
        → Keeps next
        → (gate : Option ToolResult) → Keeps (unless_gated out ctx finish next gate)
    unless_gated-Keeps finish next h (some refusal) = λ w k. k
    unless_gated-Keeps finish next h none = h

    gate_by_key-Keeps :
        Allowed (bind_secret out ctx) → (key : Option Text) → Keeps (gate_by_key out ctx key)
    gate_by_key-Keeps allowed (some pem) w k = k
    gate_by_key-Keeps allowed none w k =
        elim (Bool-cases (truthy ctx.agent_id && truthy ctx.owner_id)) [
          | inl e ↦ rw e (keeping.fetches _ 8000 w allowed k)
          | inr e ↦ rw e k
        ]

    pub gated-Keeps :
        {R : Type 0} (finish : ToolResult → R) (next : Stateful W R)
        → Allowed (bind_secret out ctx)
        → Keeps next
        → Keeps (gated out ctx finish next)
    unfolding require_credentials
    gated-Keeps finish next allowed h w k =
        unless_gated-Keeps finish next h _ _
          (gate_by_key-Keeps allowed ctx.agent_private_key_raw w k)
