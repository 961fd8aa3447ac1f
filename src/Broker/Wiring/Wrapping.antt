-- ===== src/Broker/Wiring/Wrapping.antt =====
-- packages/mcp-broker/src/broker.ts: a tool's handler inside the enforcement.
pub mod Once
use agent_valet.Common.{
  Bool, true, false, Option, none, some, [], ◌∷◌, ◌++◌, Text, codes, ◌≡◌, refl, ◌⊎◌, inl, inr, ◌∙◌,
}
use agent_valet.Common.Effects.{Try, ok, threw, Stateful}
use agent_valet.Common.Json.{Json, property, as_string}
use agent_valet.Broker.Types.{McpHandlerExtra, Subject, Credential}
use agent_valet.Broker.Pass.{PipelineDeps, PipelineResult, completed, blocked, Run, M}
use agent_valet.Broker.Pipeline.{CallParams, run_pipeline}
use agent_valet.Broker.Pipeline.Journal.{invocations, world₁}
use agent_valet.Broker.Pipeline.Authorization.{refused, ran, is_blocked, run_pipeline-Handled}

-- `typeof name === "string" && name.length > 0`
abbrev name_or_default : Option Text → Text
name_or_default none = codes "mcp-server"
name_or_default (some []) = codes "mcp-server"
name_or_default (some (c ∷ cs)) = c ∷ cs

-- by `server._serverInfo.name` of the low-level server
abbrev get_server_name : Option Json → Text
get_server_name none = name_or_default none
get_server_name (some info) = name_or_default (as_string (property (codes "name") info))

-- `extra`, with the credential that the wrapper puts on it
pub record HandlerContext : Type 0 where
  pub extra : McpHandlerExtra
  pub credential : Option Credential

-- What a handler is called with: nothing, its context, or arguments and its context.
pub data CallArgs (A : Type 0) : Type 0 where
  nothing : CallArgs A
  context : HandlerContext → CallArgs A
  with_context : A → HandlerContext → CallArgs A

abbrev no_extra : McpHandlerExtra
no_extra = record {
  session_id = none;
  request_id = none;
  client_id = none;
  spiffe_id = none;
  request_info = false;
}

abbrev pub extra_of : {A : Type 0} → CallArgs A → McpHandlerExtra
extra_of nothing = no_extra
extra_of (context ctx) = ctx.extra
extra_of (with_context a ctx) = ctx.extra

abbrev pub args_of : {A : Type 0} → CallArgs A → Option A
args_of (with_context a ctx) = some a
args_of _ = none

abbrev set_credential : Option Credential → HandlerContext → HandlerContext
set_credential none ctx = ctx
set_credential (some c) ctx = record ctx { credential = some c }

-- `if (credential) extra.credential = credential`, which the handler sees on its own context
abbrev pub inject : {A : Type 0} → Option Credential → CallArgs A → CallArgs A
inject c nothing = nothing
inject c (context ctx) = context (set_credential c ctx)
inject c (with_context a ctx) = with_context a (set_credential c ctx)

-- The result of a wrapped handler: its own, or `toolError`.
pub data Reply (V : Type 0) : Type 0 where
  result : V → Reply V
  tool_error : Text → Reply V

abbrev pub reply_of : {V : Type 0} → Try (PipelineResult V) → Try (Reply V)
reply_of (threw m) = threw m
reply_of (ok (blocked effect reason)) = ok (tool_error (codes "blocked by policy: " ++ reason))
reply_of (ok (completed v)) = ok (result v)

-- `fingerprint_of` is `argsFingerprint`, of arguments that may be undefined
module _ {W V A : Type 0} (deps : PipelineDeps W V) (fingerprint_of : Option A → Text)
    (tool_name : Text) (handler : CallArgs A → Stateful W (Try V)) where
  abbrev pub params_of : CallArgs A → CallParams
  params_of call = record {
    tool_name = tool_name;
    fingerprint = fingerprint_of (args_of call);
    extra = extra_of call;
  }

  unfoldable pub wrap : CallArgs A → M W (Try (Reply V))
  wrap call s =
      let (r, s') =
        run_pipeline deps (params_of call) (λ credential. handler (inject credential call)) s in
      (reply_of r, s')
