-- ===== src/Tests/Wiring.antt =====
-- packages/mcp-broker/src/sources.ts, broker.ts and approval/cli-provider.ts on concrete inputs.
use agent_valet.Common.{
  true, false, Option, none, some, List, [], ◌∷◌, Text, codes, ◌===◌, ◌≡◌, ◌⊎◌, refl,
}
use agent_valet.Common.Js.{is_space}
use agent_valet.Common.Effects.{Try, ok, Stateful}
use agent_valet.Broker.Identity.{default_identity}
use agent_valet.Broker.Types.{McpHandlerExtra, Decision, Credential, allow, credential}
use agent_valet.Broker.Pass.{PipelineDeps, closed, Run}
use agent_valet.Broker.Pipeline.{CallParams}
use agent_valet.Broker.Pipeline.Authorization.{Carries, Granted}
use agent_valet.Broker.Pipeline.Faithful.{Unseen}
use agent_valet.Broker.Pipeline.Journal.{begun, begun_run}
use agent_valet.Broker.Wiring.{file_policy, resolve_policy_source, split_scheme, at_colon}
use agent_valet.Broker.Wiring.Named.{IsNameOf, resolve_policy_source-IsNameOf}
use agent_valet.Broker.Wiring.Prompt.{
  PromptEvent, timer_fired, answered, request, request-approved, is_yes,
}
use agent_valet.Broker.Wiring.Wrapping.{CallArgs, context, Reply, params_of, wrap}
use agent_valet.Broker.Wiring.Wrapping.Once.{IsGiven, is_tool_error, wrap-once}

resolve_policy_source-IsNameOf_example :
    IsNameOf Unit (codes "file:p.yaml") (file_policy (codes "p.yaml"))
unfolding resolve_policy_source split_scheme at_colon ◌===◌
resolve_policy_source-IsNameOf_example =
    resolve_policy_source-IsNameOf Unit (codes "file:p.yaml") (file_policy (codes "p.yaml")) refl

abbrev events : List PromptEvent
events = answered (codes " Yes") ∷ timer_fired ∷ []

request-approved_example :
    (text : Text) × (rest : List PromptEvent) × (events ≡ answered text ∷ rest)
    × (is_yes text ≡ true)
unfolding request is_space
request-approved_example =
    request-approved events (record { approved = true; reason = none }) refl refl

abbrev allowing : Decision
allowing = record {
  effect = allow;
  obligations = credential (codes "gh") none ∷ [];
  policy_id = codes "local";
  version = codes "1";
}

-- The world is the list of the handler's calls.
abbrev deps : PipelineDeps (List (CallArgs Text)) Text
deps = record {
  server_name = codes "srv";
  policy = λ req w. (ok allowing, w);
  secrets = λ ref d w. (ok (record { token = codes "t0"; expires_at = none; scope = none }), w);
  audit = λ event w. (ok tt, w);
  identity = λ extra w. (ok (default_identity extra), w);
  approval = none;
  redact = none;
  fail_mode = closed;
  warn = λ message w. w;
  now = λ w. (0, w);
  clock = λ w. (codes "2026", w);
}

deps-Unseen : (seen : List (CallArgs Text)) → Unseen deps (λ w. w ≡ seen)
deps-Unseen seen = record {
  by_policy = λ req w k. k;
  by_secrets = λ ref d w k. k;
  by_audit = λ event w k. k;
  by_identity = λ extra w k. k;
  by_approval = λ provider e req d w k. cc;
  by_redact = λ hook e v d w k. cc;
  by_warn = λ text w k. k;
  by_now = λ w k. k;
  by_clock = λ w k. k;
}

abbrev handler_context : McpHandlerExtra
handler_context = record {
  session_id = some (codes "s1");
  request_id = none;
  client_id = none;
  spiffe_id = none;
  request_info = false;
}

abbrev call : CallArgs Text
call = context (record { extra = handler_context; credential = none })

abbrev fingerprint : Option Text → Text
fingerprint args = codes "fp"

abbrev handler : CallArgs Text → Stateful (List (CallArgs Text)) (Try Text)
handler given w = (ok (codes "done"), given ∷ w)

abbrev params : CallParams
params = params_of deps fingerprint (codes "read") handler call

abbrev fresh : Run (List (CallArgs Text))
fresh = record { world = []; journal = [] }

abbrev wrapped : Try (Reply Text) × Run (List (CallArgs Text))
wrapped = wrap deps fingerprint (codes "read") handler call fresh

wrap-once_example :
    let p = begun deps params fresh (default_identity handler_context) in
    ((is_tool_error wrapped.0 ≡ true) × (wrapped.1.world ≡ []))
    ⊎ ((is_tool_error wrapped.0 ≡ false)
        × (d : Decision) × (c : Option Credential) × (given : CallArgs Text) × Granted p
            (begun_run deps params fresh).world
            d
        × Carries p d c
        × IsGiven c call given
        × (wrapped.1.world ≡ given ∷ []))
wrap-once_example =
    wrap-once deps fingerprint (codes "read") handler (λ w. w) (λ given w. refl) deps-Unseen call []
      (default_identity handler_context) refl
