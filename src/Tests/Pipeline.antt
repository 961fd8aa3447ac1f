-- ===== src/Tests/Pipeline.antt =====
-- packages/mcp-broker/src/pipeline.ts on concrete collaborators. The world is a clock.
use agent_valet.Common.{ℕ, ◌+◌, false, Option, none, some, [], ◌∷◌, ◌++◌, Text, codes, ◌≡◌, refl}
use agent_valet.Common.Effects.{Try, ok, threw, Stateful}
use agent_valet.Broker.Identity.{default_identity}
use agent_valet.Broker.Pass.{PipelineDeps, closed, blocked, Run, audited, evaluated}
use agent_valet.Broker.Pipeline.{CallParams, run_pipeline}
use agent_valet.Broker.Pipeline.Audit.{Audited, run_pipeline-Audited}
use agent_valet.Broker.Pipeline.Authorization.{Handled, Granted, run_pipeline-Handled}
use agent_valet.Broker.Pipeline.Failures.{
  IsDenial, Reported, run_pipeline-closed, run_pipeline-redact_throws,
}
use agent_valet.Broker.Pipeline.Journal.{audits, invocations, begun, begun_run}
use agent_valet.Broker.Pipeline.Sink.{Same, with_sink, run_pipeline-with_sink}
use agent_valet.Broker.Types.{
  McpHandlerExtra, Decision, Credential, credential, allow, deny, AuditEvent,
}

abbrev decision : Decision
decision = record {
  effect = allow;
  obligations = credential (codes "gh") none ∷ [];
  policy_id = codes "local";
  version = codes "1";
}

abbrev token : Credential
token = record { token = codes "t"; expires_at = none; scope = some (codes "repo" ∷ []) }

abbrev deps : PipelineDeps ℕ Text
deps = record {
  server_name = codes "srv";
  policy = λ req w. (ok decision, w + 1);
  secrets = λ ref d w. (ok token, w + 1);
  audit = λ event w. (ok tt, w + 1);
  identity = λ extra w. (ok (default_identity extra), w);
  approval = none;
  redact = none;
  fail_mode = closed;
  warn = λ message w. w;
  now = λ w. (w, w + 1);
  clock = λ w. (codes "2026", w);
}

abbrev extra : McpHandlerExtra
extra = record {
  session_id = some (codes "s1");
  request_id = none;
  client_id = none;
  spiffe_id = none;
  request_info = false;
}

abbrev params : CallParams
params = record { tool_name = codes "read"; fingerprint = codes "fp"; extra = extra }

abbrev invoke : Option Credential → Stateful ℕ (Try Text)
invoke c w = (ok (codes "done"), w + 1)

abbrev fresh : Run ℕ
fresh = record { world = 7; journal = [] }

run_pipeline-Audited_example : Audited [] (run_pipeline deps params invoke fresh)
run_pipeline-Audited_example =
    run_pipeline-Audited deps params invoke fresh (default_identity extra) (λ value d hook w h. cc)
      refl

run_pipeline-Handled_example :
    Handled
      (begun deps params fresh (default_identity extra))
      (Granted
        (begun deps params fresh (default_identity extra))
        (begun_run deps params fresh).world)
      []
      (run_pipeline deps params invoke fresh)
run_pipeline-Handled_example =
    run_pipeline-Handled deps params invoke fresh (default_identity extra) refl

abbrev unreachable : PipelineDeps ℕ Text
unreachable = record deps { policy = λ req w. (threw (codes "ENOENT"), w) }

run_pipeline-closed_example :
    let req = (begun unreachable params fresh (default_identity extra)).req in
    let asked = unreachable.policy req (begun_run unreachable params fresh).world in
    let (result, after) = run_pipeline unreachable params invoke fresh in
    (result ≡ ok (blocked deny (codes "policy source unreachable")))
    × (event : AuditEvent) × IsDenial (codes "policy_source_unreachable: " ++ codes "ENOENT") event
    × (after.journal ≡ audited event ∷ evaluated req ∷ [])
    × Reported unreachable event asked.1 after.world
run_pipeline-closed_example =
    run_pipeline-closed unreachable params invoke fresh (default_identity extra) (codes "ENOENT")
      refl refl refl

abbrev bare_decision : Decision
bare_decision = record decision { obligations = [] }

abbrev bad_hook : Text → Decision → Stateful ℕ (Try Text)
bad_hook value d w = (threw (codes "boom"), w)

abbrev unredacted : PipelineDeps ℕ Text
unredacted = record deps { policy = λ req w. (ok bare_decision, w + 1); redact = some bad_hook }

run_pipeline-redact_throws_example :
    ((run_pipeline unredacted params invoke fresh).0 ≡ threw (codes "boom"))
    × (invocations (run_pipeline unredacted params invoke fresh).1.journal ≡ none ∷ [])
    × (audits (run_pipeline unredacted params invoke fresh).1.journal ≡ [])
run_pipeline-redact_throws_example =
    run_pipeline-redact_throws unredacted params invoke fresh (default_identity extra) bare_decision
      bad_hook (codes "done") (codes "boom") refl (refl, refl, refl) refl refl refl

abbrev bad_sink : AuditEvent → Stateful ℕ (Try (Unit {0}))
bad_sink event w = (threw (codes "disk full"), w)

run_pipeline-with_sink_example :
    Same
      (run_pipeline (with_sink deps bad_sink) params invoke fresh)
      (run_pipeline deps params invoke fresh)
run_pipeline-with_sink_example =
    run_pipeline-with_sink deps params invoke fresh (default_identity extra) bad_sink refl
