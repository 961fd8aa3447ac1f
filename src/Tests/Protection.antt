-- ===== src/Tests/Protection.antt =====
-- packages/mcp-broker/src/pipeline.ts over a policy file, on concrete collaborators.
use agent_valet.Common.{ℕ, false, true, Option, none, some, [], ◌∷◌, Text, codes, ◌===◌, ◌≡◌, refl}
use agent_valet.Common.Effects.{Try, ok, threw, Stateful}
use agent_valet.Broker.FilePolicy.{Source, evaluate}
use agent_valet.Broker.Identity.{default_identity}
use agent_valet.Broker.Pass.{PipelineDeps, open_for_dev, Run}
use agent_valet.Broker.Pipeline.{CallParams, run_pipeline}
use agent_valet.Broker.Pipeline.Authorization.{is_blocked}
use agent_valet.Broker.Pipeline.Journal.{invocations}
use agent_valet.Broker.Protection.{run_pipeline-denied_by_file}
use agent_valet.Broker.Types.{McpHandlerExtra, Credential}
use agent_valet.Broker.Yaml.{PolicyDoc, allow, deny}
use agent_valet.Broker.Yaml.Accepted.{NamesDistinct}

abbrev doc : PolicyDoc
doc = record {
  version = 1;
  defaults = allow;
  rules =
      record { tool = codes "rd"; effect = allow; credential = none }
      ∷ record { tool = codes "rm"; effect = deny; credential = none }
      ∷ [];
}

abbrev read_file : Stateful ℕ (Try Text)
read_file w = (threw (codes "ENOENT"), w)

abbrev deps : PipelineDeps (Source ℕ) Text
deps = record {
  server_name = codes "srv";
  policy = evaluate read_file;
  secrets = λ ref d w. (threw (codes "none"), w);
  audit = λ event w. (ok tt, w);
  identity = λ extra w. (ok (default_identity extra), w);
  approval = none;
  redact = none;
  fail_mode = open_for_dev;
  warn = λ message w. w;
  now = λ w. (0, w);
  clock = λ w. (codes "2026", w);
}

abbrev extra : McpHandlerExtra
extra = record {
  session_id = some (codes "s1");
  request_id = none;
  client_id = none;
  spiffe_id = none;
  request_info = false;
}

abbrev params : CallParams
params = record { tool_name = codes "rm"; fingerprint = codes "fp"; extra = extra }

abbrev invoke : Option Credential → Stateful (Source ℕ) (Try Text)
invoke c w = (ok (codes "done"), w)

abbrev loaded : Run (Source ℕ)
loaded = record { world = record { doc = some doc; world = 0 }; journal = [] }

doc-NamesDistinct : NamesDistinct [] doc.rules
unfolding ◌===◌
doc-NamesDistinct = (refl, refl, (refl, refl, tt))

run_pipeline-denied_by_file_example :
    (is_blocked (run_pipeline deps params invoke loaded).0 ≡ true)
    × (invocations (run_pipeline deps params invoke loaded).1.journal ≡ [])
unfolding ◌===◌
run_pipeline-denied_by_file_example =
    run_pipeline-denied_by_file read_file deps params invoke loaded (default_identity extra) doc
      refl refl refl doc-NamesDistinct refl
