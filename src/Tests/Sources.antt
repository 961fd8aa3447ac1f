-- ===== src/Tests/Sources.antt =====
-- packages/mcp-broker/src/policy/authzen-source.ts and src/secrets on concrete inputs.
use agent_valet.Common.{
  none, some, [], ◌∷◌, Text, Option, codes, ◌===◌, truthy, true, ◌≡◌, ◌↔◌, refl, if◌then◌else◌,
  ◌++◌,
}
use agent_valet.Common.Effects.{ok}
use agent_valet.Common.Json.{Json, boolean, string, object, array, no_items, item, no_fields, field}
use agent_valet.Broker.Authzen.{decision_of, map_items}
use agent_valet.Broker.Secrets.{static_credential, narrowed_scope}
use agent_valet.Broker.Secrets.Env.{env_var_name, fold_runs, resolve, to_upper_case}
use agent_valet.Broker.Secrets.Env.Names.{joined, words}
use agent_valet.Broker.Secrets.Env.Resolved.{
  by_precedence, credential_scopes, narrowings, resolve_iff,
}
use agent_valet.Broker.Types.{
  Decision, Credential, CredentialRef, allow, require_approval, narrow_scope,
}

abbrev directive : Text → Json
directive id = object (field (codes "id") (string id) no_fields)

abbrev answer : Json
answer = object (
    field (codes "decision") (boolean true) (
      field (codes "context")
        (object (
          field (codes "obligations")
            (array (item (directive (codes "log")) (item (directive (codes "approval")) no_items)))
            no_fields))
        no_fields))

decision_of-answer : (decision_of answer).effect ≡ require_approval
unfolding decision_of map_items ◌===◌
decision_of-answer = refl

env_var_name-github : env_var_name (codes "-gh.token") (codes "X_") ≡ codes "X_GH_TOKEN"
unfolding env_var_name fold_runs
env_var_name-github = refl

abbrev env : Text → Option Text
env name = if name === codes "GH" then some (codes "t0") else none

abbrev ref : CredentialRef
ref = record { id = codes "gh"; scope = none }

abbrev narrowing : Decision
narrowing = record {
  effect = allow;
  obligations = narrow_scope (codes "repo" ∷ []) ∷ [];
  policy_id = codes "p";
  version = codes "1";
}

abbrev found : Credential
found = static_credential (codes "t0") (some (codes "repo" ∷ []))

resolve-found : resolve [] env ref narrowing ≡ ok found
unfolding resolve env_var_name fold_runs narrowed_scope ◌===◌
resolve-found = refl

resolve_iff_example : (resolve [] env ref narrowing ≡ ok found) ↔ (
    (env ([] ++ joined (words (to_upper_case ref.id))) ≡ some found.token)
    × (truthy found.token ≡ true)
    × (found.expires_at ≡ none)
    × (found.scope
        ≡ by_precedence
            (narrowings narrowing.obligations)
            (credential_scopes narrowing.obligations)
            ref.scope))
resolve_iff_example = resolve_iff [] env ref narrowing found
