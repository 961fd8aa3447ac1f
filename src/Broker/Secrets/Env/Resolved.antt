-- ===== src/Broker/Secrets/Env/Resolved.antt =====
-- When packages/mcp-broker/src/secrets/env-source.ts gives a credential, and which.
use agent_valet.Common.{
  true, Option, none, some, List, [], ◌∷◌, ◌++◌, Text, truthy, or_else, ◌≡◌, ◌↔◌, refl, ap, sym,
  ◌∙◌,
}
use agent_valet.Common.Effects.{Try, ok, threw}
use agent_valet.Broker.Secrets.{narrow_obligation, narrowed_scope, first_scope, scope_of_ref}
use agent_valet.Broker.Secrets.Env.{to_upper_case, env_var_name, from_variable, resolve}
use agent_valet.Broker.Secrets.Env.Names.{words, joined, env_var_name-words}
use agent_valet.Broker.Types.{
  Obligation, credential, narrow_scope, other, Decision, CredentialRef, Credential,
  credential_obligation,
}

-- The scopes of the narrowing obligations, and those of the credential obligations, in their order.
abbrev pub narrowings : List Obligation → List (List Text)
narrowings [] = []
narrowings (narrow_scope scope ∷ os) = scope ∷ narrowings os
narrowings (credential ref scope ∷ os) = narrowings os
narrowings (other kind ∷ os) = narrowings os

abbrev pub credential_scopes : List Obligation → List (Option (List Text))
credential_scopes [] = []
credential_scopes (narrow_scope scope ∷ os) = credential_scopes os
credential_scopes (credential ref scope ∷ os) = scope ∷ credential_scopes os
credential_scopes (other kind ∷ os) = credential_scopes os

-- The precedence that secrets/narrow.ts documents: the first narrowing wins, then the scope of the
-- first credential obligation, then the reference's own scope.
abbrev pub by_precedence :
    List (List Text) → List (Option (List Text)) → Option (List Text) → Option (List Text)
by_precedence (scope ∷ _) _ own = some scope
by_precedence [] (some scope ∷ _) own = some scope
by_precedence [] (none ∷ _) own = own
by_precedence [] [] own = own

narrow_obligation-first :
    (os : List Obligation) (scopes : List (Option (List Text))) (own : Option (List Text))
    → first_scope (narrow_obligation os) (by_precedence [] scopes own)
      ≡ by_precedence (narrowings os) scopes own
narrow_obligation-first [] scopes own = refl
narrow_obligation-first (narrow_scope scope ∷ os) scopes own = refl
narrow_obligation-first (credential ref scope ∷ os) scopes own =
    narrow_obligation-first os scopes own
narrow_obligation-first (other kind ∷ os) scopes own = narrow_obligation-first os scopes own

credential_obligation-first :
    (os : List Obligation) (own : Option (List Text))
    → first_scope (scope_of_ref (credential_obligation os)) own
      ≡ by_precedence [] (credential_scopes os) own
credential_obligation-first [] own = refl
credential_obligation-first (narrow_scope scope ∷ os) own = credential_obligation-first os own
credential_obligation-first (credential ref none ∷ os) own = refl
credential_obligation-first (credential ref (some scope) ∷ os) own = refl
credential_obligation-first (other kind ∷ os) own = credential_obligation-first os own

narrowed_scope-by_precedence :
    (ref : CredentialRef) (decision : Decision)
    → narrowed_scope ref decision
      ≡ by_precedence
          (narrowings decision.obligations)
          (credential_scopes decision.obligations)
          ref.scope
unfolding narrowed_scope
narrowed_scope-by_precedence ref decision =
    ap (λ s. first_scope (narrow_obligation decision.obligations) s)
      (credential_obligation-first decision.obligations ref.scope)
    ∙ narrow_obligation-first decision.obligations (credential_scopes decision.obligations)
        ref.scope

abbrev value_or : Credential → Try Credential → Credential
value_or c (ok d) = d
value_or c (threw message) = c

from_variable_iff :
    (token : Option Text) (name : Text) (ref : CredentialRef) (decision : Decision) (c : Credential)
    → (from_variable token name ref decision ≡ ok c) ↔ (
        (token ≡ some c.token)
        × (truthy c.token ≡ true)
        × (c.expires_at ≡ none)
        × (c.scope ≡ narrowed_scope ref decision))
from_variable_iff none name ref decision c = (λ h. cc, λ (held, _, _, _). cc)
from_variable_iff (some []) name ref decision c =
    (λ h. cc, λ (held, k, _, _). let e = ap (λ o. truthy (or_else o [])) held in cc)
from_variable_iff (some (t ∷ ts)) name ref decision c = (
  λ h.
      let e = ap (value_or c) h in
      (
        ap (λ x. some x.token) e,
        ap (λ x. truthy x.token) (sym e),
        ap (λ x. x.expires_at) (sym e),
        ap (λ x. x.scope) (sym e),
      ),
  λ (held, k, x, s). let e = ap (λ o. or_else o []) held in rw e (rw (sym x) (rw (sym s) refl)),
)

-- The source gives a credential exactly when a variable holds a non-empty token: the variable whose
-- name is the prefix and the words of the reference in upper case, its longest runs of letters from
-- A to Z and of digits, with an underscore between two. The credential has that token, no expiry,
-- and the scope of the first narrowing obligation, or else of the first credential obligation, or
-- else of the reference.
pub resolve_iff :
    (prefix : Text) (env : Text → Option Text) (ref : CredentialRef) (decision : Decision)
    (c : Credential)
    → (resolve prefix env ref decision ≡ ok c) ↔ (
        (env (prefix ++ joined (words (to_upper_case ref.id))) ≡ some c.token)
        × (truthy c.token ≡ true)
        × (c.expires_at ≡ none)
        × (c.scope
            ≡ by_precedence
                (narrowings decision.obligations)
                (credential_scopes decision.obligations)
                ref.scope))
unfolding resolve
resolve_iff prefix env ref decision c = rw (sym (env_var_name-words ref.id prefix)) (
    rw (sym (narrowed_scope-by_precedence ref decision)) (
      from_variable_iff (env (env_var_name ref.id prefix)) (env_var_name ref.id prefix) ref decision
        c))
