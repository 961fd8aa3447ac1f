-- ===== src/Mcp/Start/Binding.antt =====
-- What a bind of packages/mcp-server/src/bind.ts leaves on disk, and the next start with it.
use agent_valet.Common.{
  true, ◌&&◌, Option, none, some, Text, codes, ◌===◌, truthy, or_else, ◌≡◌, ◌≢◌, refl, ap, ◌∙◌,
  subst, Bool-cases, inl, inr,
}
use agent_valet.Common.Js.{trim, is_ok}
use agent_valet.Common.Effects.{Try, ok, threw}
use agent_valet.Common.Throwing.{>>=-ok, give}
use agent_valet.Common.Json.{Json, is_null}
use agent_valet.Mcp.Start.Env.{
  Machine, Fetched, answered, aborted, failed, env, read_bound_private_key,
}
use agent_valet.Mcp.Start.Bind.{
  BoundIdentity, identity_in, identity_json, read_bound_identity, persist_bind_artifacts, persisted,
  if_complete, by_payload, by_answer, attempt_invite_bind, read_json, bind_request,
}
use agent_valet.Mcp.Start.Config.{build_config, validate_config, by_env}

-- Files hold what was last written to them, and `JSON.parse` reads an identity that
-- `JSON.stringify` wrote.
pub record Lawful {W K B : Type 0} (machine : Machine W K B) : Type 0 where
  pub written :
      (path text : Text) (w w' : W)
      → machine.write_file path text w ≡ (ok tt, w')
      → (machine.exists_sync path w' ≡ true) × (machine.read_file path w' ≡ ok text)
  pub others_kept :
      (path other text : Text) (w w' : W)
      → path ≢ other
      → machine.write_file path text w ≡ (ok tt, w')
      → (machine.exists_sync other w' ≡ machine.exists_sync other w)
        × (machine.read_file other w' ≡ machine.read_file other w)
  pub parses :
      (identity : BoundIdentity) (bound_at : Text)
      → machine.json_parse (machine.stringify (identity_json identity bound_at))
        ≡ ok (identity_json identity bound_at)
  pub paths_differ : machine.identity_path ≢ machine.key_path

identity_in-json :
    (identity : BoundIdentity) (bound_at : Text)
    → identity_in (ok (identity_json identity bound_at)) ≡ some identity
unfolding ◌===◌
identity_in-json identity bound_at = refl

module _ {W K B : Type 0} (machine : Machine W K B) (lawful : Lawful machine) where
  -- The disk holds this identity and this key.
  abbrev IsBound : Text → BoundIdentity → W → Type 0
  IsBound key identity w =
      (read_bound_identity machine w ≡ some identity)
      × (read_bound_private_key machine w ≡ some (trim key))

  persist-IsBound :
      (identity : BoundIdentity) (bound_at key : Text) (w w' : W)
      → persist_bind_artifacts machine identity bound_at key w ≡ (ok tt, w')
      → IsBound key identity w'
  unfolding persist_bind_artifacts read_bound_identity read_bound_private_key
  persist-IsBound identity bound_at key w w' h =
      let (made, w1, step, rest) = >>=-ok _ tt w' (machine.make_dir machine.agentvalet_dir) w h in
      let (kept, w2, step', last) =
        >>=-ok _ tt w' (machine.write_file machine.key_path key) w1 rest in
      let (there, reads) = lawful.written _ _ w2 w' last in
      let (there', reads') = lawful.written machine.key_path key w1 w2 step' in
      let (as_before, same) = lawful.others_kept _ _ _ w2 w' lawful.paths_differ last in
      (
        rw (there, reads, lawful.parses identity bound_at) (identity_in-json identity bound_at),
        rw (as_before, same, there', reads') refl,
      )

  module _ (key : Text) (identity : BoundIdentity) (w' : W) where
    persisted-IsBound :
        (given : BoundIdentity) (w : W)
        → persisted machine key given w ≡ (ok identity, w')
        → IsBound key identity w'
    persisted-IsBound given w h =
        let at = machine.now_iso w in
        let (kept, w1, step, rest) =
          >>=-ok (λ done. give given) identity w' (persist_bind_artifacts machine given at.0 key)
            at.1 h in
        let bound = persist-IsBound given at.0 key at.1 w1 step in
        let same : ok given ≡ ok identity = ap (λ r. r.0) rest in
        let as_given : given ≡ identity = cc in
        subst (λ w2. IsBound key identity w2) (ap (λ r. r.1) rest)
          (subst (λ i. IsBound key i w1) as_given bound)

    -- a step that throws returns no identity
    no_throw :
        {C : Type 0} (m : Text) (w : W)
        → ◌≡◌ {A = Try BoundIdentity × W} (threw m, w) (ok identity, w')
        → C
    no_throw m w h = let differs : threw m ≡ ok identity = ap (λ r. r.0) h in cc

    if_complete-IsBound :
        (given : Option BoundIdentity) (w : W)
        → if_complete machine key given w ≡ (ok identity, w')
        → IsBound key identity w'
    if_complete-IsBound none w = λ h. no_throw _ w h
    if_complete-IsBound (some given) w =
        elim (Bool-cases
          (truthy given.agent_id && truthy given.owner_id && truthy given.proxy_url)) [
            | inl e ↦ rw e (persisted-IsBound given w)
            | inr e ↦ rw e (λ h. no_throw _ w h)
          ]

    by_payload-IsBound :
        (payload : Json) (w : W)
        → by_payload machine key payload w ≡ (ok identity, w')
        → IsBound key identity w'
    by_payload-IsBound payload w = elim (Bool-cases (is_null payload)) [
      | inl e ↦ rw e (λ h. no_throw _ w h)
      | inr e ↦ rw e (if_complete-IsBound (identity_in (ok payload)) w)
    ]

    by_answer-IsBound :
        (answer : Fetched B) (w : W)
        → by_answer machine key answer w ≡ (ok identity, w')
        → IsBound key identity w'
    by_answer-IsBound aborted w = λ h. no_throw _ w h
    by_answer-IsBound (failed m) w = λ h. no_throw _ w h
    by_answer-IsBound (answered res) w = elim (Bool-cases (is_ok res.status)) [
      | inr e ↦ rw e (λ h. no_throw _ _ h)
      | inl e ↦ rw e (λ h.
          let (payload, w1, step, rest) =
            >>=-ok (by_payload machine key) identity w' (read_json machine res.body) w h in
          by_payload-IsBound payload w1 rest)
    ]

  bind-IsBound :
      (secret proxy_url : Text) (w w' : W) (identity : BoundIdentity)
      → attempt_invite_bind machine secret proxy_url w ≡ (ok identity, w')
      → IsBound (machine.generate_keys w).0.1 identity w'
  unfolding attempt_invite_bind
  bind-IsBound secret proxy_url w w' identity h =
      let (keys, made) = machine.generate_keys w in
      let (answer, asked) = machine.fetch (bind_request machine secret proxy_url keys.0) made in
      by_answer-IsBound keys.1 identity w' answer asked h

  by_env-bound :
      (owner_id proxy_url : Option Text) (key : Text) (identity : BoundIdentity) (w : W)
      → IsBound key identity w
      → truthy (trim key) ≡ true
      → by_env machine none owner_id proxy_url w
        ≡ build_config machine identity.agent_id
            (or_else owner_id identity.owner_id)
            (or_else proxy_url identity.proxy_url)
            w
  by_env-bound owner_id proxy_url key identity w (found, held) real = rw (found, held, real) refl

  -- Where files hold what was last written to them and the JSON of an identity is read back as it
  -- was written, the start after a successful bind, without an agent's id in the environment and with a key that is
  -- not blank, takes the bound identity from the disk, and binds no second time.
  pub validate_config-bound :
      (secret proxy_url : Text) (w w' : W) (identity : BoundIdentity)
      → attempt_invite_bind machine secret proxy_url w ≡ (ok identity, w')
      → env machine (codes "AGENT_ID") ≡ none
      → truthy (trim (machine.generate_keys w).0.1) ≡ true
      → validate_config machine w'
        ≡ build_config machine identity.agent_id
            (or_else (env machine (codes "OWNER_ID")) identity.owner_id)
            (or_else (env machine (codes "PROXY_URL")) identity.proxy_url)
            w'
  unfolding validate_config
  validate_config-bound secret proxy_url w w' identity h unset real =
      ap
        (λ agent_id.
          by_env machine agent_id (env machine (codes "OWNER_ID")) (env machine (codes "PROXY_URL"))
            w')
        unset
      ∙ by_env-bound (env machine (codes "OWNER_ID")) (env machine (codes "PROXY_URL")) _ identity
          w' (bind-IsBound secret proxy_url w w' identity h) real
