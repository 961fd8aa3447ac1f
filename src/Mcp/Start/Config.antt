-- ===== src/Mcp/Start/Config.antt =====
-- packages/mcp-server/src/config.ts: the configuration that the server starts with.
use agent_valet.Common.{
  Bool, true, false, Option, none, some, [], ◌∷◌, ◌++◌, Text, codes, truthy, or_else, if◌then◌else◌,
}
use agent_valet.Common.Js.{drop_slash}
use agent_valet.Common.Effects.{Try, ok, threw, Stateful}
use agent_valet.Mcp.Start.Env.{Machine, env, read_bound_private_key, read_private_key_from_env}
use agent_valet.Mcp.Start.Bind.{BoundIdentity, read_bound_identity, attempt_invite_bind}

pub record Config (K : Type 0) : Type 0 where
  pub agent_id : Text
  pub owner_id : Text
  pub proxy_url : Text
  pub private_key_pem : Option Text
  pub private_key : Option K

-- What `validateConfig` does in the end: it returns, or ends the process.
pub data Start (K : Type 0) : Type 0 where
  configured : Config K → Start K
  exited : Start K

abbrev pub default_proxy_url : Text
default_proxy_url = codes "https://api.agentvalet.ai"

abbrev pub non_empty : Option Text → Bool
non_empty none = false
non_empty (some s) = truthy s

-- the names in front, those that come after them being joined by a comma
abbrev joined : Text → Text → Text
joined [] rest = rest
joined names [] = names
joined names rest = names ++ (codes ", " ++ rest)

module _ {W K B : Type 0} (machine : Machine W K B) where
  -- `if (!process.env[key]) missing.push(key);`
  abbrev missing_name : Text → Option Text → Text
  missing_name name none = name
  missing_name name (some v) = if truthy v then [] else name

  abbrev pub missing : Text → Text
  missing name = missing_name name (machine.env name)

  abbrev not_configured : Text
  not_configured =
      codes "[mcp-server] No credentials configured ("
      ++ (joined (missing (codes "AGENT_ID"))
            (joined (missing (codes "OWNER_ID")) (missing (codes "PROXY_URL")))
          ++ (codes " unset, no disk identity, no INVITE_BIND_SECRET). Booting in"
              ++ (codes " introspection-only mode: tools/list works; tools/call returns a"
                  ++ (codes " credentials-required message. Set the env vars, run the invite-bind"
                      ++ (codes
                            " flow, or restore ~/.agentvalet/agent.{key,json} to enable platform"
                          ++ (codes " calls." ++ (10 ∷ [])))))))

  abbrev with_key : Text → Text → Text → Option Text → Option K → Config K
  with_key agent_id owner_id proxy_url pem key = record {
    agent_id = agent_id;
    owner_id = owner_id;
    proxy_url = drop_slash proxy_url;
    private_key_pem = pem;
    private_key = key;
  }

  abbrev pub by_import : Text → Text → Text → Text → Try K × W → Start K × W
  by_import agent_id owner_id proxy_url pem (ok key, w) =
      (configured (with_key agent_id owner_id proxy_url (some pem) (some key)), w)
  by_import agent_id owner_id proxy_url pem (threw m, w) = (
    configured (with_key agent_id owner_id proxy_url none none),
    machine.write_error (codes "[mcp-server] Invalid private key (ignored): " ++ (m ++ (10 ∷ [])))
        w,
  )

  abbrev pub by_pem : Text → Text → Text → Try Text → Stateful W (Start K)
  by_pem agent_id owner_id proxy_url (threw m) w =
      (configured (with_key agent_id owner_id proxy_url none none), w)
  by_pem agent_id owner_id proxy_url (ok pem) w =
      by_import agent_id owner_id proxy_url pem (machine.import_key pem w)

  unfoldable pub build_config : Text → Text → Text → Stateful W (Start K)
  build_config agent_id owner_id proxy_url w =
      by_pem agent_id owner_id proxy_url (read_private_key_from_env machine w) w

  abbrev bind_failed : Text → W → W
  bind_failed m =
      machine.write_error (codes "[mcp-server] Invite bind failed: " ++ (m ++ (10 ∷ [])))

  abbrev bound_text : BoundIdentity → Text
  bound_text identity =
      codes "[mcp-server] Bound as "
      ++ (identity.agent_id
          ++ (codes " (owner "
              ++ (identity.owner_id
                  ++ (codes "). Key persisted to ~/.agentvalet/agent.key" ++ (10 ∷ [])))))

  abbrev after_bind : Try BoundIdentity → Stateful W (Start K)
  after_bind (threw m) w = (exited, bind_failed m w)
  after_bind (ok identity) w =
      build_config identity.agent_id identity.owner_id identity.proxy_url
        (machine.write_error (bound_text identity) w)

  -- the third path: the first run with an invitation
  abbrev pub by_secret : Option Text → Option Text → Stateful W (Start K)
  by_secret proxy_url none w =
      build_config [] [] default_proxy_url (machine.write_error not_configured w)
  by_secret proxy_url (some secret) w =
      let proxy = drop_slash (or_else proxy_url default_proxy_url) in
      let begun =
        machine.write_error
          (codes "[mcp-server] First-run invite bind against " ++ (proxy ++ (8230 ∷ 10 ∷ []))) w in
      let (identity, w') = attempt_invite_bind machine secret proxy begun in after_bind identity w'

  -- the second path: the identity on disk
  abbrev pub by_disk :
      Option Text → Option Text → Option Text → Option BoundIdentity → Bool → Stateful W (Start K)
  by_disk agent_id owner_id proxy_url (some identity) true =
      build_config (or_else agent_id identity.agent_id) (or_else owner_id identity.owner_id)
        (or_else proxy_url identity.proxy_url)
  by_disk agent_id owner_id proxy_url _ _ =
      by_secret proxy_url (env machine (codes "INVITE_BIND_SECRET"))

  -- the first path: the environment
  abbrev pub by_env : Option Text → Option Text → Option Text → Stateful W (Start K)
  by_env (some agent_id) (some owner_id) (some proxy_url) w =
      build_config agent_id owner_id proxy_url w
  by_env agent_id owner_id proxy_url w =
      by_disk agent_id owner_id proxy_url (read_bound_identity machine w)
        (non_empty (read_bound_private_key machine w)) w

  unfoldable pub validate_config : Stateful W (Start K)
  validate_config =
      by_env (env machine (codes "AGENT_ID")) (env machine (codes "OWNER_ID"))
        (env machine (codes "PROXY_URL"))
