-- ===== src/Mcp/Start/Sources.antt =====
-- When `validateConfig` of packages/mcp-server/src/config.ts binds an invitation, and what it does
-- otherwise.
use agent_valet.Common.{
  Bool, true, false, not, ◌&&◌, Option, none, some, Text, codes, is_some, ◌≡◌, refl,
}
use agent_valet.Common.Effects.{Try, ok, threw}
use agent_valet.Mcp.Start.Env.{Machine, env, read_bound_private_key, read_private_key_from_env}
use agent_valet.Mcp.Start.Bind.{BoundIdentity, read_bound_identity}
use agent_valet.Mcp.Start.Config.{
  Start, configured, exited, build_config, validate_config, by_env, by_disk, by_secret, non_empty,
  by_pem, by_import,
}

abbrev pub is_configured : {K : Type 0} → Start K → Bool
is_configured (configured c) = true
is_configured exited = false

module _ {W K B : Type 0} (machine : Machine W K B) where
  abbrev in_env : Bool
  in_env =
      is_some (env machine (codes "AGENT_ID"))
      && is_some (env machine (codes "OWNER_ID"))
      && is_some (env machine (codes "PROXY_URL"))

  abbrev on_disk : W → Bool
  on_disk w =
      is_some (read_bound_identity machine w) && non_empty (read_bound_private_key machine w)

  -- No identity is in the environment or on disk, and there is an invitation.
  abbrev pub binds : W → Bool
  binds w = not in_env && not (on_disk w) && is_some (env machine (codes "INVITE_BIND_SECRET"))

  -- What the import of a key and a line of diagnostics keep.
  pub record Quiet (Kept : W → Type 0) : Type 0 where
    pub imports : (pem : Text) (w : W) → Kept w → Kept (machine.import_key pem w).1
    pub writes : (line : Text) (w : W) → Kept w → Kept (machine.write_error line w)

  module _ (Kept : W → Type 0) (quiet : Quiet Kept) where
    abbrev Boots : Start K × W → Type 0
    Boots reply = (is_configured reply.0 ≡ true) × Kept reply.1

    by_import-Boots :
        (agent_id owner_id proxy_url pem : Text) (key : Try K) (w : W)
        → Kept w
        → Boots (by_import machine agent_id owner_id proxy_url pem (key, w))
    by_import-Boots agent_id owner_id proxy_url pem (ok key) w k = (refl, k)
    by_import-Boots agent_id owner_id proxy_url pem (threw m) w k = (refl, quiet.writes _ w k)

    by_pem-Boots :
        (agent_id owner_id proxy_url : Text) (pem : Try Text) (w : W)
        → Kept w
        → Boots (by_pem machine agent_id owner_id proxy_url pem w)
    by_pem-Boots agent_id owner_id proxy_url (threw m) w k = (refl, k)
    by_pem-Boots agent_id owner_id proxy_url (ok pem) w k =
        by_import-Boots agent_id owner_id proxy_url pem _ _ (quiet.imports pem w k)

    build_config-Boots :
        (agent_id owner_id proxy_url : Text) (w : W)
        → Kept w
        → Boots (build_config machine agent_id owner_id proxy_url w)
    unfolding build_config
    build_config-Boots agent_id owner_id proxy_url w k =
        by_pem-Boots agent_id owner_id proxy_url (read_private_key_from_env machine w) w k

    by_secret-Boots :
        (proxy_url secret : Option Text) (w : W)
        → is_some secret ≡ false
        → Kept w
        → Boots (by_secret machine proxy_url secret w)
    by_secret-Boots proxy_url none w h k = build_config-Boots _ _ _ _ (quiet.writes _ w k)
    by_secret-Boots proxy_url (some secret) w h k = cc

    by_disk-Boots :
        (agent_id owner_id proxy_url : Option Text) (identity : Option BoundIdentity) (key : Bool)
        (w : W)
        → (not (is_some identity && key) && is_some (env machine (codes "INVITE_BIND_SECRET")))
          ≡ false
        → Kept w
        → Boots (by_disk machine agent_id owner_id proxy_url identity key w)
    by_disk-Boots agent_id owner_id proxy_url (some identity) true w h k =
        build_config-Boots _ _ _ w k
    by_disk-Boots agent_id owner_id proxy_url (some identity) false w h k =
        by_secret-Boots proxy_url (env machine (codes "INVITE_BIND_SECRET")) w h k
    by_disk-Boots agent_id owner_id proxy_url none key w h k =
        by_secret-Boots proxy_url (env machine (codes "INVITE_BIND_SECRET")) w h k

    by_env-Boots :
        (agent_id owner_id proxy_url : Option Text) (w : W)
        → (not (is_some agent_id && is_some owner_id && is_some proxy_url)
            && not (on_disk w)
            && is_some (env machine (codes "INVITE_BIND_SECRET")))
          ≡ false
        → Kept w
        → Boots (by_env machine agent_id owner_id proxy_url w)
    by_env-Boots (some a) (some o) (some p) w h k = build_config-Boots a o p w k
    by_env-Boots (some a) (some o) none w h k = by_disk-Boots (some a) (some o) none _ _ w h k
    by_env-Boots (some a) none p w h k = by_disk-Boots (some a) none p _ _ w h k
    by_env-Boots none o p w h k = by_disk-Boots none o p _ _ w h k

    -- Where the environment or the disk holds an identity, or there is no invitation, the server
    -- starts with a configuration, and only imports a key and writes diagnostics for it: whatever
    -- these two keep of the world is kept, so no request is sent and no file is written.
    pub validate_config-Boots :
        (w : W) → binds w ≡ false → Kept w → Boots (validate_config machine w)
    unfolding validate_config
    validate_config-Boots w h k =
        by_env-Boots (env machine (codes "AGENT_ID")) (env machine (codes "OWNER_ID"))
          (env machine (codes "PROXY_URL")) w h k
