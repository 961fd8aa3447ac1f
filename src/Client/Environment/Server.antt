-- ===== src/Client/Environment/Server.antt =====
-- The key that packages/client/src/env.ts finds, and the one of packages/mcp-server/src/pem.ts.
use agent_valet.Common.{
  false, Option, none, some, Text, codes, truthy, ◌≡◌, ◌↔◌, Bool-cases, inl, inr,
}
use agent_valet.Common.Js.{trim}
use agent_valet.Common.Effects.{Try, ok, threw}
use agent_valet.Client.Errors.{ClientError, Exit, returned, raised}
use agent_valet.Client.Environment.{
  Settings, read_env, private_key_from_env, by_base_64, by_path, by_raw, by_disk, from_file,
  read_disk_key, non_blank,
}
use agent_valet.Mcp.Start.Env
use agent_valet.Mcp.Start.Env.{Machine, read_private_key_from_env, read_bound_private_key}

-- both give the same key, or neither gives one
abbrev pub Agree : Exit Text → Try Text → Type 0
Agree mine theirs = (key : Text) → (mine ≡ returned key) ↔ (theirs ≡ ok key)

returned-Agree : (key : Text) → Agree (returned key) (ok key)
returned-Agree key k = (λ h. cc, λ h. cc)

module _ {W K B : Type 0} (machine : Machine W K B) where
  -- the client on the server's machine
  abbrev pub settings : Settings W
  settings = record {
    variable = machine.env;
    read_file = machine.read_file;
    key_path = machine.key_path;
    decode_base_64 = machine.decode_base_64;
  }

  -- No variable of the key is set under its longer name, and reading a missing file fails.
  pub record SetAlike (w : W) : Type 0 where
    pub no_base_64 : read_env settings (codes "AGENTVALET_AGENT_PRIVATE_KEY_B64") ≡ none
    pub no_path : read_env settings (codes "AGENTVALET_AGENT_PRIVATE_KEY_PATH") ≡ none
    pub no_key : read_env settings (codes "AGENTVALET_AGENT_PRIVATE_KEY") ≡ none
    pub missing_fails :
        machine.exists_sync machine.key_path w ≡ false
        → (m : Text) × (machine.read_file machine.key_path w ≡ threw m)

  failed-Agree : (e : ClientError) (m : Text) → Agree (raised e) (threw m)
  failed-Agree e m key = (λ h. cc, λ h. cc)

  read-Agree :
      (r : Try Text)
      → Agree (by_disk settings (non_blank settings r)) (Env.by_disk machine (Env.trimmed r))
  read-Agree (threw m) = failed-Agree _ _
  read-Agree (ok text) = elim (Bool-cases (truthy (trim text))) [
    | inl e ↦ rw e (returned-Agree (trim text))
    | inr e ↦ rw e (failed-Agree _ _)
  ]

  module _ (w : W) (alike : SetAlike w) where
    disk-Agree :
        Agree
          (by_disk settings (read_disk_key settings w))
          (Env.by_disk machine (read_bound_private_key machine w))
    unfolding read_bound_private_key
    disk-Agree = elim (Bool-cases (machine.exists_sync machine.key_path w)) [
      | inl e ↦ rw e (read-Agree (machine.read_file machine.key_path w))
      | inr e ↦ let (m, fails) = alike.missing_fails e in rw (e, fails) (failed-Agree _ _)
    ]

    raw-Agree : (raw : Option Text) → Agree (by_raw settings w raw) (Env.by_raw machine w raw)
    raw-Agree (some raw) = returned-Agree _
    raw-Agree none = disk-Agree

    file-Agree :
        (path : Text) (r : Try Text) → Agree (from_file settings path r) (Env.from_file machine r)
    file-Agree path (ok text) = returned-Agree (trim text)
    file-Agree path (threw m) = failed-Agree _ _

    path-Agree : (path : Option Text) → Agree (by_path settings w path) (Env.by_path machine w path)
    path-Agree (some path) = file-Agree path (machine.read_file path w)
    path-Agree none = rw alike.no_key (raw-Agree (read_env settings (codes "AGENT_PRIVATE_KEY")))

    base_64-Agree :
        (encoded : Option Text)
        → Agree (by_base_64 settings w encoded) (Env.by_base_64 machine w encoded)
    base_64-Agree (some encoded) = returned-Agree _
    base_64-Agree none =
        rw alike.no_path (path-Agree (read_env settings (codes "AGENT_PRIVATE_KEY_PATH")))

    -- Where no variable of the key is set under a name with the prefix AGENTVALET_, and a file that
    -- does not exist cannot be read, the client finds a key exactly where the server finds one, and
    -- it is the same key.
    pub private_key_from_env-Agree :
        Agree (private_key_from_env settings w) (read_private_key_from_env machine w)
    unfolding private_key_from_env read_private_key_from_env
    private_key_from_env-Agree =
        rw alike.no_base_64 (base_64-Agree (read_env settings (codes "AGENT_PRIVATE_KEY_B64")))
