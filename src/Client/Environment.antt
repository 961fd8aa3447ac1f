-- ===== src/Client/Environment.antt =====
-- packages/client/src/env.ts, and `fromEnv` of packages/client/src/client.ts. The environment, the
-- files and base64 are parameters.
pub mod Server
use agent_valet.Common.{
  ℕ, Bool, ◌&&◌, not, Option, none, some, ◌++◌, Text, codes, truthy, or_else, if◌then◌else◌,
}
use agent_valet.Common.Environment.{env_or_null, unescape_lines, with_headers}
use agent_valet.Common.Js.{trim, drop_slash}
use agent_valet.Common.Effects.{Try, ok, threw}
use agent_valet.Client.Errors.{config_error, Exit, returned, raised}
use agent_valet.Client.Transport.{AgentValet, new_client, default_proxy_url}

-- `a ?? b`, where `b` may be null too
abbrev or_option : Option Text → Option Text → Option Text
or_option none b = b
or_option (some a) b = some a

-- `overrides`, each of whose fields may be left out
pub record Overrides : Type 0 where
  pub agent_id : Option Text
  pub owner_id : Option Text
  pub private_key : Option Text
  pub proxy_url : Option Text
  pub timeout_ms : Option ℕ
  pub approval_timeout_ms : Option ℕ
  pub approval_poll_ms : Option ℕ

-- What is read outside the client, over a world `W` that the reads leave as it is.
pub record Settings (W : Type 0) : Type 0 where
  pub variable : Text → Option Text
  pub read_file : Text → W → Try Text
  pub key_path : Text
  pub decode_base_64 : Text → Text

module _ {W : Type 0} (settings : Settings W) where
  abbrev pub read_env : Text → Option Text
  read_env name = env_or_null (settings.variable name)

  abbrev read_either : Text → Option Text
  read_either suffix = or_option (read_env (codes "AGENTVALET_" ++ suffix)) (read_env suffix)

  abbrev agent_id_from_env : Option Text
  agent_id_from_env = read_either (codes "AGENT_ID")

  abbrev owner_id_from_env : Option Text
  owner_id_from_env = read_either (codes "OWNER_ID")

  abbrev proxy_url_from_env : Text
  proxy_url_from_env = drop_slash (or_else (read_either (codes "PROXY_URL")) default_proxy_url)

  abbrev pub non_blank : Try Text → Option Text
  non_blank (ok text) = if truthy (trim text) then some (trim text) else none
  non_blank (threw m) = none

  abbrev pub read_disk_key : W → Option Text
  read_disk_key w = non_blank (settings.read_file settings.key_path w)

  abbrev pub by_disk : Option Text → Exit Text
  by_disk (some key) = returned key
  by_disk none = raised (
      config_error (
        codes "No private key found. Set AGENT_PRIVATE_KEY, AGENT_PRIVATE_KEY_PATH, or"
        ++ (codes " AGENT_PRIVATE_KEY_B64, or run `npx @agentvalet/register` to create an agent"
            ++ codes " and write ~/.agentvalet/agent.key.")))

  abbrev pub by_raw : W → Option Text → Exit Text
  by_raw w (some raw) = returned (with_headers (unescape_lines raw))
  by_raw w none = by_disk (read_disk_key w)

  abbrev pub from_file : Text → Try Text → Exit Text
  from_file path (ok text) = returned (trim text)
  from_file path (threw m) =
      raised (
        config_error (codes "Cannot read AGENT_PRIVATE_KEY_PATH (" ++ (path ++ (codes "): " ++ m))))

  abbrev pub by_path : W → Option Text → Exit Text
  by_path w (some path) = from_file path (settings.read_file path w)
  by_path w none = by_raw w (read_either (codes "AGENT_PRIVATE_KEY"))

  abbrev pub by_base_64 : W → Option Text → Exit Text
  by_base_64 w (some encoded) = returned (trim (settings.decode_base_64 encoded))
  by_base_64 w none = by_path w (read_either (codes "AGENT_PRIVATE_KEY_PATH"))

  unfoldable pub private_key_from_env : W → Exit Text
  private_key_from_env w = by_base_64 w (read_either (codes "AGENT_PRIVATE_KEY_B64"))

  abbrev key_or_env : W → Option Text → Exit Text
  key_or_env w (some key) = returned key
  key_or_env w none = private_key_from_env w

  abbrev pub with_key : Overrides → Text → Text → Exit Text → Exit AgentValet
  with_key overrides agent_id owner_id (raised e) = raised e
  with_key overrides agent_id owner_id (returned key) = new_client (record {
    agent_id = agent_id;
    owner_id = owner_id;
    private_key = key;
    proxy_url = some (or_else overrides.proxy_url proxy_url_from_env);
    timeout_ms = overrides.timeout_ms;
    approval_timeout_ms = overrides.approval_timeout_ms;
    approval_poll_ms = overrides.approval_poll_ms;
  })

  abbrev pub not_found : Exit AgentValet
  not_found = raised (
      config_error (
        codes "AgentValet identity not found in the environment. Set AGENTVALET_AGENT_ID and "
        ++ (codes "AGENTVALET_OWNER_ID (or AGENT_ID / OWNER_ID), or run"
            ++ codes " `npx @agentvalet/register`.")))

  abbrev identified : Overrides → W → Option Text → Option Text → Exit AgentValet
  identified overrides w (some agent_id) (some owner_id) =
      if truthy agent_id && truthy owner_id
      then with_key overrides agent_id owner_id (key_or_env w overrides.private_key)
      else not_found
  identified overrides w _ _ = not_found

  unfoldable from_env : Overrides → W → Exit AgentValet
  unfolding private_key_from_env
  from_env overrides w =
      identified overrides w (or_option overrides.agent_id agent_id_from_env)
        (or_option overrides.owner_id owner_id_from_env)
