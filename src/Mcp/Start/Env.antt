-- ===== src/Mcp/Start/Env.antt =====
-- What the start of the server calls outside itself, and packages/mcp-server/src/pem.ts.
use agent_valet.Common.{Bool, Option, none, some, ◌++◌, Text, codes, truthy, if◌then◌else◌}
use agent_valet.Common.Js.{trim}
use agent_valet.Common.Environment.{env_or_null, unescape_lines, with_headers}
use agent_valet.Common.Effects.{Try, ok, threw, Stateful}
use agent_valet.Common.Json.{Json}
use agent_valet.Mcp.Net.{Request, Response}

-- What `fetch` does within its time limit.
pub data Fetched (B : Type 0) : Type 0 where
  answered : Response B → Fetched B
  aborted : Fetched B
  failed : Text → Fetched B

-- The world `W`, imported keys `K` and unread bodies `B`; the reads of files look at the world and
-- leave it as it is.
pub record Machine (W K B : Type 0) : Type 0 where
  pub env : Text → Option Text
  pub agentvalet_dir : Text
  pub key_path : Text
  pub identity_path : Text
  pub exists_sync : Text → W → Bool
  pub read_file : Text → W → Try Text
  pub make_dir : Text → Stateful {0, 0} W (Try Unit)
  pub write_file : Text → Text → Stateful {0, 0} W (Try Unit)
  pub generate_keys : Stateful W (Text × Text)
  pub fetch : Request → Stateful W (Fetched B)
  pub read_text : B → Stateful W (Try Text)
  pub now_iso : Stateful W Text
  pub import_key : Text → Stateful W (Try K)
  pub write_error : Text → W → W
  pub json_parse : Text → Try Json
  pub stringify : Json → Text
  pub shown : Json → Text
  pub decode_base_64 : Text → Text

abbrev pub trimmed : Try Text → Option Text
trimmed (ok t) = some (trim t)
trimmed (threw m) = none

module _ {W K B : Type 0} (machine : Machine W K B) where
  abbrev pub env : Text → Option Text
  env name = env_or_null (machine.env name)

  -- `readBoundPrivateKey`
  unfoldable pub read_bound_private_key : W → Option Text
  read_bound_private_key w =
      if machine.exists_sync machine.key_path w
      then trimmed (machine.read_file machine.key_path w)
      else none

  abbrev pub no_key : Text
  no_key =
      codes "No private key provided. Set AGENT_PRIVATE_KEY, AGENT_PRIVATE_KEY_PATH, or "
      ++ codes "AGENT_PRIVATE_KEY_B64, or run the invite-bind flow with INVITE_BIND_SECRET."

  abbrev pub by_disk : Option Text → Try Text
  by_disk none = threw no_key
  by_disk (some key) = if truthy key then ok key else threw no_key

  abbrev pub by_raw : W → Option Text → Try Text
  by_raw w (some raw) = ok (with_headers (unescape_lines raw))
  by_raw w none = by_disk (read_bound_private_key w)

  abbrev pub from_file : Try Text → Try Text
  from_file (ok text) = ok (trim text)
  from_file (threw m) = threw (codes "Cannot read AGENT_PRIVATE_KEY_PATH: " ++ m)

  abbrev pub by_path : W → Option Text → Try Text
  by_path w (some path) = from_file (machine.read_file path w)
  by_path w none = by_raw w (env (codes "AGENT_PRIVATE_KEY"))

  abbrev pub by_base_64 : W → Option Text → Try Text
  by_base_64 w (some encoded) = ok (trim (machine.decode_base_64 encoded))
  by_base_64 w none = by_path w (env (codes "AGENT_PRIVATE_KEY_PATH"))

  unfoldable pub read_private_key_from_env : W → Try Text
  read_private_key_from_env w = by_base_64 w (env (codes "AGENT_PRIVATE_KEY_B64"))
