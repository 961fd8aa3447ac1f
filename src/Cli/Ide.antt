-- ===== src/Cli/Ide.antt =====
-- packages/cli/src/config/ide.ts: the MCP configuration of the hosts. The file system, the JSON
-- text and the warnings on the console are parameters.
pub mod Merged
pub mod ClaudeMd
pub mod Droid
pub mod Hosts
use agent_valet.Common.{
  Bool, true, false, not, ◌&&◌, ◌||◌, Option, none, some, List, [], ◌∷◌, ◌++◌, Text, codes, ◌===◌,
  ◌==◌, if◌then◌else◌,
}
use agent_valet.Common.Js.{contains}
use agent_valet.Common.Effects.{Try, ok, threw, Stateful}
use agent_valet.Common.Throwing.{Io, ◌>>=◌, give, raise}
use agent_valet.Common.Json.{
  Json, null, boolean, number, string, array, object, Items, no_items, item, Fields, no_fields,
  field, get, property, is_truthy,
}
use agent_valet.Client.Approval.{null_read}
use agent_valet.Mcp.Net.{dash}

-- What the configuration is written for.
pub record McpParams : Type 0 where
  pub agent_id : Text
  pub owner_id : Text
  pub proxy_url : Text
  pub key_path : Text

pub record DetectedFrameworks : Type 0 where
  pub codex : Bool
  pub codex_desktop : Bool
  pub claude_code : Bool
  pub cursor : Bool
  pub cursor_cli : Bool
  pub openclaw : Bool
  pub factory_droid : Bool

pub data ConfigScope : Type 0 where
  user project : ConfigScope

-- The world `W`; `type_error` is the message of a property that cannot be set on a value.
pub record Host (W : Type 0) : Type 0 where
  pub home : Text
  pub cwd : Text
  pub join : Text → Text → Text
  pub exists_sync : Text → W → Bool
  pub read_file : Text → Stateful W (Try Text)
  pub write_file : Text → Text → Stateful {0, 0} W (Try Unit)
  pub append_file : Text → Text → Stateful {0, 0} W (Try Unit)
  pub copy_file : Text → Text → Stateful {0, 0} W (Try Unit)
  pub make_dir : Text → Stateful {0, 0} W (Try Unit)
  pub warn : Text → W → W
  pub json_parse : Text → Try Json
  pub stringify : Json → Text
  pub type_error : Json → Text

abbrev pub build_mcp_entry : McpParams → Json
build_mcp_entry params = object (
    field (codes "command") (string (codes "npx")) (
      field (codes "args")
        (array (
          item (string (codes "-y")) (
            item (string (codes "@agentvalet/register"))
              (item (string (codes "mcp-server")) no_items))))
        (field (codes "env")
          (object (
            field (codes "AGENT_ID") (string params.agent_id) (
              field (codes "OWNER_ID") (string params.owner_id) (
                field (codes "PROXY_URL") (string params.proxy_url)
                  (field (codes "AGENT_PRIVATE_KEY_PATH") (string params.key_path) no_fields)))))
          no_fields)))

-- `existing[key] = value`
abbrev pub put : Text → Json → Fields → Fields
put key value no_fields = field key value no_fields
put key value (field k v rest) =
    let more = put key value rest in if k === key then field k value rest else field k v more

-- `delete existing[key]`
abbrev pub delete : Text → Fields → Fields
delete key no_fields = no_fields
delete key (field k v rest) =
    let more = delete key rest in if k === key then more else field k v more

abbrev pub servers_key : Text
servers_key = codes "mcpServers"

abbrev pub agentvalet_key : Text
agentvalet_key = codes "agentvalet"

module _ {W : Type 0} (host : Host W) where
  -- `JSON.stringify(value, null, 2) + '\n'`, written
  abbrev write_json : Text → Json → Io {0, 0} W Unit
  write_json path value = host.write_file path (host.stringify value ++ (10 ∷ []))

  abbrev pub read_json : Text → Io W Json
  read_json path = do text ← host.read_file path; λ w. (host.json_parse text, w)

  -- `a[key] = value`: an array takes it and is written without it, a primitive throws
  abbrev pub assigned : Text → Json → Json → Try Json
  assigned key value (object fs) = ok (object (put key value fs))
  assigned key value (array xs) = ok (array xs)
  assigned key value v = threw (host.type_error v)

  -- `config.mcpServers ?? {}`
  abbrev pub servers_or_empty : Option Json → Json
  servers_or_empty none = object no_fields
  servers_or_empty (some null) = object no_fields
  servers_or_empty (some v) = v

  abbrev with_servers : Json → Try Json → Try Json
  with_servers existing (ok servers) = assigned servers_key servers existing
  with_servers existing (threw m) = threw m

  -- what `mergeJsonFile` writes over a parsed file
  unfoldable pub merged : Text → Json → Json → Try Json
  merged key value null = threw (null_read servers_key)
  merged key value existing =
      with_servers existing (assigned key value (servers_or_empty (property servers_key existing)))

  abbrev parsed_or_empty : Try Json → Json
  parsed_or_empty (ok v) = v
  parsed_or_empty (threw m) = object no_fields

  abbrev existing_json : Text → Stateful W Json
  existing_json path w =
      if host.exists_sync path w
      then (let (parsed, w') = read_json path w in (parsed_or_empty parsed, w'))
      else (object no_fields, w)

  abbrev pub write_result : Text → Try Json → Io {0, 0} W Unit
  write_result path (ok value) = write_json path value
  write_result path (threw m) = raise m

  unfoldable pub merge_json_file : Text → Text → Json → Io {0, 0} W Unit
  unfolding merged
  merge_json_file path key value w =
      let (existing, w') = existing_json path w in write_result path (merged key value existing) w'

  -- the servers without the entry, where there is one
  abbrev without_entry : Fields → Option Fields
  without_entry servers =
      if is_truthy (get agentvalet_key servers) then some (delete agentvalet_key servers) else none

  abbrev with_stripped : Fields → Option Fields → Option Json
  with_stripped config none = none
  with_stripped config (some servers) = some (object (put servers_key (object servers) config))

  abbrev stripped_servers : Option Json → Option Fields
  stripped_servers (some (object servers)) = without_entry servers
  stripped_servers _ = none

  -- what `stripAgentvaletFromMcpJson` writes over a parsed file; only an object has servers
  unfoldable pub stripped : Json → Option Json
  stripped (object config) = with_stripped config (stripped_servers (get servers_key config))
  stripped _ = none

  abbrev is_done : Try (Unit {0}) → Bool
  is_done (ok done) = true
  is_done (threw m) = false

  -- the write at the end of a `try` whose `catch` returns false
  abbrev write_stripped : Text → Option Json → Stateful W Bool
  write_stripped path none w = (false, w)
  write_stripped path (some config) w = let (r, w') = write_json path config w in (is_done r, w')

  abbrev rewrite : (Json → Option Json) → Text → Try Json → Stateful W Bool
  rewrite change path (threw m) w = (false, w)
  rewrite change path (ok config) w = write_stripped path (change config) w

  -- reads, changes and writes a file, where it exists; whether it was written
  abbrev pub rewrite_file : (Json → Option Json) → Text → Stateful W Bool
  rewrite_file change path w =
      if host.exists_sync path w
      then (let (config, w') = read_json path w in rewrite change path config w')
      else (false, w)

  unfoldable pub strip_agentvalet_from_mcp_json : Text → Stateful W Bool
  unfolding stripped
  strip_agentvalet_from_mcp_json path = rewrite_file stripped path
