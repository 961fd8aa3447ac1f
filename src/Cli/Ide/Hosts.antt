-- ===== src/Cli/Ide/Hosts.antt =====
-- packages/cli/src/config/ide.ts: the files of each host, and `writeIdeConfigs`.
use agent_valet.Common.{
  Bool, true, false, not, ◌||◌, List, [], ◌∷◌, ◌++◌, Text, codes, ◌==◌, if◌then◌else◌,
}
use agent_valet.Common.Js.{contains}
use agent_valet.Common.Effects.{Try, ok, threw, Stateful}
use agent_valet.Common.Throwing.{Io, ◌>>=◌, give}
use agent_valet.Mcp.Net.{dash}
use agent_valet.Cli.Ide.ClaudeMd.{build_claude_md, lines_text}
use agent_valet.Cli.Ide.{
  Host, McpParams, DetectedFrameworks, ConfigScope, user, project, agentvalet_key, build_mcp_entry,
  merge_json_file,
}
use agent_valet.Cli.Ide.Droid.{
  clean_project_scoped_entries, could_not, in_cwd, or_warn, write_factory_droid_config,
}

module _ {W : Type 0} (host : Host W) where
  abbrev merge_into : Text → McpParams → Io {0, 0} W Unit
  merge_into path params = merge_json_file host path agentvalet_key (build_mcp_entry params)

  abbrev claude_user : McpParams → Stateful W (List Text)
  claude_user params w =
      let shown = codes "~/.claude.json" in
      or_warn host (could_not host shown) shown
        (merge_into (host.join host.home (codes ".claude.json")) params w)

  abbrev cursor_in : Text → Text → McpParams → Stateful W (List Text)
  cursor_in dir shown params w =
      or_warn host (could_not host shown) shown
        ((do made ← host.make_dir dir; merge_into (host.join dir (codes "mcp.json")) params) w)

  abbrev claude_project_mcp : McpParams → Stateful W (List Text)
  claude_project_mcp params w =
      let shown = codes ".mcp.json" in
      or_warn host (could_not host shown) shown (merge_into (in_cwd host shown) params w)

  abbrev claude_md : McpParams → Stateful W (List Text)
  claude_md params w =
      let shown = codes "CLAUDE.md" in
      if host.exists_sync (in_cwd host shown) w
      then ((shown ++ (codes " (already exists" ++ (dash ++ codes "skipped)"))) ∷ [], w)
      else or_warn host (could_not host shown) shown (
          host.write_file (in_cwd host shown)
            (build_claude_md params.agent_id params.owner_id params.proxy_url) w)

  -- `replace(/\\/g, '/')`
  abbrev slashed : Text → Text
  slashed [] = []
  slashed (c ∷ cs) = (if c == 92 then b'/' else c) ∷ slashed cs

  abbrev quoted_value : Text → Text
  quoted_value s = 34 ∷ (s ++ (34 ∷ []))

  abbrev build_codex_toml_block : McpParams → Text
  build_codex_toml_block params = lines_text (
      []
      ∷ codes "[mcp_servers.agentvalet]"
      ∷ (codes "command = " ++ quoted_value (codes "npx"))
      ∷ (codes "args = ["
          ++ (quoted_value (codes "-y")
              ++ (codes ", "
                  ++ (quoted_value (codes "@agentvalet/register")
                      ++ (codes ", " ++ (quoted_value (codes "mcp-server") ++ codes "]"))))))
      ∷ (codes "env = { AGENT_ID = "
          ++ (quoted_value params.agent_id
              ++ (codes ", OWNER_ID = "
                  ++ (quoted_value params.owner_id
                      ++ (codes ", PROXY_URL = "
                          ++ (quoted_value params.proxy_url
                              ++ (codes ", AGENT_PRIVATE_KEY_PATH = "
                                  ++ (quoted_value (slashed params.key_path) ++ codes " }"))))))))
      ∷ [])

  abbrev text_or_empty : Text → Io W Text
  text_or_empty path w = if host.exists_sync path w then host.read_file path w else (ok [], w)

  abbrev ensure_dir : Text → Io {0, 0} W Unit
  ensure_dir dir w = if host.exists_sync dir w then (ok tt, w) else host.make_dir dir w

  -- `appendCodexConfig`: whether the block is still to be written
  unfoldable append_codex_config : Text → Text → Io W Bool
  append_codex_config dir path = do
    made ← ensure_dir dir
    existing ← text_or_empty path
    give (not (contains (codes "[mcp_servers.agentvalet]") existing))

  abbrev append_if : Text → McpParams → Text → Bool → Io W (List Text)
  append_if path params shown false = give []
  append_if path params shown true = do
    done ← host.append_file path (build_codex_toml_block params)
    give (shown ∷ [])

  abbrev list_or_warn : Text → Try (List Text) × W → List Text × W
  list_or_warn warning (ok written, w) = (written, w)
  list_or_warn warning (threw m, w) = ([], host.warn (warning ++ m) w)

  -- `writeGlobalFrameworkConfigs`
  unfoldable write_global_framework_configs : McpParams → Stateful W (List Text)
  unfolding append_codex_config
  write_global_framework_configs params w =
      let dir = host.join host.home (codes ".codex") in
      let path = host.join dir (codes "config.toml") in
      list_or_warn (codes "  Warning: could not write Codex config: ") (
        (do
          made ← ensure_dir dir
          missing ← append_codex_config dir path
          append_if path params (codes "~/.codex/config.toml") missing)
          w)

  unfoldable write_codex_project_config : McpParams → Stateful W (List Text)
  unfolding append_codex_config
  write_codex_project_config params w =
      let dir = in_cwd host (codes ".codex") in
      let path = host.join dir (codes "config.toml") in
      list_or_warn (could_not host (codes ".codex/config.toml")) (
        (do
          missing ← append_codex_config dir path
          append_if path params (codes ".codex/config.toml") missing)
          w)

  abbrev if_detected : Bool → Stateful W (List Text) → Stateful W (List Text)
  if_detected found write w = if found then write w else ([], w)

  abbrev and_then : Stateful W (List Text) → Stateful W (List Text) → Stateful W (List Text)
  and_then first next w = let (a, w') = first w in let (b, w'') = next w' in (a ++ b, w'')

  -- `writeIdeConfigs`: the names of the files written, in order
  unfoldable write_ide_configs :
      McpParams → DetectedFrameworks → ConfigScope → Stateful W (List Text)
  unfolding merge_json_file write_factory_droid_config clean_project_scoped_entries
      write_codex_project_config
  write_ide_configs params detected user =
      and_then (if_detected detected.claude_code (claude_user params)) (
        and_then
          (if_detected (detected.cursor || detected.cursor_cli)
            (cursor_in (host.join host.home (codes ".cursor")) (codes "~/.cursor/mcp.json") params))
          (and_then
            (if_detected detected.factory_droid (write_factory_droid_config host params user))
            (clean_project_scoped_entries host)))
  write_ide_configs params detected project =
      and_then
        (if_detected detected.claude_code (and_then (claude_project_mcp params) (claude_md params)))
        (and_then
          (if_detected (detected.cursor || detected.cursor_cli)
            (cursor_in (in_cwd host (codes ".cursor")) (codes ".cursor/mcp.json") params))
          (and_then
            (if_detected detected.factory_droid (write_factory_droid_config host params project))
            (if_detected (detected.codex || detected.codex_desktop)
              (write_codex_project_config params))))
