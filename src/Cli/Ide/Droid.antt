-- ===== src/Cli/Ide/Droid.antt =====
-- packages/cli/src/config/ide.ts: Factory Droid's files, and the entries of the project.
use agent_valet.Common.{Bool, Option, none, some, List, [], ◌∷◌, ◌++◌, Text, codes, if◌then◌else◌}
use agent_valet.Common.Js.{contains}
use agent_valet.Common.Effects.{Try, ok, threw, Stateful}
use agent_valet.Common.Throwing.{Io, ◌>>=◌, give, raise}
use agent_valet.Common.Json.{Json, null, object, no_fields, get, property, is_truthy}
use agent_valet.Client.Approval.{null_read}
use agent_valet.Mcp.Net.{dash}
use agent_valet.Cli.Ide.ClaudeMd.{lines_text}
use agent_valet.Cli.Ide.{
  Host, McpParams, ConfigScope, user, project, agentvalet_key, assigned, build_mcp_entry, delete,
  read_json, rewrite_file, strip_agentvalet_from_mcp_json, write_result,
}

module _ {W : Type 0} (host : Host W) where
  -- the flat file of Factory Droid
  abbrev flat_stripped : Json → Option Json
  flat_stripped (object config) =
      if is_truthy (get agentvalet_key config)
      then some (object (delete agentvalet_key config))
      else none
  flat_stripped _ = none

  abbrev noted : Bool → Text → List Text
  noted written what = if written then what ∷ [] else []

  abbrev pub in_cwd : Text → Text
  in_cwd name = host.join host.cwd name

  -- the entries that were removed
  unfoldable pub clean_project_scoped_entries : Stateful W (List Text)
  unfolding strip_agentvalet_from_mcp_json
  clean_project_scoped_entries w =
      let (a, w1) = strip_agentvalet_from_mcp_json host (in_cwd (codes ".mcp.json")) w in
      let (b, w2) = strip_agentvalet_from_mcp_json host (in_cwd (codes ".cursor/mcp.json")) w1 in
      let (c, w3) = rewrite_file host flat_stripped (in_cwd (codes ".factory/mcp.json")) w2 in
      (
        noted a (codes ".mcp.json (project entry removed)")
            ++ (noted b (codes ".cursor/mcp.json (project entry removed)")
                ++ noted c (codes ".factory/mcp.json (project entry removed)")),
        w3,
      )

  -- a file that cannot be read or parsed is copied, and counts as empty
  abbrev or_backup : Text → Try Json → Io W Json
  or_backup path (ok v) = give v
  or_backup path (threw m) = do
    kept ← host.copy_file path (path ++ codes ".backup")
    give (object no_fields)

  abbrev existing_or_backup : Text → Io W Json
  existing_or_backup path w =
      if host.exists_sync path w
      then (let (parsed, w') = read_json host path w in or_backup path parsed w')
      else (ok (object no_fields), w)

  -- an entry that is there stays
  abbrev unless_configured : Text → Text → Json → Json → Io {0, 0} W Unit
  unless_configured path key value null = raise (null_read key)
  unless_configured path key value existing =
      if is_truthy (property key existing)
      then give tt
      else write_result host path (assigned host key value existing)

  unfoldable merge_factory_droid_mcp_json : Text → Text → Json → Io {0, 0} W Unit
  merge_factory_droid_mcp_json path key value = do
    existing ← existing_or_backup path
    unless_configured path key value existing

  -- `catch (err) { console.warn(...) }`, and what the list of written files gets
  abbrev pub or_warn : Text → Text → Try (Unit {0}) × W → List Text × W
  or_warn warning what (ok done, w) = (what ∷ [], w)
  or_warn warning what (threw m, w) = ([], host.warn (warning ++ m) w)

  abbrev pub could_not : Text → Text
  could_not name = codes "  Warning: could not write " ++ (name ++ codes ": ")

  abbrev gitignore_text : Text
  gitignore_text = lines_text (
      []
      ∷ (codes "# Factory Droid" ++ (dash ++ codes "private key in MCP config"))
      ∷ codes ".factory/mcp.json"
      ∷ []
      ∷ (codes "# Factory Droid" ++ (dash ++ codes "commit these:"))
      ∷ codes "# .factory/droids/"
      ∷ codes "# .factory/commands/"
      ∷ [])

  abbrev unless_ignored : Text → Try Text → Io {0, 0} W Unit
  unless_ignored path (threw m) = raise m
  unless_ignored path (ok existing) =
      if contains (codes ".factory/mcp.json") existing
      then give tt
      else host.append_file path gitignore_text

  abbrev update_gitignore_for_factory_droid : W → W
  update_gitignore_for_factory_droid w =
      let path = in_cwd (codes ".gitignore") in
      if host.exists_sync path w
      then (let (text, w') = host.read_file path w in (unless_ignored path text w').1)
      else w

  abbrev droid_in : Text → Text → McpParams → Stateful W (List Text)
  droid_in dir shown params w = or_warn (could_not shown) shown (
      (do
        made ← host.make_dir dir
        merge_factory_droid_mcp_json (host.join dir (codes "mcp.json")) agentvalet_key
            (build_mcp_entry params))
        w)

  unfoldable pub write_factory_droid_config : McpParams → ConfigScope → Stateful W (List Text)
  unfolding merge_factory_droid_mcp_json
  write_factory_droid_config params user w =
      droid_in (host.join host.home (codes ".factory")) (codes "~/.factory/mcp.json") params w
  write_factory_droid_config params project w =
      let (written, w') =
        droid_in (in_cwd (codes ".factory")) (codes ".factory/mcp.json") params w in
      (written, update_gitignore_for_factory_droid w')
