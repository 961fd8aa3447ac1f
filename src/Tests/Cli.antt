-- ===== src/Tests/Cli.antt =====
-- packages/cli/src/config/ide.ts and wait.ts on concrete inputs.
use agent_valet.Common.{
  suc, List, ◌∷◌, map, false, none, some, [], Text, codes, ◌===◌, ◌≡◌, refl, if◌then◌else◌,
}
use agent_valet.Common.Effects.{Try, ok, threw}
use agent_valet.Common.Json.{Json, null, string, object, Fields, no_fields, field}
use agent_valet.Cli.Wait.{chunk, read_stream}
use agent_valet.Cli.Wait.Chunks.{read_stream-concat, concat}
use agent_valet.Cli.Ide.{Host, agentvalet_key, servers_key, merged, stripped}
use agent_valet.Cli.Ide.Merged.{merged-Keeps, stripped-merged, Keeps, server}

abbrev host : Host Text
host = record {
  home = codes "h";
  cwd = codes "c";
  join = λ dir name. dir;
  exists_sync = λ path w. false;
  read_file = λ path w. (threw (codes "ENOENT"), w);
  write_file = λ path text w. (ok tt, text);
  append_file = λ path text w. (ok tt, text);
  copy_file = λ from to w. (ok tt, w);
  make_dir = λ path w. (ok tt, w);
  warn = λ message w. w;
  json_parse = λ text. ok null;
  stringify = λ v. [];
  type_error = λ v. [];
}

abbrev other_server : Fields
other_server = field (codes "other") (object no_fields) no_fields

abbrev file : Fields
file =
    field (codes "theme") (string (codes "dark"))
      (field servers_key (object other_server) no_fields)

abbrev entry : Json
entry = object no_fields

merged-Keeps_example :
    (after : Json) × (merged host agentvalet_key entry (object file) ≡ ok after)
    × Keeps host file other_server
        (λ name. if agentvalet_key === name then some entry else server name (object file))
        after
unfolding ◌===◌
merged-Keeps_example = merged-Keeps host file other_server agentvalet_key entry refl

abbrev both_servers : Fields
both_servers = field (codes "other") (object no_fields) (field agentvalet_key entry no_fields)

abbrev after : Json
after = object (
    field (codes "theme") (string (codes "dark"))
      (field servers_key (object both_servers) no_fields))

stripped-merged_example :
    (final : Json) × (stripped host after ≡ some final)
    × Keeps host file other_server
        (λ name. if agentvalet_key === name then none else server name (object file))
        final
unfolding merged ◌===◌
stripped-merged_example = stripped-merged host file other_server entry after refl refl refl

abbrev event : Text → Try Json
event text = ok (object (field (codes "status") (string (codes "rejected")) no_fields))

abbrev texts : List Text
texts = codes ": ping\nda" ∷ codes "ta: {}\n" ∷ []

read_stream-concat_example :
    read_stream event (λ n. suc n) [] (map (λ t. chunk t) texts) 0
    ≡ read_stream event (λ n. suc n) [] (chunk (concat texts) ∷ []) 0
read_stream-concat_example = read_stream-concat event (λ n. suc n) texts 0
