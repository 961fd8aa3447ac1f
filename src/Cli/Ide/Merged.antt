-- ===== src/Cli/Ide/Merged.antt =====
-- What merging and stripping of packages/cli/src/config/ide.ts do to the servers of a file.
use agent_valet.Common.{
  true, false, Option, none, some, Text, ◌===◌, ===_iff, ===_refl, ◌≡◌, refl, sym, ap, ◌∙◌,
  Bool-cases, inl, inr, arith, if◌then◌else◌,
}
use agent_valet.Common.Effects.{ok}
use agent_valet.Common.Json.{
  Json, null, boolean, number, string, array, object, Fields, no_fields, field, get, property,
  is_truthy,
}
use agent_valet.Cli.Ide.{
  Host, put, delete, servers_key, agentvalet_key, servers_or_empty, merged, stripped,
}

get-put :
    (key other : Text) (v : Json) (fs : Fields)
    → get other (put key v fs) ≡ (if key === other then some v else get other fs)
get-put key other v no_fields = refl
get-put key other v (field k u rest) =
    ground (arith, get-put key other v rest, ===_iff k key, ===_iff key other, ===_iff k other)

get-delete :
    (key other : Text) (fs : Fields)
    → get other (delete key fs) ≡ (if key === other then none else get other fs)
get-delete key other no_fields = ground arith
get-delete key other (field k u rest) =
    ground (arith, get-delete key other rest, ===_iff k key, ===_iff key other, ===_iff k other)

-- The servers of a file, of which one that is not an object has none.
abbrev fields_of : Option Json → Fields
fields_of (some (object servers)) = servers
fields_of _ = no_fields

abbrev pub server : Text → Json → Option Json
server name file = get name (fields_of (property servers_key file))

abbrev with_new_servers : Fields → Fields → Json
with_new_servers servers fs = object (put servers_key (object servers) fs)

-- Every key but the one of the servers is as before.
abbrev OthersKept : Json → Json → Type 0
OthersKept before after =
    (key : Text) → (servers_key === key) ≡ false → property key after ≡ property key before

new_servers :
    (servers fs : Fields)
    → get servers_key (put servers_key (object servers) fs) ≡ some (object servers)
new_servers servers fs =
    get-put servers_key servers_key (object servers) fs ∙ rw (===_refl servers_key)

server-new :
    (name : Text) (servers fs : Fields)
    → server name (with_new_servers servers fs) ≡ get name servers
server-new name servers fs = ap (λ o. get name (fields_of o)) (new_servers servers fs)

new-OthersKept : (servers fs : Fields) → OthersKept (object fs) (with_new_servers servers fs)
new-OthersKept servers fs key e = get-put servers_key key (object servers) fs ∙ rw e

module _ {W : Type 0} (host : Host W) (fs servers : Fields) where
  fields_of-servers :
      (found : Option Json)
      → servers_or_empty host found ≡ object servers
      → fields_of found ≡ servers
  fields_of-servers none h = cc
  fields_of-servers (some null) h = cc
  fields_of-servers (some (object ss)) h = cc
  fields_of-servers (some (boolean b)) h = cc
  fields_of-servers (some (number n)) h = cc
  fields_of-servers (some (string t)) h = cc
  fields_of-servers (some (array xs)) h = cc

  -- the file that is written, and what it says of its servers
  abbrev pub Keeps : (Text → Option Json) → Json → Type 0
  Keeps wanted after =
      ((name : Text) → server name after ≡ wanted name) × OthersKept (object fs) after

  module _ (key : Text) (value : Json)
      (plain : servers_or_empty host (get servers_key fs) ≡ object servers) where
    merged-new :
        merged host key value (object fs) ≡ ok (with_new_servers (put key value servers) fs)
    unfolding merged
    merged-new = rw plain refl

    -- Merging an entry into a file that is an object, with servers that are absent, null or an
    -- object, makes the entry the server of its name, and leaves every other server and every other
    -- key of the file as it was.
    pub merged-Keeps :
        (after : Json) × (merged host key value (object fs) ≡ ok after)
        × Keeps (λ name. if key === name then some value else server name (object fs)) after
    merged-Keeps = (
      with_new_servers (put key value servers) fs,
      merged-new,
      (
        (λ name.
            server-new name (put key value servers) fs
            ∙ get-put key name value servers
            ∙ ap (λ ss. if key === name then some value else get name ss)
                (sym (fields_of-servers (get servers_key fs) plain))),
        new-OthersKept (put key value servers) fs,
      ),
    )

  module _ (value : Json)
      (plain : servers_or_empty host (get servers_key fs) ≡ object servers) where
    abbrev added : Fields
    added = put agentvalet_key value servers

    abbrev config : Fields
    config = put servers_key (object added) fs

    abbrev final : Json
    final = with_new_servers (delete agentvalet_key added) config

    stripped-config : is_truthy (some value) ≡ true → stripped host (object config) ≡ some final
    unfolding stripped
    stripped-config real =
        rw
          (
            new_servers added fs,
            get-put agentvalet_key agentvalet_key value servers,
            ===_refl agentvalet_key,
            real,
          )
          refl

    server-final :
        (name : Text)
        → server name final ≡ (if agentvalet_key === name then none else server name (object fs))
    server-final name =
        server-new name (delete agentvalet_key added) config
        ∙ get-delete agentvalet_key name added
        ∙ elim (Bool-cases (agentvalet_key === name)) [
          | inl e ↦ rw e refl
          | inr e ↦ rw e (
              get-put agentvalet_key name value servers
              ∙ rw e (ap (λ ss. get name ss) (sym (fields_of-servers (get servers_key fs) plain))))
        ]

    final-Keeps :
        Keeps (λ name. if agentvalet_key === name then none else server name (object fs)) final
    final-Keeps = (
      server-final,
      λ key e.
          new-OthersKept (delete agentvalet_key added) config key e ∙ new-OthersKept added fs key e,
    )

  -- Stripping a file that was merged with an entry for AgentValet that is truthy writes a file again,
  -- in which AgentValet has no entry, and every other server and every other key of the file is as
  -- it was before the merge.
  pub stripped-merged :
      (value after : Json)
      → servers_or_empty host (get servers_key fs) ≡ object servers
      → is_truthy (some value) ≡ true
      → merged host agentvalet_key value (object fs) ≡ ok after
      → (final : Json) × (stripped host after ≡ some final)
        × Keeps (λ name. if agentvalet_key === name then none else server name (object fs)) final
  stripped-merged value after plain real h =
      let writes = merged-new agentvalet_key value plain in
      let same : with_new_servers (added value plain) fs ≡ after = cc in
      (
        final value plain,
        ap (λ file. stripped host file) (sym same) ∙ stripped-config value plain real,
        final-Keeps value plain,
      )
