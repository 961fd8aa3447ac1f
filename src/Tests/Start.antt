-- ===== src/Tests/Start.antt =====
-- packages/mcp-server/src/bind.ts and config.ts on a machine with two files.
use agent_valet.Common.{
  ℕ, zero, suc, true, Option, none, some, [], ◌∷◌, ◌++◌, Text, codes, ◌===◌, ===_iff, length,
  is_some, or_else, ◌≡◌, ◌≢◌, refl, sym, ap, subst, ◌∙◌, if◌then◌else◌, Bool-cases, inl, inr,
}
use agent_valet.Common.Js.{is_space}
use agent_valet.Common.Environment.{env_or_null}
use agent_valet.Common.Effects.{Try, ok, threw}
use agent_valet.Common.Json.{Json, string, object, field, Fields}
use agent_valet.Mcp.Start.Env.{
  read_private_key_from_env, Machine, answered, env, read_bound_private_key,
}
use agent_valet.Mcp.Start.Bind.{
  BoundIdentity, identity_json, attempt_invite_bind, read_bound_identity,
}
use agent_valet.Mcp.Start.Binding.{Lawful, validate_config-bound}
use agent_valet.Mcp.Start.Config.{build_config, validate_config}
use agent_valet.Client.Environment.{private_key_from_env}
use agent_valet.Client.Environment.Server.{Agree, SetAlike, settings, private_key_from_env-Agree}
use agent_valet.Mcp.Start.Sources.{Quiet, is_configured, validate_config-Boots}

-- a text in front of which its length stands
abbrev framed : Text → Text → Text
framed t rest = length t ∷ (t ++ rest)

abbrev cut : ℕ → Text → Text × Text
cut zero s = ([], s)
cut (suc n) [] = ([], [])
cut (suc n) (c ∷ cs) = let (front, rest) = cut n cs in (c ∷ front, rest)

cut-append : (t rest : Text) → cut (length t) (t ++ rest) ≡ (t, rest)
cut-append [] rest = refl
cut-append (c ∷ t) rest = rw (cut-append t rest) refl

abbrev unframed : Text → Text × Text
unframed [] = ([], [])
unframed (n ∷ s) = cut n s

-- a printer that serves the four strings of an identity
abbrev print_strings : Fields → Text
print_strings (field k (string s) rest) = framed s (print_strings rest)
print_strings _ = []

abbrev print : Json → Text
print (object fs) = print_strings fs
print _ = []

abbrev read : Text → Try Json
read text =
    let (agent_id, rest) = unframed text in
    let (owner_id, rest') = unframed rest in
    let (proxy_url, rest'') = unframed rest' in
    let (bound_at, end) = unframed rest'' in
    ok (
      identity_json (record { agent_id = agent_id; owner_id = owner_id; proxy_url = proxy_url })
        bound_at)

read-print :
    (identity : BoundIdentity) (bound_at : Text)
    → read (print (identity_json identity bound_at)) ≡ ok (identity_json identity bound_at)
read-print identity bound_at = rw (
  cut-append identity.agent_id _,
  cut-append identity.owner_id _,
  cut-append identity.proxy_url _,
  cut-append bound_at [],
)

pub record Disk : Type 0 where
  pub key_file : Option Text
  pub identity_file : Option Text

abbrev key_name : Text
key_name = codes "agent.key"

abbrev identity_name : Text
identity_name = codes "agent.json"

abbrev file_of : Text → Disk → Option Text
file_of path disk =
    if path === key_name
    then disk.key_file
    else if path === identity_name
    then disk.identity_file
    else none

abbrev found : Option Text → Try Text
found none = threw (codes "ENOENT")
found (some t) = ok t

-- a file of another name is not written
abbrev write : Text → Text → Disk → Try (Unit {0}) × Disk
write path text disk =
    if path === key_name
    then (ok tt, record disk { key_file = some text })
    else if path === identity_name
    then (ok tt, record disk { identity_file = some text })
    else (threw (codes "EACCES"), disk)

abbrev bound : BoundIdentity
bound = record { agent_id = codes "a"; owner_id = codes "o"; proxy_url = codes "http://p" }

abbrev invited : Text → Option Text
invited name = if name === codes "INVITE_BIND_SECRET" then some (codes "s") else none

abbrev disk_machine : Machine Disk ℕ Text
disk_machine = record {
  env = invited;
  agentvalet_dir = codes "d";
  key_path = key_name;
  identity_path = identity_name;
  exists_sync = λ path disk. is_some (file_of path disk);
  read_file = λ path disk. found (file_of path disk);
  make_dir = λ path disk. (ok tt, disk);
  write_file = write;
  generate_keys = λ disk. ((codes "public", codes "private"), disk);
  fetch = λ sent disk.
      (answered (record { status = 200; body = print (identity_json bound []) }), disk);
  read_text = λ body disk. (ok body, disk);
  now_iso = λ disk. (codes "now", disk);
  import_key = λ pem disk. (ok 7, disk);
  write_error = λ line disk. disk;
  json_parse = read;
  stringify = print;
  shown = λ v. [];
  decode_base_64 = λ t. t;
}

abbrev Holds : Text → Text → Disk → Type 0
Holds path text w = (is_some (file_of path w) ≡ true) × (found (file_of path w) ≡ ok text)

not_written :
    {P : Type 0} (m : Text) (disk w : Disk)
    → ◌≡◌ {A = Try (Unit {0}) × Disk} (threw m, disk) (ok tt, w)
    → P
not_written m disk w h =
    let differs : ◌≡◌ {A = Try (Unit {0})} (threw m) (ok tt) = ap (λ r. r.0) h in cc

write-Holds :
    (path text : Text) (disk w : Disk) → write path text disk ≡ (ok tt, w) → Holds path text w
write-Holds path text disk w = elim (Bool-cases (path === key_name)) [
  | inl e ↦ rw e (λ h.
      subst (λ v. (is_some v.key_file ≡ true) × (found v.key_file ≡ ok text)) (ap (λ r. r.1) h)
        (refl, refl))
  | inr e ↦ elim (Bool-cases (path === identity_name)) [
    | inl f ↦
        rw (e, f)
          (λ h.
            subst (λ v. (is_some v.identity_file ≡ true) × (found v.identity_file ≡ ok text))
              (ap (λ r. r.1) h) (refl, refl))
    | inr f ↦ rw (e, f) (λ h. not_written _ disk w h)
  ]
]

write-file_of :
    (path other text : Text) (disk w : Disk)
    → path ≢ other
    → write path text disk ≡ (ok tt, w)
    → file_of other w ≡ file_of other disk
write-file_of path other text disk w apart = elim (Bool-cases (path === key_name)) [
  | inl e ↦ rw e (λ h.
      subst (λ v. file_of other v ≡ file_of other disk) (ap (λ r. r.1) h)
        (elim (Bool-cases (other === key_name)) [
          | inl g ↦
              absurd (apart ((===_iff path key_name).0 e ∙ sym ((===_iff other key_name).0 g)))
          | inr g ↦ rw g refl
        ]))
  | inr e ↦ elim (Bool-cases (path === identity_name)) [
    | inr f ↦ rw (e, f) (λ h. not_written _ disk w h)
    | inl f ↦
        rw (e, f)
          (λ h.
            subst (λ v. file_of other v ≡ file_of other disk) (ap (λ r. r.1) h)
              (elim (Bool-cases (other === identity_name)) [
                | inl g ↦ absurd (
                    apart
                      ((===_iff path identity_name).0 f ∙ sym ((===_iff other identity_name).0 g)))
                | inr g ↦ rw g refl
              ]))
  ]
]

names_differ : identity_name ≢ key_name
unfolding ◌===◌
names_differ h = let same = (===_iff identity_name key_name).1 h in cc

disk-Lawful : Lawful disk_machine
disk-Lawful = record {
  written = write-Holds;
  others_kept = λ path other text disk w apart h.
      let same = write-file_of path other text disk w apart h in (ap is_some same, ap found same);
  parses = read-print;
  paths_differ = names_differ;
}

abbrev empty : Disk
empty = record { key_file = none; identity_file = none }

abbrev after : Disk
after = record {
  key_file = some (codes "private");
  identity_file = some (print (identity_json bound (codes "now")));
}

validate_config-bound_example :
    validate_config disk_machine after
    ≡ build_config disk_machine
        (codes "a")
        (or_else (env disk_machine (codes "OWNER_ID")) (codes "o"))
        (or_else (env disk_machine (codes "PROXY_URL")) (codes "http://p"))
        after
unfolding attempt_invite_bind env_or_null is_space ◌===◌
validate_config-bound_example =
    validate_config-bound disk_machine disk-Lawful (codes "s") (codes "http://p") empty after bound
      refl refl refl

Unchanged : Disk → Type 0
Unchanged w = w ≡ after

Unchanged-Quiet : Quiet disk_machine Unchanged
Unchanged-Quiet = record { imports = λ pem w k. k; writes = λ line w k. k }

validate_config-Boots_example :
    (is_configured (validate_config disk_machine after).0 ≡ true)
    × Unchanged (validate_config disk_machine after).1
unfolding Unchanged read_bound_identity read_bound_private_key env_or_null is_space ◌===◌
validate_config-Boots_example =
    validate_config-Boots disk_machine Unchanged Unchanged-Quiet after refl refl

after-SetAlike : SetAlike disk_machine after
unfolding env_or_null is_space ◌===◌
after-SetAlike = record {
  no_base_64 = refl;
  no_path = refl;
  no_key = refl;
  missing_fails = λ h. cc;
}

private_key_from_env-Agree_example :
    Agree
      (private_key_from_env (settings disk_machine) after)
      (read_private_key_from_env disk_machine after)
private_key_from_env-Agree_example = private_key_from_env-Agree disk_machine after after-SetAlike
