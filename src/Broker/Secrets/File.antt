-- ===== src/Broker/Secrets/File.antt =====
-- packages/mcp-broker/src/secrets/file-source.ts: secrets in a file, encrypted or not.
use agent_valet.Common.{
  ℕ, Bool, ◌&&◌, ◌||◌, Option, none, some, List, [], ◌∷◌, ◌++◌, Text, codes, ◌==◌, ◌===◌, leb,
  length, all, includes, if◌then◌else◌,
}
use agent_valet.Common.Js.{is_digit, trim}
use agent_valet.Common.Effects.{Try, ok, threw, Stateful}
use agent_valet.Common.Json.{Json, string, object, array, Fields, get, strings_of, as_string}
use agent_valet.Common.Throwing.{Io, ◌>>=◌}
use agent_valet.Broker.Secrets.{narrowed_scope, first_scope, static_credential}
use agent_valet.Broker.Types.{Decision, CredentialRef, Credential}

-- The parts of Node that the source calls. `decipher` is AES-256-GCM by key, iv, tag and text.
pub record Node (W : Type 0) : Type 0 where
  pub read_file : Io W Text
  pub bytes_of_hex : Text → List ℕ
  pub bytes_of_base64 : Text → List ℕ
  pub decipher : List ℕ → List ℕ → List ℕ → List ℕ → Try Text
  pub json_parse : Text → Try Json

abbrev is_hex_digit : ℕ → Bool
is_hex_digit c = is_digit c || (leb b'a' c && leb c b'f') || (leb b'A' c && leb c b'F')

-- `split(":")`; the parts are in front of a last one that has no colon
abbrev push_unit : ℕ → List Text → List Text
push_unit c [] = (c ∷ []) ∷ []
push_unit c (part ∷ parts) = (c ∷ part) ∷ parts

abbrev pub split_on : ℕ → Text → List Text
split_on sep [] = [] ∷ []
split_on sep (c ∷ cs) =
    let parts = split_on sep cs in if c == sep then [] ∷ parts else push_unit c parts

-- A `FileSecretSource` and the world around it.
pub record Source (W : Type 0) : Type 0 where
  pub map : Option Fields
  pub world : W

-- `Object.prototype` has these names, and indexing a map with one finds a value that is no string.
abbrev inherited_names : List Text
inherited_names =
    codes "constructor"
    ∷ codes "hasOwnProperty"
    ∷ codes "isPrototypeOf"
    ∷ codes "propertyIsEnumerable"
    ∷ codes "toLocaleString"
    ∷ codes "toString"
    ∷ codes "valueOf"
    ∷ codes "__proto__"
    ∷ codes "__defineGetter__"
    ∷ codes "__defineSetter__"
    ∷ codes "__lookupGetter__"
    ∷ codes "__lookupSetter__"
    ∷ []

abbrev malformed : CredentialRef → Text
malformed ref = codes "malformed secret entry for \"" ++ (ref.id ++ codes "\"")

abbrev missing : CredentialRef → Text
missing ref = codes "secret not found in file: \"" ++ (ref.id ++ codes "\"")

-- the declared scope of an entry; the type of the source has an array of strings there
abbrev declared_scope : Option Json → Option (List Text)
declared_scope (some (array xs)) = some (strings_of xs)
declared_scope _ = none

abbrev declared_expiry : Option Text → Option Text
declared_expiry none = none
declared_expiry (some []) = none
declared_expiry (some (c ∷ cs)) = some (c ∷ cs)

abbrev from_fields : Option Text → Fields → Option (List Text) → CredentialRef → Try Credential
from_fields none fs scope ref = threw (malformed ref)
from_fields (some token) fs scope ref = ok (record {
  token = token;
  expires_at = declared_expiry (as_string (get (codes "expiresAt") fs));
  scope = first_scope scope (declared_scope (get (codes "scope") fs));
})

-- `resolve` after the map is there
abbrev pub from_entry : Option Json → Option (List Text) → CredentialRef → Try Credential
from_entry none scope ref =
    if includes inherited_names ref.id then threw (malformed ref) else threw (missing ref)
from_entry (some (string token)) scope ref = ok (static_credential token scope)
from_entry (some (object fs)) scope ref =
    from_fields (as_string (get (codes "token") fs)) fs scope ref
from_entry (some _) scope ref = threw (malformed ref)

module _ {W : Type 0} (node : Node W) (secrets_key : Option Text) where
  abbrev checked_key : List ℕ → Try (List ℕ)
  checked_key key =
      if length key == 32
      then ok key
      else threw (codes "AGENTVALET_SECRETS_KEY must decode to 32 bytes (hex or base64)")

  abbrev pub decode_key : Text → Try (List ℕ)
  decode_key raw =
      if length raw == 64 && all is_hex_digit raw
      then checked_key (node.bytes_of_hex raw)
      else checked_key (node.bytes_of_base64 raw)

  abbrev decrypt_parts : List Text → List ℕ → Try Text
  decrypt_parts (version ∷ iv ∷ tag ∷ text ∷ []) key =
      if version === codes "v1"
      then node.decipher key (node.bytes_of_base64 iv) (node.bytes_of_base64 tag)
          (node.bytes_of_base64 text)
      else threw (codes "encrypted secrets file must be \"v1:<iv>:<tag>:<ciphertext>\"")
  decrypt_parts _ key =
      threw (codes "encrypted secrets file must be \"v1:<iv>:<tag>:<ciphertext>\"")

  abbrev pub decrypt_secrets_file : Text → List ℕ → Try Text
  decrypt_secrets_file contents key = decrypt_parts (split_on b':' (trim contents)) key

  abbrev decrypted_by : Text → Try (List ℕ) → Try Text
  decrypted_by raw (ok key) = decrypt_secrets_file raw key
  decrypted_by raw (threw message) = threw message

  -- `keyRaw ? decryptSecretsFile(raw, decodeKey(keyRaw)) : raw`
  abbrev plain_text : Option Text → Text → Try Text
  plain_text none raw = ok raw
  plain_text (some []) raw = ok raw
  plain_text (some (c ∷ cs)) raw = decrypted_by raw (decode_key (c ∷ cs))

  abbrev map_of : Try Json → Try Fields
  map_of (threw message) = threw message
  map_of (ok (object fs)) = ok fs
  map_of (ok _) = threw (codes "secrets file must be a JSON object of ref -> token")

  abbrev parsed : Try Text → Try Fields
  parsed (ok json) = map_of (node.json_parse json)
  parsed (threw message) = threw message

  abbrev keep : Try Fields → Stateful (Source W) (Try Fields)
  keep (ok fs) s = (ok fs, record s { map = some fs })
  keep (threw message) s = (threw message, s)

  abbrev after_read : Try Text → Stateful (Source W) (Try Fields)
  after_read (ok raw) s = keep (parsed (plain_text secrets_key raw)) s
  after_read (threw message) s = (threw message, s)

  abbrev load_missing : Option Fields → Io (Source W) Fields
  load_missing (some fs) s = (ok fs, s)
  load_missing none s =
      let (raw, w) = node.read_file s.world in after_read raw (record s { world = w })

  unfoldable pub load : Io (Source W) Fields
  load s = load_missing s.map s

  abbrev answer : CredentialRef → Decision → Fields → Io (Source W) Credential
  answer ref decision fs s = (from_entry (get ref.id fs) (narrowed_scope ref decision) ref, s)

  unfoldable pub resolve : CredentialRef → Decision → Io (Source W) Credential
  unfolding load
  resolve ref decision = do fs ← load; answer ref decision fs
