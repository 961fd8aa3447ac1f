-- ===== src/Mcp/Start/Bind.antt =====
-- packages/mcp-server/src/bind.ts: the identity on disk, and the bind that puts it there.
use agent_valet.Common.{
  ℕ, ◌&&◌, Option, none, some, [], ◌∷◌, ◌++◌, Text, codes, truthy, ◌==◌, if◌then◌else◌,
}
use agent_valet.Common.Js.{decimal_of, drop_slash, is_ok}
use agent_valet.Common.Effects.{Try, ok, threw}
use agent_valet.Common.Throwing.{Io, ◌>>=◌, give, raise}
use agent_valet.Common.Json.{
  Json, string, object, no_fields, field, property, as_string, is_truthy, is_null,
}
use agent_valet.Client.Approval.{null_read}
use agent_valet.Mcp.Net.{Request, Response, dash}
use agent_valet.Mcp.Auth.{json_type}
use agent_valet.Mcp.Start.Env.{Machine, Fetched, answered, aborted, failed}

pub record BoundIdentity : Type 0 where
  pub agent_id : Text
  pub owner_id : Text
  pub proxy_url : Text

abbrev identity_of : Option Text → Option Text → Option Text → Option BoundIdentity
identity_of (some agent_id) (some owner_id) (some proxy_url) =
    some (record { agent_id = agent_id; owner_id = owner_id; proxy_url = proxy_url })
identity_of _ _ _ = none

abbrev pub identity_in : Try Json → Option BoundIdentity
identity_in (threw m) = none
identity_in (ok parsed) =
    identity_of (as_string (property (codes "agent_id") parsed))
      (as_string (property (codes "owner_id") parsed))
      (as_string (property (codes "proxy_url") parsed))

-- what `persistBindArtifacts` writes; `bound_at` is only ever written
abbrev pub identity_json : BoundIdentity → Text → Json
identity_json identity bound_at = object (
    field (codes "agent_id") (string identity.agent_id) (
      field (codes "owner_id") (string identity.owner_id) (
        field (codes "proxy_url") (string identity.proxy_url)
          (field (codes "bound_at") (string bound_at) no_fields))))

module _ {W K B : Type 0} (machine : Machine W K B) where
  abbrev parsed_file : Try Text → Try Json
  parsed_file (ok raw) = machine.json_parse raw
  parsed_file (threw m) = threw m

  unfoldable pub read_bound_identity : W → Option BoundIdentity
  read_bound_identity w =
      if machine.exists_sync machine.identity_path w
      then identity_in (parsed_file (machine.read_file machine.identity_path w))
      else none

  unfoldable pub persist_bind_artifacts : BoundIdentity → Text → Text → Io {0, 0} W Unit
  persist_bind_artifacts identity bound_at private_key_pem = do
    made ← machine.make_dir machine.agentvalet_dir
    kept ← machine.write_file machine.key_path private_key_pem
    machine.write_file machine.identity_path (machine.stringify (identity_json identity bound_at))

  abbrev pub bind_request : Text → Text → Text → Request
  bind_request bind_secret proxy_url public_key = record {
    url = drop_slash proxy_url ++ codes "/v1/invites/bind";
    method = codes "POST";
    headers = json_type ∷ [];
    body = some (
        object (
          field (codes "bind_secret") (string bind_secret)
            (field (codes "public_key_pem") (string public_key) no_fields)));
  }

  abbrev pub read_json : B → Io W Json
  read_json body = do text ← machine.read_text body; λ w. (machine.json_parse text, w)

  abbrev pub detail_text : Text → Option Json → Text
  detail_text otherwise (some (string s)) = if truthy s then s else otherwise
  detail_text otherwise none = otherwise
  detail_text otherwise (some v) = if is_truthy (some v) then machine.shown v else otherwise

  -- a body that cannot be read, or is null, is passed over
  abbrev detail_of : Text → Try Json → Text
  detail_of otherwise (ok body) = detail_text otherwise (property (codes "error") body)
  detail_of otherwise (threw m) = otherwise

  abbrev rejection : ℕ → Text → Text
  rejection status detail =
      if status == 410
      then codes "Bind secret rejected ("
        ++ (detail
            ++ (codes "). It was either already used or expired"
                ++ (dash ++ codes "ask the inviting manager to re-issue.")))
      else codes "Invite bind failed: " ++ detail

  abbrev rejected : Response B → Io W BoundIdentity
  rejected res w =
      let (body, w') = read_json res.body w in
      (threw (rejection res.status (detail_of (codes "HTTP " ++ decimal_of res.status) body)), w')

  abbrev incomplete : {A : Type 0} → Io W A
  incomplete = raise (codes "Bind succeeded but response was missing required fields")

  abbrev pub persisted : Text → BoundIdentity → Io W BoundIdentity
  persisted private_key identity w =
      let (bound_at, w') = machine.now_iso w in
      (do kept ← persist_bind_artifacts identity bound_at private_key; give identity) w'

  abbrev pub if_complete : Text → Option BoundIdentity → Io W BoundIdentity
  if_complete private_key none = incomplete
  if_complete private_key (some identity) =
      if truthy identity.agent_id && truthy identity.owner_id && truthy identity.proxy_url
      then persisted private_key identity
      else incomplete

  abbrev pub by_payload : Text → Json → Io W BoundIdentity
  by_payload private_key payload =
      if is_null payload
      then raise (null_read (codes "agent_id"))
      else if_complete private_key (identity_in (ok payload))

  abbrev pub by_answer : Text → Fetched B → Io W BoundIdentity
  by_answer private_key aborted =
      raise
        (codes "Bind request timed out after 15s" ++ (dash ++ codes "proxy unreachable or slow."))
  by_answer private_key (failed m) = raise m
  by_answer private_key (answered res) =
      if is_ok res.status
      then (do payload ← read_json res.body; by_payload private_key payload)
      else rejected res

  -- `attemptInviteBind`, by the identity of its result
  unfoldable pub attempt_invite_bind : Text → Text → Io W BoundIdentity
  unfolding persist_bind_artifacts
  attempt_invite_bind bind_secret proxy_url w =
      let (keys, w') = machine.generate_keys w in
      let (answer, w'') = machine.fetch (bind_request bind_secret proxy_url keys.0) w' in
      by_answer keys.1 answer w''
