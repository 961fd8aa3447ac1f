-- ===== src/Client/Transport.antt =====
-- packages/client/src/client.ts: the constructor, the signing of tokens and the requests.
use agent_valet.Common.{
  ℕ, ◌||◌, Option, none, some, ◌++◌, Text, codes, ◌==◌, truthy, or_else, if◌then◌else◌,
}
use agent_valet.Common.Js.{starts_with, trim, drop_slash, is_ok}
use agent_valet.Common.Effects.{Try, ok, threw, Stateful}
use agent_valet.Common.Json.{Json, string}
use agent_valet.Client.Errors.{
  ClientError, config_error, proxy_error, thrown, Exit, returned, raised, Run, ◌>>=◌, give, raise,
  diagnose_network_error,
}

pub record Call : Type 0 where
  pub url : Text
  pub method : Text
  pub body : Option Json
  pub token : Text

-- what `fetch` leaves
pub record Response (W : Type 0) : Type 0 where
  pub status : ℕ
  pub text : Stateful W (Try Text)

-- What the client calls outside itself, over a world `W` and keys `K`.
pub record Outside (W K : Type 0) : Type 0 where
  pub import_key : Text → Stateful W (Try K)
  pub sign : K → Text → Text → Stateful W (Try Text)
  pub fetch : Call → ℕ → Stateful W (Try (Response W))
  pub sleep : ℕ → W → W
  pub now : Stateful W ℕ
  pub json_parse : Text → Try Json

pub record AgentValetOptions : Type 0 where
  pub agent_id : Text
  pub owner_id : Text
  pub private_key : Text
  pub proxy_url : Option Text
  pub timeout_ms : Option ℕ
  pub approval_timeout_ms : Option ℕ
  pub approval_poll_ms : Option ℕ

pub record AgentValet : Type 0 where
  pub agent_id : Text
  pub owner_id : Text
  pub private_key_pem : Text
  pub proxy_url : Text
  pub timeout_ms : ℕ
  pub approval_timeout_ms : ℕ
  pub approval_poll_ms : ℕ

-- the field `importedKey`, and the world around the client
pub record Session (W K : Type 0) : Type 0 where
  pub imported_key : Option K
  pub world : W

abbrev pub default_proxy_url : Text
default_proxy_url = codes "https://api.agentvalet.ai"

-- the constructor
unfoldable pub new_client : AgentValetOptions → Exit AgentValet
new_client opts =
    if truthy opts.agent_id
    then if truthy opts.owner_id
      then if truthy opts.private_key
        then returned (record {
          agent_id = opts.agent_id;
          owner_id = opts.owner_id;
          private_key_pem = opts.private_key;
          proxy_url = drop_slash (or_else opts.proxy_url default_proxy_url);
          timeout_ms = or_else opts.timeout_ms 15000;
          approval_timeout_ms = or_else opts.approval_timeout_ms 50000;
          approval_poll_ms = or_else opts.approval_poll_ms 2000;
        })
        else raised (config_error (codes "privateKey is required"))
      else raised (config_error (codes "ownerId is required"))
    else raised (config_error (codes "agentId is required"))

module _ {W K : Type 0} (out : Outside W K) where
  abbrev raised_or : {A : Type 0} → Try A → Exit A
  raised_or (ok a) = returned a
  raised_or (threw m) = raised (thrown m)

  -- a call that leaves the imported key as it is
  abbrev pub outside : {A : Type 0} → Stateful W (Try A) → Run (Session W K) A
  outside step s = let (r, w) = step s.world in (raised_or r, record s { world = w })

  abbrev parse_json : Text → Run (Session W K) Json
  parse_json text = outside (λ w. (out.json_parse text, w))

  abbrev parsed_or_undefined : Try Json → Option Json
  parsed_or_undefined (ok v) = some v
  parsed_or_undefined (threw m) = none

  abbrev pub try_parse_json : Text → Option Json
  try_parse_json text =
      if starts_with (codes "{") (trim text) || starts_with (codes "[") (trim text)
      then parsed_or_undefined (out.json_parse (trim text))
      else none

  abbrev pub response_text : Response W → Run (Session W K) Text
  response_text res = outside res.text

  -- `res.json()`
  abbrev pub response_json : Response W → Run (Session W K) Json
  response_json res = do text ← response_text res; parse_json text

  abbrev bad_key : Text → ClientError
  bad_key m = config_error (codes "Private key is not a valid PKCS#8 RS256 PEM: " ++ m)

  abbrev keep_key : Try K → Run (Session W K) K
  keep_key (ok key) s = (returned key, record s { imported_key = some key })
  keep_key (threw m) s = (raised (bad_key m), s)

  abbrev key_or_import : Text → Option K → Run (Session W K) K
  key_or_import pem (some key) s = (returned key, s)
  key_or_import pem none s =
      let (key, w) = out.import_key pem s.world in keep_key key (record s { world = w })

  module _ (client : AgentValet) where
    unfoldable pub sign_jwt : Run (Session W K) Text
    sign_jwt = do
      key ← λ s. key_or_import client.private_key_pem s.imported_key s
      outside (out.sign key client.agent_id client.owner_id)

    abbrev diagnosed : Try (Response W) → Exit (Response W)
    diagnosed (ok res) = returned res
    diagnosed (threw m) = raised (diagnose_network_error m client.proxy_url)

    -- `fetchWithTimeout`, and the `catch` around it
    abbrev send : Call → Run (Session W K) (Response W)
    send call s =
        let (res, w) = out.fetch call client.timeout_ms s.world in
        (diagnosed res, record s { world = w })

    abbrev pub call_with : Text → Text → Option Json → Text → Call
    call_with path method body token = record {
      url = client.proxy_url ++ path;
      method = method;
      body = body;
      token = token;
    }

    abbrev pub once : Text → Text → Option Json → Run (Session W K) (Response W)
    once path method body = do token ← sign_jwt; send (call_with path method body token)

    abbrev again_on_401 : Text → Text → Option Json → Response W → Run (Session W K) (Response W)
    again_on_401 path method body res =
        if res.status == 401 then once path method body else give res

    unfoldable pub authed_fetch : Text → Text → Option Json → Run (Session W K) (Response W)
    unfolding sign_jwt
    authed_fetch path method body = do
      res ← once path method body
      again_on_401 path method body res

    abbrev pub text_or_json : Text → Json
    text_or_json text = or_else (try_parse_json text) (string text)

    abbrev pub body_of_ok : ℕ → Text → Run (Session W K) Json
    body_of_ok status text =
        if is_ok status then give (text_or_json text) else raise (proxy_error status text)

    unfoldable get_json : Text → Run (Session W K) Json
    get_json path = do
      res ← authed_fetch path (codes "GET") none
      text ← response_text res
      body_of_ok res.status text

    abbrev list_platforms : Run (Session W K) Json
    list_platforms = get_json (codes "/v1/agent/permissions")

    abbrev pending_actions : Run (Session W K) Json
    pending_actions = get_json (codes "/v1/agents/me/pending-actions")
