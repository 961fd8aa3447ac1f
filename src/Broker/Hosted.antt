-- ===== src/Broker/Hosted.antt =====
-- packages/mcp-broker/src/hosted: the sources that ask the hosted plane. `fetch`, the environment,
-- the clock and the decoding of a token's payload are parameters.
pub mod Approvals
pub mod Sources
use agent_valet.Common.{
  ℕ, Bool, true, false, ◌==◌, Option, none, some, List, [], ◌∷◌, ◌++◌, Text, codes, ◌===◌, truthy,
  or_else, if◌then◌else◌,
}
use agent_valet.Common.Js.{decimal_of}
use agent_valet.Common.Effects.{Try, ok, threw, Stateful}
use agent_valet.Common.Json.{Json, property, as_string}
use agent_valet.Common.Throwing.{Io, ◌>>=◌, give, raise}
use agent_valet.Broker.Authzen.{Response, drop_slashes}
use agent_valet.Broker.Secrets.File.{split_on}

-- What `fetch` is called with; the body is the value before `JSON.stringify`.
pub record HostedCall : Type 0 where
  pub url : Text
  pub method : Text
  pub headers : List (Text × Text)
  pub body : Option Json

pub data TokenProvider (W : Type 0) : Type 0 where
  fixed : Text → TokenProvider W
  minted_by : Io W Text → TokenProvider W

pub record HostedOptions (W : Type 0) : Type 0 where
  pub api_url : Option Text
  pub token : Option (TokenProvider W)
  pub fetch : HostedCall → Io W (Response W)
  pub agent_id : Option Text

pub record HostedClient (W : Type 0) : Type 0 where
  pub base_url : Text
  pub token : TokenProvider W
  pub fetch : HostedCall → Io W (Response W)

abbrev pub default_api_url : Text
default_api_url = codes "https://api.agentvalet.ai"

abbrev pub resolve_api_url : (Text → Option Text) → Option Text → Text
resolve_api_url env explicit =
    drop_slashes (or_else explicit (or_else (env (codes "AGENTVALET_API_URL")) default_api_url))

abbrev claim : Option Json → Option Text
claim none = none
claim (some payload) = as_string (property (codes "agent_id") payload)

abbrev payload_claim : (Text → Option Json) → List Text → Option Text
payload_claim decode_payload (head ∷ payload ∷ signature ∷ []) = claim (decode_payload payload)
payload_claim decode_payload _ = none

-- `decode_payload` is none where the decoding or `JSON.parse` throws
unfoldable pub agent_id_from_token : (Text → Option Json) → Text → Option Text
agent_id_from_token decode_payload token = payload_claim decode_payload (split_on b'.' token)

abbrev missing_token : Text
missing_token =
    codes "hosted source requires an AgentValet token (set AGENTVALET_TOKEN or pass { token })"

abbrev pub is_usable : {W : Type 0} → TokenProvider W → Bool
is_usable (fixed t) = truthy t
is_usable (minted_by m) = true

abbrev with_token :
    {W : Type 0}
    → Text
    → (HostedCall → Io W (Response W))
    → Option (TokenProvider W)
    → Try (HostedClient W)
with_token base_url fetch none = threw missing_token
with_token base_url fetch (some token) =
    if is_usable token
    then ok (record { base_url = base_url; token = token; fetch = fetch })
    else threw missing_token

abbrev pub token_or_env :
    {W : Type 0} → Option (TokenProvider W) → Option Text → Option (TokenProvider W)
token_or_env (some token) variable = some token
token_or_env none none = none
token_or_env none (some t) = some (fixed t)

-- the constructor of `HostedClient`
unfoldable pub new_client :
    {W : Type 0} → (Text → Option Text) → HostedOptions W → Try (HostedClient W)
new_client env opts =
    with_token (resolve_api_url env opts.api_url) opts.fetch
      (token_or_env opts.token (env (codes "AGENTVALET_TOKEN")))

abbrev token_text : {W : Type 0} → TokenProvider W → Io W Text
token_text (fixed t) = give t
token_text (minted_by m) = m

module _ {W : Type 0} (client : HostedClient W) where
  abbrev pub bearer : Io W Text
  bearer = token_text client.token

  abbrev derived_subject : Option Text → Io W Text
  derived_subject none =
      raise (codes "could not determine AgentValet agent id (pass { agentId } or use an agent JWT)")
  derived_subject (some []) =
      raise (codes "could not determine AgentValet agent id (pass { agentId } or use an agent JWT)")
  derived_subject (some (c ∷ cs)) = give (c ∷ cs)

  abbrev subject_of_token : (Text → Option Json) → Io W Text
  subject_of_token decode_payload = do
    t ← bearer
    derived_subject (agent_id_from_token decode_payload t)

  -- `subjectId`
  abbrev pub subject_id : (Text → Option Json) → Option Text → Io W Text
  subject_id decode_payload none = subject_of_token decode_payload
  subject_id decode_payload (some []) = subject_of_token decode_payload
  subject_id decode_payload (some (c ∷ cs)) = give (c ∷ cs)

  abbrev pub call_with : Text → Text → Option Json → Text → HostedCall
  call_with method path body token = record {
    url = client.base_url ++ path;
    method = method;
    headers =
        (codes "authorization", codes "Bearer " ++ token)
        ∷ (codes "content-type", codes "application/json")
        ∷ (codes "accept", codes "application/json")
        ∷ [];
    body = body;
  }

  abbrev pub answer_of : Text → Text → Response W → Io W Json
  answer_of method path res =
      if res.is_ok
      then res.json
      else raise (method ++ (codes " " ++ (path ++ (codes " -> HTTP " ++ decimal_of res.status))))

  unfoldable pub request : Text → Text → Option Json → Io W Json
  request method path body = do
    token ← bearer
    res ← client.fetch (call_with method path body token)
    answer_of method path res
