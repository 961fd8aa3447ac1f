-- ===== src/Mcp/Net.antt =====
-- packages/mcp-server/src/net.ts, and what the server calls outside itself.
pub mod Structured
use agent_valet.Common.{
  ℕ, Bool, true, false, ◌&&◌, ◌||◌, not, Option, none, some, List, [], ◌∷◌, ◌++◌, Text, codes,
  if◌then◌else◌,
}
use agent_valet.Common.Int.{ℤ}
use agent_valet.Common.Js.{starts_with, trim, to_lower_case, contains}
use agent_valet.Common.Effects.{Try, ok, threw, Stateful}
use agent_valet.Common.Throwing.{Io, ◌>>=◌}
use agent_valet.Common.Json.{Json, array, object}

-- A tool's result: its text, `structuredContent` and `isError`.
pub record ToolResult : Type 0 where
  pub text : Text
  pub structured_content : Option Json
  pub is_error : Bool

pub record Request : Type 0 where
  pub url : Text
  pub method : Text
  pub headers : List (Text × Text)
  pub body : Option Json

-- What `fetch` leaves, with a body that is read later.
pub record Response (B : Type 0) : Type 0 where
  pub status : ℕ
  pub body : B

-- A `notifications/progress` message.
pub record Progress : Type 0 where
  pub token : Json
  pub progress : ℤ
  pub total : ℕ
  pub message : Text

-- The world `W`, imported keys `K` and unread bodies `B`. `stringify` is `JSON.stringify` of a
-- value that is not undefined, `shown` is `String` of a value that is not a string.
pub record Outside (W K B : Type 0) : Type 0 where
  pub sign : K → Text → Text → Stateful W (Try Text)
  pub fetch : Request → ℕ → Stateful W (Try (Response B))
  pub read_text : B → Stateful W (Try Text)
  pub sleep : ℕ → W → W
  pub now : Stateful W ℕ
  pub notify : Progress → W → W
  pub json_parse : Text → Try Json
  pub stringify : Json → Text
  pub shown : Json → Text

unfoldable pub error_content : Text → ToolResult
error_content message = record { text = message; structured_content = none; is_error = true }

abbrev pub is_structured : Json → Bool
is_structured (array xs) = true
is_structured (object fs) = true
is_structured _ = false

abbrev structured : Try Json → Option Json
structured (ok v) = if is_structured v then some v else none
structured (threw m) = none

module _ {W K B : Type 0} (out : Outside W K B) where
  unfoldable pub try_parse_json : Text → Option Json
  try_parse_json text =
      let trimmed = trim text in
      if not (starts_with (codes "{") trimmed) && not (starts_with (codes "[") trimmed)
      then none
      else structured (out.json_parse trimmed)

  unfoldable pub json_content : Text → ToolResult
  json_content body = record {
    text = body;
    structured_content = try_parse_json body;
    is_error = false;
  }

  abbrev or_null : Try Json → Option Json
  or_null (ok v) = some v
  or_null (threw m) = none

  -- none where it returns null
  abbrev pub safe_json_parse : Text → Option Json
  safe_json_parse text = or_null (out.json_parse text)

  -- `res.json()`
  abbrev pub read_json : B → Io W Json
  read_json body = do text ← out.read_text body; λ w. (out.json_parse text, w)

-- the em dash, between spaces
abbrev pub dash : Text
dash = 32 ∷ 8212 ∷ 32 ∷ []

-- `diagnoseNetworkError`, by the message of the error
unfoldable pub diagnose_network_error : Text → Text → Text
diagnose_network_error raw proxy_url =
    let lowered = to_lower_case raw in
    if contains (codes "enotfound") lowered || contains (codes "getaddrinfo") lowered
    then codes "Network error: cannot resolve "
      ++ (proxy_url
          ++ (codes ". Check your DNS / corporate proxy / VPN, or confirm the PROXY_URL setting"
              ++ (codes " is correct. Raw: " ++ raw)))
    else if contains (codes "econnrefused") lowered || contains (codes "econnreset") lowered
    then codes "Network error: connection to "
      ++ (proxy_url
          ++ (codes " was refused or reset. The proxy may be down"
              ++ (dash
                  ++ (codes "check https://status.agentvalet.ai"
                      ++ (dash ++ (codes "or a firewall is blocking the request. Raw: " ++ raw))))))
    else if contains (codes "etimedout") lowered
        || contains (codes "timeout") lowered
        || contains (codes "aborterror") lowered
    then codes "Network error: request to "
      ++ (proxy_url
          ++ (codes " timed out. Likely causes: VPN routing, corporate proxy buffering, or slow"
              ++ (codes " network. Try again or confirm api.agentvalet.ai is reachable from this"
                  ++ (codes " machine. Raw: " ++ raw))))
    else if contains (codes "self signed") lowered
        || contains (codes "cert") lowered
        || contains (codes "ssl") lowered
        || contains (codes "tls") lowered
    then codes "Network error: TLS / certificate problem talking to "
      ++ (proxy_url ++ (codes ". A corporate MITM proxy may be intercepting traffic. Raw: " ++ raw))
    else codes "Network error reaching "
      ++ (proxy_url
          ++ (codes ": "
              ++ (raw
                  ++ (codes ". Check VPN, corporate proxy, and firewall rules for"
                      ++ (codes " api.agentvalet.ai. If the proxy itself is down, see"
                          ++ codes " https://status.agentvalet.ai.")))))
