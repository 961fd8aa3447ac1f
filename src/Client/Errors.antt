-- ===== src/Client/Errors.antt =====
-- packages/client/src/errors.ts and the diagnosis of packages/client/src/http.ts.
use agent_valet.Common.{
  ℕ, ◌+◌, ◌/◌, ◌||◌, Option, none, some, [], ◌∷◌, ◌++◌, Text, codes, truthy, if◌then◌else◌,
}
use agent_valet.Common.Js.{decimal_of, to_lower_case, contains}
use agent_valet.Common.Effects.{Stateful}
use agent_valet.Common.Json.{Json}

-- What the client throws, by the class; `thrown` is an error that is none of its own.
pub data ClientError : Type 0 where
  config_error : Text → ClientError
  network_error : Text → ClientError
  proxy_error : ℕ → Text → ClientError
  access_denied : ℕ → Text → Text → Text → ClientError
  approval_denied : Text → Option Text → ClientError
  approval_expired : Text → ClientError
  approval_timeout : Text → ℕ → ClientError
  upstream_error : ℕ → Option Json → ClientError
  thrown : Text → ClientError

pub data Exit (A : Type 0) : Type 0 where
  returned : A → Exit A
  raised : ClientError → Exit A

abbrev pub Run : Type 0 → Type 0 → Type 0
Run S A = Stateful S (Exit A)

abbrev on_return : {S A B : Type 0} → (A → Run S B) → Exit A → Run S B
on_return next (returned a) s = next a s
on_return next (raised e) s = (raised e, s)

infixl 5 ◌>>=◌
abbrev pub ◌>>=◌ : {S A B : Type 0} → Run S A → (A → Run S B) → Run S B
◌>>=◌ first next s = on_return next (first s).0 (first s).1

abbrev pub give : {S A : Type 0} → A → Run S A
give a s = (returned a, s)

abbrev pub raise : {S A : Type 0} → ClientError → Run S A
raise e s = (raised e, s)

-- the em dash
abbrev dash : Text
dash = 32 ∷ 8212 ∷ 32 ∷ []

abbrev detail_text : Option Text → Text
detail_text none = codes "."
detail_text (some d) = if truthy d then codes ": " ++ d else codes "."

-- `message`, by `JSON.stringify` of a value that may be undefined
unfoldable pub message : (Option Json → Text) → ClientError → Text
message stringify (config_error m) = m
message stringify (network_error m) = m
message stringify (proxy_error status body) =
    codes "Proxy error " ++ (decimal_of status ++ (codes ": " ++ body))
message stringify (access_denied status body platform scope) =
    codes "Access denied for "
    ++ (platform
        ++ (codes ":"
            ++ (scope
                ++ (dash
                    ++ (body
                        ++ (codes ". Call requestAccess({ platform, scope, reason })"
                            ++ codes " to ask an org admin to grant it."))))))
message stringify (approval_denied id detail) =
    codes "Owner denied this action" ++ detail_text detail
message stringify (approval_expired id) =
    codes "Approval request expired before the owner responded."
message stringify (approval_timeout id waited) =
    codes "Owner hasn't approved within "
    ++ (decimal_of ((waited + 500) / 1000)
        ++ (codes "s. The action is still queued"
            ++ (dash
                ++ (codes "keep approval_id "
                    ++ (id ++ codes " and call waitForApproval(approvalId) to resume.")))))
message stringify (upstream_error status data_received) =
    codes "Upstream returned " ++ (decimal_of status ++ (codes ": " ++ stringify data_received))
message stringify (thrown m) = m

-- `diagnoseNetworkError`, by the message of the error
unfoldable pub diagnose_network_error : Text → Text → ClientError
diagnose_network_error raw proxy_url =
    let lowered = to_lower_case raw in
    network_error (
      if contains (codes "enotfound") lowered || contains (codes "getaddrinfo") lowered
      then codes "Cannot resolve "
        ++ (proxy_url
            ++ (codes ". Check DNS / corporate proxy / VPN, or confirm proxyUrl is correct. Raw: "
                ++ raw))
      else if contains (codes "econnrefused") lowered || contains (codes "econnreset") lowered
      then codes "Connection to "
        ++ (proxy_url
            ++ (codes " was refused or reset. The proxy may be down"
                ++ (dash
                    ++ (codes "check https://status.agentvalet.ai"
                        ++ (dash ++ (codes "or a firewall is blocking it. Raw: " ++ raw))))))
      else if contains (codes "etimedout") lowered
          || contains (codes "timeout") lowered
          || contains (codes "aborterror") lowered
      then codes "Request to "
        ++ (proxy_url
            ++ (codes " timed out. Likely VPN routing, corporate proxy buffering, or a slow"
                ++ (codes " network. Raw: " ++ raw)))
      else if contains (codes "self signed") lowered
          || contains (codes "cert") lowered
          || contains (codes "ssl") lowered
          || contains (codes "tls") lowered
      then codes "TLS / certificate problem talking to "
        ++ (proxy_url
            ++ (codes ". A corporate MITM proxy may be intercepting traffic. Raw: " ++ raw))
      else codes "Network error reaching "
        ++ (proxy_url
            ++ (codes ": "
                ++ (raw
                    ++ (codes ". Check VPN, corporate proxy, and firewall rules for"
                        ++ codes " api.agentvalet.ai.")))))
