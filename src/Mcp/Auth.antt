-- ===== src/Mcp/Auth.antt =====
-- packages/mcp-server/src/context.ts and auth.ts: the context, the gate and the signed requests.
use agent_valet.Common.{
  ◌&&◌, Option, none, some, [], ◌∷◌, ◌++◌, Text, codes, ◌==◌, truthy, if◌then◌else◌,
}
use agent_valet.Common.Effects.{Stateful}
use agent_valet.Common.Throwing.{Io, ◌>>=◌, give, raise}
use agent_valet.Common.Json.{string, object, no_fields, field}
use agent_valet.Mcp.Net.{ToolResult, Request, Response, Outside, error_content, dash}

pub record ServerContext (K : Type 0) : Type 0 where
  pub agent_id : Text
  pub owner_id : Text
  pub proxy_url : Text
  pub agent_private_key_raw : Option Text
  pub private_key : Option K
  pub observe_platform : Text
  pub observe_credential : Text

abbrev pub json_type : Text × Text
json_type = (codes "Content-Type", codes "application/json")

unfoldable pub credentials_not_configured : ToolResult
unfolding error_content
credentials_not_configured = error_content (
    codes "AgentValet credentials are not configured. Set AGENTVALET_AGENT_ID, "
    ++ (codes "AGENTVALET_OWNER_ID, and the agent private key (and optionally "
        ++ (codes "AGENTVALET_PROXY_URL). Run npx @agentvalet/register to create an agent. "
            ++ codes "Docs: https://github.com/AgentValet/AgentValet#quickstart")))

module _ {W K B : Type 0} (out : Outside W K B) (ctx : ServerContext K) where
  abbrev pub sign_with : Option K → Io W Text
  sign_with (some key) = out.sign key ctx.agent_id ctx.owner_id
  sign_with none = raise (codes "Private key not loaded")

  unfoldable pub sign_jwt : Io W Text
  sign_jwt = sign_with ctx.private_key

  abbrev pub bind_secret : Request
  bind_secret = record {
    url = ctx.proxy_url ++ codes "/v1/bind-secret";
    method = codes "POST";
    headers = json_type ∷ [];
    body = some (
        object (
          field (codes "agent_id") (string ctx.agent_id)
            (field (codes "owner_id") (string ctx.owner_id) no_fields)));
  }

  -- `notifyBindSecret`, whose answer and whose failure are both left alone
  abbrev pub notify_bind_secret : W → W
  notify_bind_secret w = (out.fetch bind_secret 8000 w).1

  unfoldable pub pending_first_call : ToolResult
  unfolding error_content
  pending_first_call = error_content (
      out.stringify (
        object (
          field (codes "error")
            (string (
              codes "Agent not yet activated"
              ++ (dash ++ codes "owner confirmation pending. Retry in 60 seconds.")))
            no_fields)))

  abbrev pub without_key : Stateful W (Option ToolResult)
  without_key w =
      if truthy ctx.agent_id && truthy ctx.owner_id
      then (some pending_first_call, notify_bind_secret w)
      else (some credentials_not_configured, w)

  abbrev pub gate_by_key : Option Text → Stateful W (Option ToolResult)
  gate_by_key (some pem) w = (none, w)
  gate_by_key none w = without_key w

  -- `requireCredentials`
  unfoldable pub require_credentials : Stateful W (Option ToolResult)
  require_credentials w = gate_by_key ctx.agent_private_key_raw w

  -- `init` of a request, before the headers of `fetchWithAuth`
  abbrev pub signed : Request → Text → Request
  signed init token = record init {
    headers = (codes "Authorization", codes "Bearer " ++ token) ∷ json_type ∷ init.headers;
  }

  abbrev pub make_request : Request → Io W (Response B)
  make_request init = do token ← sign_jwt; out.fetch (signed init token) 15000

  abbrev pub again_on_401 : Request → Response B → Io W (Response B)
  again_on_401 init res = if res.status == 401 then make_request init else give res

  unfoldable pub fetch_with_auth : Request → Io W (Response B)
  unfolding sign_jwt
  fetch_with_auth init = do res ← make_request init; again_on_401 init res
