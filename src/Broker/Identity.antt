-- ===== src/Broker/Identity.antt =====
-- packages/mcp-broker/src/identity.ts
use agent_valet.Common.{Option, none, some, [], ◌∷◌, Text, codes, or_else}
use agent_valet.Broker.Types.{McpHandlerExtra, Subject}

-- an empty SPIFFE id is left out
abbrev pub non_empty : Option Text → Option Text
non_empty none = none
non_empty (some []) = none
non_empty (some (c ∷ cs)) = some (c ∷ cs)

abbrev pub default_identity : McpHandlerExtra → Subject
default_identity extra = record {
  id = or_else extra.client_id (or_else extra.session_id (codes "anonymous"));
  spiffe_id = non_empty extra.spiffe_id;
  session_id = or_else extra.session_id (or_else extra.request_id (codes "no-session"));
}
