-- ===== src/Broker/Authzen/Approval.antt =====
-- Approval directives of an AuthZEN answer (packages/mcp-broker/src/policy/authzen-source.ts).
use agent_valet.Common.{Bool, false, ◌||◌, codes, Option, some}
use agent_valet.Common.Json.{Json, Items, no_items, item, array, property}
use agent_valet.Broker.Authzen.{is_approval, is_true, obligations_in}

-- some directive among them asks for approval
abbrev pub any_approval : Items → Bool
any_approval no_items = false
any_approval (item o rest) = is_approval o || any_approval rest

abbrev pub any_approval_in : Option Json → Bool
any_approval_in (some (array xs)) = any_approval xs
any_approval_in _ = false

-- the answer's obligations ask for approval
abbrev pub asks : Json → Bool
asks body = any_approval_in (obligations_in (property (codes "context") body))

abbrev pub permits : Json → Bool
permits body = is_true (property (codes "decision") body)
