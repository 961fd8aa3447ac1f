-- ===== src/Cli/Ide/ClaudeMd.antt =====
-- packages/cli/src/config/ide.ts: `buildClaudeMd`.
use agent_valet.Common.{List, [], ◌∷◌, ◌++◌, Text, codes, if◌then◌else◌}
use agent_valet.Common.Js.{starts_with, drop_first}

-- `proxyUrl.replace('api.', 'app.')`: the first one
abbrev dashboard : Text → Text
dashboard [] = []
dashboard (c ∷ cs) =
    let rest = dashboard cs in
    if starts_with (codes "api.") (c ∷ cs)
    then codes "app." ++ drop_first (drop_first (drop_first cs))
    else c ∷ rest

abbrev claude_md_lines : Text → Text → Text → List Text
claude_md_lines agent_id owner_id proxy_url =
    (codes "# AgentValet " ++ ((8212 ∷ []) ++ (codes " Credential Governance")))
    ∷ ([])
    ∷ (codes "Agent ID: `" ++ (agent_id ++ (codes "`")))
    ∷ (codes "Owner ID: `" ++ (owner_id ++ (codes "`")))
    ∷ ([])
    ∷ (codes "All external platform API calls **must** go through the AgentValet proxy.")
    ∷ (codes "Never call platform APIs (Slack, Stripe, Gmail, GitHub, etc.) directly.")
    ∷ ([])
    ∷ (codes "## Making a platform call")
    ∷ ([])
    ∷ (codes "Use the `mcp__agentvalet__use_platform` MCP tool:")
    ∷ ([])
    ∷ (codes "```")
    ∷ (codes "mcp__agentvalet__use_platform({")
    ∷ (codes "  platform: " ++ ((34 ∷ []) ++ (codes "slack" ++ ((34 ∷ []) ++ (codes ",")))))
    ∷ (codes "  endpoint: "
        ++ ((34 ∷ []) ++ (codes "/api/chat.postMessage" ++ ((34 ∷ []) ++ (codes ",")))))
    ∷ (codes "  method: " ++ ((34 ∷ []) ++ (codes "POST" ++ ((34 ∷ []) ++ (codes ",")))))
    ∷ (codes "  scope: " ++ ((34 ∷ []) ++ (codes "slack:write" ++ ((34 ∷ []) ++ (codes ",")))))
    ∷ (codes "  data: { channel: "
        ++ ((34 ∷ [])
            ++ (codes "#general"
                ++ ((34 ∷ [])
                    ++ (codes ", text: "
                        ++ ((34 ∷ []) ++ (codes "Hello" ++ ((34 ∷ []) ++ (codes " }")))))))))
    ∷ (codes "})")
    ∷ (codes "```")
    ∷ ([])
    ∷ (codes "## Before any platform session")
    ∷ ([])
    ∷ (codes "1. Call `mcp__agentvalet__list_platforms` to see approved platforms and scopes")
    ∷ (codes "2. Call `mcp__agentvalet__authzen_evaluate` before destructive operations")
    ∷ (codes "3. If a call returns `pending_approval` "
        ++ ((8212 ∷ []) ++ (codes " wait, do not retry")))
    ∷ ([])
    ∷ (codes "## Rules")
    ∷ ([])
    ∷ (codes "- **NEVER** write inline JWT signing code, `node -e` scripts, or manual HTTP calls")
    ∷ (codes "- The MCP tool handles authentication automatically")
    ∷ (codes "- `AGENT_PRIVATE_KEY_PATH` points to your key "
        ++ ((8212 ∷ []) ++ (codes " do not read or log it")))
    ∷ ([])
    ∷ (codes "## If AgentValet MCP is not connected")
    ∷ ([])
    ∷ (codes "Tell the user: "
        ++ ((34 ∷ [])
            ++ (codes "AgentValet MCP is not connected. Run: npx @agentvalet/register"
                ++ ((34 ∷ [])))))
    ∷ ([])
    ∷ (codes "Dashboard: " ++ (dashboard proxy_url))
    ∷ []

abbrev pub lines_text : List Text → Text
lines_text [] = []
lines_text (line ∷ lines) = line ++ (10 ∷ lines_text lines)

pub build_claude_md : Text → Text → Text → Text
build_claude_md agent_id owner_id proxy_url =
    lines_text (claude_md_lines agent_id owner_id proxy_url)
