-- ===== src/Cli/Frameworks.antt =====
-- packages/cli/src/config/frameworks.ts: the kind of agent that is registered.
use agent_valet.Common.{Text, codes, if◌then◌else◌}
use agent_valet.Cli.Ide.{DetectedFrameworks}

abbrev resolve_agent_type : DetectedFrameworks → Text
resolve_agent_type detected =
    if detected.claude_code
    then codes "claude-code"
    else if detected.codex_desktop
    then codes "codex-desktop"
    else if detected.codex
    then codes "codex-cli"
    else if detected.cursor
    then codes "cursor-ide"
    else if detected.cursor_cli
    then codes "cursor-agent-cli"
    else if detected.factory_droid
    then codes "factory-droid"
    else if detected.openclaw
    then codes "openclaw"
    else codes "unknown"
