-- ===== src/Lib.antt =====
-- A verification library for AgentValet: what decides whether an AI agent may call a tool, with
-- which credential, and what is written down about it; and the clients that ask for it.
--
-- The program. A server author wraps tools with the broker (packages/mcp-broker). Each tool call is
-- one pass of its pipeline: the caller is identified, a policy source decides, an approval provider
-- is asked where the decision says so, a secret source resolves the credential that the decision
-- names, the handler runs, a hook redacts its result, and an audit sink gets one event. The local
-- policy source parses a policy file and asks the decision kernel; other sources ask an AuthZEN
-- decision point or the hosted plane. Agents without the broker go through the gate of the hosted
-- plane, by packages/mcp-server's gate client or by the client library packages/client.
--
-- Files and code:
--   Common           what JavaScript gives the sources: texts as lists of UTF-16 code units
--                    (Strings, Js, Uri), parsed JSON (Json), calls that may throw over an explicit
--                    world (Effects, Throwing), loops up to a deadline (Loop), and helpers.
--   Broker.Evaluator packages/mcp-broker/src/_evaluator.ts: evaluatePolicyWithTrace, a function for
--                    each of its five loops; children: the decision without loops, the trace,
--                    strictness and order.
--   Broker.Types, Broker.Identity
--                    packages/mcp-broker/src/types.ts and identity.ts.
--   Broker.Pass, Broker.Pipeline
--                    packages/mcp-broker/src/pipeline.ts: what a pass is given and captures (Pass),
--                    and runPipeline, a function for each step. A
--                    journal beside the world notes each call to a part that the author plugs in;
--                    Pipeline.Faithful ties its entries to the calls of the handler in the world.
--   Broker.Yaml, Broker.FilePolicy
--                    packages/mcp-broker/src/policy/yaml.ts (parsePolicy, by lines) and
--                    policy/file-source.ts (toEvaluationInput, FilePolicySource and its cache).
--   Broker.Fingerprint
--                    packages/mcp-broker/src/fingerprint.ts: canonicalize and argsFingerprint.
--   Broker.Protection
--                    the pipeline and the policy file together.
--   Broker.Authzen   packages/mcp-broker/src/policy/authzen-source.ts.
--   Broker.Secrets   packages/mcp-broker/src/secrets: narrow.ts, env-source.ts (Env) and
--                    file-source.ts (File).
--   Broker.Hosted    packages/mcp-broker/src/hosted: client.ts, the policy, secret and audit sources
--                    (Sources) and approval-provider.ts (Approvals).
--   Gate             packages/mcp-server/src/gate-client.ts: classifyGateResponse, callGate, observe.
--   Client           packages/client/src: errors.ts and http.ts (Errors), the constructor, tokens and
--                    requests of client.ts (Transport), waitForApproval and requestAccess (Approval)
--                    call (Calls) and env.ts with fromEnv (Environment).
--   Broker.Wiring    packages/mcp-broker/src/sources.ts, broker.ts (Wrapping), approval/cli-provider.ts
--                    (Prompt) and audit/jsonl-sink.ts (Files).
--   Mcp              packages/mcp-server/src: net.ts (Net), context.ts and auth.ts (Auth),
--                    tools/handlers.ts (Handlers, UsePlatform with the poll in Waiting, Access) and the
--                    handler of tool calls of index.ts (Dispatch). Mcp.Keeps shows, handler by handler,
--                    that a property of the world which every call outside keeps is kept; Dispatch.Cases
--                    turns what holds of each branch of the dispatch into what holds of every call.
--   Mcp.Start        packages/mcp-server/src/pem.ts (Env), bind.ts (Bind) and config.ts (Config).
--   Cli              packages/cli/src/config/ide.ts (Ide, with Droid, Hosts and ClaudeMd), the
--                    agent's type of frameworks.ts (Frameworks) and wait.ts (Wait).
--   Tests            concrete inputs: runs of the definitions, and uses of the theorems.
--
-- How the code is modelled. An awaited call is a function from a world to a result and a new world;
-- what the repository does not contain (the network, the clock, files, cryptography, JSON.parse, the
-- handler, the sources and sinks that an author plugs in) is a parameter, with no hypothesis but
-- those that a theorem names. A thrown error is kept by its message, in the client library by its
-- class. `undefined` and `null` in a field that may be missing are `none`. Bodies that are sent are
-- values, before JSON.stringify; the pipeline is given the text of argsFingerprint(args). Numbers
-- are natural numbers, and the latency of an audit event is an integer; the sources do no arithmetic
-- that leaves the integers that JavaScript holds exactly, but for a policy's version, which is
-- compared with 1 alone. Values read from JSON have the types that the sources declare for them.
--
-- Fuel. Six loops run until a time: the polls of the hosted approval provider, of the client's
-- waitForApproval and requestAccess, of the server's waitForApproval and
-- handleRequestPlatformAccess, and of the command line's waitForApproval. They run on fuel
-- (Common.Loop), and a result without an answer says that the fuel is used up. Fuel for one round
-- per millisecond of the budget, and one more, is enough where the clock does not go back and a
-- round takes a millisecond. All other loops are structural.
--
-- Not modelled: concurrency between passes, which share no state of the pipeline; abort signals; the
-- rebinding of an MCP server's methods and the transports, which are glue around the MCP SDK; the
-- boot diagnostics, the warm-up request and the static schemas of the MCP server; the commands,
-- prompts and network calls of the command line and the detection of hosts; the editor extension and
-- the Paperclip adapter, which move data between other products; arguments that contain themselves; a
-- logger, a clock or a progress tick that throws.
pub mod Common
pub mod Broker
pub mod Client
pub mod Gate
pub mod Mcp
pub mod Cli
mod Tests
