-- ===== src/Cli/Wait.antt =====
-- packages/cli/src/wait.ts: waiting for the owner's approval of a registration. The network, the
-- clock, `JSON.parse` and the tick are parameters; what the stream's reader yields is a list.
pub mod Chunks
pub mod Ends
use agent_valet.Common.{
  ℕ, ◌+◌, Bool, Option, none, some, List, [], ◌∷◌, ◌++◌, Text, codes, ◌===◌, ◌==◌, ◌||◌, truthy,
  or_else, if◌then◌else◌,
}
use agent_valet.Common.Js.{starts_with, trim, drop_first, is_ok}
use agent_valet.Common.Effects.{Try, ok, threw, Stateful}
use agent_valet.Common.Json.{
  Json, null, string, array, is_truthy, no_items, property, as_string, is_null,
}
use agent_valet.Common.Loop.{
  Round, stop, again, Waited, answered, timed_out, out_of_fuel, while_before,
}
use agent_valet.Client.Approval.{null_read, is_status}
use agent_valet.Mcp.Net.{Response}

-- An approval has the agent's id, the owner's, the private key and the platforms.
pub data WaitResult : Type 0 where
  approved : Json → Json → Json → Json → WaitResult
  rejected timeout expired : WaitResult

-- `a ?? b`
abbrev coalesce : Option Json → Option Json → Option Json
coalesce none b = b
coalesce (some null) b = b
coalesce (some v) b = some v

-- `a ?? v` with a value
abbrev value_or : Option Json → Json → Json
value_or none v = v
value_or (some null) v = v
value_or (some u) v = u

abbrev approved_by : Json → Json → WaitResult
approved_by received agent_id =
    approved agent_id
      (value_or
        (coalesce (property (codes "owner_id") received) (property (codes "ownerId") received))
        (string []))
      (string []) (value_or (property (codes "granted_platforms") received) (array no_items))

-- an approval without an agent's id is none
abbrev approval : Json → Option Json → Option WaitResult
approval received agent_id =
    if is_truthy agent_id then some (approved_by received (value_or agent_id null)) else none

abbrev by_status : Json → Option Text → Option WaitResult
by_status received status =
    if is_status (codes "approved") status
    then approval received
        (coalesce (property (codes "agent_id") received) (property (codes "agentId") received))
    else if is_status (codes "rejected") status
    then some rejected
    else if is_status (codes "timeout") status || is_status (codes "expired") status
    then some expired
    else none

unfoldable pub parse_event : Json → Try (Option WaitResult)
parse_event received =
    if is_null received
    then threw (null_read (codes "status"))
    else ok (by_status received (as_string (property (codes "status") received)))

-- a character in front of the first line, or of the rest where there is no line
abbrev push : ℕ → List Text × Text → List Text × Text
push c ([], rest) = ([], c ∷ rest)
push c (line ∷ lines, rest) = ((c ∷ line) ∷ lines, rest)

-- `buffer.split("\n")`, and the last part that `pop` takes from it
abbrev pub split_lines : Text → List Text × Text
split_lines [] = ([], [])
split_lines (c ∷ cs) =
    let (lines, rest) = split_lines cs in
    if c == 10 then ([] ∷ lines, rest) else push c (lines, rest)

-- an event that throws is ignored
abbrev no_throw : Try (Option WaitResult) → Option WaitResult
no_throw (ok r) = r
no_throw (threw m) = none

-- What a call of the reader gives, where the stream is not at its end.
pub data Read : Type 0 where
  chunk : Text → Read
  failed : Read

-- the first result ends the rest
abbrev pub or_next :
    {W : Type 0} → Stateful W (Option WaitResult) → Option WaitResult × W → Option WaitResult × W
or_next next (some r, w) = (some r, w)
or_next next (none, w) = next w

module _ {W : Type 0} (json_parse : Text → Try Json) (tick : W → W) where
  abbrev parsed_event : Try Json → Option WaitResult
  parsed_event (threw m) = none
  parsed_event (ok received) = no_throw (parse_event received)

  abbrev after_data : Text → Option WaitResult
  after_data text = if truthy text then parsed_event (json_parse text) else none

  abbrev without_label : Text → Text
  without_label line = drop_first (drop_first (drop_first (drop_first (drop_first line))))

  -- what one line gives
  unfoldable pub take_line : Text → Stateful W (Option WaitResult)
  take_line line w =
      if starts_with (codes ":") line
      then (none, tick w)
      else if starts_with (codes "data:") line
      then (after_data (trim (without_label line)), w)
      else (none, w)

  abbrev pub take_lines : List Text → Stateful W (Option WaitResult)
  take_lines [] w = (none, w)
  take_lines (line ∷ lines) w = or_next (take_lines lines) (take_line line w)

  -- the loop over the stream, from what is in the buffer
  unfoldable pub read_stream : Text → List Read → Stateful W (Option WaitResult)
  unfolding take_line
  read_stream buffer [] w = (none, w)
  read_stream buffer (failed ∷ reads) w = (none, w)
  read_stream buffer (chunk text ∷ reads) w =
      let (lines, rest) = split_lines (buffer ++ text) in
      or_next (read_stream rest reads) (take_lines lines w)

abbrev with_key : WaitResult → Json → WaitResult
with_key (approved agent_id owner_id _ platforms) key = approved agent_id owner_id key platforms
with_key result _ = result

abbrev with_claim : WaitResult → Try Json → WaitResult
with_claim result (threw m) = result
with_claim result (ok null) = result
with_claim result (ok json) =
    with_key result (value_or (property (codes "private_key") json) (string []))

abbrev stop_with : Option WaitResult → Round WaitResult
stop_with none = again
stop_with (some result) = stop result

abbrev by_json : Try Json → Round WaitResult
by_json (threw m) = again
by_json (ok null) = again
by_json (ok json) =
    stop_with (no_throw (parse_event (value_or (property (codes "data") json) json)))

abbrev pub ended : Waited WaitResult → Option WaitResult
ended (answered result) = some result
ended timed_out = some timeout
ended out_of_fuel = none

-- The network and the clock.
pub record Outside (W B : Type 0) : Type 0 where
  pub fetch : Text → Stateful W (Try (Response B))
  pub read_json : B → Stateful W (Try Json)
  pub reads : B → Option (List Read)
  pub sleep : ℕ → W → W
  pub now : Stateful W ℕ
  pub tick : W → W
  pub json_parse : Text → Try Json

module _ {W B : Type 0} (outside : Outside W B) (api_url token : Text) where
  abbrev ask : Text → Stateful W (Try (Response B))
  ask path = outside.fetch (api_url ++ codes "/v1/register/" ++ path ++ codes "/" ++ token)

  abbrev by_claim : WaitResult → Try (Response B) → Stateful W WaitResult
  by_claim result (threw m) w = (result, w)
  by_claim result (ok res) w =
      let (json, w') = outside.read_json res.body w in
      if is_ok res.status then (with_claim result json, w') else (result, w)

  unfoldable pub enrich_with_key : WaitResult → Stateful W WaitResult
  enrich_with_key (approved agent_id owner_id key platforms) w =
      let (res, w') = ask (codes "claim-key") w in
      by_claim (approved agent_id owner_id key platforms) res w'
  enrich_with_key result w = (result, w)

  abbrev from_body : Option (List Read) → Stateful W (Option WaitResult)
  from_body none w = (none, w)
  from_body (some reads) w = read_stream outside.json_parse outside.tick [] reads w

  abbrev by_stream : Try (Response B) → Stateful W (Option WaitResult)
  by_stream (threw m) w = (none, w)
  by_stream (ok res) w =
      if is_ok res.status then from_body (outside.reads res.body) w else (none, w)

  unfoldable pub try_sse : Stateful W (Option WaitResult)
  try_sse w = let (res, w') = ask (codes "stream") w in by_stream res w'

  abbrev by_poll : Try (Response B) → Stateful W (Round WaitResult)
  by_poll (threw m) w = (again, w)
  by_poll (ok res) w =
      let (json, w') = outside.read_json res.body w in
      if is_ok res.status then (by_json json, w') else (again, w)

  abbrev pub poll_round : Stateful W (Round WaitResult)
  poll_round w =
      let (res, w') = ask (codes "status") (outside.tick (outside.sleep 5000 w)) in by_poll res w'

  abbrev poll : ℕ → ℕ → Stateful W (Option WaitResult)
  poll deadline fuel w =
      let (waited, w') = while_before outside.now deadline poll_round fuel w in (ended waited, w')

  abbrev enriched : Option WaitResult → Stateful W (Option WaitResult)
  enriched none w = (none, w)
  enriched (some result) w = let (r, w') = enrich_with_key result w in (some r, w')

  abbrev or_poll : ℕ → ℕ → Option WaitResult → Stateful W (Option WaitResult)
  or_poll deadline fuel (some result) w = (some result, w)
  or_poll deadline fuel none w = poll deadline fuel w

  -- none is out of fuel
  unfoldable pub wait_for_approval : ℕ → ℕ → Stateful W (Option WaitResult)
  wait_for_approval timeout_ms fuel w =
      let (started, w₁) = outside.now w in
      let (by_sse, w₂) = try_sse w₁ in
      let (result, w₃) = or_poll (started + timeout_ms) fuel by_sse w₂ in enriched result w₃
