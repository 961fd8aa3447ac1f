-- ===== src/Broker/Wiring/Files.antt =====
-- packages/mcp-broker/src/audit/jsonl-sink.ts: the audit sink of a file. The file system is a
-- parameter; what `mkdir` throws is left alone.
use agent_valet.Common.{Bool, true, List, [], ◌∷◌, ◌++◌, Text, if◌then◌else◌}
use agent_valet.Common.Effects.{Try, ok, Stateful}
use agent_valet.Broker.Types.{AuditEvent}

-- a `JsonlAuditSink`, and the world around it
pub record Sink (W : Type 0) : Type 0 where
  pub ensured : Bool
  pub world : W

module _ {W : Type 0} (make_dir : W → W) (append : Text → Stateful {0, 0} W (Try Unit))
    (stringify : AuditEvent → Text) where
  abbrev ensure : Sink W → Sink W
  ensure s = if s.ensured then s else record { ensured = true; world = make_dir s.world }

  -- `emit`
  unfoldable emit_line : AuditEvent → Stateful {0, 0} (Sink W) (Try Unit)
  emit_line event s =
      let made = ensure s in
      let (r, w) = append (stringify event ++ (10 ∷ [])) made.world in
      (r, record made { world = w })

-- a `MemoryAuditSink`, by its events
abbrev emit_memory : AuditEvent → List AuditEvent → Try (Unit {0}) × List AuditEvent
emit_memory event events = (ok tt, events ++ (event ∷ []))
