-- ===== src/Gate/Failures.antt =====
-- The failures of `callGate` and `observe` in packages/mcp-server/src/gate-client.ts.
use agent_valet.Common.{Text, Option, ◌≡◌, refl, ◌↔◌, ℕ}
use agent_valet.Common.Effects.{Try, ok, threw, Stateful}
use agent_valet.Common.Json.{Json}
use agent_valet.Gate.{
  GateOutcome, GateClient, GateRequest, HttpRequest, HttpResponse, call_gate, after_fetch,
  after_text, gate_call, classify_gate_response, network_error,
}

module _ {W : Type 0} (json_parse : Text → Option Json)
    (fetch : HttpRequest → Stateful W (Try (HttpResponse W))) where
  -- The answer of `fetch` arrived, and reading its body failed with this message.
  abbrev pub TextThrew : HttpRequest → W → Text → Type 0
  TextThrew call w message =
      (res : HttpResponse W) × ((fetch call w).0 ≡ ok res)
      × ((res.text (fetch call w).1).0 ≡ threw message)

  after_text_threw :
      (classify : Json → GateOutcome) (text : Try Text) (message : Text)
      → (after_text json_parse fetch classify text ≡ threw message) ↔ (text ≡ threw message)
  after_text_threw classify (ok text) message = (λ h. cc, λ h. cc)
  after_text_threw classify (threw m) message = (λ h. cc, λ h. cc)

  after_fetch_threw :
      (classify : ℕ → Json → GateOutcome) (res : Try (HttpResponse W)) (w : W) (message : Text)
      → ((after_fetch json_parse fetch classify res w).0 ≡ threw message)
        ↔ ((r : HttpResponse W) × (res ≡ ok r) × ((r.text w).0 ≡ threw message))
  after_fetch_threw classify (ok r) w message =
      let (to, from) = after_text_threw (classify r.status) (r.text w).0 message in
      (λ h. (r, refl, to h), λ (x, same, k). from (cc))
  after_fetch_threw classify (threw m) w message = (λ h. cc, λ (r, h, k). cc)

  -- A gate call throws exactly when the answer arrives and reading its body fails. A failing `fetch`
  -- makes it return the outcome of a network error instead.
  pub call_gate_threw_iff :
      (client : GateClient) (req : GateRequest) (w : W) (message : Text)
      → (((call_gate json_parse fetch client req w).0 ≡ threw message)
          ↔ TextThrew (gate_call client req) w message)
        × ((fetch (gate_call client req) w).0 ≡ threw message
            → (call_gate json_parse fetch client req w).0 ≡ ok (network_error message))
  unfolding call_gate
  call_gate_threw_iff client req w message = (
    after_fetch_threw classify_gate_response (fetch (gate_call client req) w).0
        (fetch (gate_call client req) w).1 message,
    λ h. rw h refl,
  )
