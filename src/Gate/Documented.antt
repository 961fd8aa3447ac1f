-- ===== src/Gate/Documented.antt =====
-- The table of decisions that packages/mcp-server/src/gate-client.ts documents above
-- `classifyGateResponse`, against the code.
use agent_valet.Common.{
  ℕ, ◌≤◌, ◌<◌, ◌≢◌, ◌↔◌, ◌⊎◌, inl, inr, ◌≡◌, refl, sym, ap, true, Bool-cases, Option, none, some,
  Option-cases, Text, codes, is_some, or_else, ◌===◌, ===_iff, arith,
}
use agent_valet.Common.Json.{
  Json, null, boolean, number, string, array, object, property, as_string,
}
use agent_valet.Gate.{
  allowed, denied, pending_approval, error, suspended, decision, halted, read_field,
  classify_gate_response,
}

-- A body whose reason is one of the two that the documentation names.
abbrev pub IsHalted : Json → Type 0
IsHalted body =
    (property (codes "reason") body ≡ some (string (codes "agent_suspended")))
    ⊎ (property (codes "reason") body ≡ some (string (codes "circuit_breaker_open")))

as_string-eq-some : (v : Option Json) (s : Text) → as_string v ≡ some s → v ≡ some (string s)
as_string-eq-some (some (string t)) s h = ap (λ o. some (string (or_else o t))) h
as_string-eq-some none s h = cc
as_string-eq-some (some null) s h = cc
as_string-eq-some (some (boolean b)) s h = cc
as_string-eq-some (some (number n)) s h = cc
as_string-eq-some (some (array xs)) s h = cc
as_string-eq-some (some (object fs)) s h = cc

-- One of the two reasons, and what the code makes of a reason.
halted_reason :
    (reason : Option Text)
    → is_some (halted reason) ≡ true
    → (reason ≡ some (codes "agent_suspended")) ⊎ (reason ≡ some (codes "circuit_breaker_open"))
halted_reason none h = cc
halted_reason (some reason) h = elim (Bool-cases (codes "agent_suspended" === reason)) [
  | inl e ↦ inl (ap (λ t. some t) (sym ((===_iff _ reason).0 e)))
  | inr e ↦ elim (Bool-cases (codes "circuit_breaker_open" === reason)) [
    | inl f ↦ inr (ap (λ t. some t) (sym ((===_iff _ reason).0 f)))
    | inr f ↦ ground (arith, rw (e, f) at h)
  ]
]

halted_iff :
    (body : Json) → (is_some (halted (read_field body (codes "reason"))) ≡ true) ↔ IsHalted body
unfolding ◌===◌
halted_iff body = (
  λ h. elim (halted_reason _ h) [
    | inl e ↦ inl (as_string-eq-some _ _ e)
    | inr e ↦ inr (as_string-eq-some _ _ e)
  ],
  λ h. elim h [ inl e ↦ rw e refl | inr e ↦ rw e refl ],
)

-- A response is classified as allowed exactly when its status is a success other than 202, as
-- pending approval exactly on 202, as suspended exactly on a 403 whose body gives the reason
-- `agent_suspended` or `circuit_breaker_open`, as an error exactly on 401 or from 500 on, and as
-- denied exactly in all other cases.
pub classify_gate_response_iff :
    (status : ℕ) (body : Json)
    → ((decision (classify_gate_response status body) ≡ allowed)
        ↔ ((200 ≤ status) × (status < 300) × (status ≢ 202)))
      × ((decision (classify_gate_response status body) ≡ pending_approval) ↔ (status ≡ 202))
      × ((decision (classify_gate_response status body) ≡ suspended)
          ↔ ((status ≡ 403) × IsHalted body))
      × ((decision (classify_gate_response status body) ≡ error)
          ↔ ((status ≡ 401) ⊎ (500 ≤ status)))
      × ((decision (classify_gate_response status body) ≡ denied) ↔ (
          ((status < 200) ⊎ (300 ≤ status))
          × (status ≢ 401)
          × (status < 500)
          × ((status ≡ 403) → ¬ IsHalted body)))
unfolding classify_gate_response
classify_gate_response_iff status body =
    elim (Option-cases (halted (read_field body (codes "reason")))) [
      | inl e ↦
          let sound = (halted_iff body).1 in
          let lives : ¬ IsHalted body = λ h. let k = sound h in cc in rw e (ground arith)
      | inr (reason, e) ↦
          let halts : IsHalted body = (halted_iff body).0 (rw e refl) in rw e (ground arith)
    ]
