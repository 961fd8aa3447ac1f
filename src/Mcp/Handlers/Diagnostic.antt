-- ===== src/Mcp/Handlers/Diagnostic.antt =====
-- What `handleReportSelfDiagnostic` of packages/mcp-server/src/tools/handlers.ts passes on.
use agent_valet.Common.{
  Bool, true, false, Option, none, some, List, [], ◌∷◌, Text, codes, ◌===◌, ===_iff, includes, ◌≡◌,
  refl, sym, ◌∙◌, subst, Bool-cases, inl, inr, if◌then◌else◌,
}
use agent_valet.Common.Json.{Json, Fields, get}
use agent_valet.Mcp.Handlers.{optional_field, copied, diagnostic_body}

abbrev pub reported_keys : List Text
reported_keys =
    codes "severity"
    ∷ codes "message"
    ∷ codes "code"
    ∷ codes "platform"
    ∷ codes "endpoint"
    ∷ codes "correlation_id"
    ∷ codes "context"
    ∷ []

if_same : (b : Bool) → ◌≡◌ {A = Option Json} (if b then none else none) none
if_same true = refl
if_same false = refl

get-optional_field :
    (key other : Text) (v : Option Json) (rest : Fields)
    → (other === key) ≡ false
    → get key (optional_field other v rest) ≡ get key rest
get-optional_field key other none rest e = refl
get-optional_field key other (some v) rest e = rw e

module _ (key : Text) (args : Fields) where
  get-same :
      (v : Option Json) (rest : Fields) (listed : Bool)
      → get key rest ≡ (if listed then v else none)
      → get key (optional_field key v rest) ≡ v
  get-same none rest listed h = h ∙ if_same listed
  get-same (some v) rest listed h = rw ((===_iff key key).1 refl)

  get-copied :
      (keys : List Text)
      → get key (copied keys args) ≡ (if includes keys key then get key args else none)
  get-copied [] = refl
  get-copied (k ∷ keys) = elim (Bool-cases (k === key)) [
    | inl e ↦ rw e (
        subst
          (λ other.
            get key (optional_field other (get other args) (copied keys args)) ≡ get key args)
          (sym ((===_iff k key).0 e))
          (get-same (get key args) (copied keys args) (includes keys key) (get-copied keys)))
    | inr e ↦ rw e (get-optional_field key k (get k args) (copied keys args) e ∙ get-copied keys)
  ]

  -- A self-diagnostic passes on the value of a key exactly as the call gave it where the key is one
  -- of severity, message, code, platform, endpoint, correlation_id and context, and has no other
  -- key.
  pub get-diagnostic_body :
      get key (diagnostic_body args) ≡ (if includes reported_keys key then get key args else none)
  unfolding diagnostic_body
  get-diagnostic_body = get-copied reported_keys
