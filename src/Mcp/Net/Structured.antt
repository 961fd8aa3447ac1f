-- ===== src/Mcp/Net/Structured.antt =====
-- When `jsonContent` of packages/mcp-server/src/net.ts gives structured content.
use agent_valet.Common.{
  Bool, true, false, ◌||◌, some, Text, codes, ◌≡◌, refl, ◌↔◌, Bool-cases, inl, inr,
}
use agent_valet.Common.Js.{starts_with, trim}
use agent_valet.Common.Effects.{Try, ok, threw}
use agent_valet.Common.Json.{Json}
use agent_valet.Mcp.Net.{Outside, structured, is_structured, try_parse_json, json_content}

structured-some :
    (parsed : Try Json) (v : Json)
    → (structured parsed ≡ some v) ↔ ((parsed ≡ ok v) × (is_structured v ≡ true))
structured-some (threw m) v = (λ h. cc, λ h. cc)
structured-some (ok u) v = elim (Bool-cases (is_structured u)) [
  | inl e ↦ rw e (λ h. (cc, cc), λ h. let (same, list) = h in cc)
  | inr e ↦ rw e (λ h. cc, λ h. let (same, list) = h in cc)
]

module _ {W K B : Type 0} (out : Outside W K B) (body : Text) where
  abbrev pub looks_structured : Bool
  looks_structured = starts_with (codes "{") (trim body) || starts_with (codes "[") (trim body)

  -- The structured content of a text that is passed on is a value exactly where the trimmed text
  -- begins like an object or an array and `JSON.parse` reads it as this value, an object or an
  -- array; the text is passed on as it is, without an error.
  pub json_content_iff :
      (v : Json)
      → (((json_content out body).structured_content ≡ some v) ↔ (
          (looks_structured ≡ true)
          × (out.json_parse (trim body) ≡ ok v)
          × (is_structured v ≡ true)))
        × ((json_content out body).text ≡ body)
        × ((json_content out body).is_error ≡ false)
  unfolding json_content try_parse_json
  json_content_iff v =
      let parsed = structured-some (out.json_parse (trim body)) v in
      (
        elim (Bool-cases (starts_with (codes "{") (trim body))) [
          | inl e ↦ rw e (λ h. (refl, (parsed.0 h).0, (parsed.0 h).1), λ h. parsed.1 (h.1, h.2))
          | inr e ↦ elim (Bool-cases (starts_with (codes "[") (trim body))) [
            | inl f ↦
                rw (e, f) (λ h. (refl, (parsed.0 h).0, (parsed.0 h).1), λ h. parsed.1 (h.1, h.2))
            | inr f ↦ rw (e, f) (λ h. cc, λ h. let like = h.0 in cc)
          ]
        ],
        refl,
        refl,
      )
