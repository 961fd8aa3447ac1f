-- ===== src/Broker/FilePolicy/Loading.antt =====
-- The policy file, from its text to the decision, and the cache of the parsed document.
use agent_valet.Common.{Option, none, some, Text, ◌≡◌}
use agent_valet.Common.Effects.{Try, ok, Stateful}
use agent_valet.Broker.FilePolicy.{Source, load_missing, evaluate, evaluate_doc, rule_for}
use agent_valet.Broker.FilePolicy.Meaning.{meaning, effect_of, evaluate_doc-eq-meaning}
use agent_valet.Broker.Types.{AccessRequest, Decision}
use agent_valet.Broker.Yaml.{PolicyDoc, parse_policy}
use agent_valet.Broker.Yaml.RoundTrip.{IsPrintable, print, parse_policy-print}
use agent_valet.Broker.Yaml.Scan

-- What the source says of a request, by its loaded document.
abbrev pub answer : PolicyDoc → AccessRequest → Decision
answer doc req =
    meaning (effect_of doc.defaults (rule_for req.resource.tool doc.rules)) doc req.resource.tool

module _ {W : Type 0} (read_file : Stateful W (Try Text)) where
  abbrev loaded : Source W → PolicyDoc → Source W
  loaded s doc = record { doc = some doc; world = (read_file s.world).1 }

  load_missing-read :
      (s : Source W) (cached : Option PolicyDoc) (raw : Text) (doc : PolicyDoc)
      → cached ≡ none
      → (read_file s.world).0 ≡ ok raw
      → parse_policy raw ≡ Scan.ok doc
      → load_missing read_file cached s ≡ (ok doc, loaded s doc)
  load_missing-read s cached raw doc fresh read parsed = rw fresh (rw read (rw parsed))

  load_missing-cached :
      (s : Source W) (cached : Option PolicyDoc) (doc : PolicyDoc)
      → cached ≡ some doc
      → load_missing read_file cached s ≡ (ok doc, s)
  load_missing-cached s cached doc h = rw h

  -- A source decides by its cached document, and stays as it is.
  pub evaluate-cached :
      (s : Source W) (doc : PolicyDoc) (req : AccessRequest)
      → s.doc ≡ some doc
      → evaluate read_file req s ≡ (ok (evaluate_doc doc req), s)
  unfolding evaluate
  evaluate-cached s doc req h = rw (load_missing-cached s s.doc doc h)

  -- A source that has loaded nothing yet, and whose file holds the canonical text of a printable
  -- document, decides a first request as the document says. It then decides a second request as
  -- the document says too, without reading the file again.
  pub evaluate-print :
      (s : Source W) (doc : PolicyDoc) (req second : AccessRequest)
      → s.doc ≡ none
      → (read_file s.world).0 ≡ ok (print doc)
      → IsPrintable doc
      → (evaluate read_file req s ≡ (ok (answer doc req), loaded s doc))
        × (evaluate read_file second (loaded s doc) ≡ (ok (answer doc second), loaded s doc))
  unfolding evaluate
  evaluate-print s doc req second fresh read h = (
    rw (load_missing-read s s.doc (print doc) doc fresh read (parse_policy-print doc h))
        (rw (evaluate_doc-eq-meaning doc req h.distinct)),
    rw (evaluate_doc-eq-meaning doc second h.distinct),
  )
