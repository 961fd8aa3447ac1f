-- ===== src/Tests/Fingerprint.antt =====
-- packages/mcp-broker/src/fingerprint.ts on concrete inputs.
use agent_valet.Common.{some, Text, codes, ◌++◌, none, ◌≡◌, ◌≢◌, ◌===◌, refl, ap, Bool, true, false}
use agent_valet.Broker.Fingerprint.{
  Value, number, object, prop, no_properties, canonicalize, args_fingerprint, insert, before,
  quoted,
}
use agent_valet.Broker.Fingerprint.Order.{
  Reordered, in_object, under, swapped, done, args_fingerprint-Reordered,
}

abbrev one : Value
one = number (codes "1")

abbrev inner : Value
inner = object (prop (codes "b") one (prop (codes "a") one no_properties))

abbrev sorted_inner : Value
sorted_inner = object (prop (codes "a") one (prop (codes "b") one no_properties))

abbrev outer : Value → Value
outer v = object (prop (codes "x") v no_properties)

canonicalize-inner : canonicalize (outer inner) ≡ codes "{\"x\":{\"a\":1,\"b\":1}}"
unfolding canonicalize insert before quoted
canonicalize-inner = refl

abbrev is_b : Text → Bool
is_b t = t === codes "b"

b-apart : (codes "b" ≡ codes "a") → true ≡ false
unfolding ◌===◌
b-apart h = ap is_b h

booleans_apart : true ≢ false
booleans_apart h = cc

inner-Reordered : Reordered (outer inner) (outer sorted_inner)
inner-Reordered = in_object _ _ (
    under (codes "x") inner sorted_inner no_properties no_properties
      (in_object _ _
        (swapped (codes "b") (codes "a") one one no_properties (λ h. booleans_apart (b-apart h))))
      done)

abbrev hash : Text → Text
hash text = text ++ codes "!"

args_fingerprint-Reordered_example :
    args_fingerprint hash (some (outer inner)) ≡ args_fingerprint hash (some (outer sorted_inner))
args_fingerprint-Reordered_example =
    args_fingerprint-Reordered hash (outer inner) (outer sorted_inner) inner-Reordered

args_fingerprint-undefined : args_fingerprint hash none ≡ codes "sha256:{}!"
unfolding args_fingerprint canonicalize
args_fingerprint-undefined = refl
