-- ===== src/IdCodec/RoundTrip.antt =====
-- The laws of packages/id-codec/src/snowflake.codec.ts that its callers count on.
use jcool_ecommerce_backend.IdCodec.Bits.{bit_or_disjoint, bit_and_byte, bit_and_ten}
use jcool_ecommerce_backend.IdCodec.Decimal.{to_decimal, parse_canonical-to_decimal}
use Prim.Native.Nat.{bit_and, bit_or}
use jcool_ecommerce_backend.Base.{
  ℕ, ◌+◌, ◌-◌, ◌*◌, ◌/◌, ◌^◌, ◌≤◌, ◌<◌, ◌≡◌, ap, ◌∙◌, true, some, Text, ◌↔◌, ◌⊎◌, arith,
}
use jcool_ecommerce_backend.IdCodec.{
  SnowflakeFields, pack, encode, unpack, decode, to_routable, is_routable_id, epoch_ms,
}

-- The three fields as one number.
abbrev bits_of : SnowflakeFields → ℕ
bits_of f = (f.ts_ms - epoch_ms) * 262144 + f.node_id * 1024 + f.sequence

-- The fields `assertField` lets through.
unfoldable pub IsInRange : SnowflakeFields → Type 0
IsInRange f =
    epoch_ms < f.ts_ms × f.ts_ms < epoch_ms + 35184372088832 × f.node_id < 256 × f.sequence < 1024

or_fields :
    (t n s : ℕ)
    → n < 256
    → s < 1024
    → bit_or (bit_or (t * 262144) (n * 1024)) s ≡ t * 262144 + n * 1024 + s
or_fields t n s hn hs =
    ap (λ upper. bit_or upper s) (bit_or_disjoint 18 t (n * 1024) (omega arith) ∙ (grind arith))
    ∙ bit_or_disjoint 10 (t * 256 + n) s hs
    ∙ omega arith

pub pack_bits : (f : SnowflakeFields) → IsInRange f → pack f ≡ some (bits_of f)
unfolding pack IsInRange
pack_bits f (low, high, node, seq) =
    let joined = or_fields (f.ts_ms - epoch_ms) f.node_id f.sequence node seq in ground (arith)

unpack_bits : (f : SnowflakeFields) → IsInRange f → unpack (bits_of f) ≡ f
unfolding unpack IsInRange
unpack_bits f (low, high, node, seq) =
    let t : (bits_of f / 262144 + epoch_ms ≡ f.ts_ms) = omega arith in
    let n : (bit_and (bits_of f / 1024) 255 ≡ f.node_id) =
      omega (arith, bit_and_byte (bits_of f / 1024)) in
    let s : (bit_and (bits_of f) 1023 ≡ f.sequence) = omega (arith, bit_and_ten (bits_of f)) in
    λ i. record { ts_ms = t i; node_id = n i; sequence = s i }

to_routable-to_decimal : (v : ℕ) → 262144 ≤ v → v < 2 ^ 63 → to_routable (to_decimal v) ≡ some v
unfolding to_routable
to_routable-to_decimal v low high =
    let read = parse_canonical-to_decimal v (omega arith) (omega arith) in ground (arith)

bits_of_bounds : (f : SnowflakeFields) → IsInRange f → 262144 ≤ bits_of f × bits_of f < 2 ^ 63
unfolding IsInRange
bits_of_bounds f (low, high, node, seq) = (omega arith, omega arith)

-- An id that `encode` returns is a routable id and decodes to the fields it was made of, for every
-- timestamp, node and sequence that `encode` accepts.
pub decode-encode :
    (f : SnowflakeFields)
    → IsInRange f
    → (id : Text) × (encode f ≡ some id × decode id ≡ some f × is_routable_id id ≡ true)
unfolding encode decode is_routable_id
decode-encode f h =
    let v = bits_of f in
    let bounds = bits_of_bounds f h in
    let packed = pack_bits f h in
    let routed = to_routable-to_decimal v bounds.0 bounds.1 in
    let fields = unpack_bits f h in (to_decimal v, (ground arith, ground arith, ground arith))

pack-IsInRange : (f : SnowflakeFields) (a : ℕ) → pack f ≡ some a → IsInRange f × a ≡ bits_of f
unfolding pack IsInRange
pack-IsInRange f a p =
    let joined = or_fields (f.ts_ms - epoch_ms) f.node_id f.sequence in ground (arith)

-- Among the ids `encode` packs, the numeric order is the order of the timestamps, then of the nodes, then of
-- the sequence numbers.
pub pack-order :
    (f g : SnowflakeFields) (a b : ℕ)
    → pack f ≡ some a
    → pack g ≡ some b
    → (a < b) ↔ (
        f.ts_ms < g.ts_ms
        ⊎ (f.ts_ms ≡ g.ts_ms
            × (f.node_id < g.node_id ⊎ f.node_id ≡ g.node_id × f.sequence < g.sequence)))
unfolding IsInRange
pack-order f g a b p q =
    let (in_f, of_f) = pack-IsInRange f a p in
    let (in_g, of_g) = pack-IsInRange g b q in (λ h. ground arith, λ h. ground arith)
