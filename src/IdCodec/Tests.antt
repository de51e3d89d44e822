-- ===== src/IdCodec/Tests.antt =====
-- The laws of the id codec at concrete ids.
use jcool_ecommerce_backend.Base.{◌+◌, ◌<◌, ◌≡◌, refl, true, some, ◌↔◌, ◌⊎◌, Text, arith}
use jcool_ecommerce_backend.IdCodec.{
  SnowflakeFields, pack, encode, decode, is_routable_id, epoch_ms,
}
use jcool_ecommerce_backend.IdCodec.RoundTrip.{IsInRange, decode-encode, pack-order}

abbrev early : SnowflakeFields
early = record { ts_ms = epoch_ms + 1; node_id = 255; sequence = 1023 }

abbrev late : SnowflakeFields
late = record { ts_ms = epoch_ms + 2; node_id = 0; sequence = 0 }

early-IsInRange : IsInRange early
unfolding IsInRange
early-IsInRange = (omega arith, omega arith, omega arith, omega arith)

decode-encode_example :
    (id : Text) × (encode early ≡ some id × decode id ≡ some early × is_routable_id id ≡ true)
decode-encode_example = decode-encode early early-IsInRange

early_packed : pack early ≡ some 524287
unfolding pack
early_packed = refl

late_packed : pack late ≡ some 524288
unfolding pack
late_packed = refl

pack-order_example : (524287 < 524288) ↔ (
    early.ts_ms < late.ts_ms
    ⊎ (early.ts_ms ≡ late.ts_ms
        × (early.node_id < late.node_id
            ⊎ early.node_id ≡ late.node_id × early.sequence < late.sequence)))
pack-order_example = pack-order early late 524287 524288 early_packed late_packed
