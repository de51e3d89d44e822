-- ===== src/IdCodec.antt =====
-- packages/id-codec/src/snowflake.codec.ts: the id layout and its decimal text. A field is a natural
-- number; a text is a list of code units.
mod Tests
mod Bits
pub mod Decimal
pub mod RoundTrip
use Prim.Native.Nat.{bit_and, bit_or}
use jcool_ecommerce_backend.Base.{
  ℕ, ◌+◌, ◌-◌, ◌*◌, ◌/◌, ◌^◌, ◌≤◌, Bool, true, false, ◌&&◌, Option, none, some, Text, leb,
  if◌then◌else◌,
}
use jcool_ecommerce_backend.IdCodec.Decimal.{to_decimal, parse_canonical}

-- `Date.UTC(2026, 0, 1)`
abbrev pub epoch_ms : ℕ
epoch_ms = 1767225600000

abbrev pub timestamp_bits : ℕ
timestamp_bits = 45

abbrev pub node_bits : ℕ
node_bits = 8

abbrev pub sequence_bits : ℕ
sequence_bits = 10

abbrev pub node_count : ℕ
node_count = 2 ^ node_bits

abbrev pub sequence_count : ℕ
sequence_count = 2 ^ sequence_bits

abbrev pub max_timestamp_ms : ℕ
max_timestamp_ms = epoch_ms + 2 ^ timestamp_bits - 1

abbrev pub min_timestamp_ms : ℕ
min_timestamp_ms = epoch_ms + 1

pub record SnowflakeFields : Type 0 where
  pub ts_ms : ℕ
  pub node_id : ℕ
  pub sequence : ℕ

abbrev pub node_shift : ℕ
node_shift = sequence_bits

abbrev pub timestamp_shift : ℕ
timestamp_shift = sequence_bits + node_bits

abbrev pub node_mask : ℕ
node_mask = node_count - 1

abbrev pub sequence_mask : ℕ
sequence_mask = sequence_count - 1

abbrev pub min_routable_id : ℕ
min_routable_id = 2 ^ timestamp_shift

abbrev pub max_value : ℕ
max_value = 2 ^ 63 - 1

unfoldable pub to_routable : Text → Option ℕ
unfolding parse_canonical
to_routable value = elim (parse_canonical value) [
  | none ↦ none
  | some parsed ↦ if leb min_routable_id parsed && leb parsed max_value then some parsed else none
]

abbrev in_field : ℕ → ℕ → ℕ → Bool
in_field value low high = leb low value && leb value high

-- The bits of an id, `none` where `assertField` throws.
unfoldable pub pack : SnowflakeFields → Option ℕ
pack f =
    if in_field f.ts_ms min_timestamp_ms max_timestamp_ms
      && in_field f.node_id 0 (node_count - 1)
      && in_field f.sequence 0 (sequence_count - 1)
    then some (
        bit_or (bit_or ((f.ts_ms - epoch_ms) * 2 ^ timestamp_shift) (f.node_id * 2 ^ node_shift))
          f.sequence)
    else none

unfoldable pub encode : SnowflakeFields → Option Text
unfolding pack to_decimal
encode f = elim (pack f) [ none ↦ none | some value ↦ some (to_decimal value) ]

unfoldable pub unpack : ℕ → SnowflakeFields
unpack value = record {
  ts_ms = value / 2 ^ timestamp_shift + epoch_ms;
  node_id = bit_and (value / 2 ^ node_shift) node_mask;
  sequence = bit_and value sequence_mask;
}

unfoldable pub decode : Text → Option SnowflakeFields
unfolding to_routable unpack
decode id = elim (to_routable id) [ none ↦ none | some value ↦ some (unpack value) ]

unfoldable pub is_routable_id : Text → Bool
unfolding to_routable
is_routable_id value = elim (to_routable value) [ none ↦ false | some _ ↦ true ]
