-- ===== src/IdGenerator/Snowflake.antt =====
-- packages/id-generator/src/snowflake.generator.ts. A clock is the sequence of what its readings
-- return, the wall clock free to step in either direction; `reads` counts the readings made. A call
-- returns the generator as it leaves it, with the id or what it throws.
pub mod Advance
pub mod Ascent
pub mod Floor
pub mod Stall
use jcool_ecommerce_backend.Base.{
  ℕ, zero, suc, ◌+◌, ◌-◌, ◌*◌, Bool, true, false, ◌&&◌, Option, none, some, List, [], ◌∷◌, Text,
  ltb, leb, ◌==◌, if◌then◌else◌,
}
use jcool_ecommerce_backend.IdCodec.{
  SnowflakeFields, encode, node_count, sequence_count, max_timestamp_ms,
}

-- What the n-th reading returns, by the kind of reading.
pub record IdentityClock : Type 0 where
  pub wall_ms : ℕ → ℕ
  pub monotonic_ms : ℕ → ℕ
  pub elapsed_ns : ℕ → ℕ

pub data ClockStallReason : Type 0 where
  deadline loop_cap : ClockStallReason

pub record SnowflakeGenerator : Type 0 where
  pub node_id : ℕ
  pub last_ms : ℕ
  pub sequence : ℕ
  pub offset_ms : ℕ
  pub stalls : ℕ
  pub stalled_at_ms : Option ℕ
  pub origin_wall_ms : ℕ
  pub origin_monotonic_ms : ℕ
  pub lift_ms : ℕ
  pub reads : ℕ

abbrev pub spin_deadline_ns : ℕ
spin_deadline_ns = 10 * 1000000

abbrev pub spin_loop_cap : ℕ
spin_loop_cap = 40000

abbrev valid_floor : Option ℕ → Bool
valid_floor none = true
valid_floor (some floor) = ltb floor max_timestamp_ms

abbrev pub lift_over : ℕ → Option ℕ → ℕ
lift_over wall none = 0
lift_over wall (some floor) = floor + 1 - wall

-- `none` for a RangeError; `at` is the number of the clock's next reading.
unfoldable pub create_with_clock : IdentityClock → ℕ → Option ℕ → ℕ → Option SnowflakeGenerator
create_with_clock clock node_id floor at =
    if ltb node_id node_count && valid_floor floor
    then some (record {
      node_id = node_id;
      last_ms = 0;
      sequence = 0;
      offset_ms = 0;
      stalls = 0;
      stalled_at_ms = none;
      origin_wall_ms = clock.wall_ms at;
      origin_monotonic_ms = clock.monotonic_ms (at + 1);
      lift_ms = lift_over (clock.wall_ms at) floor;
      reads = at + 2;
    })
    else none

-- `behind` compares with the origin's monotonic reading on the wall's side, so that nothing is
-- subtracted below 0; what is returned is never below the wall reading.
unfoldable pub now : IdentityClock → SnowflakeGenerator → SnowflakeGenerator × ℕ
now clock g =
    let monotonic = g.origin_wall_ms + g.lift_ms + clock.monotonic_ms g.reads in
    let wall = clock.wall_ms (g.reads + 1) + g.origin_monotonic_ms in
    let offset =
      if ltb (monotonic + g.offset_ms) wall
      then g.offset_ms + (wall - (monotonic + g.offset_ms))
      else g.offset_ms in
    (
      record g { offset_ms = offset; reads = g.reads + 2 },
      monotonic + offset - g.origin_monotonic_ms,
    )

abbrev pub stall : ℕ → SnowflakeGenerator → SnowflakeGenerator
stall ms g = record g { stalled_at_ms = some ms; stalls = g.stalls + 1 }

pub data Spun : Type 0 where
  past : ℕ → Spun
  stalled : ClockStallReason → Spun

-- One turn of the loop, on what the turns after it make of the generator.
unfoldable pub turn :
    IdentityClock
    → ℕ
    → ℕ
    → (SnowflakeGenerator → SnowflakeGenerator × Spun)
    → SnowflakeGenerator
    → SnowflakeGenerator × Spun
turn clock ms deadline_ns next g =
    let (g1, ts) = now clock g in
    elim (ltb ms ts) [
      | true ↦ (record g1 { stalled_at_ms = none }, past ts)
      | false ↦
          let g2 = record g1 { reads = g1.reads + 1 } in
          elim (ltb deadline_ns (clock.elapsed_ns g1.reads)) [
            | false ↦ next g2
            | true ↦
                let (g3, again) = now clock g2 in
                elim (leb again ms) [ true ↦ (stall ms g3, stalled deadline) | false ↦ next g3 ]
          ]
    ]

-- The loop, with the turns that the cap leaves.
unfoldable pub spin : IdentityClock → ℕ → ℕ → ℕ → SnowflakeGenerator → SnowflakeGenerator × Spun
spin clock ms deadline_ns zero g = (stall ms g, stalled loop_cap)
spin clock ms deadline_ns (suc left) g =
    turn clock ms deadline_ns (λ h. spin clock ms deadline_ns left h) g

abbrev pub cap_at : ℕ → Option ℕ → ℕ
cap_at ms none = spin_loop_cap
cap_at ms (some at) = if at == ms then 1 else spin_loop_cap

unfoldable pub spin_past : IdentityClock → ℕ → SnowflakeGenerator → SnowflakeGenerator × Spun
spin_past clock ms g =
    spin clock ms (clock.elapsed_ns g.reads + spin_deadline_ns) (cap_at ms g.stalled_at_ms)
      (record g { reads = g.reads + 1 })

pub data Mint : Type 0 where
  minted : SnowflakeFields → Text → Mint
  clock_stalled : ClockStallReason → Mint
  field_rejected : SnowflakeFields → Mint

abbrev pub encoded : SnowflakeFields → Option Text → Mint
encoded fields none = field_rejected fields
encoded fields (some id) = minted fields id

-- The last statements of `generate`.
abbrev pub stamp : SnowflakeGenerator → ℕ → ℕ → SnowflakeGenerator × Mint
stamp g ts sequence =
    let fields : SnowflakeFields = record {
      ts_ms = ts;
      node_id = g.node_id;
      sequence = sequence;
    } in
    (record g { last_ms = ts; sequence = sequence }, encoded fields (encode fields))

abbrev pub stamp_past : SnowflakeGenerator × Spun → SnowflakeGenerator × Mint
stamp_past (g, past ts) = stamp g ts 0
stamp_past (g, stalled reason) = (g, clock_stalled reason)

unfoldable pub generate : IdentityClock → SnowflakeGenerator → SnowflakeGenerator × Mint
generate clock g =
    let (g1, ts) = now clock g in
    elim (leb ts g1.last_ms) [
      | false ↦ stamp g1 ts 0
      | true ↦ elim (g1.sequence == sequence_count - 1) [
        | true ↦ stamp_past (spin_past clock g1.last_ms g1)
        | false ↦ stamp g1 g1.last_ms (g1.sequence + 1)
      ]
    ]

-- The ids that a number of calls return, in their order.
abbrev pub collect : Mint → List Text → List Text
collect (minted _ id) ids = id ∷ ids
collect (clock_stalled _) ids = ids
collect (field_rejected _) ids = ids

unfoldable pub mints : IdentityClock → ℕ → SnowflakeGenerator → List Text
mints clock zero g = []
mints clock (suc calls) g = let (g', m) = generate clock g in collect m (mints clock calls g')
