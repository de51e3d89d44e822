-- ===== src/IdGenerator/Snowflake/Ascent.antt =====
-- The order of the ids that one generator of packages/id-generator mints, whatever its clock does.
use jcool_ecommerce_backend.Base.{
  ℕ, zero, suc, ◌<◌, ◌≡◌, refl, Option, none, some, List, [], All, All-weaken, ◌∷◌, Text, arith,
}
use jcool_ecommerce_backend.IdCodec.{SnowflakeFields, pack, encode}
use jcool_ecommerce_backend.IdCodec.Decimal.{to_decimal}
use jcool_ecommerce_backend.IdCodec.RoundTrip.{pack-order}
use jcool_ecommerce_backend.IdGenerator.Snowflake.{
  IdentityClock, SnowflakeGenerator, Mint, minted, clock_stalled, field_rejected, create_with_clock,
  generate, collect, mints,
}
use jcool_ecommerce_backend.IdGenerator.Snowflake.Advance.{
  SameStamp, IsAfter, Stamped, Advanced, generate-Advanced,
}

-- Two id texts in the order of the numbers they are the decimals of.
unfoldable pub Precedes : Text → Text → Type 0
Precedes s t = (a : ℕ) × (b : ℕ) × (s ≡ to_decimal a × t ≡ to_decimal b × a < b)

unfoldable pub Ascending : List Text → Type 0
Ascending [] = Unit
Ascending (id ∷ ids) = All (Precedes id) ids × Ascending ids

-- The id of a stamp that comes after that of `g`'s last id.
unfoldable IdAfter : SnowflakeGenerator → Text → Type 0
IdAfter g id = (f : SnowflakeFields) × (encode f ≡ some id × IsAfter g f)

encode-pack :
    (f : SnowflakeFields) (id : Text)
    → encode f ≡ some id
    → (a : ℕ) × (pack f ≡ some a × id ≡ to_decimal a)
unfolding encode
encode-pack f id e = from (pack f) e
  where
    from :
        (packed : Option ℕ)
        → elim packed [ none ↦ none | some value ↦ some (to_decimal value) ] ≡ some id
        → (a : ℕ) × (packed ≡ some a × id ≡ to_decimal a)
    from none e = cc
    from (some a) e = (a, (refl, cc))

encode-Precedes :
    (h : SnowflakeGenerator) (f : SnowflakeFields) (id later : Text)
    → encode f ≡ some id
    → Stamped h f
    → IdAfter h later
    → Precedes id later
unfolding IdAfter Precedes
encode-Precedes h f id later e stamped (f', (e', after)) =
    let (a, (packed, text)) = encode-pack f id e in
    let (b, (packed', text')) = encode-pack f' later e' in
    (a, b, (text, text', (pack-order f f' a b packed packed').1 (ground arith)))

IdAfter-Stamped :
    (g h : SnowflakeGenerator) (f : SnowflakeFields)
    → IsAfter g f
    → Stamped h f
    → (id : Text) → IdAfter h id
    → IdAfter g id
unfolding IdAfter
IdAfter-Stamped g h f later stamped id (f', (e, after)) = (f', (e, ground arith))

IdAfter-same :
    (g h : SnowflakeGenerator) → SameStamp g h → (id : Text) → IdAfter h id → IdAfter g id
unfolding IdAfter
IdAfter-same g h same id (f', (e, after)) = (f', (e, ground arith))

collect-Ascending :
    (g : SnowflakeGenerator) (called : SnowflakeGenerator × Mint) (ids : List Text)
    → Advanced g called
    → All (IdAfter called.0) ids × Ascending ids
    → All (IdAfter g) (collect called.1 ids) × Ascending (collect called.1 ids)
unfolding Ascending IdAfter
collect-Ascending g (h, minted f id) ids (e, later, stamped) (after, ascending) = (
  ((f, (e, later)), All-weaken (IdAfter-Stamped g h f later stamped) ids after),
  (All-weaken (λ t. encode-Precedes h f id t e stamped) ids after, ascending),
)
collect-Ascending g (h, clock_stalled _) ids same (after, ascending) =
    (All-weaken (IdAfter-same g h same) ids after, ascending)
collect-Ascending g (h, field_rejected f) ids (later, stamped) (after, ascending) =
    (All-weaken (IdAfter-Stamped g h f later stamped) ids after, ascending)

Advanced-small :
    (g : SnowflakeGenerator) (called : SnowflakeGenerator × Mint)
    → g.sequence < 1024
    → Advanced g called
    → called.0.sequence < 1024
Advanced-small g (h, minted f id) small advanced = ground arith
Advanced-small g (h, clock_stalled _) small advanced = ground arith
Advanced-small g (h, field_rejected f) small advanced = ground arith

mints-IdAfter :
    (clock : IdentityClock) (calls : ℕ) (g : SnowflakeGenerator)
    → g.sequence < 1024
    → All (IdAfter g) (mints clock calls g) × Ascending (mints clock calls g)
unfolding mints Ascending
mints-IdAfter clock zero g small = (tt, tt)
mints-IdAfter clock (suc calls) g small =
    let called = generate clock g in
    let advanced = generate-Advanced clock g small in
    collect-Ascending g called (mints clock calls called.0) advanced
      (mints-IdAfter clock calls called.0 (Advanced-small g called small advanced))

-- Whatever the readings of the clock are, backward steps and stalls included, the ids that any
-- number of `generate` calls on one new generator return are in strictly ascending numeric order, so
-- none is returned twice.
pub mints-Ascending :
    (clock : IdentityClock) (node_id : ℕ) (floor : Option ℕ) (at calls : ℕ) (g : SnowflakeGenerator)
    → create_with_clock clock node_id floor at ≡ some g
    → Ascending (mints clock calls g)
unfolding create_with_clock
mints-Ascending clock node_id floor at calls g created =
    (mints-IdAfter clock calls g (ground arith)).1
