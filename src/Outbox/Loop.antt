-- ===== src/Outbox/Loop.antt =====
-- What a tick's loop and its charges keep, for the relay of packages/messaging.
use jcool_ecommerce_backend.Base.{
  ℕ, zero, suc, ◌+◌, ◌≡◌, refl, Bool, true, false, not, if◌then◌else◌, List, [], ◌∷◌, map, filter,
  length, ltb, leb, if_lem, All, arith,
}
use jcool_ecommerce_backend.Outbox.{
  OutboxRow, TickSetting, routes, take, Tick, mark, refuse, publish_each, charge_if, charge,
  charge_failures, max_refusals_per_tick,
}

-- A tick that a row without a route leaves.
abbrev pub set_aside : OutboxRow → Tick → Tick
set_aside row t = record t { unrouted = row ∷ t.unrouted }

-- The loop's step on a row without a route, on one that the queue takes, and on one that it refuses.
pub publish_each-stray :
    (setting : TickSetting) (row : OutboxRow) (rest : List OutboxRow) (t : Tick)
    → routes setting row ≡ false
    → publish_each setting (row ∷ rest) t ≡ publish_each setting rest (set_aside row t)
unfolding publish_each
publish_each-stray setting row rest t stray = rw stray refl

pub publish_each-taken :
    (setting : TickSetting) (row : OutboxRow) (rest : List OutboxRow) (t : Tick)
    → routes setting row ≡ true
    → setting.accepts row ≡ true
    → publish_each setting (row ∷ rest) t ≡ publish_each setting rest (mark setting.now row t)
unfolding publish_each
publish_each-taken setting row rest t routed taken = rw (routed, taken) refl

pub publish_each-refused :
    (setting : TickSetting) (row : OutboxRow) (rest : List OutboxRow) (t : Tick)
    → routes setting row ≡ true
    → setting.accepts row ≡ false
    → publish_each setting (row ∷ rest) t ≡ (
        if leb 2 (length t.refused) then refuse row t else publish_each setting rest (refuse row t))
unfolding publish_each
publish_each-refused setting row rest t routed thrown =
    let same : leb max_refusals_per_tick (length t.refused + 1) ≡ leb 2 (length t.refused) =
      ground arith in
    rw (routed, thrown, same) refl

-- What each of the loop's three updates keeps, the loop keeps.
pub publish_each-keeps {ℓ} :
    (P : Tick → Type ℓ) (setting : TickSetting)
    → ((row : OutboxRow) (t : Tick) → P t → P (set_aside row t))
    → ((row : OutboxRow) (t : Tick) → P t → P (mark setting.now row t))
    → ((row : OutboxRow) (t : Tick) → P t → P (refuse row t))
    → (rest : List OutboxRow) (t : Tick) → P t
    → P (publish_each setting rest t)
unfolding publish_each
publish_each-keeps P setting aside marked refused [] t h = h
publish_each-keeps P setting aside marked refused (row ∷ rest) t h =
    let later = publish_each-keeps P setting aside marked refused rest in
    if_lem P (not (routes setting row)) _ _ (λ stray. later (set_aside row t) (aside row t h))
      (λ routed.
        if_lem P (setting.accepts row) _ _
          (λ taken. later (mark setting.now row t) (marked row t h))
          (λ thrown.
            if_lem P (leb max_refusals_per_tick (length t.refused + 1)) _ _
              (λ enough. refused row t h) (λ more. later (refuse row t) (refused row t h))))

pub charge-keeps {ℓ} :
    (P : List OutboxRow → Type ℓ)
    → ((c : OutboxRow) (rows : List OutboxRow) → P rows → P (map (charge_if c) rows))
    → (charged rows : List OutboxRow) → P rows
    → P (charge charged rows)
unfolding charge
charge-keeps P once [] rows h = h
charge-keeps P once (c ∷ charged) rows h =
    charge-keeps P once charged (map (charge_if c) rows) (once c rows h)

pub charge_failures-keeps {ℓ} :
    (P : List OutboxRow → Type ℓ)
    → ((c : OutboxRow) (rows : List OutboxRow) → P rows → P (map (charge_if c) rows))
    → (t : Tick) → P t.rows
    → P (charge_failures t)
unfolding charge_failures
charge_failures-keeps P once t h =
    let all = charge-keeps P once in
    if_lem P (ltb 0 t.published) _ _
      (λ works. all t.refused (charge t.unrouted t.rows) (all t.unrouted t.rows h))
      (λ fails. all t.unrouted t.rows h)

pub All-take {ℓ} :
    (P : OutboxRow → Type ℓ) (n : ℕ) (rows : List OutboxRow) → All P rows → All P (take n rows)
All-take P zero rows h = tt
All-take P (suc n) [] h = tt
All-take P (suc n) (row ∷ rows) (first, rest) = (first, All-take P n rows rest)

-- A filter leaves what it tests for.
pub filtered-All :
    (keep : OutboxRow → Bool) (P : OutboxRow → Type 0) (rows : List OutboxRow)
    → ((row : OutboxRow) → keep row ≡ true → P row)
    → All P (filter keep rows)
filtered-All keep P [] means = tt
filtered-All keep P (row ∷ rows) means =
    let rest = filtered-All keep P rows means in
    if_lem (All P) (keep row) (row ∷ filter keep rows) (filter keep rows)
      (λ kept. (means row kept, rest)) (λ dropped. rest)
