-- ===== src/Cart/Lines.antt =====
-- The lines of one cart of apps/api, and what each write does to their bounds.
use jcool_ecommerce_backend.Base.{
  ℕ, ◌+◌, ◌≤◌, ◌≡◌, ◌≢◌, sym, ◌∙◌, refl, Bool, true, false, not, ◌&&◌, List, [], ◌∷◌, map, filter,
  any, length, leb, if_lem, All, All-map, All-filter, arith,
}
use jcool_ecommerce_backend.Cart.{
  CartItem, is_sku, accumulate, append_item, upsert_item, set_if, max_cart_lines, is_valid_quantity,
}

abbrev pub IsLine : CartItem → Type 0
IsLine item = is_valid_quantity item.quantity ≡ true

unfoldable pub Distinct : List CartItem → Type 0
Distinct [] = Unit
Distinct (item ∷ items) = All (λ other. other.sku_id ≢ item.sku_id) items × Distinct items

abbrev pub IsCart : List CartItem → Type 0
IsCart items = All IsLine items × Distinct items × length items ≤ 100

-- A change of a line that keeps its SKU.
abbrev pub KeepsSku : (CartItem → CartItem) → Type 0
KeepsSku f = (item : CartItem) → (f item).sku_id ≡ item.sku_id

map-Distinct :
    (f : CartItem → CartItem) (items : List CartItem)
    → KeepsSku f
    → Distinct items
    → Distinct (map f items)
unfolding Distinct
map-Distinct f [] same distinct = tt
map-Distinct f (item ∷ items) same (differ, distinct) = (
  All-map (λ other. other.sku_id ≢ (f item).sku_id) f
      (λ other apart at. apart (sym (same other) ∙ at ∙ same item)) items differ,
  map-Distinct f items same distinct,
)

length-map : (f : CartItem → CartItem) (items : List CartItem) → length (map f items) ≡ length items
length-map f [] = refl
length-map f (item ∷ items) = let rest = length-map f items in omega arith

pub map-IsCart :
    (f : CartItem → CartItem) (items : List CartItem)
    → KeepsSku f
    → ((item : CartItem) → IsLine item → IsLine (f item))
    → IsCart items
    → IsCart (map f items)
map-IsCart f items same keeps (lines, distinct, few) = (
  All-map IsLine f keeps items lines,
  map-Distinct f items same distinct,
  omega (arith, length-map f items, few),
)

pub filter-Distinct :
    (keep : CartItem → Bool) (items : List CartItem) → Distinct items → Distinct (filter keep items)
unfolding Distinct
filter-Distinct keep [] distinct = tt
filter-Distinct keep (item ∷ items) (differ, distinct) =
    let rest = filter-Distinct keep items distinct in
    if_lem Distinct (keep item) (item ∷ filter keep items) (filter keep items)
      (λ taken. (All-filter (λ other. other.sku_id ≢ item.sku_id) keep items differ, rest))
      (λ left. rest)

pub filter-length :
    (keep : CartItem → Bool) (items : List CartItem) → length (filter keep items) ≤ length items
filter-length keep [] = omega arith
filter-length keep (item ∷ items) =
    let rest = filter-length keep items in
    if_lem (λ kept. length kept ≤ length (item ∷ items)) (keep item) (item ∷ filter keep items)
      (filter keep items) (λ taken. omega arith) (λ left. omega arith)

append_item-lines :
    (new : CartItem) (items : List CartItem)
    → IsLine new
    → any (is_sku new.sku_id) items ≡ false
    → All IsLine items
    → Distinct items
    → All IsLine (append_item new items)
      × Distinct (append_item new items)
      × length (append_item new items) ≡ length items + 1
unfolding Distinct
append_item-lines new [] line fresh lines distinct = ((line, tt), (tt, tt), omega arith)
append_item-lines new (item ∷ items) line fresh (first, lines) (differ, distinct) =
    let (rest, apart, longer) = append_item-lines new items line (ground (arith)) lines distinct in
    ((first, rest), (appended new items item.sku_id (ground (arith)) differ, apart), omega arith)
  where
    appended :
        (new : CartItem) (items : List CartItem) (sku : ℕ)
        → new.sku_id ≢ sku
        → All (λ other. other.sku_id ≢ sku) items
        → All (λ other. other.sku_id ≢ sku) (append_item new items)
    appended new [] sku other differ = (other, tt)
    appended new (item ∷ items) sku other (first, differ) =
        (first, appended new items sku other differ)

accumulate-KeepsSku : (sku n : ℕ) → KeepsSku (accumulate sku n)
accumulate-KeepsSku sku n item = ground arith

pub set_if-KeepsSku : (sku n : ℕ) → KeepsSku (set_if sku n)
set_if-KeepsSku sku n item = ground arith

accumulate-IsLine : (sku n : ℕ) (item : CartItem) → IsLine item → IsLine (accumulate sku n item)
accumulate-IsLine sku n item line = ground arith

pub set_if-IsLine :
    (sku n : ℕ)
    → is_valid_quantity n ≡ true
    → (item : CartItem) → IsLine item
    → IsLine (set_if sku n item)
set_if-IsLine sku n valid item line = ground arith

pub upsert_item-IsCart :
    (sku n : ℕ) (items : List CartItem)
    → is_valid_quantity n ≡ true
    → (leb max_cart_lines (length items) && not (any (is_sku sku) items)) ≡ false
    → IsCart items
    → IsCart (upsert_item sku n items)
unfolding upsert_item
upsert_item-IsCart sku n items valid room (lines, distinct, few) =
    let new : CartItem = record { sku_id = sku; quantity = n } in
    if_lem IsCart (any (is_sku sku) items) (map (accumulate sku n) items) (append_item new items)
      (λ there.
        map-IsCart (accumulate sku n) items (accumulate-KeepsSku sku n) (accumulate-IsLine sku n)
          (lines, distinct, few))
      (λ fresh.
        let (all_lines, apart, longer) = append_item-lines new items valid fresh lines distinct in
        (all_lines, apart, ground (arith)))
