-- ===== src/Cart.antt =====
-- The cart of apps/api/src/modules/cart: cart.service.ts over drizzle-cart.repository.ts, its writes.
-- A user has at most one cart; its lines stand in the order in which they were added, and a SKU is
-- a number. What the catalog answers about a SKU is an argument.
mod Tests
mod Lines
pub mod Bounds
pub mod Amounts
use jcool_ecommerce_backend.Base.{
  ℕ, ◌+◌, min, Bool, true, false, not, ◌&&◌, Option, none, some, List, [], ◌∷◌, map, filter, any,
  length, leb, ◌==◌, if◌then◌else◌,
}

-- cart.constants.ts
abbrev pub max_line_quantity : ℕ
max_line_quantity = 10

abbrev pub max_cart_lines : ℕ
max_cart_lines = 100

pub record CartItem : Type 0 where
  pub sku_id : ℕ
  pub quantity : ℕ

-- The lines of each user's cart, `none` for a user without one.
abbrev pub CartDb : Type 0
CartDb = ℕ → Option (List CartItem)

abbrev pub is_sku : ℕ → CartItem → Bool
is_sku sku item = item.sku_id == sku

abbrev pub put_cart : ℕ → List CartItem → CartDb → CartDb
put_cart user lines db other = if other == user then some lines else db other

-- `on conflict do update set quantity = least(quantity + n, MAX_LINE_QUANTITY)`
abbrev pub accumulate : ℕ → ℕ → CartItem → CartItem
accumulate sku n item =
    if is_sku sku item
    then record item { quantity = min (item.quantity + n) max_line_quantity }
    else item

-- The line that the insert adds comes last.
abbrev pub append_item : CartItem → List CartItem → List CartItem
append_item new [] = new ∷ []
append_item new (item ∷ items) = item ∷ append_item new items

unfoldable pub upsert_item : ℕ → ℕ → List CartItem → List CartItem
upsert_item sku n items =
    if any (is_sku sku) items
    then map (accumulate sku n) items
    else append_item (record { sku_id = sku; quantity = n }) items

abbrev pub set_if : ℕ → ℕ → CartItem → CartItem
set_if sku n item = if is_sku sku item then record item { quantity = n } else item

abbrev pub lines_of : Option (List CartItem) → List CartItem
lines_of none = []
lines_of (some items) = items

pub data CartOutcome : Type 0 where
  done sku_not_found item_not_found too_many_lines : CartOutcome

-- `ensureCartId` has made the cart also where the cap refuses the line.
abbrev pub add_line : ℕ → ℕ → ℕ → List CartItem → CartDb → CartDb × CartOutcome
add_line user sku n items db =
    if leb max_cart_lines (length items) && not (any (is_sku sku) items)
    then (put_cart user items db, too_many_lines)
    else (put_cart user (upsert_item sku n items) db, done)

-- `on_sale` is whether the catalog has the SKU as active.
unfoldable pub add_item : (ℕ → Bool) → ℕ → ℕ → ℕ → CartDb → CartDb × CartOutcome
add_item on_sale user sku n db =
    if on_sale sku then add_line user sku n (lines_of (db user)) db else (db, sku_not_found)

abbrev pub set_in : ℕ → ℕ → ℕ → CartDb → Option (List CartItem) → CartDb × CartOutcome
set_in user sku n db none = (db, item_not_found)
set_in user sku n db (some items) =
    if any (is_sku sku) items
    then (put_cart user (map (set_if sku n) items) db, done)
    else (db, item_not_found)

unfoldable pub set_item_quantity : ℕ → ℕ → ℕ → CartDb → CartDb × CartOutcome
set_item_quantity user sku n db = set_in user sku n db (db user)

abbrev pub remove_in : ℕ → ℕ → CartDb → Option (List CartItem) → CartDb
remove_in user sku db none = db
remove_in user sku db (some items) = put_cart user (filter (λ item. not (is_sku sku item)) items) db

unfoldable pub remove_item : ℕ → ℕ → CartDb → CartDb × CartOutcome
remove_item user sku db = (remove_in user sku db (db user), done)

abbrev pub clear_in : ℕ → CartDb → Option (List CartItem) → CartDb
clear_in user db none = db
clear_in user db (some items) = put_cart user [] db

unfoldable pub clear : ℕ → CartDb → CartDb × CartOutcome
clear user db = (clear_in user db (db user), done)

-- The requests that write, with what the catalog answers at the time.
pub data CartCall : Type 0 where
  adds : (ℕ → Bool) → ℕ → ℕ → ℕ → CartCall
  sets : ℕ → ℕ → ℕ → CartCall
  removes : ℕ → ℕ → CartCall
  clears : ℕ → CartCall

unfoldable pub call : CartCall → CartDb → CartDb
call (adds on_sale user sku n) db = (add_item on_sale user sku n db).0
call (sets user sku n) db = (set_item_quantity user sku n db).0
call (removes user sku) db = (remove_item user sku db).0
call (clears user) db = (clear user db).0

unfoldable pub call_all : List CartCall → CartDb → CartDb
call_all [] db = db
call_all (c ∷ cs) db = call_all cs (call c db)

-- `@IsInt() @Min(1) @Max(MAX_LINE_QUANTITY)` of the two request bodies.
abbrev pub is_valid_quantity : ℕ → Bool
is_valid_quantity n = leb 1 n && leb n max_line_quantity
