-- ===== src/Cart/Bounds.antt =====
-- The bounds of a cart of apps/api over any requests.
use jcool_ecommerce_backend.Base.{
  ℕ, ◌≡◌, subst, refl, true, not, ◌&&◌, Option, none, some, List, [], ◌∷◌, map, filter, any, length,
  leb, ◌==◌, if_lem, All, All-filter, arith,
}
use jcool_ecommerce_backend.Cart.{
  CartItem, CartDb, is_sku, put_cart, upsert_item, set_if, lines_of, add_line, add_item, set_in,
  set_item_quantity, remove_in, remove_item, clear_in, clear, CartOutcome, done, sku_not_found,
  item_not_found, too_many_lines, max_cart_lines, CartCall, adds, sets, removes, clears, call,
  call_all, is_valid_quantity,
}
use jcool_ecommerce_backend.Cart.Lines.{
  IsLine, Distinct, IsCart, map-IsCart, filter-Distinct, filter-length, set_if-KeepsSku,
  set_if-IsLine, upsert_item-IsCart,
}

-- Every user's cart is within its bounds.
abbrev pub InBounds : CartDb → Type 0
InBounds db = (user : ℕ) → IsCart (lines_of (db user))

put_cart-InBounds :
    (user : ℕ) (items : List CartItem) (db : CartDb)
    → IsCart items
    → InBounds db
    → InBounds (put_cart user items db)
put_cart-InBounds user items db cart bounds other =
    if_lem (λ o. IsCart (lines_of o)) (other == user) (some items) (db other) (λ own. cart)
      (λ foreign. bounds other)

-- The body of the request was accepted.
abbrev pub IsAccepted : CartCall → Type 0
IsAccepted (adds on_sale user sku n) = is_valid_quantity n ≡ true
IsAccepted (sets user sku n) = is_valid_quantity n ≡ true
IsAccepted _ = Unit

lines_of-put :
    (user : ℕ) (items : List CartItem) (db : CartDb)
    → db user ≡ some items
    → InBounds db
    → IsCart items
lines_of-put user items db at bounds = subst (λ o. IsCart (lines_of o)) at (bounds user)

set_in-InBounds :
    (user sku n : ℕ) (db : CartDb) (found : Option (List CartItem))
    → db user ≡ found
    → is_valid_quantity n ≡ true
    → InBounds db
    → InBounds (set_in user sku n db found).0
set_in-InBounds user sku n db none at valid bounds = bounds
set_in-InBounds user sku n db (some items) at valid bounds =
    if_lem (λ (out : CartDb × CartOutcome). InBounds out.0) (any (is_sku sku) items)
      (put_cart user (map (set_if sku n) items) db, done) (db, item_not_found)
      (λ there.
        put_cart-InBounds user (map (set_if sku n) items) db
          (map-IsCart (set_if sku n) items (set_if-KeepsSku sku n) (set_if-IsLine sku n valid)
            (lines_of-put user items db at bounds))
          bounds)
      (λ missing. bounds)

remove_in-InBounds :
    (user sku : ℕ) (db : CartDb) (found : Option (List CartItem))
    → db user ≡ found
    → InBounds db
    → InBounds (remove_in user sku db found)
remove_in-InBounds user sku db none at bounds = bounds
remove_in-InBounds user sku db (some items) at bounds =
    let keep = λ (item : CartItem). not (is_sku sku item) in
    let (lines, distinct, few) = lines_of-put user items db at bounds in
    put_cart-InBounds user (filter keep items) db
      (
        All-filter IsLine keep items lines,
        filter-Distinct keep items distinct,
        omega (arith, filter-length keep items, few),
      )
      bounds

clear_in-InBounds :
    (user : ℕ) (db : CartDb) (found : Option (List CartItem))
    → InBounds db
    → InBounds (clear_in user db found)
unfolding Distinct
clear_in-InBounds user db none bounds = bounds
clear_in-InBounds user db (some items) bounds =
    put_cart-InBounds user [] db (tt, tt, omega arith) bounds

add_line-InBounds :
    (user sku n : ℕ) (db : CartDb)
    → is_valid_quantity n ≡ true
    → InBounds db
    → InBounds (add_line user sku n (lines_of (db user)) db).0
add_line-InBounds user sku n db valid bounds =
    let items = lines_of (db user) in
    if_lem (λ (out : CartDb × CartOutcome). InBounds out.0)
      (leb max_cart_lines (length items) && not (any (is_sku sku) items))
      (put_cart user items db, too_many_lines) (put_cart user (upsert_item sku n items) db, done)
      (λ full. put_cart-InBounds user items db (bounds user) bounds)
      (λ room.
        put_cart-InBounds user (upsert_item sku n items) db
          (upsert_item-IsCart sku n items valid room (bounds user)) bounds)

call-InBounds : (c : CartCall) (db : CartDb) → IsAccepted c → InBounds db → InBounds (call c db)
unfolding call add_item set_item_quantity remove_item clear
call-InBounds (adds on_sale user sku n) db valid bounds =
    if_lem (λ (out : CartDb × CartOutcome). InBounds out.0) (on_sale sku)
      (add_line user sku n (lines_of (db user)) db) (db, sku_not_found)
      (λ known. add_line-InBounds user sku n db valid bounds) (λ unknown. bounds)
call-InBounds (sets user sku n) db valid bounds =
    set_in-InBounds user sku n db (db user) refl valid bounds
call-InBounds (removes user sku) db valid bounds =
    remove_in-InBounds user sku db (db user) refl bounds
call-InBounds (clears user) db valid bounds = clear_in-InBounds user db (db user) bounds

-- Whatever accepted requests follow one another, every cart keeps to its bounds: at most 100 lines,
-- no SKU on two of them, and between 1 and 10 units on each.
pub call_all-InBounds :
    (cs : List CartCall) (db : CartDb) → All IsAccepted cs → InBounds db → InBounds (call_all cs db)
unfolding call_all
call_all-InBounds [] db accepted bounds = bounds
call_all-InBounds (c ∷ cs) db (first, rest) bounds =
    call_all-InBounds cs (call c db) rest (call-InBounds c db first bounds)
