-- ===== src/Cart/Amounts.antt =====
-- A cart of apps/api as what it promises: how many units of each SKU a user has in it.
use jcool_ecommerce_backend.Base.{ℕ, ◌+◌, ◌≡◌, min, ◌&&◌, List, [], ◌∷◌, ◌==◌, if◌then◌else◌}
use jcool_ecommerce_backend.Cart.{
  CartItem, CartDb, is_sku, lines_of, add_item, set_item_quantity, remove_item, clear, CartOutcome,
  done, max_line_quantity, CartCall, adds, sets, removes, clears,
}

abbrev pub quantity_of : ℕ → List CartItem → ℕ
quantity_of sku [] = 0
quantity_of sku (item ∷ items) = if is_sku sku item then item.quantity else quantity_of sku items

abbrev pub amount : CartDb → ℕ → ℕ → ℕ
amount db user sku = quantity_of sku (lines_of (db user))

-- What a request makes of the amounts: only one that is done changes any, and of its own user only.
unfoldable pub amount_after : CartCall → CartOutcome → (ℕ → ℕ → ℕ) → ℕ → ℕ → ℕ
amount_after (adds on_sale user sku n) done before u s =
    if u == user && s == sku then min (before u s + n) max_line_quantity else before u s
amount_after (sets user sku n) done before u s = if u == user && s == sku then n else before u s
amount_after (removes user sku) done before u s = if u == user && s == sku then 0 else before u s
amount_after (clears user) done before u s = if u == user then 0 else before u s
amount_after _ _ before u s = before u s

unfoldable pub outcome : CartCall → CartDb → CartOutcome
outcome (adds on_sale user sku n) db = (add_item on_sale user sku n db).1
outcome (sets user sku n) db = (set_item_quantity user sku n db).1
outcome (removes user sku) db = (remove_item user sku db).1
outcome (clears user) db = (clear user db).1

-- What the outcome has to do with the amounts.
abbrev Follows : CartCall → CartDb → CartDb × CartOutcome → Type 0
Follows c db out = (u s : ℕ) → amount out.0 u s ≡ amount_after c out.1 (amount db) u s
