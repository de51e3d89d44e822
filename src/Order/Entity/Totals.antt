-- ===== src/Order/Entity/Totals.antt =====
-- The total of a created order is the exact sum of its lines.
use jcool_ecommerce_backend.Base.{
  ℕ, ◌+◌, ◌*◌, ◌≤◌, ◌≡◌, ap, ap₂, ◌∙◌, true, false, not, any, some, List, [], ◌∷◌, Text, ℤ, pos,
  ◌+ℤ◌, ◌*ℤ◌, pos_part, neg_part, pos-+ℤ, pos-*ℤ, All, arith,
}
use jcool_ecommerce_backend.Kernel.{ok, guard, DomainError, >>=-eq-ok}
use jcool_ecommerce_backend.Kernel.Guard.{is_safe_integer, assert_integer, assert_non_empty}
use jcool_ecommerce_backend.Kernel.Money
use jcool_ecommerce_backend.Kernel.Money.{Money}
use jcool_ecommerce_backend.Order.Status.{OrderStatus}
use jcool_ecommerce_backend.Order.Item
use jcool_ecommerce_backend.Order.Item.{OrderItem, line_total}
use jcool_ecommerce_backend.Order.Entity.{
  Order, sum_lines, create, is_oversized, is_nil, max_quantity_per_order_line,
}

-- What `OrderItem.of` lets through, as numbers.
abbrev pub IsPriced : OrderItem → Type 0
IsPriced item =
    (neg_part item.unit_price_minor ≡ 0)
    × (neg_part item.quantity ≡ 0)
    × (1 ≤ pos_part item.quantity)

abbrev pub line : OrderItem → ℕ
line item = pos_part item.unit_price_minor * pos_part item.quantity

abbrev pub lines_total : List OrderItem → ℕ
lines_total [] = 0
lines_total (item ∷ items) = line item + lines_total items

-- An item that `OrderItem.of` accepts has the price and quantity given, neither negative, and at
-- least one piece.
pub of-IsPriced :
    (sku name : Text) (price quantity : ℤ) {item : OrderItem}
    → Item.of sku name price quantity ≡ ok item
    → IsPriced item × (item.unit_price_minor ≡ price) × (item.quantity ≡ quantity)
unfolding Item.of
of-IsPriced sku name price quantity h = ground arith

of-amount :
    (z : ℤ) (currency : Text) {m : Money}
    → Money.of z currency ≡ ok m
    → (m.amount_minor ≡ z) × (is_safe_integer z ≡ true)
unfolding Money.of assert_integer
of-amount z currency h = ground arith

line_total-amount :
    (item : OrderItem) (currency : Text) {m : Money}
    → line_total item currency ≡ ok m
    → m.amount_minor ≡ item.unit_price_minor *ℤ item.quantity
unfolding line_total Money.multiply assert_integer
line_total-amount item currency h = ground arith

add-amount :
    (a b : Money) {m : Money}
    → Money.add a b ≡ ok m
    → (m.amount_minor ≡ a.amount_minor +ℤ b.amount_minor)
      × (is_safe_integer (a.amount_minor +ℤ b.amount_minor) ≡ true)
unfolding Money.add Money.of assert_integer
add-amount a b h = ground arith

pos_of_part : (z : ℤ) → neg_part z ≡ 0 → z ≡ pos (pos_part z)
pos_of_part z h = ground arith

line-pos :
    (item : OrderItem) → IsPriced item → item.unit_price_minor *ℤ item.quantity ≡ pos (line item)
line-pos item h =
    rw (pos_of_part item.unit_price_minor h.0, pos_of_part item.quantity h.1)
      (pos-*ℤ (pos_part item.unit_price_minor) (pos_part item.quantity))

sum_lines-amount :
    (currency : Text) (sum : Money) (n : ℕ) (items : List OrderItem) {total : Money}
    → All IsPriced items
    → sum.amount_minor ≡ pos n
    → sum_lines currency sum items ≡ ok total
    → total.amount_minor ≡ pos (n + lines_total items)
unfolding sum_lines
sum_lines-amount currency sum n [] h e s = ground arith
sum_lines-amount currency sum n (item ∷ items) h e s =
    let (l, line_ok, s₁) = >>=-eq-ok (line_total item currency) _ s in
    let (next, add_ok, s₂) = >>=-eq-ok (Money.add sum l) _ s₁ in
    let next_amount : next.amount_minor ≡ pos (n + line item) =
      (add-amount sum l add_ok).0
      ∙ ap₂ ◌+ℤ◌ e (line_total-amount item currency line_ok ∙ line-pos item h.0)
      ∙ pos-+ℤ n (line item) in
    sum_lines-amount currency next (n + line item) items h.1 next_amount s₂ ∙ ap pos (omega arith)

capped :
    (items : List OrderItem)
    → any is_oversized items ≡ false
    → All IsPriced items
    → All (λ item. pos_part item.quantity ≤ max_quantity_per_order_line) items
capped [] e h = tt
capped (item ∷ items) e h = ground (arith, capped items)

-- A created order is a draft with the lines it was given, none above the cap, and its total is the
-- sum of price times quantity over the lines, exactly: for lines that `OrderItem.of` accepts.
pub create-total :
    (user_id currency : Text) (items : List OrderItem) {o : Order}
    → All IsPriced items
    → create user_id currency items ≡ ok o
    → (o.total_amount_minor ≡ pos (lines_total items))
      × (o.items ≡ items)
      × (o.status ≡ OrderStatus.draft)
      × All (λ item. pos_part item.quantity ≤ max_quantity_per_order_line) items
unfolding create
create-total user_id currency items h c =
    let (_, _, c₁) = >>=-eq-ok (assert_non_empty (some user_id)) _ c in
    let (_, _, c₂) = >>=-eq-ok (guard (not (is_nil items)) DomainError.no_items) _ c₁ in
    let (_, within, c₃) =
      >>=-eq-ok (guard (not (any is_oversized items)) DomainError.oversized_line) _ c₂ in
    let (zero, z, c₄) = >>=-eq-ok (Money.zero_of currency) _ c₃ in
    let (total, t, c₅) = >>=-eq-ok (sum_lines zero.currency zero items) _ c₄ in
    let sum =
      sum_lines-amount zero.currency zero 0 items h
        (unfold Money.zero_of in (of-amount (pos 0) currency z).0) t in
    (ground arith, ground arith, ground arith, capped items (ground arith) h)
