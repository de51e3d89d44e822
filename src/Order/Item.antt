-- ===== src/Order/Item.antt =====
-- order-item.entity.ts of apps/order-service/src/modules/order/domain.
use jcool_ecommerce_backend.Base.{Bool, true, false, not, some, Text, ℤ, pos, negsuc}
use jcool_ecommerce_backend.Kernel.{Result, ok, guard, ◌>>=◌, ◌>>◌, DomainError}
use jcool_ecommerce_backend.Kernel.Guard.{assert_non_empty, assert_integer, assert_positive}
use jcool_ecommerce_backend.Kernel.Money
use jcool_ecommerce_backend.Kernel.Money.{Money}

pub record OrderItem : Type 0 where
  pub sku_id : Text
  pub product_name : Text
  pub unit_price_minor : ℤ
  pub quantity : ℤ

abbrev is_negative : ℤ → Bool
is_negative (pos _) = false
is_negative (negsuc _) = true

-- `OrderItem.of`
unfoldable pub of : Text → Text → ℤ → ℤ → Result OrderItem
unfolding assert_non_empty assert_integer assert_positive
of sku_id product_name unit_price_minor quantity = do
  assert_non_empty (some sku_id)
  assert_non_empty (some product_name)
  assert_integer unit_price_minor
  guard (not (is_negative unit_price_minor)) DomainError.negative_price
  assert_integer quantity
  assert_positive quantity
  ok (record {
    sku_id = sku_id;
    product_name = product_name;
    unit_price_minor = unit_price_minor;
    quantity = quantity;
  })

unfoldable pub line_total : OrderItem → Text → Result Money
line_total item currency = do
  price ← Money.of item.unit_price_minor currency
  Money.multiply price item.quantity
