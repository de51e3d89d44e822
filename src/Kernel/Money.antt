-- ===== src/Kernel/Money.antt =====
-- money.vo.ts of packages/kernel/src.
use jcool_ecommerce_backend.Base.{
  Bool, false, ◌&&◌, Option, none, some, Text, text_eq, to_upper, length, ◌==◌, ℤ, pos, ◌+ℤ◌, ◌*ℤ◌,
  eq_ℤ,
}
use jcool_ecommerce_backend.Kernel.Thrown.{
  Result, ok, guard, ◌>>=◌, ◌>>◌, bad_currency, currency_mismatch,
}
use jcool_ecommerce_backend.Kernel.Guard.{trim, assert_non_empty, assert_integer}

pub record Money : Type 0 where
  pub amount_minor : ℤ
  pub currency : Text

unfoldable pub normalize_currency : Text → Result Text
unfolding assert_non_empty
normalize_currency currency = do
  assert_non_empty (some currency)
  let code = to_upper (trim currency)
  guard (length code == 3) bad_currency
  ok code

-- `Money.of`
unfoldable pub of : ℤ → Text → Result Money
unfolding assert_integer
of amount_minor currency = do
  assert_integer amount_minor
  code ← normalize_currency currency
  ok (record { amount_minor = amount_minor; currency = code })

-- `Money.zero`
unfoldable pub zero_of : Text → Result Money
unfolding of
zero_of currency = of (pos 0) currency

unfoldable pub add : Money → Money → Result Money
unfolding of
add a b = do
  guard (text_eq a.currency b.currency) currency_mismatch
  of (a.amount_minor +ℤ b.amount_minor) a.currency

unfoldable pub multiply : Money → ℤ → Result Money
unfolding of assert_integer
multiply a qty_int = do assert_integer qty_int; of (a.amount_minor *ℤ qty_int) a.currency

unfoldable pub equals : Money → Option Money → Bool
equals a none = false
equals a (some b) = eq_ℤ a.amount_minor b.amount_minor && text_eq a.currency b.currency
