-- ===== src/Kernel/Guard.antt =====
-- guard.ts of packages/kernel/src. A JavaScript number is an integer here, of either sign.
use jcool_ecommerce_backend.Base.{
  ℕ, suc, ◌-◌, ◌^◌, Bool, false, not, ◌&&◌, ◌||◌, [], ◌∷◌, Text, is_empty, leb, ltb, ◌==◌,
  if◌then◌else◌, Option, none, some, ℤ, pos, negsuc,
}
use mathlib.Core.List.{reverse}
use jcool_ecommerce_backend.Kernel.Thrown.{
  Result, guard, err, empty_text, unsafe_integer, not_positive,
}

-- `Number.MAX_SAFE_INTEGER`
abbrev pub max_safe_integer : ℕ
max_safe_integer = 2 ^ 53 - 1

-- `Number.isSafeInteger`
abbrev pub is_safe_integer : ℤ → Bool
is_safe_integer (pos n) = leb n max_safe_integer
is_safe_integer (negsuc n) = leb (suc n) max_safe_integer

-- The white space of `String.prototype.trim`.
abbrev is_blank : ℕ → Bool
is_blank c =
    (leb 9 c && leb c 13)
    || c == 32
    || c == 160
    || c == 5760
    || (leb 8192 c && leb c 8202)
    || c == 8232
    || c == 8233
    || c == 8239
    || c == 8287
    || c == 12288
    || c == 65279

unfoldable pub drop_blanks : Text → Text
drop_blanks [] = []
drop_blanks (c ∷ t) = let rest = drop_blanks t in if is_blank c then rest else c ∷ t

unfoldable pub trim : Text → Text
unfolding drop_blanks
trim t = reverse (drop_blanks (reverse (drop_blanks t)))

unfoldable pub assert_non_empty : Option Text → Result (Unit {0})
unfolding trim
assert_non_empty none = err empty_text
assert_non_empty (some value) = guard (not (is_empty (trim value))) empty_text

unfoldable pub assert_integer : ℤ → Result (Unit {0})
assert_integer value = guard (is_safe_integer value) unsafe_integer

abbrev is_positive : ℤ → Bool
is_positive (pos n) = ltb 0 n
is_positive (negsuc _) = false

unfoldable pub assert_positive : ℤ → Result (Unit {0})
assert_positive value = guard (is_positive value) not_positive
