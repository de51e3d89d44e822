-- ===== src/IdCodec/Decimal.antt =====
-- Decimal texts: `BigInt.prototype.toString`, the pattern CANONICAL_DECIMAL and `BigInt(text)`.
use native.Mathlib.Nat.{pow-suc}
use jcool_ecommerce_backend.Base.{
  ℕ, zero, suc, ◌+◌, ◌-◌, ◌*◌, ◌/◌, ◌%◌, ◌^◌, ◌≤◌, ◌<◌, ◌≡◌, refl, ap, ◌∙◌, Bool, true, false, ◌&&◌,
  Option, none, some, [], ◌∷◌, Text, ltb, leb, length, all, arith, if◌then◌else◌, Bool-cases, inl,
  inr,
}

-- Digits of `n` before `rest`, on fuel: one digit a round.
unfoldable pub print_digits : ℕ → ℕ → Text → Text
print_digits zero n rest = rest
print_digits (suc f) n rest =
    let more = print_digits f (n / 10) ((48 + n % 10) ∷ rest) in
    if ltb n 10 then (48 + n) ∷ rest else more

-- Nineteen digits hold every value below 2^63.
unfoldable pub to_decimal : ℕ → Text
unfolding print_digits
to_decimal n = print_digits 19 n []

abbrev pub is_digit : ℕ → Bool
is_digit c = leb 48 c && leb c 57

unfoldable pub read_digits : ℕ → Text → ℕ
read_digits n [] = n
read_digits n (c ∷ t) = read_digits (n * 10 + (c - 48)) t

-- `/^[1-9][0-9]{0,18}$/` and the value of a text that matches.
unfoldable pub parse_canonical : Text → Option ℕ
unfolding read_digits
parse_canonical [] = none
parse_canonical (c ∷ t) =
    if leb 49 c && leb c 57 && all is_digit t && leb (length t) 18
    then some (read_digits 0 (c ∷ t))
    else none

read_digits-print_digits :
    (f n : ℕ) (rest : Text)
    → n < 10 ^ f
    → read_digits 0 (print_digits f n rest) ≡ read_digits n rest
unfolding print_digits
read_digits-print_digits zero n rest h = ap (λ k. read_digits k rest) (omega arith)
read_digits-print_digits (suc f) n rest h = elim (Bool-cases (ltb n 10)) [
  | inl last ↦ rw last (unfold read_digits in ap (λ k. read_digits k rest) (omega arith))
  | inr more ↦ rw more (
      read_digits-print_digits f (n / 10) ((48 + n % 10) ∷ rest) (omega (arith, pow-suc 10 f))
      ∙ (unfold read_digits in ap (λ k. read_digits k rest) (omega arith)))
]

-- The pattern, less its bound on the length.
abbrev starts_canonical : Text → Bool
starts_canonical [] = false
starts_canonical (c ∷ t) = leb 49 c && leb c 57 && all is_digit t

print_digits-starts_canonical :
    (f n : ℕ) (rest : Text)
    → 1 ≤ n
    → n < 10 ^ f
    → all is_digit rest ≡ true
    → starts_canonical (print_digits f n rest) ≡ true
unfolding print_digits
print_digits-starts_canonical zero n rest p h d = absurd (omega arith)
print_digits-starts_canonical (suc f) n rest p h d = elim (Bool-cases (ltb n 10)) [
  | inl last ↦ rw last (ground arith)
  | inr more ↦ rw more (
      print_digits-starts_canonical f (n / 10) ((48 + n % 10) ∷ rest) (ground arith)
        (omega (arith, pow-suc 10 f)) (ground arith))
]

length-print_digits : (f n : ℕ) (rest : Text) → length (print_digits f n rest) ≤ f + length rest
unfolding print_digits
length-print_digits zero n rest = omega arith
length-print_digits (suc f) n rest =
    ground (arith, length-print_digits f (n / 10) ((48 + n % 10) ∷ rest))

parse_canonical-of_canonical :
    (t : Text)
    → starts_canonical t ≡ true
    → length t ≤ 19
    → parse_canonical t ≡ some (read_digits 0 t)
unfolding parse_canonical
parse_canonical-of_canonical [] h l = cc
parse_canonical-of_canonical (c ∷ t) h l = ground arith

-- The decimal text of a positive number of at most nineteen digits is canonical, and reads as it.
pub parse_canonical-to_decimal :
    (n : ℕ) → 1 ≤ n → n < 10 ^ 19 → parse_canonical (to_decimal n) ≡ some n
unfolding to_decimal
parse_canonical-to_decimal n p h =
    parse_canonical-of_canonical (print_digits 19 n [])
      (print_digits-starts_canonical 19 n [] p h refl) (length-print_digits 19 n [])
    ∙ ap some (read_digits-print_digits 19 n [] h ∙ (unfold read_digits in refl))
