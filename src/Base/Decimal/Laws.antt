-- ===== src/Base/Decimal/Laws.antt =====
-- Decimal text holds digits only, has as many as the number needs, and is read back by atoi.
use Prim.Native.Nat.{ℕ, zero, suc, ◌+◌, ◌-◌, ◌*◌, ◌/◌, ◌%◌, ◌^◌, ◌≤◌, ◌<◌, min}
use native.Mathlib.Nat.{pow-suc}
use mathlib.Core.Path.{◌≡◌, refl}
use mathlib.Core.Logic.{inl, inr}
use mathlib.Core.Bool.{true, false}
use mathlib.Core.List.{[], ◌∷◌, ◌++◌}
use native.Mathlib.Omega.{arith}
use ai_chat_server.Base.Tests.{◌==◌, ltb, Bool-cases}
use ai_chat_server.Base.Lists.{length, length-append}
use ai_chat_server.Base.ByteStrings.{Bytes, NoByte}
use ai_chat_server.Base.Decimal.{
  decimal_from, to_decimal, is_digit, digits_value, atoi_size, signed_value, skip_blank,
  int_to_size, is_blank,
}

abbrev pub AllDigits : Bytes → Type 0
AllDigits [] = Unit {0}
AllDigits (x ∷ xs) = (is_digit x ≡ true) × AllDigits xs

AllDigits-append : (xs ys : Bytes) → AllDigits xs → AllDigits ys → AllDigits (xs ++ ys)
AllDigits-append [] ys h k = k
AllDigits-append (x ∷ xs) ys (d, h) k = (d, AllDigits-append xs ys h k)

digit_char : (n : ℕ) → n < 10 → is_digit (48 + n) ≡ true
digit_char n h = ground arith

decimal_from-AllDigits : (f n : ℕ) → AllDigits (decimal_from f n)
unfolding decimal_from
decimal_from-AllDigits zero n = tt
decimal_from-AllDigits (suc f) n = elim (Bool-cases (ltb n 10)) [
  | inl low ↦ rw (low, decimal_from) (digit_char n (ground arith), tt)
  | inr high ↦
      rw (high, decimal_from)
        (AllDigits-append (decimal_from f (n / 10)) ((48 + n % 10) ∷ [])
          (decimal_from-AllDigits f (n / 10)) (digit_char (n % 10) (omega arith), tt))
]

pub to_decimal-AllDigits : (n : ℕ) → AllDigits (to_decimal n)
unfolding to_decimal
to_decimal-AllDigits n = decimal_from-AllDigits (suc n) n

digits-NoByte : (c : ℕ) (xs : Bytes) → c < 48 → AllDigits xs → NoByte c xs
digits-NoByte c [] h d = tt
digits-NoByte c (x ∷ xs) h (d, ds) = (ground arith, digits-NoByte c xs h ds)

pub to_decimal-NoByte : (c n : ℕ) → c < 48 → NoByte c (to_decimal n)
to_decimal-NoByte c n h = digits-NoByte c (to_decimal n) h (to_decimal-AllDigits n)

-- k + 1 digits hold every number below 10 ^ (k + 1).
length-decimal_from-le : (k f n : ℕ) → n < 10 ^ suc k → length (decimal_from f n) ≤ suc k
unfolding decimal_from
length-decimal_from-le k zero n h = omega arith
length-decimal_from-le zero (suc f) n h =
    let low : ltb n 10 ≡ true = ground arith in rw (low, decimal_from) (omega arith)
length-decimal_from-le (suc k) (suc f) n h = elim (Bool-cases (ltb n 10)) [
  | inl low ↦ rw (low, decimal_from) (omega arith)
  | inr high ↦
      let less : n / 10 < 10 ^ suc k = omega (arith, pow-suc 10 (suc k)) in
      rw (high, decimal_from)
        (omega (
          arith,
          length-append (decimal_from f (n / 10)) ((48 + n % 10) ∷ []),
          length-decimal_from-le k f (n / 10) less,
        ))
]

pub length-to_decimal-digits : (k n : ℕ) → n < 10 ^ suc k → length (to_decimal n) ≤ suc k
unfolding to_decimal
length-to_decimal-digits k n h = length-decimal_from-le k (suc n) n h

pub length-to_decimal-le : (n : ℕ) → n < 2 ^ 64 → length (to_decimal n) ≤ 20
unfolding to_decimal
length-to_decimal-le n h = length-decimal_from-le 19 (suc n) n (omega arith)

digits_value-append :
    (acc : ℕ) (xs ys : Bytes)
    → AllDigits xs
    → digits_value acc (xs ++ ys) ≡ digits_value (digits_value acc xs) ys
unfolding digits_value
digits_value-append acc [] ys h = refl
digits_value-append acc (x ∷ xs) ys (d, h) =
    rw d (digits_value-append (acc * 10 + (x - 48)) xs ys h)

digits_value-decimal_from : (f n : ℕ) → n < f → digits_value 0 (decimal_from f n) ≡ n
unfolding decimal_from digits_value
digits_value-decimal_from zero n h = elim h [ ]
digits_value-decimal_from (suc f) n h = elim (Bool-cases (ltb n 10)) [
  | inl low ↦ rw (low, decimal_from, digits_value, digit_char n (ground arith)) (omega arith)
  | inr high ↦
      rw
        (
          high,
          decimal_from,
          digits_value-append 0 (decimal_from f (n / 10)) ((48 + n % 10) ∷ [])
              (decimal_from-AllDigits f (n / 10)),
          digits_value-decimal_from f (n / 10) (ground arith),
          digit_char (n % 10) (omega arith),
          digits_value,
        )
        (omega arith)
]

pub digits_value-to_decimal : (n : ℕ) → digits_value 0 (to_decimal n) ≡ n
unfolding to_decimal
digits_value-to_decimal n = digits_value-decimal_from (suc n) n (omega arith)

atoi_digits :
    (xs : Bytes)
    → AllDigits xs
    → atoi_size xs ≡ int_to_size (min (digits_value 0 xs) (2 ^ 63 - 1) % 2 ^ 32)
unfolding atoi_size digits_value
atoi_digits [] d = refl
atoi_digits (x ∷ xs) (d, ds) =
    let b1 : is_blank x ≡ false = ground arith in
    let b2 : (x == b'-') ≡ false = ground arith in
    let b3 : (x == b'+') ≡ false = ground arith in
    rw (b1, skip_blank, signed_value) (rw (b2, b3) refl)

-- atoi reads back the decimal text of every number that an int holds.
pub atoi_size-to_decimal : (n : ℕ) → n < 2 ^ 31 → atoi_size (to_decimal n) ≡ n
atoi_size-to_decimal n h =
    rw (atoi_digits (to_decimal n) (to_decimal-AllDigits n), digits_value-to_decimal n)
      (ground arith)
