-- ===== src/Base/Decimal.antt =====
-- Decimal text of a number, as snprintf("%zu") writes it, and atoi.
pub mod Laws
mod Tests
use Prim.Native.Nat.{ℕ, zero, suc, ◌+◌, ◌-◌, ◌*◌, ◌/◌, ◌%◌, ◌^◌, ◌≤◌, ◌<◌, min}
use mathlib.Core.Path.{◌≡◌, refl}
use mathlib.Core.Bool.{Bool, true, false, ◌&&◌, ◌||◌}
use mathlib.Core.List.{List, [], ◌∷◌, ◌++◌, append-nil}
use native.Mathlib.Omega.{arith}
use ai_chat_server.Base.Tests.{◌==◌, ltb, leb, if◌then◌else◌, Bool-cases}
use ai_chat_server.Base.ByteStrings.{Bytes}

-- The digits of `n`, the low one last. Each round divides by ten, so `n + 1` rounds are enough.
unfoldable pub decimal_from : ℕ → ℕ → Bytes
decimal_from zero n = []
decimal_from (suc f) n = elim (ltb n 10) [
  | true ↦ (48 + n) ∷ []
  | false ↦ decimal_from f (n / 10) ++ (48 + n % 10) ∷ []
]

unfoldable pub to_decimal : ℕ → Bytes
unfolding decimal_from
to_decimal n = decimal_from (suc n) n

abbrev pub is_digit : ℕ → Bool
is_digit x = leb 48 x && leb x 57

-- The value of the leading digits, after those of `acc`.
pub digits_value : ℕ → Bytes → ℕ
digits_value acc [] = acc
digits_value acc (x ∷ xs) =
    let more = digits_value (acc * 10 + (x - 48)) xs in if is_digit x then more else acc

abbrev pub is_blank : ℕ → Bool
is_blank x = x == 32 || (leb 9 x && leb x 13)

abbrev int_mod : ℕ
int_mod = 2 ^ 32

-- static_cast<size_t> of the int whose low 32 bits are `w`.
abbrev pub int_to_size : ℕ → ℕ
int_to_size w = if ltb w (2 ^ 31) then w else w + (2 ^ 64 - 2 ^ 32)

-- (int) strtol(s, 0, 10), converted to size_t: strtol clamps to the range of a 64-bit long.
pub positive_value : Bytes → ℕ
unfolding digits_value
positive_value xs = int_to_size (min (digits_value 0 xs) (2 ^ 63 - 1) % int_mod)

negative_value : Bytes → ℕ
unfolding digits_value
negative_value xs = int_to_size ((int_mod - min (digits_value 0 xs) (2 ^ 63) % int_mod) % int_mod)

pub signed_value : Bytes → ℕ
unfolding positive_value negative_value
signed_value [] = 0
signed_value (x ∷ xs) =
    if x == b'-'
    then negative_value xs
    else if x == b'+'
    then positive_value xs
    else positive_value (x ∷ xs)

pub skip_blank : Bytes → Bytes
skip_blank [] = []
skip_blank (x ∷ xs) = if is_blank x then skip_blank xs else x ∷ xs

-- static_cast<size_t>(atoi(s)), as the C library computes it.
unfoldable pub atoi_size : Bytes → ℕ
unfolding signed_value skip_blank
atoi_size s = signed_value (skip_blank s)

test_decimal : to_decimal 9856 ≡ 57 ∷ 56 ∷ 53 ∷ 54 ∷ []
unfolding to_decimal
test_decimal = refl

test_atoi : atoi_size (45 ∷ 49 ∷ []) ≡ 2 ^ 64 - 1
unfolding atoi_size
test_atoi = refl
