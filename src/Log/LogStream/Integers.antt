-- ===== src/Log/LogStream/Integers.antt =====
-- Numbers on a stream, and its size.
use ai_chat_server.Base.{
  ◌≡◌, refl, sym, ap, ◌∙◌, ℕ, zero, suc, ◌+◌, ◌/◌, ◌%◌, ◌^◌, ◌≤◌, ◌<◌, true, false, Bytes, List, [],
  ◌∷◌, ◌++◌, length, length-append, append-nil, append_assoc, c_str, ◌==◌, ltb, codes,
  if◌then◌else◌, arith, Bool-cases, inl, inr,
}
use ai_chat_server.Base.Decimal.{to_decimal, decimal_from}
use ai_chat_server.Base.Decimal.Laws.{length-to_decimal-le}
use ai_chat_server.Log.FixedBuffer.{small_buffer_size, append}
use ai_chat_server.Log.LogStream.{
  Number, natural, negative, reverse, low_digits, integer_text, format_integer, Item, truth,
  integer, real, character, c_string, string, general, write_item, write_items,
}

reverse-append : (xs ys : Bytes) → reverse (xs ++ ys) ≡ reverse ys ++ reverse xs
reverse-append [] ys = sym (append-nil (reverse ys))
reverse-append (x ∷ xs) ys =
    ap (λ t. t ++ (x ∷ [])) (reverse-append xs ys) ∙ append_assoc (reverse ys) (reverse xs) (x ∷ [])

low_digits-decimal : (f n : ℕ) → reverse (low_digits f n) ≡ decimal_from f n
unfolding low_digits decimal_from
low_digits-decimal zero n = refl
low_digits-decimal (suc f) n = elim (Bool-cases (ltb n 10)) [
  | inl small ↦
      let last : (n / 10 == 0) ≡ true = ground arith in
      let digit : n % 10 ≡ n = ground arith in rw (small, decimal_from, last, digit) refl
  | inr large ↦
      let more : (n / 10 == 0) ≡ false = ground arith in
      rw (large, decimal_from, more)
        (ap (λ t. t ++ ((48 + n % 10) ∷ [])) (low_digits-decimal f (n / 10)))
]

-- An integer is printed as a minus if it is negative and the decimal text of its amount.
pub integer_text_lem :
    (n : ℕ)
    → (integer_text (natural n) ≡ to_decimal n)
      × (integer_text (negative n) ≡ codes "-" ++ to_decimal n)
unfolding integer_text to_decimal
integer_text_lem n = (
  low_digits-decimal (suc n) n,
  reverse-append (low_digits (suc n) n) (codes "-")
      ∙ ap (λ t. codes "-" ++ t) (low_digits-decimal (suc n) n),
)

-- Integers have at most 64 bits.
abbrev amount : Number → ℕ
amount (natural n) = n
amount (negative n) = n

abbrev pub IsWord : Item → Type 0
IsWord (integer n) = amount n < 2 ^ 64
IsWord _ = Unit {0}

abbrev pub AllWords : List Item → Type 0
AllWords [] = Unit {0}
AllWords (i ∷ is) = IsWord i × AllWords is

length-integer_text-le : (n : Number) → amount n < 2 ^ 64 → length (integer_text n) ≤ 21
length-integer_text-le (natural n) h =
    omega (arith, ap (λ t. length t) (integer_text_lem n).0, length-to_decimal-le n h)
length-integer_text-le (negative n) h =
    omega (arith, ap (λ t. length t) (integer_text_lem n).1, length-to_decimal-le n h)

append-fits :
    (xs s : Bytes)
    → length s < small_buffer_size
    → length (append small_buffer_size xs s) < small_buffer_size
unfolding append
append-fits xs s h = ground (arith, length-append s xs)

write_item-fits :
    (i : Item) (s : Bytes)
    → IsWord i
    → length s < small_buffer_size
    → length (write_item i s) < small_buffer_size
unfolding write_item format_integer
write_item-fits (truth b) s w h = append-fits (if b then codes "true" else codes "false") s h
write_item-fits (integer n) s w h =
    ground (arith, length-append s (integer_text n), length-integer_text-le n w)
write_item-fits (real text) s w h = append-fits text s h
write_item-fits (character c) s w h = append-fits (c ∷ []) s h
write_item-fits (c_string text) s w h = append-fits (c_str text) s h
write_item-fits (string text) s w h = append-fits text s h
write_item-fits (general text) s w h = append-fits text s h

write_items-keeps :
    (is : List Item) (s : Bytes)
    → AllWords is
    → length s < small_buffer_size
    → length (write_items is s) < small_buffer_size
unfolding write_items
write_items-keeps [] s w h = h
write_items-keeps (i ∷ is) s (w, ws) h =
    write_items-keeps is (write_item i s) ws (write_item-fits i s w h)

-- Whatever is written on a new stream, its buffer is never full: a text that does not fit is dropped
-- whole, and an integer of up to 64 bits is written only where it fits.
pub write_items-fits :
    (is : List Item) → AllWords is → length (write_items is []) < small_buffer_size
write_items-fits is w = write_items-keeps is [] w (omega arith)
