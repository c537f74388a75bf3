-- ===== src/Log/LogStream.antt =====
-- include/logging/LogStream.h and log/LogStream.cc: what is written on a stream, into a buffer of
-- 4000 bytes. The text of a floating-point number, which snprintf makes, is an argument.
pub mod Integers
use ai_chat_server.Base.{
  ℕ, zero, suc, ◌+◌, ◌/◌, ◌%◌, Bool, true, false, Bytes, List, [], ◌∷◌, ◌++◌, length, ◌==◌, leb,
  codes, c_str, if◌then◌else◌,
}
use ai_chat_server.Log.FixedBuffer.{small_buffer_size, avail, append}

-- kMaxNumberSize
abbrev pub max_number_size : ℕ
max_number_size = 32

-- An integer: a number, or the negative of one above 0.
pub data Number : Type 0 where
  natural : (n : ℕ) → Number
  negative : (n : ℕ) → Number

abbrev pub reverse : Bytes → Bytes
reverse [] = []
reverse (x ∷ xs) = reverse xs ++ (x ∷ [])

-- The digits of the loop, the low one first. The remainder of a negative number is 0 or negative,
-- and the table of digits has the same digit on both sides of its zero.
unfoldable pub low_digits : ℕ → ℕ → Bytes
low_digits zero n = []
low_digits (suc f) n =
    let rest = low_digits f (n / 10) in (48 + n % 10) ∷ (if n / 10 == 0 then [] else rest)

unfoldable pub integer_text : Number → Bytes
unfolding low_digits
integer_text (natural n) = reverse (low_digits (suc n) n)
integer_text (negative n) = reverse (low_digits (suc n) n ++ codes "-")

-- formatInteger: at least 32 bytes must be free, which its text does not fill.
unfoldable pub format_integer : Number → Bytes → Bytes
unfolding integer_text
format_integer n b =
    if leb max_number_size (avail small_buffer_size b) then b ++ integer_text n else b

-- What operator<< takes.
pub data Item : Type 0 where
  truth : (b : Bool) → Item
  integer : (n : Number) → Item
  real : (text : Bytes) → Item
  character : (c : ℕ) → Item
  c_string : (text : Bytes) → Item
  string : (text : Bytes) → Item
  general : (text : Bytes) → Item

unfoldable pub write_item : Item → Bytes → Bytes
unfolding format_integer append
write_item (truth b) s = append small_buffer_size (if b then codes "true" else codes "false") s
write_item (integer n) s = format_integer n s
write_item (real text) s = append small_buffer_size text s
write_item (character c) s = append small_buffer_size (c ∷ []) s
write_item (c_string text) s = append small_buffer_size (c_str text) s
write_item (string text) s = append small_buffer_size text s
write_item (general text) s = append small_buffer_size text s

unfoldable pub write_items : List Item → Bytes → Bytes
unfolding write_item
write_items [] s = s
write_items (i ∷ is) s = write_items is (write_item i s)
