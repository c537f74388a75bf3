-- ===== src/Log/Tests.antt =====
-- Logging in a few lines.
use ai_chat_server.Base.{
  inl, inr, ◌≡◌, refl, ℕ, ◌+◌, ◌≤◌, arith, codes, true, false, some, Bytes, List, [], ◌∷◌, ◌++◌,
  length, take, ◌==◌, if◌then◌else◌,
}
use ai_chat_server.Log.FixedBuffer.{append}
use ai_chat_server.Log.LogStream.{
  negative, Item, integer, string, character, write_item, write_items, format_integer, integer_text,
  low_digits,
}
use ai_chat_server.Base.Decimal.{to_decimal}
use ai_chat_server.Log.LogFile.{
  Answer, FileUtil, new_file, file_append, LogFile, Call, new_log_file, appends,
}
use ai_chat_server.Log.LogFile.Written.{file_append-prefix}
use ai_chat_server.Log.LogFile.Sizes.{UpTo, appends-sizes}
use ai_chat_server.Log.AsyncLogging.Order.{Op, logs, collects, writes_out, logged}

abbrev some_items : List Item
some_items = string (codes "fd=") ∷ integer (negative 42) ∷ character 10 ∷ []

some_text : write_items some_items [] ≡ codes "fd=-42\n"
unfolding write_items write_item append format_integer integer_text low_digits
some_text = refl

-- Buffers of eight bytes: the second line opens the spare buffer, the third a new one.
abbrev sample_run : List Op
sample_run =
    logs (codes "one..")
    ∷ logs (codes "two..")
    ∷ logs (codes "three")
    ∷ logs (codes "too long a line")
    ∷ collects
    ∷ logs (codes "four")
    ∷ writes_out
    ∷ []

sample_logged : logged 8 sample_run ≡ codes "one..two..threefour"
unfolding logged
sample_logged = refl

-- A write that stops with an error after two bytes.
abbrev short_write : Answer
short_write = record { taken = 2; failed = true }

file_append-prefix_example :
    (g : FileUtil) × (file_append (short_write ∷ []) (codes "abc") (new_file []) ≡ some g)
    × (g.content ≡ [] ++ take 2 (codes "abc"))
    × (g.written_bytes ≡ 0 + (if 2 == 3 then 3 else 0))
file_append-prefix_example =
    file_append-prefix short_write [] (codes "abc") (new_file []) (omega arith, λ k. refl)

abbrev call_at : ℕ → ℕ → Call
call_at now size = record {
  answers = record { taken = size; failed = false } ∷ [];
  now = now;
  roll_now = now;
}

-- The second call finds the file too large, and the third writes on the next one.
abbrev some_calls : List (Call × Bytes)
some_calls =
    (call_at 8 4, codes "aaaa")
    ∷ (call_at 9 2, codes "bb")
    ∷ (call_at 9 2, codes "bb")
    ∷ (call_at 10 2, codes "cc")
    ∷ []

appends-sizes_example :
    (n : LogFile) × (appends to_decimal some_calls
        (new_log_file to_decimal (codes "log") 5 3 1024 0 7)
      ≡ some n)
    × UpTo (5 + 4) n.closed
    × ((f : FileUtil) → n.file ≡ some f → length f.content ≤ 5)
appends-sizes_example =
    appends-sizes to_decimal (codes "log") 5 3 1024 0 7 4 5 some_calls (omega arith) (omega arith)
      (omega arith) refl
      (inr (
        omega arith,
        omega arith,
        inr (omega arith, omega arith, inl (refl, omega arith, inr (omega arith, omega arith, tt))),
      ))
