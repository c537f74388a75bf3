-- ===== src/Log/Logger/Lines.antt =====
-- What a line holds.
use ai_chat_server.Base.{
  ◌≡◌, refl, sym, ap, ◌∙◌, ℕ, suc, ◌+◌, ◌-◌, ◌%◌, ◌^◌, ◌≤◌, ◌<◌, none, some, Bytes, List, [], ◌∷◌,
  ◌++◌, append_assoc, append-nil, length, length-append, length-replicate, replicate, take,
  take_of_length-le, take-append_length, NoByte, c_str, codes, if◌then◌else◌, arith,
}
use ai_chat_server.Base.Decimal.{to_decimal}
use ai_chat_server.Base.Decimal.Laws.{length-to_decimal-digits}
use ai_chat_server.Clock.{Tm, micro_seconds_per_second, padded, date_text, seconds_since_epoch}
use ai_chat_server.Log.FixedBuffer.{small_buffer_size, append}
use ai_chat_server.Log.LogStream.{
  integer_text, format_integer, Item, truth, integer, real, character, c_string, string, general,
  write_item, write_items, max_number_size,
}
use ai_chat_server.Log.LogStream.Integers.{integer_text_lem, AllWords, write_items-fits}
use ai_chat_server.Log.Logger.{
  LogLevel, trace, debug, info, warn, error, fatal, get_level_name, strrchr_slash, source_file,
  Message, start_items, finish_items, log_line,
}

strrchr_slash-absent : (xs : Bytes) → NoByte b'/' xs → strrchr_slash xs ≡ none
unfolding strrchr_slash
strrchr_slash-absent [] h = refl
strrchr_slash-absent (x ∷ xs) (no_x, h) =
    rw (strrchr_slash-absent xs h, strrchr_slash) (rw no_x refl)

strrchr_slash-last :
    (dir name : Bytes) → NoByte b'/' name → strrchr_slash (dir ++ b'/' ∷ name) ≡ some name
unfolding strrchr_slash
strrchr_slash-last [] name h = rw (strrchr_slash-absent name h, strrchr_slash) refl
strrchr_slash-last (x ∷ dir) name h = rw (strrchr_slash-last dir name h, strrchr_slash) refl

-- A file is named by what follows its last slash, or by its whole path if it has none.
pub source_file_lem :
    (dir name : Bytes)
    → NoByte b'/' name
    → (source_file (dir ++ b'/' ∷ name) ≡ name) × (source_file name ≡ name)
unfolding source_file
source_file_lem dir name h =
    (rw (strrchr_slash-last dir name h) refl, rw (strrchr_slash-absent name h) refl)

-- What an item is written as.
unfoldable pub item_text : Item → Bytes
item_text (truth b) = if b then codes "true" else codes "false"
item_text (integer n) = integer_text n
item_text (real text) = text
item_text (character c) = c ∷ []
item_text (c_string text) = c_str text
item_text (string text) = text
item_text (general text) = text

abbrev pub items_text : List Item → Bytes
items_text [] = []
items_text (i ∷ is) = item_text i ++ items_text is

-- So many bytes leave room for a number.
abbrev pub line_room : ℕ
line_room = small_buffer_size - max_number_size

append-whole :
    (xs s : Bytes) → length s + length xs ≤ line_room → append small_buffer_size xs s ≡ s ++ xs
unfolding append
append-whole xs s h = ground arith

write_item-whole :
    (i : Item) (s : Bytes)
    → length s + length (item_text i) ≤ line_room
    → write_item i s ≡ s ++ item_text i
unfolding write_item format_integer item_text
write_item-whole (truth b) s h = append-whole (if b then codes "true" else codes "false") s h
write_item-whole (integer n) s h = ground arith
write_item-whole (real text) s h = append-whole text s h
write_item-whole (character c) s h = append-whole (c ∷ []) s h
write_item-whole (c_string text) s h = append-whole (c_str text) s h
write_item-whole (string text) s h = append-whole text s h
write_item-whole (general text) s h = append-whole text s h

write_items-whole :
    (is : List Item) (s : Bytes)
    → length s + length (items_text is) ≤ line_room
    → write_items is s ≡ s ++ items_text is
unfolding write_items
write_items-whole [] s h = sym (append-nil s)
write_items-whole (i ∷ is) s h =
    let whole =
      write_item-whole i s (omega (arith, h, length-append (item_text i) (items_text is))) in
    ap (λ t. write_items is t) whole
    ∙ write_items-whole is (s ++ item_text i) (
        omega
          (arith, h, length-append (item_text i) (items_text is), length-append s (item_text i)))
    ∙ append_assoc s (item_text i) (items_text is)

items_text-append : (is js : List Item) → items_text (is ++ js) ≡ items_text is ++ items_text js
items_text-append [] js = refl
items_text-append (i ∷ is) js =
    ap (λ t. item_text i ++ t) (items_text-append is js)
    ∙ sym (append_assoc (item_text i) (items_text is) (items_text js))

length-padded : (fill k n : ℕ) → n < 10 ^ suc k → length (padded fill (suc k) n) ≡ suc k
unfolding padded
length-padded fill k n h =
    let text = to_decimal n in
    omega (
      arith,
      length-to_decimal-digits k n h,
      length-append (replicate (suc k - length text) fill) text,
      length-replicate (suc k - length text) fill,
    )

-- The fields of a date that fits its text.
pub record IsDate (tm : Tm) : Type 0 where
  pub year : tm.tm_year + 1900 < 10000
  pub mon : tm.tm_mon + 1 < 100
  pub mday : tm.tm_mday < 100
  pub hour : tm.tm_hour < 100
  pub min : tm.tm_min < 100

-- The date up to its minute.
abbrev pub minute_text : Tm → Bytes
minute_text tm =
    padded b' ' 4 (tm.tm_year + 1900)
    ++ b'/' ∷ padded b'0' 2 (tm.tm_mon + 1)
    ++ b'/' ∷ padded b'0' 2 tm.tm_mday
    ++ b' ' ∷ padded b'0' 2 tm.tm_hour
    ++ b':' ∷ padded b'0' 2 tm.tm_min
    ++ b':' ∷ []

date_text-minute : (tm : Tm) → date_text tm ≡ minute_text tm ++ padded b'0' 2 tm.tm_sec
unfolding date_text
date_text-minute tm = simp append_assoc

length-minute_text : (tm : Tm) → IsDate tm → length (minute_text tm) ≡ 17
length-minute_text tm h =
    let year : length (padded b' ' 4 (tm.tm_year + 1900)) ≡ 4 =
      length-padded b' ' 3 (tm.tm_year + 1900) (omega (arith, h.year)) in
    let mon : length (padded b'0' 2 (tm.tm_mon + 1)) ≡ 2 =
      length-padded b'0' 1 (tm.tm_mon + 1) (omega (arith, h.mon)) in
    let mday : length (padded b'0' 2 tm.tm_mday) ≡ 2 =
      length-padded b'0' 1 tm.tm_mday (omega (arith, h.mday)) in
    let hour : length (padded b'0' 2 tm.tm_hour) ≡ 2 =
      length-padded b'0' 1 tm.tm_hour (omega (arith, h.hour)) in
    let min : length (padded b'0' 2 tm.tm_min) ≡ 2 =
      length-padded b'0' 1 tm.tm_min (omega (arith, h.min)) in
    simp (length-append, year, mon, mday, hour, min)

take-date_text : (tm : Tm) → IsDate tm → take 17 (date_text tm) ≡ minute_text tm
take-date_text tm h =
    ap (λ t. take 17 t) (date_text-minute tm)
    ∙ take-append_length 17 (minute_text tm) (padded b'0' 2 tm.tm_sec)
        (sym (length-minute_text tm h))

take-micro :
    (n : ℕ)
    → take 7 (padded b'0' 6 (n % micro_seconds_per_second) ++ codes " ")
      ≡ padded b'0' 6 (n % micro_seconds_per_second) ++ codes " "
take-micro n =
    let micro = padded b'0' 6 (n % micro_seconds_per_second) in
    let six : length micro ≡ 6 =
      length-padded b'0' 5 (n % micro_seconds_per_second) (omega arith) in
    take_of_length-le 7 (micro ++ codes " ") (omega (arith, six, length-append micro (codes " ")))

take-level : (level : LogLevel) → take 6 (get_level_name level) ≡ get_level_name level
take-level trace = refl
take-level debug = refl
take-level info = refl
take-level warn = refl
take-level error = refl
take-level fatal = refl

module _ (localtime : ℕ → Tm) (strerror : ℕ → Bytes) where
  -- The parts of a line in their order: the date up to the minute, the microseconds, the level, the
  -- text of the stream, the name of the file and the line.
  abbrev pub line_text : Message → Bytes
  line_text m =
      minute_text (localtime (seconds_since_epoch m.time))
      ++ padded b'0' 6 (m.time % micro_seconds_per_second)
      ++ codes " "
      ++ get_level_name m.level
      ++ items_text m.items
      ++ codes " - "
      ++ source_file m.file
      ++ codes ":"
      ++ to_decimal m.line
      ++ codes "\n"

  abbrev all_items : Message → List Item
  all_items m =
      start_items localtime strerror m.level 0 m.time ++ (m.items ++ finish_items m.file m.line)

  line_text-items :
      (m : Message)
      → IsDate (localtime (seconds_since_epoch m.time))
      → items_text (all_items m) ≡ line_text m
  unfolding item_text c_str
  line_text-items m h = simp (
    take-date_text (localtime (seconds_since_epoch m.time)) h,
    take-micro m.time,
    take-level m.level,
    items_text-append m.items (finish_items m.file m.line),
    (integer_text_lem m.line).0,
    append_assoc,
  )

  -- A line whose parts have at most 3968 bytes together, at a date that fits its text, is these parts
  -- in their order; of the date it has all but the two digits of the seconds.
  pub log_line-whole :
      (m : Message)
      → IsDate (localtime (seconds_since_epoch m.time))
      → length (line_text m) ≤ line_room
      → log_line localtime strerror m ≡ line_text m
  unfolding log_line
  log_line-whole m h short =
      let same = line_text-items m h in
      write_items-whole (all_items m) [] (omega (arith, short, ap (λ t. length t) same)) ∙ same

  AllWords-append : (is js : List Item) → AllWords is → AllWords js → AllWords (is ++ js)
  AllWords-append [] js h k = k
  AllWords-append (i ∷ is) js (w, ws) k = (w, AllWords-append is js ws k)

  -- With integers of at most 64 bits, a line is shorter than the buffer of its stream.
  pub log_line-fits :
      (m : Message)
      → AllWords m.items
      → m.line < 2 ^ 64
      → length (log_line localtime strerror m) < small_buffer_size
  unfolding log_line
  log_line-fits m words number =
      let rest =
        AllWords-append m.items (finish_items m.file m.line) words
          (tt, (tt, (tt, (number, (tt, tt))))) in
      write_items-fits (all_items m) (tt, (tt, (tt, rest)))
