-- ===== src/Clock.antt =====
-- src/base/Timestamp.cc and include/base/Timestamp.h: a time as the microseconds since the epoch,
-- and its text. localtime is a parameter. A year before 1900 and a time before the epoch, which are
-- negative, are left out, as is addTime, which takes floating-point seconds.
use ai_chat_server.Base.{
  ℕ, ◌+◌, ◌-◌, ◌*◌, ◌/◌, ◌%◌, Bool, Bytes, ◌∷◌, ◌++◌, length, take, replicate, if◌then◌else◌,
}
use ai_chat_server.Base.Decimal.{to_decimal}

-- struct tm
pub record Tm : Type 0 where
  pub tm_year : ℕ
  pub tm_mon : ℕ
  pub tm_mday : ℕ
  pub tm_hour : ℕ
  pub tm_min : ℕ
  pub tm_sec : ℕ

abbrev pub micro_seconds_per_second : ℕ
micro_seconds_per_second = 1000 * 1000

-- A number of snprintf, filled up from the left to a width.
unfoldable pub padded : ℕ → ℕ → ℕ → Bytes
padded fill width n = replicate (width - length (to_decimal n)) fill ++ to_decimal n

-- "%4d/%02d/%02d %02d:%02d:%02d"
unfoldable pub date_text : Tm → Bytes
date_text tm =
    padded b' ' 4 (tm.tm_year + 1900)
    ++ b'/' ∷ padded b'0' 2 (tm.tm_mon + 1)
    ++ b'/' ∷ padded b'0' 2 tm.tm_mday
    ++ b' ' ∷ padded b'0' 2 tm.tm_hour
    ++ b':' ∷ padded b'0' 2 tm.tm_min
    ++ b':' ∷ padded b'0' 2 tm.tm_sec

abbrev pub seconds_since_epoch : ℕ → ℕ
seconds_since_epoch time = time / micro_seconds_per_second

module _ (localtime : ℕ → Tm) where
  -- toString hands the microseconds to localtime as they are.
  abbrev pub to_string : ℕ → Bytes
  to_string time = take 127 (date_text (localtime time))

  abbrev pub to_formatted_string : Bool → ℕ → Bytes
  to_formatted_string show_microseconds time =
      let date = date_text (localtime (seconds_since_epoch time)) in
      if show_microseconds
      then take 63 (date ++ b'.' ∷ padded b'0' 6 (time % micro_seconds_per_second))
      else take 63 date
