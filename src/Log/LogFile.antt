-- ===== src/Log/LogFile.antt =====
-- include/logging/LogFile.h, log/LogFile.cc and log/FileUtil.cc: the files of a log. A stream is
-- the bytes that it has taken; each call of fwrite and of time is an argument, with its answer. The
-- time as a text, which strftime makes, is a parameter. none is a call without a file, or a write
-- that has not come to its end. The lock is left out: each function is one call.
pub mod Written
pub mod Sizes
use ai_chat_server.Base.{
  ℕ, ◌+◌, ◌-◌, ◌*◌, ◌/◌, Bool, true, false, not, ◌&&◌, Option, none, some, Bytes, List, [], ◌∷◌,
  ◌++◌, length, take, drop, ◌==◌, ltb, leb, codes, if◌then◌else◌,
}

-- An answer of fwrite: the bytes it took, and whether ferror tells of an error afterwards.
pub record Answer : Type 0 where
  pub taken : ℕ
  pub failed : Bool

pub record FileUtil : Type 0 where
  pub name : Bytes
  pub content : Bytes
  pub written_bytes : ℕ

abbrev pub new_file : Bytes → FileUtil
new_file name = record { name = name; content = []; written_bytes = 0 }

abbrev pub count_written : ℕ → FileUtil → FileUtil
count_written writen f = record f { written_bytes = f.written_bytes + writen }

abbrev pub fwrite : Answer → Bytes → FileUtil → FileUtil
fwrite a xs f = record f { content = f.content ++ take a.taken xs }

-- The loop of FileUtil::append, with the bytes that remain and those written.
unfoldable pub write_loop : List Answer → Bytes → ℕ → FileUtil → Option FileUtil
write_loop answers [] writen f = some (count_written writen f)
write_loop [] (x ∷ xs) writen f = none
write_loop (a ∷ answers) (x ∷ xs) writen f =
    let rest =
      write_loop answers (drop a.taken (x ∷ xs)) (writen + a.taken) (fwrite a (x ∷ xs) f) in
    if not (a.taken == length (x ∷ xs)) && a.failed
    then some (count_written writen (fwrite a (x ∷ xs) f))
    else rest

unfoldable pub file_append : List Answer → Bytes → FileUtil → Option FileUtil
unfolding write_loop
file_append answers xs f = write_loop answers xs 0 f

-- kRollPerSeconds_
abbrev pub roll_per_seconds : ℕ
roll_per_seconds = 60 * 60 * 24

-- With the files that it has closed, in the order in which they were opened.
pub record LogFile : Type 0 where
  pub basename : Bytes
  pub rollsize : ℕ
  pub flush_interval : ℕ
  pub check_every_n : ℕ
  pub count : ℕ
  pub start_of_period : ℕ
  pub last_roll : ℕ
  pub last_flush : ℕ
  pub file : Option FileUtil
  pub closed : List FileUtil

abbrev period_of : ℕ → ℕ
period_of now = now / roll_per_seconds * roll_per_seconds

abbrev pub closed_after : Option FileUtil → List FileUtil → List FileUtil
closed_after none files = files
closed_after (some f) files = files ++ (f ∷ [])

-- One call of append: what fwrite answers, and what time answers to it and to rollFile.
pub record Call : Type 0 where
  pub answers : List Answer
  pub now : ℕ
  pub roll_now : ℕ

unfoldable pub check_flush : ℕ → LogFile → LogFile
check_flush now l =
    if ltb l.flush_interval (now - l.last_flush) then record l { last_flush = now } else l

module _ (stamp : ℕ → Bytes) where
  abbrev pub get_log_file_name : Bytes → ℕ → Bytes
  get_log_file_name basename now = basename ++ (stamp now ++ codes ".log")

  unfoldable pub roll_file : ℕ → LogFile → LogFile
  roll_file now l =
      if ltb l.last_roll now
      then record l {
        last_flush = now;
        last_roll = now;
        start_of_period = period_of now;
        closed = closed_after l.file l.closed;
        file = some (new_file (get_log_file_name l.basename now));
      }
      else l

  -- The constructor, at a time; count_ is not set by it.
  unfoldable pub new_log_file : Bytes → ℕ → ℕ → ℕ → ℕ → ℕ → LogFile
  unfolding roll_file
  new_log_file basename rollsize flush_interval check_every_n count now = roll_file now (record {
    basename = basename;
    rollsize = rollsize;
    flush_interval = flush_interval;
    check_every_n = check_every_n;
    count = count;
    start_of_period = 0;
    last_roll = 0;
    last_flush = 0;
    file = none;
    closed = [];
  })

  -- Rolled by its size, or by the day once in so many calls.
  unfoldable pub check_roll : ℕ → ℕ → FileUtil → LogFile → LogFile
  unfolding roll_file
  check_roll now roll_now f l =
      if ltb l.rollsize f.written_bytes
      then roll_file roll_now l
      else if leb l.check_every_n l.count
      then (if period_of now == l.start_of_period
          then record l { count = 0 }
          else roll_file roll_now (record l { count = 0 }))
      else l

  unfoldable pub append_in_lock : Call → Bytes → LogFile → Option LogFile
  unfolding file_append check_roll check_flush
  append_in_lock c xs l = elim l.file [
    | none ↦ none
    | some f ↦ elim (file_append c.answers xs f) [
      | none ↦ none
      | some g ↦
          let counted = record l { file = some g; count = l.count + 1 } in
          some (check_flush c.now (check_roll c.now c.roll_now g counted))
    ]
  ]

  -- append, call after call.
  unfoldable pub appends : List (Call × Bytes) → LogFile → Option LogFile
  unfolding append_in_lock
  appends [] l = some l
  appends ((c, xs) ∷ more) l = elim (append_in_lock c xs l) [
    | none ↦ none
    | some m ↦ appends more m
  ]
