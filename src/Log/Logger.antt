-- ===== src/Log/Logger.antt =====
-- include/logging/Logger.h and src/logging/Logger.cc: the line that a Logger makes, and what its
-- destructor does with it. The name of a file is a C string without its zero; strerror_r and
-- localtime are parameters. The time, the level and the place are those of the constructor's call.
pub mod Lines
use ai_chat_server.Base.{
  ℕ, ◌%◌, Bool, true, false, Option, none, some, Bytes, List, [], ◌∷◌, ◌++◌, take, ◌==◌, codes,
  if◌then◌else◌,
}
use ai_chat_server.Clock.{Tm, micro_seconds_per_second, padded, date_text, seconds_since_epoch}
use ai_chat_server.Log.LogStream.{natural, Item, integer, character, c_string, general, write_items}

pub data LogLevel : Type 0 where
  trace debug info warn error fatal : LogLevel

abbrev pub get_level_name : LogLevel → Bytes
get_level_name trace = codes "TRACE "
get_level_name debug = codes "DEBUG "
get_level_name info = codes "INFO  "
get_level_name warn = codes "WARN  "
get_level_name error = codes "ERROR "
get_level_name fatal = codes "FATAL "

-- What follows the last '/', if there is one.
unfoldable pub strrchr_slash : Bytes → Option Bytes
strrchr_slash [] = none
strrchr_slash (x ∷ xs) = elim (strrchr_slash xs) [
  | some name ↦ some name
  | none ↦ if x == b'/' then some xs else none
]

abbrev name_or : Bytes → Option Bytes → Bytes
name_or file none = file
name_or file (some name) = name

unfoldable pub source_file : Bytes → Bytes
unfolding strrchr_slash
source_file file = name_or file (strrchr_slash file)

-- A message: where and when it is logged, and what is written on its stream.
pub record Message : Type 0 where
  pub level : LogLevel
  pub time : ℕ
  pub file : Bytes
  pub line : ℕ
  pub items : List Item

-- What the destructor calls.
pub data Effect : Type 0 where
  outputs : (text : Bytes) → Effect
  flushes : Effect
  aborts : Effect

abbrev pub is_fatal : LogLevel → Bool
is_fatal fatal = true
is_fatal _ = false

-- Impl::finish
abbrev pub finish_items : Bytes → ℕ → List Item
finish_items file line =
    c_string (codes " - ")
    ∷ general (source_file file)
    ∷ character b':'
    ∷ integer (natural line)
    ∷ character 10
    ∷ []

module _ (localtime : ℕ → Tm) (strerror : ℕ → Bytes) where
  -- Of the 19 characters of the date, 17 are written.
  abbrev pub format_time : ℕ → List Item
  format_time time =
      general (take 17 (date_text (localtime (seconds_since_epoch time))))
      ∷ general (take 7 (padded b'0' 6 (time % micro_seconds_per_second) ++ codes " "))
      ∷ []

  abbrev pub errno_items : ℕ → List Item
  errno_items saved_errno =
      if saved_errno == 0
      then []
      else c_string (strerror saved_errno)
        ∷ c_string (codes " (errno=")
        ∷ integer (natural saved_errno)
        ∷ c_string (codes ") ")
        ∷ []

  -- Impl::Impl
  abbrev pub start_items : LogLevel → ℕ → ℕ → List Item
  start_items level saved_errno time =
      format_time time ++ (general (take 6 (get_level_name level)) ∷ errno_items saved_errno)

  -- A Logger saves no errno.
  unfoldable pub log_line : Message → Bytes
  unfolding write_items source_file
  log_line m =
      write_items (start_items m.level 0 m.time ++ (m.items ++ finish_items m.file m.line)) []

  -- Logger::~Logger
  unfoldable pub destroy_logger : Message → List Effect
  destroy_logger m = outputs (log_line m) ∷ (if is_fatal m.level then flushes ∷ aborts ∷ [] else [])
