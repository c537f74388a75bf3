-- ===== src/Log/Pipeline.antt =====
-- The parts of logging together, as app/main.cc sets them up: Loggers in the threads of the program,
-- asyncLog, and the writing thread of log/AsyncLogging.cc with its files. What fwrite answers to some
-- data, and the texts of times and errors, are parameters; so are the times at which a round of the
-- writing thread appends a buffer. defaultFlush flushes standard output only.
pub mod Steps
pub mod Kept
pub mod Drained
mod Tests
use ai_chat_server.Base.{
  ℕ, suc, Bool, true, false, Option, none, some, Bytes, List, [], ◌∷◌, if◌then◌else◌,
}
use ai_chat_server.Clock.{Tm}
use ai_chat_server.Log.FixedBuffer.{large_buffer_size}
use ai_chat_server.Log.AsyncLogging.{AsyncLogging, new_async, append, collect, write_out}
use ai_chat_server.Log.LogFile.{Answer, LogFile, new_log_file, append_in_lock}
use ai_chat_server.Log.Logger.{Message, Effect, outputs, flushes, aborts, destroy_logger}

-- aborted: the program has ended.
pub record System : Type 0 where
  pub async : AsyncLogging
  pub log : LogFile
  pub aborted : Bool

-- The writing thread has made its files, and nothing has been logged.
abbrev pub started : (ℕ → Bytes) → Bytes → ℕ → ℕ → ℕ → ℕ → ℕ → System
started stamp basename rollsize flush_interval check_every_n count now = record {
  async = new_async;
  log = new_log_file stamp basename rollsize flush_interval check_every_n count now;
  aborted = false;
}

-- A thread logs, or the writing thread does the part of its round under the lock, or the other one.
pub data Op : Type 0 where
  logs : (m : Message) → Op
  collects : Op
  writes_out : (times : ℕ → ℕ × ℕ) → Op

-- asyncLog, set by Logger::setOutput.
abbrev async_log : Bytes → AsyncLogging → Option AsyncLogging
async_log text a = append large_buffer_size text a

unfoldable pub run_effects : List Effect → System → Option System
run_effects [] s = some s
run_effects (outputs text ∷ es) s = elim (async_log text s.async) [
  | none ↦ none
  | some a ↦ run_effects es (record s { async = a })
]
run_effects (flushes ∷ es) s = run_effects es s
run_effects (aborts ∷ es) s = some (record s { aborted = true })

abbrev with_async : System → Option AsyncLogging → Option System
with_async s none = none
with_async s (some a) = some (record s { async = a })

module _ (stamp : ℕ → Bytes) (fwrites : Bytes → List Answer) where
  -- output.append of each buffer, at its times.
  unfoldable pub write_buffers : (ℕ → ℕ × ℕ) → ℕ → List Bytes → LogFile → Option LogFile
  write_buffers times i [] l = some l
  write_buffers times i (b ∷ bs) l =
      elim (append_in_lock stamp
        (record { answers = fwrites b; now = (times i).0; roll_now = (times i).1 }) b l) [
          | none ↦ none
          | some m ↦ write_buffers times (suc i) bs m
        ]

  unfoldable pub write_round : (ℕ → ℕ × ℕ) → System → Option System
  unfolding write_buffers
  write_round times s =
      if s.async.writing
      then elim (write_buffers times 0 s.async.buffers_to_write s.log) [
        | none ↦ none
        | some l ↦ with_async (record s { log = l }) (write_out s.async)
      ]
      else some s

module _ (localtime : ℕ → Tm) (strerror stamp : ℕ → Bytes) (fwrites : Bytes → List Answer) where
  unfoldable pub step : Op → System → Option System
  unfolding run_effects destroy_logger write_round
  step o s = if s.aborted then some s else elim o [
    | logs m ↦ run_effects (destroy_logger localtime strerror m) s
    | collects ↦ with_async s (collect s.async)
    | writes_out times ↦ write_round stamp fwrites times s
  ]

  unfoldable pub run : List Op → System → Option System
  unfolding step
  run [] s = some s
  run (o ∷ os) s = elim (step o s) [ none ↦ none | some t ↦ run os t ]
