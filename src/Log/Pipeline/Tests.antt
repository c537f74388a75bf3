-- ===== src/Log/Pipeline/Tests.antt =====
-- A line on its way to a file.
use ai_chat_server.Base.{
  ◌≡◌, refl, ℕ, ◌+◌, ◌%◌, ◌≤◌, true, false, ==_refl, some, Bytes, List, [], ◌∷◌, ◌++◌, length,
  codes, arith,
}
use ai_chat_server.Base.Decimal.{to_decimal}
use ai_chat_server.Clock.{Tm, padded}
use ai_chat_server.Log.LogStream.{natural, integer, string, integer_text, low_digits}
use ai_chat_server.Log.LogFile.{Answer}
use ai_chat_server.Log.LogFile.Written.{takes_all, log_text}
use ai_chat_server.Log.Logger.{info, fatal, Message, log_line, source_file, strrchr_slash}
use ai_chat_server.Log.Logger.Lines.{line_text, line_room, item_text, log_line-whole}
use ai_chat_server.Log.Pipeline.{System, started, Op, logs, collects, writes_out, run}
use ai_chat_server.Log.Pipeline.Steps.{waiting}
use ai_chat_server.Log.Pipeline.Kept.{HasWords, AllHaveWords, lines, run-lines}
use ai_chat_server.Log.Pipeline.Drained.{rounds, run-rounds}

abbrev some_time : ℕ → Tm
some_time seconds = record {
  tm_year = 126;
  tm_mon = 0;
  tm_mday = 2;
  tm_hour = 3;
  tm_min = 4;
  tm_sec = seconds % 60;
}

abbrev some_error : ℕ → Bytes
some_error errno = codes "error"

abbrev whole_write : Bytes → List Answer
whole_write xs = record { taken = length xs; failed = false } ∷ []

whole_write-full : (xs : Bytes) → takes_all (whole_write xs) xs ≡ true
whole_write-full [] = refl
whole_write-full (x ∷ xs) = ==_refl (length (x ∷ xs))

abbrev greeting : Message
greeting = record {
  level = info;
  time = 7000042;
  file = codes "net/a.cc";
  line = 12;
  items = string (codes "fd=") ∷ integer (natural 42) ∷ [];
}

abbrev last_words : Message
last_words = record greeting { level = fatal }

greeting_short : length (line_text some_time some_error greeting) ≤ line_room
unfolding padded item_text source_file to_decimal integer_text low_digits strrchr_slash
greeting_short = omega arith

greeting_words : HasWords greeting
greeting_words = ((tt, (omega arith, tt)), omega arith)

log_line-whole_example :
    log_line some_time some_error greeting ≡ line_text some_time some_error greeting
log_line-whole_example =
    log_line-whole some_time some_error greeting
      (record {
        year = omega arith;
        mon = omega arith;
        mday = omega arith;
        hour = omega arith;
        min = omega arith;
      })
      greeting_short

abbrev both_times : ℕ → ℕ × ℕ
both_times i = (i + 8, i + 9)

abbrev some_ops : List Op
some_ops =
    logs greeting ∷ collects ∷ logs greeting ∷ writes_out both_times ∷ collects ∷ logs greeting ∷ []

some_words : AllHaveWords some_ops
some_words = (greeting_words, (tt, (greeting_words, (tt, (tt, (greeting_words, tt))))))

run-lines_example :
    (t : System) × (run some_time some_error to_decimal whole_write
        (logs last_words ∷ some_ops)
        (started to_decimal (codes "log") 100 3 1024 0 7)
      ≡ some t)
    × (log_text t.log ++ waiting t.async ≡ lines some_time some_error (logs last_words ∷ some_ops))
run-lines_example =
    run-lines some_time some_error to_decimal whole_write whole_write-full (codes "log") 100 3 1024
      0 7 (logs last_words ∷ some_ops) (omega arith) (greeting_words, some_words)

run-rounds_example :
    (t : System) × (run some_time some_error to_decimal whole_write
        (some_ops ++ rounds both_times both_times)
        (started to_decimal (codes "log") 100 3 1024 0 7)
      ≡ some t)
    × (log_text t.log ≡ lines some_time some_error some_ops)
run-rounds_example =
    run-rounds some_time some_error to_decimal whole_write whole_write-full (codes "log") 100 3 1024
      0 7 some_ops both_times both_times (omega arith) some_words refl
