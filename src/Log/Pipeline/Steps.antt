-- ===== src/Log/Pipeline/Steps.antt =====
-- What holds between two steps of logging.
use ai_chat_server.Base.{
  ◌≡◌, refl, sym, ap, ◌∙◌, ℕ, suc, ◌<◌, true, Option, none, some, Bytes, List, [], ◌∷◌, ◌++◌,
  append_assoc, append-nil, length, take, join, lt→ltb, if-true, arith, Bool-cases, Option-cases,
  inl, inr,
}
use ai_chat_server.Log.FixedBuffer.{large_buffer_size}
use ai_chat_server.Log.AsyncLogging.{
  AsyncLogging, new_async, append, collect, write_out, refill, refill_second, written,
}
use ai_chat_server.Log.AsyncLogging.Sound.{all_text, text_of, Sound, append-Good}
use ai_chat_server.Log.AsyncLogging.Rounds.{collect-Good, write_out-Good}
use ai_chat_server.Log.AsyncLogging.Order.{new_async-Sound}
use ai_chat_server.Log.LogFile.{Answer, LogFile}
use ai_chat_server.Log.LogFile.Written.{Holds, takes_all, append_in_lock-Holds, new_log_file-Holds}
use ai_chat_server.Log.Pipeline.{System, started, write_buffers, write_round}

pub append-output :
    (size : ℕ) (line : Bytes) (s t : AsyncLogging)
    → append size line s ≡ some t
    → t.output ≡ s.output
unfolding append
append-output size line s t e = elim (Option-cases s.current_buffer) [
  | inl missing ↦ absurd (ground (arith, e, missing))
  | inr (b, there) ↦ ground (arith, e, there)
]

collect-output : (s t : AsyncLogging) → collect s ≡ some t → t.output ≡ s.output
unfolding collect
collect-output s t e = elim (Option-cases s.current_buffer) [
  | inl missing ↦ ground (arith, e, missing)
  | inr (b, there) ↦ ground (arith, e, there)
]

written-output :
    (s t : AsyncLogging) (spare : Option Bytes) (o : Option (Option Bytes × List Bytes))
    → written s spare o ≡ some t
    → t.output ≡ s.output ++ join s.buffers_to_write
written-output s t spare none e = absurd (ground (arith, e))
written-output s t spare (some (second, rest)) e = ground (arith, e)

refill_second-output :
    (s t : AsyncLogging) (o : Option (Option Bytes × List Bytes))
    → refill_second s o ≡ some t
    → t.output ≡ s.output ++ join s.buffers_to_write
refill_second-output s t none e = absurd (ground (arith, e))
refill_second-output s t (some (spare, rest)) e =
    written-output s t spare (refill s.newbuffer2 rest) e

write_out-output :
    (s t : AsyncLogging)
    → s.writing ≡ true
    → write_out s ≡ some t
    → t.output ≡ s.output ++ join s.buffers_to_write
unfolding write_out
write_out-output s t busy e =
    refill_second-output s t (refill s.newbuffer1 (take 2 s.buffers_to_write))
      (sym (rw (busy, write_out) refl) ∙ e)

-- Between two steps: the buffers are sound, and the files hold what the writing thread has written.
-- With them, `text` has been logged.
pub record Inv (text : Bytes) (s : System) : Type 0 where
  pub sound : Sound s.async
  pub held : Holds s.async.output s.log
  pub whole : all_text s.async ≡ text

-- What has not got to a file.
abbrev pub waiting : AsyncLogging → Bytes
waiting a = join a.buffers_to_write ++ (join a.buffers ++ text_of a.current_buffer)

module _ (stamp : ℕ → Bytes) (fwrites : Bytes → List Answer)
    (full : (xs : Bytes) → takes_all (fwrites xs) xs ≡ true) where
  write_buffers-Holds :
      (times : ℕ → ℕ × ℕ) (i : ℕ) (bs : List Bytes) (l : LogFile) (text : Bytes)
      → Holds text l
      → (m : LogFile) × (write_buffers stamp fwrites times i bs l ≡ some m)
        × Holds (text ++ join bs) m
  unfolding write_buffers
  write_buffers-Holds times i [] l text (there, e) = (l, refl, (there, e ∙ sym (append-nil text)))
  write_buffers-Holds times i (b ∷ bs) l text h =
      let (m, e, h') =
        append_in_lock-Holds stamp
          (record { answers = fwrites b; now = (times i).0; roll_now = (times i).1 }) b l text
          (full b) h in
      let (n, e', (there, kept)) = write_buffers-Holds times (suc i) bs m (text ++ b) h' in
      (n, rw (e, write_buffers) e', (there, kept ∙ append_assoc text b (join bs)))

  pub write_round-Inv :
      (times : ℕ → ℕ × ℕ) (s : System) (text : Bytes)
      → Inv text s
      → (t : System) × (write_round stamp fwrites times s ≡ some t)
        × Inv text t
        × (t.aborted ≡ s.aborted)
        × (write_out s.async ≡ some t.async)
  unfolding write_round write_out
  write_round-Inv times s text h = elim (Bool-cases s.async.writing) [
    | inr rest ↦ (s, rw (rest, write_round) refl, h, refl, rw (rest, write_out) refl)
    | inl busy ↦
        let (l, e, held) =
          write_buffers-Holds times 0 s.async.buffers_to_write s.log s.async.output h.held in
        let (a, (e', sound, kept)) = write_out-Good s.async h.sound in
        let out = write_out-output s.async a busy e' in
        (
          record { async = a; log = l; aborted = s.aborted },
          rw (busy, write_round) (rw e (rw e' refl)),
          record {
            sound = sound;
            held = (held.0, held.1 ∙ sym out);
            whole = kept ∙ append-nil (all_text s.async) ∙ h.whole;
          },
          refl,
          e',
        )
  ]

pub collect-Inv :
    (s : System) (text : Bytes)
    → Inv text s
    → (a : AsyncLogging) × (collect s.async ≡ some a) × Inv text (record s { async = a })
collect-Inv s text h =
    let (a, (e, sound, kept)) = collect-Good s.async h.sound in
    let out = collect-output s.async a e in
    (
      a,
      e,
      record {
        sound = sound;
        held = (h.held.0, h.held.1 ∙ sym out);
        whole = kept ∙ append-nil (all_text s.async) ∙ h.whole;
      },
    )

pub append-Inv :
    (line : Bytes) (s : System) (text : Bytes)
    → length line < large_buffer_size
    → Inv text s
    → (a : AsyncLogging) × (append large_buffer_size line s.async ≡ some a)
      × Inv (text ++ line) (record s { async = a })
unfolding append
append-Inv line s text short h =
    let (a, (e, sound, kept)) =
      append-Good large_buffer_size line s.async s.async.current_buffer refl h.sound in
    let out = append-output large_buffer_size line s.async a e in
    (
      a,
      e,
      record {
        sound = sound;
        held = (h.held.0, h.held.1 ∙ sym out);
        whole =
            kept
            ∙ ap (λ t. all_text s.async ++ t) (if-true _ _ _ (lt→ltb _ _ short))
            ∙ ap (λ t. t ++ line) h.whole;
      },
    )

pub started-Inv :
    (stamp : ℕ → Bytes) (basename : Bytes) (rollsize flush_interval check_every_n count now : ℕ)
    → 0 < now
    → Inv [] (started stamp basename rollsize flush_interval check_every_n count now)
unfolding new_async
started-Inv stamp basename rollsize flush_interval check_every_n count now h = record {
  sound = new_async-Sound;
  held = new_log_file-Holds stamp basename rollsize flush_interval check_every_n count now h;
  whole = refl;
}
