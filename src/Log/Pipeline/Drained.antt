-- ===== src/Log/Pipeline/Drained.antt =====
-- One round of the writing thread later, every line is in a file.
use ai_chat_server.Base.{
  ◌≡◌, refl, sym, ap, ◌∙◌, ℕ, ◌<◌, true, false, Option, none, some, Bytes, List, [], ◌∷◌, ◌++◌,
  append-nil, take, join, if-false, arith, Bool-cases, Option-cases, inl, inr,
}
use mathlib.Core.Path.{subst}
use ai_chat_server.Clock.{Tm}
use ai_chat_server.Log.AsyncLogging.{
  AsyncLogging, collect, write_out, refill, refill_second, written,
}
use ai_chat_server.Log.AsyncLogging.Sound.{Sound, text_of}
use ai_chat_server.Log.LogFile.{Answer}
use ai_chat_server.Log.LogFile.Written.{log_text, takes_all}
use ai_chat_server.Log.Pipeline.{System, started, Op, collects, writes_out, step, run}
use ai_chat_server.Log.Pipeline.Steps.{Inv, waiting, collect-Inv, write_round-Inv, started-Inv}
use ai_chat_server.Log.Pipeline.Kept.{AllHaveWords, any_ends, lines, run-Inv}

-- The writing thread has nothing to write, and the others have logged as much as before.
abbrev Rested : AsyncLogging → AsyncLogging → Type 0
Rested s t =
    (t.writing ≡ false)
    × (t.buffers_to_write ≡ [])
    × (t.buffers ≡ s.buffers)
    × (t.current_buffer ≡ s.current_buffer)

written-Rested :
    (s t : AsyncLogging) (spare : Option Bytes) (o : Option (Option Bytes × List Bytes))
    → written s spare o ≡ some t
    → Rested s t
written-Rested s t spare none e = absurd (ground (arith, e))
written-Rested s t spare (some (second, rest)) e = ground (arith, e)

refill_second-Rested :
    (s t : AsyncLogging) (o : Option (Option Bytes × List Bytes))
    → refill_second s o ≡ some t
    → Rested s t
refill_second-Rested s t none e = absurd (ground (arith, e))
refill_second-Rested s t (some (spare, rest)) e =
    written-Rested s t spare (refill s.newbuffer2 rest) e

write_out-Rested : (s t : AsyncLogging) → Sound s → write_out s ≡ some t → Rested s t
unfolding write_out
write_out-Rested s t h e = elim (Bool-cases s.writing) [
  | inl busy ↦
      refill_second-Rested s t (refill s.newbuffer1 (take 2 s.buffers_to_write))
        (sym (rw (busy, write_out) refl) ∙ e)
  | inr idle ↦
      let same : s ≡ t = ground (arith, e, idle) in
      subst (Rested s) same (idle, (h.idle idle).2, refl, refl)
]

-- With nothing to write, the writing thread takes all there is.
collect-empty :
    (s t : AsyncLogging)
    → Sound s
    → s.writing ≡ false
    → collect s ≡ some t
    → (t.buffers ≡ []) × (t.current_buffer ≡ some [])
unfolding collect
collect-empty s t h idle e = elim (Option-cases s.current_buffer) [
  | inl missing ↦ absurd (h.current missing)
  | inr (b, there) ↦
      let (first, _, taken) = h.idle idle in ground (arith, e, idle, there, first, taken)
]

empty-texts :
    (bs cs : List Bytes) (o : Option Bytes)
    → bs ≡ []
    → cs ≡ []
    → o ≡ some []
    → join bs ++ (join cs ++ text_of o) ≡ []
empty-texts bs cs o e e' e'' = rw (e, e', e'') refl

waiting-empty :
    (a : AsyncLogging)
    → a.buffers_to_write ≡ []
    → a.buffers ≡ []
    → a.current_buffer ≡ some []
    → waiting a ≡ []
waiting-empty a e e' e'' = empty-texts a.buffers_to_write a.buffers a.current_buffer e e' e''

-- The rest of a round that the writing thread is in, and one more round.
abbrev pub rounds : (ℕ → ℕ × ℕ) → (ℕ → ℕ × ℕ) → List Op
rounds first second = writes_out first ∷ collects ∷ writes_out second ∷ []

module _ (localtime : ℕ → Tm) (strerror stamp : ℕ → Bytes) (fwrites : Bytes → List Answer)
    (full : (xs : Bytes) → takes_all (fwrites xs) xs ≡ true) where
  abbrev go : List Op → System → Option System
  go os s = run localtime strerror stamp fwrites os s

  run-cons :
      (o : Op) (os : List Op) (s t : System)
      → step localtime strerror stamp fwrites o s ≡ some t
      → go (o ∷ os) s ≡ go os t
  unfolding run
  run-cons o os s t e = rw (e, run) refl

  run-append : (os ps : List Op) (s t : System) → go os s ≡ some t → go (os ++ ps) s ≡ go ps t
  unfolding run
  run-append [] ps s t e = ap (λ x. go ps x) (ground (arith, e))
  run-append (o ∷ os) ps s t e = elim (Option-cases (step localtime strerror stamp fwrites o s)) [
    | inl fails ↦
        let lost : go (o ∷ os) s ≡ none = rw (fails, run) refl in absurd (ground (arith, lost, e))
    | inr (u, first) ↦
        run-cons o (os ++ ps) s u first ∙ run-append os ps u t (sym (run-cons o os s u first) ∙ e)
  ]

  rounds-text :
      (first second : ℕ → ℕ × ℕ) (s : System) (text : Bytes)
      → s.aborted ≡ false
      → Inv text s
      → (t : System) × (go (rounds first second) s ≡ some t) × (log_text t.log ≡ text)
  unfolding run step
  rounds-text first second s text alive h =
      let (a, e, h1, same, out) = write_round-Inv stamp fwrites full first s text h in
      let (idle, _, _, _) = write_out-Rested s.async a.async h.sound out in
      let (b, e', h2) = collect-Inv a text h1 in
      let (empty, new) = collect-empty a.async b h1.sound idle e' in
      let mid = record a { async = b } in
      let (c, e'', h3, _, out') = write_round-Inv stamp fwrites full second mid text h2 in
      let (_, none_left, buffers, current) = write_out-Rested b c.async h2.sound out' in
      let alive_a : a.aborted ≡ false = same ∙ alive in
      (
        c,
        run-cons (writes_out first) (collects ∷ writes_out second ∷ []) s a
              (if-false s.aborted _ _ alive ∙ e)
            ∙ run-cons collects (writes_out second ∷ []) a mid
                (if-false a.aborted _ _ alive_a ∙ rw e' refl)
            ∙ run-cons (writes_out second) [] mid c (if-false a.aborted _ _ alive_a ∙ e''),
        h3.held.1
            ∙ sym (append-nil c.async.output)
            ∙ ap (λ x. c.async.output ++ x)
                (sym (waiting-empty c.async none_left (buffers ∙ empty) (current ∙ new)))
            ∙ h3.whole,
      )

  -- Where a disk takes all that is written: whatever has been logged, with no line of level FATAL, and
  -- whatever the writing thread has done, the rest of its round and one more round later the files
  -- hold, in the order in which they were opened, all lines logged, whole and in order.
  pub run-rounds :
      (basename : Bytes) (rollsize flush_interval check_every_n count now : ℕ) (os : List Op)
      (first second : ℕ → ℕ × ℕ)
      → 0 < now
      → AllHaveWords os
      → any_ends os ≡ false
      → (t : System) × (run localtime strerror stamp fwrites
            (os ++ rounds first second)
            (started stamp basename rollsize flush_interval check_every_n count now)
          ≡ some t)
        × (log_text t.log ≡ lines localtime strerror os)
  run-rounds basename rollsize flush_interval check_every_n count now os first second later words
        alive =
      let start = started stamp basename rollsize flush_interval check_every_n count now in
      let (s, e, h, same) =
        run-Inv localtime strerror stamp fwrites full os start [] words refl
          (started-Inv stamp basename rollsize flush_interval check_every_n count now later) in
      let (t, e', text) =
        rounds-text first second s (lines localtime strerror os) (same ∙ alive) h in
      (t, run-append os (rounds first second) start s e ∙ e', text)
