-- ===== src/Log/Pipeline/Kept.antt =====
-- Every line on its way from a Logger to a file.
use ai_chat_server.Base.{
  ◌≡◌, refl, sym, ap, ◌∙◌, ℕ, ◌^◌, ◌<◌, Bool, true, false, Option, some, Bytes, List, [], ◌∷◌, ◌++◌,
  append_assoc, append-nil, if-true, if-false, if◌then◌else◌, arith, Bool-cases, inl, inr,
}
use ai_chat_server.Clock.{Tm}
use ai_chat_server.Log.LogFile.{Answer}
use ai_chat_server.Log.LogFile.Written.{log_text, takes_all}
use ai_chat_server.Log.LogStream.Integers.{AllWords}
use ai_chat_server.Log.Logger.{Message, flushes, aborts, is_fatal, log_line, destroy_logger}
use ai_chat_server.Log.Logger.Lines.{log_line-fits}
use ai_chat_server.Log.Pipeline.{
  System, started, Op, logs, collects, writes_out, run_effects, step, run,
}
use ai_chat_server.Log.Pipeline.Steps.{
  Inv, waiting, write_round-Inv, collect-Inv, append-Inv, started-Inv,
}

-- Integers of at most 64 bits.
abbrev pub HasWords : Message → Type 0
HasWords m = AllWords m.items × (m.line < 2 ^ 64)

abbrev pub OpHasWords : Op → Type 0
OpHasWords (logs m) = HasWords m
OpHasWords _ = Unit {0}

abbrev pub AllHaveWords : List Op → Type 0
AllHaveWords [] = Unit {0}
AllHaveWords (o ∷ os) = OpHasWords o × AllHaveWords os

-- Whether the program ends with a step.
abbrev pub ends : Op → Bool
ends (logs m) = is_fatal m.level
ends _ = false

abbrev pub any_ends : List Op → Bool
any_ends [] = false
any_ends (o ∷ os) = if ends o then true else any_ends os

module _ (localtime : ℕ → Tm) (strerror : ℕ → Bytes) where
  abbrev pub line_of : Op → Bytes
  line_of (logs m) = log_line localtime strerror m
  line_of _ = []

  -- The lines logged, up to the first of level FATAL, which ends the program.
  abbrev pub lines : List Op → Bytes
  lines [] = []
  lines (o ∷ os) = line_of o ++ (if ends o then [] else lines os)

module _ (localtime : ℕ → Tm) (strerror stamp : ℕ → Bytes) (fwrites : Bytes → List Answer)
    (full : (xs : Bytes) → takes_all (fwrites xs) xs ≡ true) where
  abbrev go : List Op → System → Option System
  go os s = run localtime strerror stamp fwrites os s

  step-aborted :
      (o : Op) (s : System) → s.aborted ≡ true → step localtime strerror stamp fwrites o s ≡ some s
  unfolding step
  step-aborted o s h = if-true s.aborted _ _ h

  run-aborted : (os : List Op) (s : System) → s.aborted ≡ true → go os s ≡ some s
  unfolding run
  run-aborted [] s h = refl
  run-aborted (o ∷ os) s h = rw (step-aborted o s h, run) (run-aborted os s h)

  effects-Inv :
      (b : Bool) (s : System) (text : Bytes)
      → s.aborted ≡ false
      → Inv text s
      → (t : System) × (run_effects (if b then flushes ∷ aborts ∷ [] else []) s ≡ some t)
        × Inv text t
        × (t.aborted ≡ b)
  unfolding run_effects
  effects-Inv true s text alive h = (
    record s { aborted = true },
    refl,
    record { sound = h.sound; held = h.held; whole = h.whole },
    refl,
  )
  effects-Inv false s text alive h = (s, refl, h, alive)

  step-Inv :
      (o : Op) (s : System) (text : Bytes)
      → OpHasWords o
      → s.aborted ≡ false
      → Inv text s
      → (t : System) × (step localtime strerror stamp fwrites o s ≡ some t)
        × Inv (text ++ line_of localtime strerror o) t
        × (t.aborted ≡ ends o)
  unfolding step run_effects destroy_logger
  step-Inv (logs m) s text words alive h =
      let line = log_line localtime strerror m in
      let short = log_line-fits localtime strerror m words.0 words.1 in
      let (a, e, h') = append-Inv line s text (omega (arith, short)) h in
      let (t, e', h'', ended) =
        effects-Inv (is_fatal m.level) (record s { async = a }) (text ++ line) alive h' in
      (t, if-false s.aborted _ _ alive ∙ rw (e, run_effects) e', h'', ended)
  step-Inv collects s text words alive h =
      let (a, e, h') = collect-Inv s text h in
      (
        record s { async = a },
        if-false s.aborted _ _ alive ∙ rw e refl,
        rw (append-nil text) h',
        alive,
      )
  step-Inv (writes_out times) s text words alive h =
      let (t, e, h', same, _) = write_round-Inv stamp fwrites full times s text h in
      (t, if-false s.aborted _ _ alive ∙ e, rw (append-nil text) h', same ∙ alive)

  pub run-Inv :
      (os : List Op) (s : System) (text : Bytes)
      → AllHaveWords os
      → s.aborted ≡ false
      → Inv text s
      → (t : System) × (go os s ≡ some t)
        × Inv (text ++ lines localtime strerror os) t
        × (t.aborted ≡ any_ends os)
  unfolding run
  run-Inv [] s text words alive h = (s, refl, rw (append-nil text) h, alive)
  run-Inv (o ∷ os) s text (w, ws) alive h =
      let (t, e, h', ended) = step-Inv o s text w alive h in
      elim (Bool-cases (ends o)) [
        | inl last ↦ (
          t,
          rw (e, run) (run-aborted os t (ended ∙ last)),
          rw (last, append-nil (line_of localtime strerror o)) h',
          ended ∙ last ∙ sym (if-true (ends o) true (any_ends os) last),
        )
        | inr more ↦
            let (u, e', h'', kept) =
              run-Inv os t (text ++ line_of localtime strerror o) ws (ended ∙ more) h' in
            (
              u,
              rw (e, run) e',
              rw
                  (
                    more,
                    ← append_assoc text (line_of localtime strerror o)
                        (lines localtime strerror os),
                  )
                  h'',
              kept ∙ sym (if-false (ends o) true (any_ends os) more),
            )
      ]

  -- Where a disk takes all that is written: however the threads that log and the writing thread take
  -- turns, whatever the times at which it writes and so the files are rolled, nothing fails, and the
  -- files, in the order in which they were opened, with what has still to be written, hold the lines
  -- logged up to the first of level FATAL, whole and in order, and nothing else.
  pub run-lines :
      (basename : Bytes) (rollsize flush_interval check_every_n count now : ℕ) (os : List Op)
      → 0 < now
      → AllHaveWords os
      → (t : System) × (run localtime strerror stamp fwrites os
            (started stamp basename rollsize flush_interval check_every_n count now)
          ≡ some t)
        × (log_text t.log ++ waiting t.async ≡ lines localtime strerror os)
  run-lines basename rollsize flush_interval check_every_n count now os later words =
      let (t, e, h, _) =
        run-Inv os (started stamp basename rollsize flush_interval check_every_n count now) [] words
          refl (started-Inv stamp basename rollsize flush_interval check_every_n count now later) in
      (t, e, ap (λ x. x ++ waiting t.async) h.held.1 ∙ h.whole)
