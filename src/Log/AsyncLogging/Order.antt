-- ===== src/Log/AsyncLogging/Order.antt =====
-- No line is lost or moved on its way to the log.
use ai_chat_server.Base.{
  ◌≡◌, refl, sym, ap, ◌∙◌, ℕ, Option, none, some, Bytes, List, [], ◌∷◌, ◌++◌, append_assoc,
  append-nil, length, ltb, if◌then◌else◌, arith,
}
use mathlib.Core.Path.{subst}
use ai_chat_server.Log.AsyncLogging.{AsyncLogging, new_async, append, append_to, collect, write_out}
use ai_chat_server.Log.AsyncLogging.Sound.{all_text, Sound, Good, append-Good}
use ai_chat_server.Log.AsyncLogging.Rounds.{collect-Good, write_out-Good}

pub data Op : Type 0 where
  logs : (line : Bytes) → Op
  collects writes_out : Op

unfoldable pub step : ℕ → Op → AsyncLogging → Option AsyncLogging
step size (logs line) s = append size line s
step size collects s = collect s
step size writes_out s = write_out s

unfoldable pub run : ℕ → List Op → AsyncLogging → Option AsyncLogging
run size [] s = some s
run size (o ∷ os) s = elim (step size o s) [ none ↦ none | some t ↦ run size os t ]

-- The lines that are shorter than a buffer, in order.
unfoldable pub logged : ℕ → List Op → Bytes
logged size [] = []
logged size (logs line ∷ os) = (if ltb (length line) size then line else []) ++ logged size os
logged size (collects ∷ os) = logged size os
logged size (writes_out ∷ os) = logged size os

pub step-Good :
    (size : ℕ) (o : Op) (s : AsyncLogging) → Sound s → Good (logged size (o ∷ [])) s (step size o s)
unfolding step logged append
step-Good size (logs line) s h =
    subst (λ xs. Good xs s (append_to size line s s.current_buffer))
      (sym (append-nil (if ltb (length line) size then line else [])))
      (append-Good size line s s.current_buffer refl h)
step-Good size collects s h = collect-Good s h
step-Good size writes_out s h = write_out-Good s h

logged-cons :
    (size : ℕ) (o : Op) (os : List Op)
    → logged size (o ∷ []) ++ logged size os ≡ logged size (o ∷ os)
unfolding logged
logged-cons size (logs line) os =
    ap (λ t. t ++ logged size os) (append-nil (if ltb (length line) size then line else []))
logged-cons size collects os = refl
logged-cons size writes_out os = refl

abbrev and_then : ℕ → List Op → Option AsyncLogging → Option AsyncLogging
and_then size os o = elim o [ none ↦ none | some t ↦ run size os t ]

run-Good :
    (size : ℕ) (os : List Op) (s : AsyncLogging) → Sound s → Good (logged size os) s (run size os s)
unfolding run logged
run-Good size [] s h = (s, (refl, h, sym (append-nil (all_text s))))
run-Good size (o ∷ os) s h =
    let (t, (e, h', text)) = step-Good size o s h in
    let (u, (e', h'', text')) = run-Good size os t h' in
    (
      u,
      (
        ap (and_then size os) e ∙ e',
        h'',
        text'
            ∙ ap (λ x. x ++ logged size os) text
            ∙ append_assoc (all_text s) (logged size (o ∷ [])) (logged size os)
            ∙ ap (λ x. all_text s ++ x) (logged-cons size o os),
      ),
    )

pub new_async-Sound : Sound new_async
unfolding new_async
new_async-Sound = record {
  current = λ k. ground arith;
  spare_empty = λ b k. ground arith;
  spare = λ k. ground arith;
  idle = λ k. (refl, refl, refl);
  busy = λ k. ground arith;
  second = λ k. ground arith;
  second_empty = λ b k. ground arith;
}

-- However the threads that log and the one that writes take turns, no missing buffer is ever used,
-- and the log, with the buffers still to be written, holds the lines logged that are shorter than a
-- buffer, whole and in order, and nothing else.
pub run-new_async :
    (size : ℕ) (os : List Op)
    → (t : AsyncLogging) × ((run size os new_async ≡ some t) × (all_text t ≡ logged size os))
unfolding new_async
run-new_async size os =
    let (t, (e, h, text)) = run-Good size os new_async new_async-Sound in (t, (e, text))
