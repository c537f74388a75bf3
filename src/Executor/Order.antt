-- ===== src/Executor/Order.antt =====
-- Tasks are taken in the order in which they were submitted.
use ai_chat_server.Base.{
  ℕ, ◌≡◌, refl, sym, ap, ◌∙◌, Option, none, some, List, [], ◌∷◌, ◌++◌, append_assoc, append-nil,
  arith,
}
use ai_chat_server.Executor.{
  Executor, new_executor, Event, starts, stops, submits, takes, leaves, ends, take_task, step, run,
}

-- The tasks submitted, and those taken, in their order.
pub submitted : List Event → List ℕ
submitted [] = []
submitted (submits task ∷ vs) = task ∷ submitted vs
submitted (_ ∷ vs) = submitted vs

pub taken : List Event → List ℕ
taken [] = []
taken (takes task ∷ vs) = task ∷ taken vs
taken (_ ∷ vs) = taken vs

-- What one event adds to the queue and takes from it.
step-queue :
    (v : Event) (e e' : Executor)
    → step v e ≡ some e'
    → e.tasks ++ submitted (v ∷ []) ≡ taken (v ∷ []) ++ e'.tasks
unfolding step submitted taken
step-queue (starts count) e e' h = append-nil e.tasks ∙ ground (arith, h)
step-queue stops e e' h = append-nil e.tasks ∙ ground (arith, h)
step-queue (submits task) e e' h = ground (arith, h)
step-queue leaves e e' h = append-nil e.tasks ∙ ground (arith, h)
step-queue ends e e' h = append-nil e.tasks ∙ ground (arith, h)
step-queue (takes task) e e' h = append-nil e.tasks ∙ go e.tasks h
  where
    go : (ts : List ℕ) → take_task task ts e ≡ some e' → ts ≡ task ∷ e'.tasks
    go [] bad = absurd (cc)
    go (t ∷ ts) taken_one = unfold take_task in ground (arith, taken_one)

submitted-cons :
    (v : Event) (vs : List Event) → submitted (v ∷ vs) ≡ submitted (v ∷ []) ++ submitted vs
unfolding submitted
submitted-cons (submits task) vs = refl
submitted-cons (starts count) vs = refl
submitted-cons stops vs = refl
submitted-cons (takes task) vs = refl
submitted-cons leaves vs = refl
submitted-cons ends vs = refl

taken-cons : (v : Event) (vs : List Event) → taken (v ∷ vs) ≡ taken (v ∷ []) ++ taken vs
unfolding taken
taken-cons (submits task) vs = refl
taken-cons (starts count) vs = refl
taken-cons stops vs = refl
taken-cons (takes task) vs = refl
taken-cons leaves vs = refl
taken-cons ends vs = refl

run-queue :
    (vs : List Event) (e e' : Executor)
    → run vs e ≡ some e'
    → e.tasks ++ submitted vs ≡ taken vs ++ e'.tasks
unfolding run
run-queue [] e e' h = unfold submitted taken in (append-nil e.tasks ∙ ground (arith, h))
run-queue (v ∷ vs) e e' h = go (step v e) refl h (run-queue vs)
  where
    go :
        (o : Option Executor)
        → step v e ≡ o
        → (elim o [ none ↦ none | some mid ↦ run vs mid ]) ≡ some e'
        → ((mid last : Executor)
            → run vs mid ≡ some last
            → mid.tasks ++ submitted vs ≡ taken vs ++ last.tasks)
        → e.tasks ++ submitted (v ∷ vs) ≡ taken (v ∷ vs) ++ e'.tasks
    go none s bad ih = absurd (cc)
    go (some mid) s rest ih =
        rw (submitted-cons v vs, taken-cons v vs)
          (sym (append_assoc e.tasks (submitted (v ∷ [])) (submitted vs))
            ∙ ap (λ q. q ++ submitted vs) (step-queue v e mid s)
            ∙ append_assoc (taken (v ∷ [])) mid.tasks (submitted vs)
            ∙ ap (λ q. taken (v ∷ []) ++ q) (ih mid e' rest)
            ∙ sym (append_assoc (taken (v ∷ [])) (taken vs) e'.tasks))

-- However submitters, workers, starts and stops interleave: the tasks submitted to a new executor
-- are those that workers took, in the same order, followed by those that still wait.
pub run-new_executor :
    (vs : List Event) (e : Executor)
    → run vs new_executor ≡ some e
    → submitted vs ≡ taken vs ++ e.tasks
run-new_executor vs e h = run-queue vs new_executor e h
