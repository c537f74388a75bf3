-- ===== src/Executor.antt =====
-- include/base/TaskExecutor.h and src/base/TaskExecutor.cc. Each event is what one thread does
-- under the lock (or the end of a task, outside of it), so a list of events is an interleaving;
-- `none` is an event that cannot happen. A task is a number; waking is left out, since a waiting
-- worker only looks again.
pub mod Order
mod Tests
use ai_chat_server.Base.{
  ℕ, suc, ◌+◌, ◌-◌, Bool, true, false, not, ◌&&◌, Option, none, some, List, [], ◌∷◌, ◌++◌, ◌==◌,
  if◌then◌else◌, ltb,
}

-- The workers that look for a task, and those that run one.
pub record Executor : Type 0 where
  pub running : Bool
  pub tasks : List ℕ
  pub looking : ℕ
  pub busy : ℕ

abbrev pub new_executor : Executor
new_executor = record { running = false; tasks = []; looking = 0; busy = 0 }

-- start() with the capacity of the worker vector; stop() up to its notification; submit(); a round
-- of workerLoop that takes the front task or leaves the loop; the end of a task.
pub data Event : Type 0 where
  starts : (count : ℕ) → Event
  stops : Event
  submits : (task : ℕ) → Event
  takes : (task : ℕ) → Event
  leaves : Event
  ends : Event

abbrev no_tasks : List ℕ → Bool
no_tasks [] = true
no_tasks (t ∷ ts) = false

-- A round that takes `task`: the wait is over and the task is the front one.
unfoldable pub take_task : ℕ → List ℕ → Executor → Option Executor
take_task task [] e = none
take_task task (t ∷ ts) e =
    if t == task && ltb 0 e.looking
    then some (record e { tasks = ts; looking = e.looking - 1; busy = e.busy + 1 })
    else none

unfoldable pub step : Event → Executor → Option Executor
unfolding take_task
step (starts count) e =
    some (if e.running then e else record e { running = true; looking = e.looking + count })
step stops e = some (if e.running then record e { running = false } else e)
step (submits task) e = some (record e { tasks = e.tasks ++ (task ∷ []) })
step (takes task) e = take_task task e.tasks e
step leaves e =
    if not e.running && (no_tasks e.tasks && ltb 0 e.looking)
    then some (record e { looking = e.looking - 1 })
    else none
step ends e =
    if ltb 0 e.busy then some (record e { busy = e.busy - 1; looking = e.looking + 1 }) else none

unfoldable pub run : List Event → Executor → Option Executor
run [] e = some e
run (v ∷ vs) e = elim (step v e) [ none ↦ none | some e' ↦ run vs e' ]
