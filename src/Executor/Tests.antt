-- ===== src/Executor/Tests.antt =====
-- Runs of the executor.
use ai_chat_server.Base.{◌≡◌, refl, ◌++◌, false, some, List, [], ◌∷◌}
use ai_chat_server.Executor.{
  Executor, new_executor, Event, starts, stops, submits, takes, ends, step, run,
}
use ai_chat_server.Executor.Order.{submitted, taken, run-new_executor}

-- Two workers, three tasks; the executor is stopped while one task still waits.
abbrev day : List Event
day = submits 7 ∷ starts 2 ∷ submits 8 ∷ takes 7 ∷ submits 9 ∷ takes 8 ∷ ends ∷ stops ∷ []

abbrev evening : Executor
evening = record { running = false; tasks = 9 ∷ []; looking = 1; busy = 1 }

day-evening : run day new_executor ≡ some evening
unfolding run step
day-evening = refl

run-new_executor_example : submitted day ≡ taken day ++ evening.tasks
run-new_executor_example = run-new_executor day evening day-evening
