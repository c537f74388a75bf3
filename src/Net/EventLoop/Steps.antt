-- ===== src/Net/EventLoop/Steps.antt =====
-- The steps of the loop's thread and of the others, in any order.
use ai_chat_server.Base.{◌≡◌, ◌≤◌, Bool, true, false, List, [], ◌∷◌, ◌++◌}
use ai_chat_server.Net.EventLoop.{
  Phase, outside, testing, polling, handling, running, EventLoop, start, test_quit, poll_returns,
  handle_read, swap_functors, run_next, finish_functors, queue_in_loop_here, queue_in_loop_there,
  run_in_loop_here, write_wakeup, quit_here, quit_there,
}

-- Callbacks run in the loop's thread while it handles events and while it runs functors.
abbrev pub in_callback : Phase → Bool
in_callback handling = true
in_callback running = true
in_callback _ = false

module _ {F : Type 0} where
  -- A step, with the functor that it queues, if it queues one.
  pub data Step : EventLoop F → List F → EventLoop F → Type 0 where
    starts : (s : EventLoop F) → s.phase ≡ outside → Step s [] (start s)
    tests : (s : EventLoop F) → s.phase ≡ testing → Step s [] (test_quit s)
    polled : (s : EventLoop F) → s.phase ≡ polling → Step s [] (poll_returns s)
    reads : (s : EventLoop F) → s.phase ≡ handling → Step s [] (handle_read s)
    swaps : (s : EventLoop F) → s.phase ≡ handling → Step s [] (swap_functors s)
    runs : (s : EventLoop F) → s.phase ≡ running → Step s [] (run_next s)
    finishes :
        (s : EventLoop F) → s.phase ≡ running → s.functors ≡ [] → Step s [] (finish_functors s)
    queues_here :
        (s : EventLoop F) (f : F)
        → in_callback s.phase ≡ true
        → Step s (f ∷ []) (queue_in_loop_here f s)
    queues_there : (s : EventLoop F) (f : F) → Step s (f ∷ []) (queue_in_loop_there f s)
    calls_here :
        (s : EventLoop F) (f : F) → in_callback s.phase ≡ true → Step s [] (run_in_loop_here f s)
    writes : (s : EventLoop F) → 1 ≤ s.waking → Step s [] (write_wakeup s)
    quits_here : (s : EventLoop F) → in_callback s.phase ≡ true → Step s [] (quit_here s)
    quits_there : (s : EventLoop F) → Step s [] (quit_there s)

  -- Steps one after another, with all that they queue.
  pub data Steps : EventLoop F → List F → EventLoop F → Type 0 where
    done : (s : EventLoop F) → Steps s [] s
    then_ :
        (s t u : EventLoop F) (fs gs : List F) → Steps s fs t → Step t gs u → Steps s (fs ++ gs) u
