-- ===== src/Net/EventLoop/Tests.antt =====
-- A loop that another thread gives a functor.
use ai_chat_server.Base.{◌≡◌, ◌≢◌, inl, refl, ℕ, ◌≤◌, ◌+◌, [], ◌∷◌, ◌++◌, arith}
use ai_chat_server.Net.EventLoop.{
  polling, EventLoop, new_event_loop, start, test_quit, queue_in_loop_there,
}
use ai_chat_server.Net.EventLoop.Steps.{Steps, starts, tests, queues_there, done, then_}
use ai_chat_server.Net.EventLoop.Wakeups.{polling-woken}
use ai_chat_server.Net.EventLoop.Order.{Steps-history}

abbrev empty_loop : EventLoop ℕ
empty_loop = new_event_loop

abbrev given : EventLoop ℕ
given = queue_in_loop_there 7 (test_quit (start empty_loop))

given-reached : Steps empty_loop (7 ∷ []) given
unfolding new_event_loop start test_quit
given-reached =
    let s = start empty_loop in
    let p = test_quit s in
    then_ empty_loop p given [] (7 ∷ [])
      (then_ empty_loop s p [] []
        (then_ empty_loop empty_loop s [] [] (done empty_loop) (starts empty_loop refl))
        (tests s refl))
      (queues_there p 7)

given-polls : given.phase ≡ polling
unfolding new_event_loop start test_quit queue_in_loop_there
given-polls = refl

given-waits : given.pending_functors ≢ []
unfolding new_event_loop start test_quit queue_in_loop_there
given-waits h = ground arith

polling-woken_example : 1 ≤ given.wakeups + given.waking
polling-woken_example = polling-woken given (7 ∷ []) given-reached given-polls (inl given-waits)

Steps-history_example : given.ran ++ (given.functors ++ given.pending_functors) ≡ 7 ∷ []
Steps-history_example = Steps-history given (7 ∷ []) given-reached
