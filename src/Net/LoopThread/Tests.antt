-- ===== src/Net/LoopThread/Tests.antt =====
-- A loop thread from its start to its end.
use ai_chat_server.Base.{◌≡◌, List, [], ◌∷◌, arith, refl, false}
use ai_chat_server.Net.LoopThread.{
  EventLoopThread, new_loop_thread, start_loop, call_back, publish, enter_loop, destroy,
  destroyer_quits, join, done, gone,
}
use ai_chat_server.Net.LoopThread.Steps.{
  starts, calls_back, publishes, enters, destroys, Step, Steps, stop, go_on,
}
use ai_chat_server.Net.LoopThread.Started.{Mover, the_worker, the_starter, play, seen-joined}

abbrev waiting_thread : EventLoopThread
unfolding start_loop new_loop_thread
waiting_thread = start_loop new_loop_thread

abbrev turns : List Mover
turns = the_worker ∷ the_starter ∷ the_worker ∷ the_worker ∷ []

abbrev looping_thread : EventLoopThread
unfolding start_loop new_loop_thread call_back publish enter_loop destroy
looping_thread = destroy (enter_loop (publish (call_back (start_loop new_loop_thread))))

to_looping : Steps new_loop_thread looping_thread
unfolding start_loop new_loop_thread call_back publish enter_loop destroy
to_looping = go_on (starts new_loop_thread refl refl) (
    go_on (calls_back waiting_thread refl) (
      go_on (publishes (call_back waiting_thread) refl) (
        go_on (enters (publish (call_back waiting_thread)) refl) (
          go_on (destroys (enter_loop (publish (call_back waiting_thread))) refl)
            (stop looping_thread)))))

seen-joined_example :
    let t = play turns (destroyer_quits looping_thread) in
    (t.worker ≡ gone) × (t.loop_set ≡ false) × Step t (join t) × ((join t).destroyer ≡ done)
unfolding start_loop new_loop_thread call_back publish enter_loop destroy
seen-joined_example = seen-joined looping_thread turns to_looping refl refl (omega arith)
