-- ===== src/Net/TimerQueue/Tests.antt =====
-- Timers under a clock that goes on by a millisecond at each reading.
use ai_chat_server.Base.{◌≡◌, ◌≢◌, refl, ℕ, ◌*◌, true, false, none, some, List, [], ◌∷◌, arith}
use ai_chat_server.Net.TimerQueue.{
  Timer, Entry, TimerQueue, new_timer_queue, insert_entry, insert, reset_timerfd, add_timer_in_loop,
  get_expired, handle_read, run_expired, add_all, reset, restart_one, restart,
}
use ai_chat_server.Net.TimerQueue.Armed.{Ordered, Armed, begins, adds_timer, fires, Reached-Armed}

abbrev sample_clock : ℕ → ℕ
sample_clock i = i * 1000

abbrev every : Timer
every = record { address = 64; expiration = 500; interval = 5000; repeats = true }

abbrev once : Timer
once = record { address = 32; expiration = 9000; interval = 0; repeats = false }

abbrev two_entries : List Entry
two_entries = record { time = 500; timer = every } ∷ record { time = 9000; timer = once } ∷ []

abbrev waiting : TimerQueue
waiting = add_timer_in_loop sample_clock once (add_timer_in_loop sample_clock every new_timer_queue)

every-due : (get_expired (sample_clock waiting.readings) waiting.timers).0 ≢ []
unfolding add_timer_in_loop insert insert_entry reset_timerfd new_timer_queue get_expired
every-due h = ground arith

abbrev fired : TimerQueue
fired = handle_read sample_clock (λ address. []) waiting

Reached-Armed_example : Ordered fired × Armed fired
Reached-Armed_example = Reached-Armed sample_clock fired (
    fires waiting (λ address. [])
      (adds_timer (add_timer_in_loop sample_clock every new_timer_queue) once
        (adds_timer new_timer_queue every begins))
      every-due)

-- The timer that repeats is due again five milliseconds after it ran, and the timerfd is set for it.
set_again : fired.alarm ≡ some (record { expiration = 7000; delay = 4000 })
unfolding handle_read get_expired run_expired add_all reset restart_one restart insert insert_entry
    reset_timerfd add_timer_in_loop new_timer_queue
set_again = refl

-- A timerfd that fires while nothing is due is not set again, though a timer waits.
abbrev early : TimerQueue
early =
    handle_read sample_clock (λ address. []) (add_timer_in_loop sample_clock once new_timer_queue)

not_set_again : (early.alarm ≡ none) × (early.ran ≡ [])
unfolding handle_read get_expired run_expired reset insert insert_entry reset_timerfd
    add_timer_in_loop new_timer_queue
not_set_again = (refl, refl)
