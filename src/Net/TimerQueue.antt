-- ===== src/Net/TimerQueue.antt =====
-- include/net/Timer.h, src/net/Timer.cc, include/net/TimerQueue.h and src/net/TimerQueue.cc: the
-- timers of a loop. Times and intervals are microseconds; the clock is an argument, the time of its
-- i-th reading. The ordered set is a list.
pub mod Due
pub mod Armed
mod Tests
use ai_chat_server.Base.{
  ℕ, suc, ◌+◌, ◌-◌, Bool, true, false, not, ◌&&◌, ◌||◌, Option, none, some, List, [], ◌∷◌, ◌++◌,
  ltb, if◌then◌else◌,
}

-- A timer, with its address.
pub record Timer : Type 0 where
  pub address : ℕ
  pub expiration : ℕ
  pub interval : ℕ
  pub repeats : Bool

unfoldable pub restart : ℕ → Timer → Timer
restart now t = record t { expiration = if t.repeats then now + t.interval else 0 }

pub record Entry : Type 0 where
  pub time : ℕ
  pub timer : Timer

-- The order of pairs of a time and an address.
abbrev pub key_lt : ℕ → ℕ → ℕ → ℕ → Bool
key_lt t a t' a' = ltb t t' || (not (ltb t' t) && ltb a a')

abbrev pub entry_lt : Entry → Entry → Bool
entry_lt x y = key_lt x.time x.timer.address y.time y.timer.address

-- UINTPTR_MAX
abbrev pub uintptr_max : ℕ
uintptr_max = 18446744073709551615

-- What the timerfd was last set to: the time it stands for and the delay from the moment it was
-- set. It fires once.
pub record Alarm : Type 0 where
  pub expiration : ℕ
  pub delay : ℕ

pub record TimerQueue : Type 0 where
  pub timers : List Entry
  pub alarm : Option Alarm
  -- The readings of the clock so far, and the timers run, by address.
  pub readings : ℕ
  pub ran : List ℕ

unfoldable pub new_timer_queue : TimerQueue
new_timer_queue = record { timers = []; alarm = none; readings = 0; ran = [] }

-- std::set::insert
unfoldable pub insert_entry : Entry → List Entry → List Entry
insert_entry e [] = e ∷ []
insert_entry e (x ∷ xs) =
    let rest = insert_entry e xs in
    if entry_lt e x then e ∷ x ∷ xs else if entry_lt x e then x ∷ rest else x ∷ xs

abbrev pub is_earliest : ℕ → List Entry → Bool
is_earliest time [] = true
is_earliest time (x ∷ xs) = ltb time x.time

-- insert: whether the earliest time changes, and the queue.
unfoldable pub insert : Timer → TimerQueue → Bool × TimerQueue
unfolding insert_entry
insert t q = (
  is_earliest t.expiration q.timers,
  record q { timers = insert_entry (record { time = t.expiration; timer = t }) q.timers },
)

-- resetTimerfd: at least 100 microseconds.
unfoldable pub reset_timerfd : (ℕ → ℕ) → ℕ → TimerQueue → TimerQueue
reset_timerfd clock expiration q =
    let dif = expiration - clock q.readings in
    record q {
      alarm = some (record { expiration = expiration; delay = if ltb dif 100 then 100 else dif });
      readings = suc q.readings;
    }

unfoldable pub add_timer_in_loop : (ℕ → ℕ) → Timer → TimerQueue → TimerQueue
unfolding insert reset_timerfd
add_timer_in_loop clock t q =
    let (earliest_changed, inserted) = insert t q in
    if earliest_changed then reset_timerfd clock t.expiration inserted else inserted

-- The entries before the sentry's place, and those from it on.
unfoldable pub get_expired : ℕ → List Entry → List Entry × List Entry
get_expired now [] = ([], [])
get_expired now (x ∷ xs) =
    let (expired, rest) = get_expired now xs in
    if key_lt x.time x.timer.address now uintptr_max then (x ∷ expired, rest) else ([], x ∷ xs)

-- A callback, as far as the queue is concerned: the timers that it adds.
unfoldable pub add_all : (ℕ → ℕ) → List Timer → TimerQueue → TimerQueue
unfolding add_timer_in_loop
add_all clock [] q = q
add_all clock (t ∷ ts) q = add_all clock ts (add_timer_in_loop clock t q)

unfoldable pub run_expired : (ℕ → ℕ) → (ℕ → List Timer) → List Entry → TimerQueue → TimerQueue
unfolding add_all
run_expired clock adds [] q = q
run_expired clock adds (x ∷ xs) q =
    run_expired clock adds xs
      (add_all clock (adds x.timer.address) (record q { ran = q.ran ++ (x.timer.address ∷ []) }))

-- A timer that repeats is set again from the present time; another one is deleted.
unfoldable pub restart_one : (ℕ → ℕ) → Timer → TimerQueue → TimerQueue
unfolding insert restart
restart_one clock t q =
    if t.repeats
    then (insert (restart (clock q.readings) t) (record q { readings = suc q.readings })).1
    else q

abbrev pub arm_first : (ℕ → ℕ) → List Entry → TimerQueue → TimerQueue
arm_first clock [] q = q
arm_first clock (x ∷ xs) q = reset_timerfd clock x.timer.expiration q

unfoldable pub reset : (ℕ → ℕ) → List Entry → TimerQueue → TimerQueue
unfolding restart_one reset_timerfd
reset clock [] q = q
reset clock (x ∷ xs) q =
    let restarted = restart_one clock x.timer q in
    reset clock xs (arm_first clock restarted.timers restarted)

-- handleRead, when the timerfd has fired.
unfoldable pub handle_read : (ℕ → ℕ) → (ℕ → List Timer) → TimerQueue → TimerQueue
unfolding get_expired run_expired reset
handle_read clock adds q =
    let (expired, rest) = get_expired (clock q.readings) q.timers in
    reset clock expired (
      run_expired clock adds expired
        (record q { timers = rest; alarm = none; readings = suc q.readings }))
