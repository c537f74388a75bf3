-- ===== src/Net/TimerQueue/Armed.antt =====
-- The timerfd is set for the earliest timer.
use ai_chat_server.Base.{
  ◌≡◌, ◌≢◌, inl, inr, refl, sym, ap, ◌∙◌, ℕ, suc, Bool, true, false, Option, none, some, List, [],
  ◌∷◌, ◌++◌, if◌then◌else◌, arith, Bool-cases,
}
use mathlib.Core.Path.{subst}
use ai_chat_server.Net.TimerQueue.{
  uintptr_max, Timer, Entry, Alarm, TimerQueue, new_timer_queue, key_lt, restart, insert_entry,
  insert, is_earliest, reset_timerfd, add_timer_in_loop, get_expired, add_all, run_expired,
  restart_one, arm_first, reset, handle_read,
}
use ai_chat_server.Net.TimerQueue.Due.{Sorted, insert_entry-Sorted}

abbrev pub alarm_time : Option Alarm → Option ℕ
alarm_time none = none
alarm_time (some a) = some a.expiration

abbrev pub first_time : List Entry → Option ℕ
first_time [] = none
first_time (x ∷ xs) = some x.time

-- Every entry stands under its timer's expiration.
abbrev pub Keyed : List Entry → Type 0
Keyed [] = Unit {0}
Keyed (x ∷ xs) = (x.time ≡ x.timer.expiration) × Keyed xs

-- If timers wait, the timerfd is set for the earliest of them.
abbrev pub Armed : TimerQueue → Type 0
Armed q = (q.timers ≢ []) → alarm_time q.alarm ≡ first_time q.timers

pub record Ordered (q : TimerQueue) : Type 0 where
  pub sorted : Sorted q.timers
  pub keyed : Keyed q.timers

insert_entry-Keyed :
    (e : Entry) (xs : List Entry)
    → e.time ≡ e.timer.expiration
    → Keyed xs
    → Keyed (insert_entry e xs)
unfolding insert_entry
insert_entry-Keyed e [] h k = (h, tt)
insert_entry-Keyed e (x ∷ xs) h (kx, ks) = ground (arith, insert_entry-Keyed e xs h ks)

-- The earliest time changes exactly if insert says so.
first_time-insert :
    (e : Entry) (xs : List Entry)
    → first_time (insert_entry e xs)
      ≡ (if is_earliest e.time xs then some e.time else first_time xs)
unfolding insert_entry
first_time-insert e [] = refl
first_time-insert e (x ∷ xs) = ground arith

insert-Ordered : (t : Timer) (q : TimerQueue) → Ordered q → Ordered (insert t q).1
unfolding insert
insert-Ordered t q o = record {
  sorted = insert_entry-Sorted (record { time = t.expiration; timer = t }) q.timers o.sorted;
  keyed = insert_entry-Keyed (record { time = t.expiration; timer = t }) q.timers refl o.keyed;
}

Ordered-if : (b : Bool) (x y : TimerQueue) → Ordered x → Ordered y → Ordered (if b then x else y)
Ordered-if true x y h k = h
Ordered-if false x y h k = k

same-Ordered : (p q : TimerQueue) → p.timers ≡ q.timers → Ordered q → Ordered p
same-Ordered p q e o = record {
  sorted = subst Sorted (sym e) o.sorted;
  keyed = subst Keyed (sym e) o.keyed;
}

reset_timerfd-Ordered :
    (clock : ℕ → ℕ) (time : ℕ) (q : TimerQueue) → Ordered q → Ordered (reset_timerfd clock time q)
unfolding reset_timerfd
reset_timerfd-Ordered clock time q o = same-Ordered (reset_timerfd clock time q) q refl o

add_timer-Ordered :
    (clock : ℕ → ℕ) (t : Timer) (q : TimerQueue) → Ordered q → Ordered (add_timer_in_loop clock t q)
unfolding add_timer_in_loop
add_timer-Ordered clock t q o =
    let r = (insert t q).1 in
    Ordered-if (insert t q).0 (reset_timerfd clock t.expiration r) r
      (reset_timerfd-Ordered clock t.expiration r (insert-Ordered t q o)) (insert-Ordered t q o)

add_timer-Armed :
    (clock : ℕ → ℕ) (t : Timer) (q : TimerQueue) → Armed q → Armed (add_timer_in_loop clock t q)
unfolding add_timer_in_loop reset_timerfd insert
add_timer-Armed clock t q o = elim (Bool-cases (is_earliest t.expiration q.timers)) [
  | inl new_first ↦ rw new_first (λ h. sym (first ∙ rw new_first refl))
  | inr old_first ↦
      rw old_first (λ h. o (some_wait q.timers old_first) ∙ sym (first ∙ rw old_first refl))
]
  where
    first :
        first_time (insert_entry (record { time = t.expiration; timer = t }) q.timers)
        ≡ (if is_earliest t.expiration q.timers then some t.expiration else first_time q.timers)
    first = first_time-insert (record { time = t.expiration; timer = t }) q.timers

    some_wait : (xs : List Entry) → is_earliest t.expiration xs ≡ false → xs ≢ []
    some_wait [] h k = ground arith
    some_wait (x ∷ xs) h k = ground arith

add_all-Ordered :
    (clock : ℕ → ℕ) (ts : List Timer) (q : TimerQueue) → Ordered q → Ordered (add_all clock ts q)
unfolding add_all
add_all-Ordered clock [] q o = o
add_all-Ordered clock (t ∷ ts) q o =
    add_all-Ordered clock ts (add_timer_in_loop clock t q) (add_timer-Ordered clock t q o)

run_expired-Ordered :
    (clock : ℕ → ℕ) (adds : ℕ → List Timer) (xs : List Entry) (q : TimerQueue)
    → Ordered q
    → Ordered (run_expired clock adds xs q)
unfolding run_expired
run_expired-Ordered clock adds [] q o = o
run_expired-Ordered clock adds (x ∷ xs) q o =
    let called = record q { ran = q.ran ++ (x.timer.address ∷ []) } in
    run_expired-Ordered clock adds xs (add_all clock (adds x.timer.address) called)
      (add_all-Ordered clock (adds x.timer.address) called (same-Ordered called q refl o))

restart_one-Ordered :
    (clock : ℕ → ℕ) (t : Timer) (q : TimerQueue) → Ordered q → Ordered (restart_one clock t q)
unfolding restart_one
restart_one-Ordered clock t q o =
    let read = record q { readings = suc q.readings } in
    let again = restart (clock q.readings) t in
    Ordered-if t.repeats (insert again read).1 q
      (insert-Ordered again read (same-Ordered read q refl o)) o

arm_first-Ordered :
    (clock : ℕ → ℕ) (xs : List Entry) (q : TimerQueue) → Ordered q → Ordered (arm_first clock xs q)
arm_first-Ordered clock [] q o = o
arm_first-Ordered clock (x ∷ xs) q o = reset_timerfd-Ordered clock x.timer.expiration q o

arm_first-Armed :
    (clock : ℕ → ℕ) (xs : List Entry) (q : TimerQueue)
    → q.timers ≡ xs
    → Keyed xs
    → Armed (arm_first clock xs q)
unfolding reset_timerfd
arm_first-Armed clock [] q e k h = absurd (h e)
arm_first-Armed clock (x ∷ xs) q e (k, ks) h = ap some (sym k) ∙ ap first_time (sym e)

reset-Ordered :
    (clock : ℕ → ℕ) (xs : List Entry) (q : TimerQueue) → Ordered q → Ordered (reset clock xs q)
unfolding reset
reset-Ordered clock [] q o = o
reset-Ordered clock (x ∷ xs) q o =
    let r = restart_one clock x.timer q in
    reset-Ordered clock xs (arm_first clock r.timers r)
      (arm_first-Ordered clock r.timers r (restart_one-Ordered clock x.timer q o))

reset-Armed :
    (clock : ℕ → ℕ) (xs : List Entry) (q : TimerQueue)
    → xs ≢ []
    → Ordered q
    → Armed (reset clock xs q)
unfolding reset
reset-Armed clock [] q h o = absurd (h refl)
reset-Armed clock (x ∷ []) q h o =
    let r = restart_one clock x.timer q in
    arm_first-Armed clock r.timers r refl (restart_one-Ordered clock x.timer q o).keyed
reset-Armed clock (x ∷ y ∷ ys) q h o =
    let r = restart_one clock x.timer q in
    reset-Armed clock (y ∷ ys) (arm_first clock r.timers r) (λ e. ground arith)
      (arm_first-Ordered clock r.timers r (restart_one-Ordered clock x.timer q o))

get_expired-Ordered :
    (now : ℕ) (xs : List Entry)
    → Sorted xs
    → Keyed xs
    → Sorted (get_expired now xs).1 × Keyed (get_expired now xs).1
unfolding get_expired
get_expired-Ordered now [] s k = (tt, tt)
get_expired-Ordered now (x ∷ xs) (l, s) (k, ks) =
    elim (Bool-cases (key_lt x.time x.timer.address now uintptr_max)) [
      | inl due ↦ rw due (get_expired-Ordered now xs s ks)
      | inr later ↦ rw later ((l, s), (k, ks))
    ]

handle_read-Ordered :
    (clock : ℕ → ℕ) (adds : ℕ → List Timer) (q : TimerQueue)
    → Ordered q
    → Ordered (handle_read clock adds q)
      × ((get_expired (clock q.readings) q.timers).0 ≢ [] → Armed (handle_read clock adds q))
unfolding handle_read
handle_read-Ordered clock adds q o =
    let due = (get_expired (clock q.readings) q.timers).0 in
    let rest = (get_expired (clock q.readings) q.timers).1 in
    let taken = record q { timers = rest; alarm = none; readings = suc q.readings } in
    let (s, k) = get_expired-Ordered (clock q.readings) q.timers o.sorted o.keyed in
    let called = run_expired-Ordered clock adds due taken (record { sorted = s; keyed = k }) in
    (
      reset-Ordered clock due (run_expired clock adds due taken) called,
      λ h. reset-Armed clock due (run_expired clock adds due taken) h called,
    )

-- The queues that come about: timers are added, and the timerfd fires when a timer is due by the
-- clock.
pub data Reached (clock : ℕ → ℕ) : TimerQueue → Type 0 where
  begins : Reached clock new_timer_queue
  adds_timer :
      (q : TimerQueue) (t : Timer) → Reached clock q → Reached clock (add_timer_in_loop clock t q)
  fires :
      (q : TimerQueue) (adds : ℕ → List Timer)
      → Reached clock q
      → (get_expired (clock q.readings) q.timers).0 ≢ []
      → Reached clock (handle_read clock adds q)

-- As long as a timer is due by the clock whenever the timerfd fires, the timers stay in the order of
-- their times, and the timerfd is set for the earliest as long as one waits.
pub Reached-Armed : (clock : ℕ → ℕ) (q : TimerQueue) → Reached clock q → Ordered q × Armed q
unfolding new_timer_queue
Reached-Armed clock q begins = (record { sorted = tt; keyed = tt }, λ h. absurd (h refl))
Reached-Armed clock _ (adds_timer q t r) =
    let (o, a) = Reached-Armed clock q r in
    (add_timer-Ordered clock t q o, add_timer-Armed clock t q a)
Reached-Armed clock _ (fires q adds r due) =
    let (o, a) = Reached-Armed clock q r in
    let (o', armed) = handle_read-Ordered clock adds q o in (o', armed due)
