-- ===== src/Net/LoopThread/Started.antt =====
-- startLoop returns, and so does the destructor.
use mathlib.Core.Path.{subst}
use ai_chat_server.Base.{◌≡◌, ◌≢◌, ◌≤◌, ◌-◌, suc, ℕ, List, [], ◌∷◌, refl, Bool, true, false, arith}
use ai_chat_server.Net.LoopThread.{
  Worker, absent, constructed, readied, published, looping, left, cleared, gone, calm, waiting,
  returned, seen, joining, done, EventLoopThread, new_loop_thread, start_loop, take_loop, call_back,
  publish, enter_loop, test_quit, clear_loop, end_thread, quit_loop, destroy, destroyer_quits, join,
}
use ai_chat_server.Net.LoopThread.Steps.{
  Step, starts, looks, calls_back, publishes, enters, tests, clears, ends, quits, destroys,
  destroyer_quits_it, joins, Steps, stop, go_on,
}

-- Where loop_ is set.
abbrev shown : Worker → Bool
shown published = true
shown looping = true
shown left = true
shown _ = false

-- Where loop() has returned.
abbrev past : Worker → Bool
past left = true
past cleared = true
past gone = true
past _ = false

abbrev has_started : Worker → Bool
has_started absent = false
has_started _ = true

record Inv (s : EventLoopThread) : Type 0 where
  set : s.loop_set ≡ shown s.worker
  quiet : s.told ≡ false → (s.quitting ≡ false) × (past s.worker ≡ false)
  begun : s.starter ≡ waiting → has_started s.worker ≡ true

step-Inv : {s t : EventLoopThread} → Step s t → Inv s → Inv t
unfolding start_loop take_loop call_back publish enter_loop test_quit clear_loop end_thread
    quit_loop destroy destroyer_quits join
step-Inv (starts s e e') h = ground arith
step-Inv (looks s e) h = ground arith
step-Inv (calls_back s e) h = ground arith
step-Inv (publishes s e) h = ground arith
step-Inv (enters s e) h = ground arith
step-Inv (tests s e) h = ground arith
step-Inv (clears s e) h = ground arith
step-Inv (ends s e) h = ground arith
step-Inv (quits s e) h = ground arith
step-Inv (destroys s e) h = ground arith
step-Inv (destroyer_quits_it s e) h = ground arith
step-Inv (joins s e e') h = ground arith

Steps-Inv : {s t : EventLoopThread} → Steps s t → Inv s → Inv t
Steps-Inv (stop s) h = h
Steps-Inv (go_on first rest) h = Steps-Inv rest (step-Inv first h)

new-Inv : Inv new_loop_thread
unfolding new_loop_thread
new-Inv = ground arith

-- The new thread and startLoop, each by itself: what it does next, if it can do anything.
unfoldable pub worker_move : EventLoopThread → EventLoopThread
unfolding call_back publish enter_loop test_quit clear_loop end_thread
worker_move s = elim s.worker [
  | absent ↦ s
  | constructed ↦ call_back s
  | readied ↦ publish s
  | published ↦ enter_loop s
  | looping ↦ test_quit s
  | left ↦ clear_loop s
  | cleared ↦ end_thread s
  | gone ↦ s
]

unfoldable pub starter_move : EventLoopThread → EventLoopThread
unfolding take_loop
starter_move s = elim s.starter [ calm ↦ s | waiting ↦ take_loop s | returned ↦ s ]

pub data Mover : Type 0 where
  the_worker the_starter : Mover

unfoldable pub play : List Mover → EventLoopThread → EventLoopThread
unfolding worker_move starter_move
play [] s = s
play (the_worker ∷ ms) s = play ms (worker_move s)
play (the_starter ∷ ms) s = play ms (starter_move s)

abbrev pub worker_moves : List Mover → ℕ
worker_moves [] = 0
worker_moves (the_worker ∷ ms) = suc (worker_moves ms)
worker_moves (the_starter ∷ ms) = worker_moves ms

-- How many moves the new thread of a loop that no one tells to quit makes at most before loop_ is set.
abbrev to_show : Worker → ℕ
to_show constructed = 2
to_show readied = 1
to_show _ = 0

record Hopeful (k : ℕ) (s : EventLoopThread) : Type 0 where
  set : s.loop_set ≡ shown s.worker
  quiet : s.quitting ≡ false
  inside : (has_started s.worker ≡ true) × (past s.worker ≡ false)
  asked : s.starter ≢ calm
  soon : to_show s.worker ≤ k

-- How many moves the thread of a loop that was told to quit makes at most before it is gone.
abbrev to_end : Worker → ℕ
to_end looping = 3
to_end left = 2
to_end cleared = 1
to_end _ = 0

abbrev leaving : Worker → Bool
leaving looping = true
leaving left = true
leaving cleared = true
leaving gone = true
leaving _ = false

record Ending (k : ℕ) (s : EventLoopThread) : Type 0 where
  set : s.loop_set ≡ shown s.worker
  told : s.quitting ≡ true
  inside : leaving s.worker ≡ true
  held : s.destroyer ≡ joining
  soon : to_end s.worker ≤ k

worker_move-Ending : (k : ℕ) (s : EventLoopThread) → Ending k s → Ending (k - 1) (worker_move s)
unfolding worker_move call_back publish enter_loop test_quit clear_loop end_thread
worker_move-Ending k s h = record {
  set = ground (arith, h.set, h.told, h.inside);
  told = ground (arith, h.told, h.inside);
  inside = ground (arith, h.told, h.inside);
  held = ground (arith, h.held);
  soon = ground (arith, h.told, h.inside, h.soon);
}

starter_move-Ending : (k : ℕ) (s : EventLoopThread) → Ending k s → Ending k (starter_move s)
unfolding starter_move take_loop
starter_move-Ending k s h = record {
  set = ground (arith, h.set);
  told = ground (arith, h.told);
  inside = ground (arith, h.inside);
  held = ground (arith, h.held);
  soon = ground (arith, h.soon);
}

play-Ending :
    (k : ℕ) (ms : List Mover) (s : EventLoopThread)
    → k ≤ worker_moves ms
    → Ending k s
    → Ending 0 (play ms s)
unfolding play
play-Ending k [] s few h =
    let none_left : k ≡ 0 = omega (arith, few) in subst (λ n. Ending n s) none_left h
play-Ending k (the_worker ∷ ms) s few h =
    play-Ending (k - 1) ms (worker_move s) (omega (arith, few)) (worker_move-Ending k s h)
play-Ending k (the_starter ∷ ms) s few h =
    play-Ending k ms (starter_move s) few (starter_move-Ending k s h)

-- Whatever the threads have done: where the destructor has seen the loop of a thread that is inside
-- loop(), and calls quit, then in any order of the moves of that thread and of startLoop alone, with
-- three of the thread's, the thread is gone, has cleared loop_, and the destructor can join it.
pub seen-joined :
    (s : EventLoopThread) (ms : List Mover)
    → Steps new_loop_thread s
    → s.destroyer ≡ seen
    → s.worker ≡ looping
    → 3 ≤ worker_moves ms
    → let t = play ms (destroyer_quits s) in
      (t.worker ≡ gone) × (t.loop_set ≡ false) × Step t (join t) × ((join t).destroyer ≡ done)
unfolding destroyer_quits quit_loop join
seen-joined s ms steps e w enough =
    let h = Steps-Inv steps new-Inv in
    let start : Ending 3 (destroyer_quits s) = record {
      set = h.set;
      told = refl;
      inside = ground (arith, w);
      held = refl;
      soon = ground (arith, w);
    } in
    let t = play ms (destroyer_quits s) in
    let now = play-Ending 3 ms (destroyer_quits s) enough start in
    let out : t.worker ≡ gone = ground (arith, now.inside, now.soon) in
    (out, ground (arith, now.set, out), joins t now.held out, refl)
