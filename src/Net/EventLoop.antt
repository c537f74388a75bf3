-- ===== src/Net/EventLoop.antt =====
-- include/net/EventLoop.h and src/net/EventLoop.cc: the loop of a thread, and what other threads do
-- to it. Each function is what happens in one go: a critical section, an atomic store, a system
-- call. `F` is the type of functors. The eventfd's counter is taken never to reach its limit.
pub mod Steps
pub mod Wakeups
pub mod Order
mod Tests
use ai_chat_server.Base.{ℕ, suc, ◌-◌, Bool, true, false, List, [], ◌∷◌, ◌++◌, if◌then◌else◌}

-- Where the loop's thread stands: outside loop(), at the test of its `while`, inside poll, in the
-- handlers of the active channels, in the functors that it took.
pub data Phase : Type 0 where
  outside testing polling handling running : Phase

module _ (F : Type 0) where
  pub record EventLoop : Type 0 where
    pub phase : Phase
    pub looping : Bool
    pub quitting : Bool
    pub calling_pending_functors : Bool
    -- The counter of the eventfd, and the threads that are about to write to it.
    pub wakeups : ℕ
    pub waking : ℕ
    pub pending_functors : List F
    -- What doPendingFunctors took and has not run yet, and all that it ran.
    pub functors : List F
    pub ran : List F
    -- What runInLoop called at once.
    pub called : List F

module _ {F : Type 0} where
  unfoldable pub new_event_loop : EventLoop F
  new_event_loop = record {
    phase = outside;
    looping = false;
    quitting = false;
    calling_pending_functors = false;
    wakeups = 0;
    waking = 0;
    pending_functors = [];
    functors = [];
    ran = [];
    called = [];
  }

  -- loop(), up to its `while`.
  unfoldable pub start : EventLoop F → EventLoop F
  start s = record s { phase = testing; looping = true; quitting = false }

  unfoldable pub test_quit : EventLoop F → EventLoop F
  test_quit s =
      if s.quitting
      then record s { phase = outside; looping = false }
      else record s { phase = polling }

  -- poll returns, for an event or when its time is up.
  unfoldable pub poll_returns : EventLoop F → EventLoop F
  poll_returns s = record s { phase = handling }

  -- A read of an eventfd takes the whole count.
  unfoldable pub handle_read : EventLoop F → EventLoop F
  handle_read s = record s { wakeups = 0 }

  -- doPendingFunctors: the swap, the calls in turn, the end.
  unfoldable pub swap_functors : EventLoop F → EventLoop F
  swap_functors s = record s {
    phase = running;
    calling_pending_functors = true;
    functors = s.pending_functors;
    pending_functors = [];
  }

  abbrev pub next : List F → EventLoop F → EventLoop F
  next [] s = s
  next (f ∷ fs) s = record s { functors = fs; ran = s.ran ++ (f ∷ []) }

  unfoldable pub run_next : EventLoop F → EventLoop F
  run_next s = next s.functors s

  unfoldable pub finish_functors : EventLoop F → EventLoop F
  finish_functors s = record s { phase = testing; calling_pending_functors = false }

  unfoldable pub wakeup : EventLoop F → EventLoop F
  wakeup s = record s { wakeups = suc s.wakeups }

  abbrev pub push : F → EventLoop F → EventLoop F
  push f s = record s { pending_functors = s.pending_functors ++ (f ∷ []) }

  -- queueInLoop in the loop's own thread.
  unfoldable pub queue_in_loop_here : F → EventLoop F → EventLoop F
  unfolding wakeup
  queue_in_loop_here f s = if s.calling_pending_functors then wakeup (push f s) else push f s

  -- queueInLoop in another thread: the critical section, and then the write.
  unfoldable pub queue_in_loop_there : F → EventLoop F → EventLoop F
  queue_in_loop_there f s = record (push f s) { waking = suc s.waking }

  -- runInLoop: a call at once in the loop's own thread.
  unfoldable pub run_in_loop_here : F → EventLoop F → EventLoop F
  run_in_loop_here f s = record s { called = s.called ++ (f ∷ []) }

  unfoldable pub run_in_loop : Bool → F → EventLoop F → EventLoop F
  unfolding run_in_loop_here queue_in_loop_there
  run_in_loop in_loop_thread f s =
      if in_loop_thread then run_in_loop_here f s else queue_in_loop_there f s

  unfoldable pub write_wakeup : EventLoop F → EventLoop F
  unfolding wakeup
  write_wakeup s = wakeup (record s { waking = s.waking - 1 })

  -- quit in the loop's thread, and in another one, before its write.
  unfoldable pub quit_here : EventLoop F → EventLoop F
  quit_here s = record s { quitting = true }

  unfoldable pub quit_there : EventLoop F → EventLoop F
  quit_there s = record s { quitting = true; waking = suc s.waking }
