-- ===== src/Net/EventLoop/Wakeups.antt =====
-- No wakeup is lost.
use ai_chat_server.Base.{◌≡◌, ◌≢◌, ◌⊎◌, inl, inr, refl, ◌≤◌, ◌+◌, true, List, [], ◌∷◌, arith}
use ai_chat_server.Net.EventLoop.{
  polling, handling, running, EventLoop, new_event_loop, start, test_quit, poll_returns,
  handle_read, swap_functors, next, run_next, finish_functors, wakeup, queue_in_loop_here,
  queue_in_loop_there, run_in_loop_here, write_wakeup, quit_here, quit_there,
}
use ai_chat_server.Net.EventLoop.Steps.{
  Step, Steps, starts, tests, polled, reads, swaps, runs, finishes, queues_here, queues_there,
  calls_here, writes, quits_here, quits_there, done, then_,
}

module _ {F : Type 0} where
  -- Functors wait, or the loop is to end, only while a wakeup is there or under way, save where the
  -- loop comes to them by itself.
  pub record Woken (s : EventLoop F) : Type 0 where
    pub queued : s.phase ≢ handling → s.pending_functors ≢ [] → 1 ≤ s.wakeups + s.waking
    pub ending : s.phase ≡ polling → s.quitting ≡ true → 1 ≤ s.wakeups + s.waking
    pub calling : s.phase ≡ running → s.calling_pending_functors ≡ true

  new_event_loop-Woken : Woken new_event_loop
  unfolding new_event_loop
  new_event_loop-Woken = record {
    queued = λ h k. absurd (k refl);
    ending = λ h. ground arith;
    calling = λ h. ground arith;
  }

  next-Woken : (fs : List F) (s : EventLoop F) → Woken s → Woken (next fs s)
  next-Woken [] s w = w
  next-Woken (f ∷ fs) s w = record { queued = w.queued; ending = w.ending; calling = w.calling }

  step-Woken : (s t : EventLoop F) (fs : List F) → Step s fs t → Woken s → Woken t
  unfolding start test_quit poll_returns handle_read swap_functors run_next finish_functors
      queue_in_loop_here queue_in_loop_there run_in_loop_here write_wakeup quit_here quit_there
      wakeup
  step-Woken s t fs (starts _ h) w = record {
    queued = ground arith;
    ending = ground arith;
    calling = ground arith;
  }
  step-Woken s t fs (tests _ h) w = record {
    queued = ground arith;
    ending = ground arith;
    calling = ground arith;
  }
  step-Woken s t fs (polled _ h) w = record {
    queued = ground arith;
    ending = ground arith;
    calling = ground arith;
  }
  step-Woken s t fs (reads _ h) w = record {
    queued = ground arith;
    ending = ground arith;
    calling = ground arith;
  }
  step-Woken s t fs (swaps _ h) w = record {
    queued = ground arith;
    ending = ground arith;
    calling = ground arith;
  }
  step-Woken s t fs (runs _ h) w = next-Woken s.functors s w
  step-Woken s t fs (finishes _ h k) w = record {
    queued = ground arith;
    ending = ground arith;
    calling = ground arith;
  }
  step-Woken s t fs (queues_here _ f h) w = record {
    queued = ground arith;
    ending = ground arith;
    calling = ground arith;
  }
  step-Woken s t fs (queues_there _ f) w = record {
    queued = ground arith;
    ending = ground arith;
    calling = ground arith;
  }
  step-Woken s t fs (writes _ h) w = record {
    queued = ground arith;
    ending = ground arith;
    calling = ground arith;
  }
  step-Woken s t fs (quits_here _ h) w = record {
    queued = ground arith;
    ending = ground arith;
    calling = ground arith;
  }
  step-Woken s t fs (calls_here _ f h) w = record {
    queued = ground arith;
    ending = ground arith;
    calling = ground arith;
  }
  step-Woken s t fs (quits_there _) w = record {
    queued = ground arith;
    ending = ground arith;
    calling = ground arith;
  }

  Steps-Woken : (s t : EventLoop F) (fs : List F) → Steps s fs t → Woken s → Woken t
  Steps-Woken s t fs (done _) w = w
  Steps-Woken s t fs (then_ _ m _ gs hs before last) w =
      step-Woken m t hs last (Steps-Woken s m gs before w)

  -- However the steps of the loop and of other threads interleave: when the loop has gone to poll
  -- and functors wait or it has been told to quit, the eventfd is readable, so that poll returns, or
  -- a thread is about to write to it.
  pub polling-woken :
      (t : EventLoop F) (fs : List F)
      → Steps new_event_loop fs t
      → t.phase ≡ polling
      → (t.pending_functors ≢ []) ⊎ (t.quitting ≡ true)
      → 1 ≤ t.wakeups + t.waking
  polling-woken t fs steps h (inl waiting) =
      (Steps-Woken new_event_loop t fs steps new_event_loop-Woken).queued (ground arith) waiting
  polling-woken t fs steps h (inr told) =
      (Steps-Woken new_event_loop t fs steps new_event_loop-Woken).ending h told
