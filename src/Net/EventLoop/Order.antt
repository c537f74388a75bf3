-- ===== src/Net/EventLoop/Order.antt =====
-- The functors run in the order in which they are queued, each once.
use ai_chat_server.Base.{
  ◌≡◌, ◌≢◌, refl, sym, ap, ◌∙◌, Bool, true, false, List, [], ◌∷◌, ◌++◌, arith, append_assoc,
  append-nil, if◌then◌else◌,
}
use ai_chat_server.Net.EventLoop.{
  outside, polling, running, EventLoop, new_event_loop, start, test_quit, poll_returns, handle_read,
  swap_functors, next, run_next, finish_functors, push, wakeup, queue_in_loop_here,
  queue_in_loop_there, run_in_loop_here, write_wakeup, quit_here, quit_there,
}
use ai_chat_server.Net.EventLoop.Steps.{
  Step, Steps, starts, tests, polled, reads, swaps, runs, finishes, queues_here, queues_there,
  calls_here, writes, quits_here, quits_there, done, then_,
}

module _ {F : Type 0} where
  -- What ran, what was taken, and what waits, in this order.
  abbrev pub history : EventLoop F → List F
  history s = s.ran ++ (s.functors ++ s.pending_functors)

  -- Only the thread that runs functors has some taken.
  abbrev Idle : EventLoop F → Type 0
  Idle s = s.phase ≢ running → s.functors ≡ []

  abbrev Follows : List F → EventLoop F → EventLoop F → Type 0
  Follows fs s t = Idle t × (history t ≡ history s ++ fs)

  history-push : (f : F) (s : EventLoop F) → history (push f s) ≡ history s ++ (f ∷ [])
  history-push f s = simp (append_assoc)

  next-Follows :
      (gs : List F) (s : EventLoop F)
      → s.phase ≡ running
      → s.functors ≡ gs
      → Idle s
      → Follows [] s (next gs s)
  next-Follows [] s h e i = (i, sym (append-nil (history s)))
  next-Follows (f ∷ gs) s h e i = (λ k. absurd (k h), simp (e, append_assoc, append-nil))

  same-Follows : (s t : EventLoop F) → history t ≡ history s → Idle t → Follows [] s t
  same-Follows s t h i = (i, h ∙ sym (append-nil (history s)))

  Follows-if :
      (b : Bool) (fs : List F) (s x y : EventLoop F)
      → Follows fs s x
      → Follows fs s y
      → Follows fs s (if b then x else y)
  Follows-if true fs s x y h k = h
  Follows-if false fs s x y h k = k

  step-Follows : (s t : EventLoop F) (fs : List F) → Step s fs t → Idle s → Follows fs s t
  unfolding start test_quit poll_returns handle_read swap_functors run_next finish_functors
      queue_in_loop_here queue_in_loop_there run_in_loop_here write_wakeup quit_here quit_there
      wakeup
  step-Follows s t fs (starts _ h) i = same-Follows s t refl (ground arith)
  step-Follows s t fs (tests _ h) i =
      let idle : s.functors ≡ [] = i (ground arith) in
      Follows-if s.quitting [] s (record s { phase = outside; looping = false })
        (record s { phase = polling })
        (same-Follows s (record s { phase = outside; looping = false }) refl (λ k. idle))
        (same-Follows s (record s { phase = polling }) refl (λ k. idle))
  step-Follows s t fs (polled _ h) i = same-Follows s t refl (ground arith)
  step-Follows s t fs (reads _ h) i = same-Follows s t refl i
  step-Follows s t fs (swaps _ h) i =
      let idle : s.functors ≡ [] = i (ground arith) in
      same-Follows s t (simp (idle, append-nil)) (λ k. absurd (k refl))
  step-Follows s t fs (runs _ h) i = next-Follows s.functors s h refl i
  step-Follows s t fs (finishes _ h k) i = same-Follows s t refl (λ l. k)
  step-Follows s t fs (queues_here _ f h) i =
      Follows-if s.calling_pending_functors (f ∷ []) s (wakeup (push f s)) (push f s)
        (i, history-push f s) (i, history-push f s)
  step-Follows s t fs (queues_there _ f) i = (i, history-push f s)
  step-Follows s t fs (writes _ h) i = same-Follows s t refl i
  step-Follows s t fs (quits_here _ h) i = same-Follows s t refl i
  step-Follows s t fs (calls_here _ f h) i = same-Follows s t refl i
  step-Follows s t fs (quits_there _) i = same-Follows s t refl i

  Steps-Follows : (s t : EventLoop F) (fs : List F) → Steps s fs t → Idle s → Follows fs s t
  Steps-Follows s t fs (done _) i = same-Follows s s refl i
  Steps-Follows s t fs (then_ _ m _ gs hs before last) i =
      let (j, e) = Steps-Follows s m gs before i in
      let (k, e') = step-Follows m t hs last j in
      (k, e' ∙ ap (λ x. x ++ hs) e ∙ append_assoc (history s) gs hs)

  -- Whatever the interleaving, the functors that have run, that are taken and that wait are all
  -- those queued, each once, in the order in which they were queued.
  pub Steps-history :
      (t : EventLoop F) (fs : List F)
      → Steps new_event_loop fs t
      → t.ran ++ (t.functors ++ t.pending_functors) ≡ fs
  unfolding new_event_loop
  Steps-history t fs steps = (Steps-Follows new_event_loop t fs steps (λ h. refl)).1
