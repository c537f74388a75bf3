-- ===== src/Http/Server/Delivery.antt =====
-- What the server sends, on its connection: the actions of a handler as steps of a TcpConnection.
use ai_chat_server.Base.{
  ◌≡◌, ◌⊎◌, inl, inr, refl, ap, ◌∙◌, ℕ, suc, ◌-◌, ◌&&◌, Bool, true, false, Bytes, List, [], ◌∷◌,
  ◌++◌, length, drop, take, ◌==◌, if◌then◌else◌, if-true, if-false,
}
use ai_chat_server.Http.Server.{Action, send, shutdown}
use ai_chat_server.Net.Buffer.{written, content}
use ai_chat_server.Net.TcpConnection
use ai_chat_server.Net.TcpConnection.{
  TcpConnection, StateE, disconnected, connecting, connected, disconnecting, is_connected, is_idle,
  keep_all, keep_rest, after_write, send_in_loop, shutdown_in_loop, connect_established,
  new_connection, call_if, write_complete_callback, queue_in_loop, send_functor, shutdown_functor,
}
use ai_chat_server.Net.TcpConnection.Steps.{Op, sending, shutting_down, step, run}
use ai_chat_server.Net.TcpConnection.Stream.{added, added_all, added_data, run-stream}
use ai_chat_server.Net.TcpConnection.Closing.{opened, opened-IsValid, opened-stream}

-- The calls for the actions, in the connection's thread; the kernel takes `takes i` bytes at the i-th.
unfoldable pub calls : (ℕ → ℕ) → ℕ → List Action → List Op
calls takes i [] = []
calls takes i (send xs ∷ as_) = sending true (written (takes i)) xs ∷ calls takes (suc i) as_
calls takes i (shutdown ∷ as_) = shutting_down true ∷ calls takes (suc i) as_

-- The bytes sent up to the shutdown.
unfoldable pub sent_before_shutdown : List Action → Bytes
sent_before_shutdown [] = []
sent_before_shutdown (send xs ∷ as_) = xs ++ sent_before_shutdown as_
sent_before_shutdown (shutdown ∷ as_) = []

state-if :
    (b : Bool) (x y : TcpConnection) (s : StateE)
    → x.state ≡ s
    → y.state ≡ s
    → (if b then x else y).state ≡ s
state-if true x y s h k = h
state-if false x y s h k = k

state-keep_all : (xs : Bytes) (c : TcpConnection) → (keep_all xs c).state ≡ c.state
unfolding keep_rest
state-keep_all [] c = refl
state-keep_all (x ∷ xs) c = refl

state-send_in_loop :
    (n : ℕ) (xs : Bytes) (c : TcpConnection) → (send_in_loop (written n) xs c).state ≡ c.state
unfolding send_in_loop after_write keep_rest
state-send_in_loop n xs c =
    let sent = record c { wire = c.wire ++ take n xs } in
    state-if (is_idle c) (after_write n xs c) (keep_all xs c) c.state
      (state-if (length xs - n == 0) (call_if c.has_write_complete write_complete_callback sent)
        (keep_rest (drop n xs) sent) c.state refl refl)
      (state-keep_all xs c)

step-sending-up :
    (n : ℕ) (xs : Bytes) (c : TcpConnection)
    → c.state ≡ connected
    → (step (sending true (written n) xs) c ≡ send_in_loop (written n) xs c)
      × (added (sending true (written n) xs) c ≡ xs)
unfolding step added added_data TcpConnection.send
step-sending-up n xs c h = (
  if-true (is_connected c.state) (send_in_loop (written n) xs c) c (ap is_connected h),
  if-true (is_connected c.state && true) xs [] (ap (λ s. is_connected s && true) h),
)

step-sending-down :
    (n : ℕ) (xs : Bytes) (c : TcpConnection)
    → c.state ≡ disconnecting
    → (step (sending true (written n) xs) c ≡ c) × (added (sending true (written n) xs) c ≡ [])
unfolding step added added_data TcpConnection.send
step-sending-down n xs c h = (
  if-false (is_connected c.state) (send_in_loop (written n) xs c) c (ap is_connected h),
  if-false (is_connected c.state && true) xs [] (ap (λ s. is_connected s && true) h),
)

step-shutting-down :
    (c : TcpConnection)
    → (c.state ≡ connected) ⊎ (c.state ≡ disconnecting)
    → ((step (shutting_down true) c).state ≡ disconnecting) × (added (shutting_down true) c ≡ [])
unfolding step added TcpConnection.shutdown shutdown_in_loop
step-shutting-down c (inl h) =
    let leaving = record c { state = disconnecting } in
    (
      ap (λ d. d.state)
            (if-true (is_connected c.state) (shutdown_in_loop leaving) c (ap is_connected h))
          ∙ state-if c.writing leaving (record leaving { fin = true }) disconnecting refl refl,
      refl,
    )
step-shutting-down c (inr h) = (
  ap (λ d. d.state)
        (if-false (is_connected c.state) (shutdown_in_loop (record c { state = disconnecting })) c
          (ap is_connected h))
      ∙ h,
  refl,
)

-- Nothing is sent behind a shutdown.
calls-down :
    (takes : ℕ → ℕ) (i : ℕ) (as_ : List Action) (c : TcpConnection)
    → c.state ≡ disconnecting
    → (added_all (calls takes i as_) c ≡ []) × ((run (calls takes i as_) c).state ≡ disconnecting)
unfolding calls added_all run
calls-down takes i [] c h = (refl, h)
calls-down takes i (send xs ∷ as_) c h =
    let (e, a) = step-sending-down (takes i) xs c h in
    let (e', a') =
      calls-down takes (suc i) as_ (step (sending true (written (takes i)) xs) c)
        (ap (λ d. d.state) e ∙ h) in
    (
      ap
            (λ t.
              t
              ++ added_all (calls takes (suc i) as_) (step (sending true (written (takes i)) xs) c))
            a
          ∙ e',
      a',
    )
calls-down takes i (shutdown ∷ as_) c h =
    let (s, a) = step-shutting-down c (inr h) in
    let (e', a') = calls-down takes (suc i) as_ (step (shutting_down true) c) s in
    (ap (λ t. t ++ added_all (calls takes (suc i) as_) (step (shutting_down true) c)) a ∙ e', a')

calls-up :
    (takes : ℕ → ℕ) (i : ℕ) (as_ : List Action) (c : TcpConnection)
    → c.state ≡ connected
    → added_all (calls takes i as_) c ≡ sent_before_shutdown as_
unfolding calls added_all sent_before_shutdown
calls-up takes i [] c h = refl
calls-up takes i (send xs ∷ as_) c h =
    let o = sending true (written (takes i)) xs in
    let (e, a) = step-sending-up (takes i) xs c h in
    ap (λ t. t ++ added_all (calls takes (suc i) as_) (step o c)) a
    ∙ ap (λ t. xs ++ t)
        (calls-up takes (suc i) as_ (step o c)
          (ap (λ d. d.state) e ∙ state-send_in_loop (takes i) xs c ∙ h))
calls-up takes i (shutdown ∷ as_) c h =
    let (s, a) = step-shutting-down c (inl h) in
    ap (λ t. t ++ added_all (calls takes (suc i) as_) (step (shutting_down true) c)) a
    ∙ (calls-down takes (suc i) as_ (step (shutting_down true) c) s).0

-- A handler's actions on a connection that is open: however many bytes the kernel takes at each
-- write, what it has taken, followed by what waits in the output buffer, is the bytes sent up to the
-- shutdown, whole and in order.
pub calls-stream :
    (write_complete high_water : Bool) (mark : ℕ) (takes : ℕ → ℕ) (as_ : List Action)
    → let c = run (calls takes 0 as_) (opened write_complete high_water mark) in
      c.wire ++ content c.output ≡ sent_before_shutdown as_
unfolding connect_established
calls-stream write_complete high_water mark takes as_ =
    let start = opened write_complete high_water mark in
    (run-stream (calls takes 0 as_) start (opened-IsValid write_complete high_water mark)).1
    ∙ ap (λ t. t ++ added_all (calls takes 0 as_) start)
        (opened-stream write_complete high_water mark)
    ∙ calls-up takes 0 as_ start refl
