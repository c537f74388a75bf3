-- ===== src/Net/TcpConnection/Watched.antt =====
-- The channel's interest in writing.
use ai_chat_server.Base.{
  ◌≡◌, refl, ap, ℕ, ◌+◌, ◌-◌, ◌≤◌, ◌&&◌, Bool, true, false, not, Bytes, List, [], ◌∷◌, ◌++◌, length,
  take, drop, ◌==◌, leb, if◌then◌else◌, length-append, length-drop, arith, Bool-cases, inl, inr,
}
use ai_chat_server.Net.Buffer.{
  Buffer, readable_bytes, content, retrieve, append, failed, received, read_fd, WriteResult,
  write_failed, written,
}
use ai_chat_server.Net.Buffer.Invariant.{IsValid, append-IsValid, length-content}
use ai_chat_server.Net.Buffer.Content.{content-append}
use ai_chat_server.Net.TcpConnection.{
  TcpConnection, StateE, disconnected, connecting, connected, disconnecting, Functor, send_functor,
  shutdown_functor, send_file_functor, is_connected, is_disconnecting, is_fault, is_idle,
  write_complete_callback, message_callback, call, call_if, queue_in_loop, keep_rest, keep_all,
  after_write, send_in_loop, send, shutdown_in_loop, shutdown, connect_destroyed, handle_close,
  handle_read, after_flush, handle_write, FileResult, file_failed, file_sent, send_file_in_loop,
  send_file, queue_file, run_functor,
}
use ai_chat_server.Net.TcpConnection.Steps.{
  Op, sending, writable, running, file_sending, reading, shutting_down, destroying, step, run,
}
use ai_chat_server.Net.TcpConnection.Stream.{step-Adds}

abbrev pub is_disconnected : StateE → Bool
is_disconnected disconnected = true
is_disconnected _ = false

-- While the connection is up, the channel waits for room exactly if bytes wait in the buffer.
abbrev pub Watched : TcpConnection → Type 0
Watched c = is_disconnected c.state ≡ false → c.writing ≡ not (readable_bytes c.output == 0)

Watched-if :
    (b : Bool) (x y : TcpConnection)
    → (b ≡ true → Watched x)
    → (b ≡ false → Watched y)
    → Watched (if b then x else y)
Watched-if true x y h k = h refl
Watched-if false x y h k = k refl

readable-append :
    (rest : Bytes) (b : Buffer)
    → IsValid b
    → readable_bytes (append rest b) ≡ readable_bytes b + length rest
readable-append rest b v = omega (
  arith,
  length-content (append rest b) (append-IsValid rest b v),
  length-content b v,
  length-append (content b) rest,
  ap (λ t. length t) (content-append rest b v),
)

keep_rest-Watched :
    (rest : Bytes) (c : TcpConnection)
    → IsValid c.output
    → 1 ≤ length rest
    → Watched (keep_rest rest c)
unfolding keep_rest
keep_rest-Watched rest c v h up = ground (arith, readable-append rest c.output v)

keep_all-Watched :
    (xs : Bytes) (c : TcpConnection) → IsValid c.output → Watched c → Watched (keep_all xs c)
keep_all-Watched [] c v w = w
keep_all-Watched (x ∷ xs) c v w = keep_rest-Watched (x ∷ xs) c v (omega arith)

after_write-Watched :
    (n : ℕ) (xs : Bytes) (c : TcpConnection)
    → IsValid c.output
    → Watched c
    → Watched (after_write n xs c)
unfolding after_write
after_write-Watched n xs c v w =
    let sent = record c { wire = c.wire ++ take n xs } in
    Watched-if (length xs - n == 0) (call_if c.has_write_complete write_complete_callback sent)
      (keep_rest (drop n xs) sent) (λ e. w)
      (λ e. keep_rest-Watched (drop n xs) sent v (ground (arith, length-drop n xs)))

send_in_loop-Watched :
    (r : WriteResult) (xs : Bytes) (c : TcpConnection)
    → IsValid c.output
    → Watched c
    → Watched (send_in_loop r xs c)
unfolding send_in_loop
send_in_loop-Watched (written n) xs c v w =
    Watched-if (is_idle c) (after_write n xs c) (keep_all xs c)
      (λ e. after_write-Watched n xs c v w) (λ e. keep_all-Watched xs c v w)
send_in_loop-Watched (write_failed errno) xs c v w =
    Watched-if (is_idle c && is_fault errno) c (keep_all xs c) (λ e. w)
      (λ e. keep_all-Watched xs c v w)

queue_file-Watched :
    (offset count : ℕ) (c : TcpConnection) → Watched c → Watched (queue_file offset count c)
queue_file-Watched offset count c w =
    Watched-if (leb 1 count) (queue_in_loop (send_file_functor offset count) c) c (λ e. w) (λ e. w)

send_file_in_loop-Watched :
    (f : FileResult) (offset count : ℕ) (c : TcpConnection)
    → Watched c
    → Watched (send_file_in_loop f offset count c)
unfolding send_file_in_loop
send_file_in_loop-Watched (file_failed errno) offset count c w =
    Watched-if (is_disconnecting c.state) c
      (if is_idle c && is_fault errno then c else queue_file offset count c) (λ e. w)
      (λ e.
        Watched-if (is_idle c && is_fault errno) c (queue_file offset count c) (λ e. w)
          (λ e. queue_file-Watched offset count c w))
send_file_in_loop-Watched (file_sent xs) offset count c w =
    let left = count - length xs in
    let sent =
      call_if ((left == 0) && c.has_write_complete) write_complete_callback
        (record c { wire = c.wire ++ xs }) in
    Watched-if (is_disconnecting c.state) c
      (if is_idle c then queue_file (offset + length xs) left sent else queue_file offset count c)
      (λ e. w)
      (λ e.
        Watched-if (is_idle c) (queue_file (offset + length xs) left sent)
          (queue_file offset count c) (λ e. queue_file-Watched (offset + length xs) left sent w)
          (λ e. queue_file-Watched offset count c w))

shutdown_in_loop-Watched : (c : TcpConnection) → Watched c → Watched (shutdown_in_loop c)
unfolding shutdown_in_loop
shutdown_in_loop-Watched c w = Watched-if c.writing c (record c { fin = true }) (λ e. w) (λ e. w)

run_functor-Watched :
    (r : WriteResult) (f : FileResult) (fs : List Functor) (c : TcpConnection)
    → IsValid c.output
    → Watched c
    → Watched (run_functor r f fs c)
unfolding run_functor
run_functor-Watched r f [] c v w = w
run_functor-Watched r f (send_functor xs ∷ fs) c v w =
    send_in_loop-Watched r xs (record c { pending = fs }) v w
run_functor-Watched r f (shutdown_functor ∷ fs) c v w =
    shutdown_in_loop-Watched (record c { pending = fs }) w
run_functor-Watched r f (send_file_functor offset count ∷ fs) c v w =
    send_file_in_loop-Watched f offset count (record c { pending = fs }) w

after_flush-Watched : (c : TcpConnection) → c.writing ≡ true → Watched (after_flush c)
unfolding after_flush
after_flush-Watched c h =
    let done =
      call_if c.has_write_complete write_complete_callback (record c { writing = false }) in
    Watched-if (readable_bytes c.output == 0)
      (if is_disconnecting c.state then shutdown_in_loop done else done) c
      (λ e.
        Watched-if (is_disconnecting c.state) (shutdown_in_loop done) done
          (λ l. shutdown_in_loop-Watched done (λ up. ground (arith, e)))
          (λ l. λ up. ground (arith, e)))
      (λ e. λ up. ground (arith, e, h))

is_connected-up : (s : StateE) → is_connected s ≡ true → is_disconnected s ≡ false
is_connected-up disconnected h = absurd (ground arith)
is_connected-up connecting h = absurd (ground arith)
is_connected-up connected h = refl
is_connected-up disconnecting h = absurd (ground arith)

shutdown-Watched : (here : Bool) (c : TcpConnection) → Watched c → Watched (shutdown here c)
unfolding shutdown
shutdown-Watched here c w =
    let leaving = record c { state = disconnecting } in
    Watched-if (is_connected c.state)
      (if here then shutdown_in_loop leaving else queue_in_loop shutdown_functor leaving) c
      (λ e.
        Watched-if here (shutdown_in_loop leaving) (queue_in_loop shutdown_functor leaving)
          (λ h. shutdown_in_loop-Watched leaving (λ up. w (is_connected-up c.state e)))
          (λ h. λ up. w (is_connected-up c.state e)))
      (λ e. w)

pub step-Watched : (o : Op) (c : TcpConnection) → IsValid c.output → Watched c → Watched (step o c)
unfolding step send handle_read handle_close handle_write send_file connect_destroyed
step-Watched (sending here r xs) c v w =
    Watched-if (is_connected c.state)
      (if here then send_in_loop r xs c else queue_in_loop (send_functor xs) c) c
      (λ e.
        Watched-if here (send_in_loop r xs c) (queue_in_loop (send_functor xs) c)
          (λ h. send_in_loop-Watched r xs c v w) (λ h. w))
      (λ e. w)
step-Watched (writable (write_failed errno)) c v w = w
step-Watched (writable (written n)) c v w =
    Watched-if (c.writing && leb 1 n)
      (after_flush
        (record c { wire = c.wire ++ take n (content c.output); output = retrieve n c.output }))
      c
      (λ e.
        after_flush-Watched
          (record c { wire = c.wire ++ take n (content c.output); output = retrieve n c.output })
          (ground arith))
      (λ e. w)
step-Watched (running r f) c v w = run_functor-Watched r f c.pending c v w
step-Watched (file_sending here f offset count) c v w =
    Watched-if (is_connected c.state)
      (if here
        then send_file_in_loop f offset count c
        else queue_in_loop (send_file_functor offset count) c)
      c
      (λ e.
        Watched-if here (send_file_in_loop f offset count c)
          (queue_in_loop (send_file_functor offset count) c)
          (λ h. send_file_in_loop-Watched f offset count c w) (λ h. w))
      (λ e. w)
step-Watched (reading on_message (failed errno)) c v w = w
step-Watched (reading on_message (received xs)) c v w =
    Watched-if (length xs == 0) (handle_close (record c { input = read_fd (received xs) c.input }))
      (call message_callback (record c { input = on_message (read_fd (received xs) c.input) }))
      (λ e. λ up. absurd (ground arith)) (λ e. w)
step-Watched (shutting_down here) c v w = shutdown-Watched here c w
step-Watched destroying c v w = elim (Bool-cases (is_connected c.state)) [
  | inl up ↦ rw up (λ up. absurd (ground arith))
  | inr down ↦ rw down w
]

pub run-Watched :
    (os : List Op) (c : TcpConnection) → IsValid c.output → Watched c → Watched (run os c)
unfolding run
run-Watched [] c v w = w
run-Watched (o ∷ os) c v w = run-Watched os (step o c) (step-Adds o c v).0 (step-Watched o c v w)
