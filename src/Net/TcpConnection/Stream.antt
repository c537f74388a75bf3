-- ===== src/Net/TcpConnection/Stream.antt =====
-- What is sent on a connection, against what the kernel has taken and the output buffer holds.
use ai_chat_server.Base.{
  ◌≡◌, refl, sym, ap, ◌∙◌, ℕ, ◌+◌, ◌-◌, ◌&&◌, Bool, true, false, Bytes, List, [], ◌∷◌, ◌++◌, length,
  take, drop, ◌==◌, leb, if◌then◌else◌, take-append-drop, take_of_length-le, append_assoc,
  append-nil, arith, Bool-cases, inl, inr,
}
use ai_chat_server.Net.Buffer.{
  Buffer, readable_bytes, content, retrieve, failed, received, WriteResult, write_failed, written,
}
use ai_chat_server.Net.Buffer.Invariant.{IsValid, append-IsValid, retrieve-IsValid}
use ai_chat_server.Net.Buffer.Content.{content-append, content-retrieve}
use ai_chat_server.Net.TcpConnection.{
  TcpConnection, disconnecting, Functor, send_functor, shutdown_functor, send_file_functor,
  is_connected, is_disconnecting, is_fault, is_idle, write_complete_callback, call_if,
  queue_in_loop, keep_rest, keep_all, after_write, send_in_loop, send, shutdown_in_loop, shutdown,
  connect_destroyed, handle_close, handle_read, after_flush, handle_write, FileResult, file_failed,
  file_sent, send_file_in_loop, send_file, queue_file, run_functor,
}
use ai_chat_server.Net.TcpConnection.Steps.{
  Op, sending, writable, running, file_sending, reading, shutting_down, destroying, step, run,
}

-- What has been accepted for the peer: taken by the kernel, then waiting.
abbrev pub stream : TcpConnection → Bytes
stream c = c.wire ++ content c.output

-- What a step adds for the peer: the bytes of a send, in whole, unless the write that it tries
-- meets a broken connection, and the bytes of a file that sendfile took.
unfoldable pub added_data : WriteResult → Bytes → TcpConnection → Bytes
added_data (written n) data_ c = data_
added_data (write_failed errno) data_ c = if is_idle c && is_fault errno then [] else data_

unfoldable pub added_file : FileResult → TcpConnection → Bytes
added_file (file_failed errno) c = []
added_file (file_sent xs) c = if is_disconnecting c.state then [] else if is_idle c then xs else []

unfoldable pub added_functor : WriteResult → FileResult → List Functor → TcpConnection → Bytes
added_functor r f [] c = []
added_functor r f (send_functor data_ ∷ fs) c = added_data r data_ (record c { pending = fs })
added_functor r f (shutdown_functor ∷ fs) c = []
added_functor r f (send_file_functor offset count ∷ fs) c = added_file f (record c { pending = fs })

unfoldable pub added : Op → TcpConnection → Bytes
added (sending here r data_) c = if is_connected c.state && here then added_data r data_ c else []
added (writable r) c = []
added (running r f) c = added_functor r f c.pending c
added (file_sending here f offset count) c =
    if is_connected c.state && here then added_file f c else []
added (reading on_message r) c = []
added (shutting_down here) c = []
added destroying c = []

unfoldable pub added_all : List Op → TcpConnection → Bytes
added_all [] c = []
added_all (o ∷ os) c = added o c ++ added_all os (step o c)

-- A connection whose output buffer is valid and that has accepted `xs` more.
abbrev pub Adds : Bytes → TcpConnection → TcpConnection → Type 0
Adds xs c c' = IsValid c'.output × (stream c' ≡ stream c ++ xs)

pub content-empty : (b : Buffer) → readable_bytes b ≡ 0 → content b ≡ []
unfolding content
content-empty b h = rw h refl

idle-empty : (c : TcpConnection) → is_idle c ≡ true → content c.output ≡ []
idle-empty c h = content-empty c.output (ground arith)

keep_rest-Adds :
    (rest : Bytes) (c : TcpConnection) → IsValid c.output → Adds rest c (keep_rest rest c)
unfolding keep_rest
keep_rest-Adds rest c v = (
  append-IsValid rest c.output v,
  ap (λ xs. c.wire ++ xs) (content-append rest c.output v)
      ∙ sym (append_assoc c.wire (content c.output) rest),
)

nothing-Adds : (c : TcpConnection) → IsValid c.output → Adds [] c c
nothing-Adds c v = (v, sym (append-nil (stream c)))

keep_all-Adds : (xs : Bytes) (c : TcpConnection) → IsValid c.output → Adds xs c (keep_all xs c)
keep_all-Adds [] c v = nothing-Adds c v
keep_all-Adds (x ∷ xs) c v = keep_rest-Adds (x ∷ xs) c v

-- Bytes written while the buffer is empty follow all that came before.
written-Adds :
    (xs : Bytes) (c : TcpConnection)
    → content c.output ≡ []
    → IsValid c.output
    → Adds xs c (record c { wire = c.wire ++ xs })
written-Adds xs c e v = (v, simp (e, append-nil))

Adds-trans :
    (xs ys : Bytes) (a b c : TcpConnection)
    → stream b ≡ stream a ++ xs
    → Adds ys b c
    → Adds (xs ++ ys) a c
Adds-trans xs ys a b c h (v, k) = (v, k ∙ ap (λ t. t ++ ys) h ∙ append_assoc (stream a) xs ys)

Adds-if :
    (b : Bool) (xs : Bytes) (c x y : TcpConnection)
    → (b ≡ true → Adds xs c x)
    → (b ≡ false → Adds xs c y)
    → Adds xs c (if b then x else y)
Adds-if true xs c x y h k = h refl
Adds-if false xs c x y h k = k refl

after_write-Adds :
    (n : ℕ) (xs : Bytes) (c : TcpConnection)
    → content c.output ≡ []
    → IsValid c.output
    → Adds xs c (after_write n xs c)
unfolding after_write
after_write-Adds n xs c e v =
    let first = written-Adds (take n xs) c e v in
    let sent = record c { wire = c.wire ++ take n xs } in
    Adds-if (length xs - n == 0) xs c (call_if c.has_write_complete write_complete_callback sent)
      (keep_rest (drop n xs) sent)
      (λ all. (v, first.1 ∙ ap (λ t. stream c ++ t) (take_of_length-le n xs (ground arith))))
      (λ some_left.
        let whole =
          Adds-trans (take n xs) (drop n xs) c sent (keep_rest (drop n xs) sent) first.1
            (keep_rest-Adds (drop n xs) sent v) in
        (whole.0, whole.1 ∙ ap (λ t. stream c ++ t) (take-append-drop n xs)))

send_in_loop-Adds :
    (r : WriteResult) (xs : Bytes) (c : TcpConnection)
    → IsValid c.output
    → Adds (added_data r xs c) c (send_in_loop r xs c)
unfolding send_in_loop added_data
send_in_loop-Adds (written n) xs c v =
    Adds-if (is_idle c) xs c (after_write n xs c) (keep_all xs c)
      (λ idle. after_write-Adds n xs c (idle-empty c idle) v) (λ busy. keep_all-Adds xs c v)
send_in_loop-Adds (write_failed errno) xs c v = elim (Bool-cases (is_idle c && is_fault errno)) [
  | inl lost ↦ rw (lost) (nothing-Adds c v)
  | inr kept ↦ rw (kept) (keep_all-Adds xs c v)
]

queue_file-Adds :
    (offset count : ℕ) (xs : Bytes) (a c : TcpConnection)
    → Adds xs a c
    → Adds xs a (queue_file offset count c)
queue_file-Adds offset count xs a c h =
    Adds-if (leb 1 count) xs a (queue_in_loop (send_file_functor offset count) c) c (λ e. h)
      (λ e. h)

send_file_in_loop-Adds :
    (f : FileResult) (offset count : ℕ) (c : TcpConnection)
    → IsValid c.output
    → Adds (added_file f c) c (send_file_in_loop f offset count c)
unfolding send_file_in_loop added_file
send_file_in_loop-Adds (file_failed errno) offset count c v =
    Adds-if (is_disconnecting c.state) [] c c
      (if is_idle c && is_fault errno then c else queue_file offset count c) (λ e. nothing-Adds c v)
      (λ e.
        Adds-if (is_idle c && is_fault errno) [] c c (queue_file offset count c)
          (λ e. nothing-Adds c v) (λ e. queue_file-Adds offset count [] c c (nothing-Adds c v)))
send_file_in_loop-Adds (file_sent xs) offset count c v =
    elim (Bool-cases (is_disconnecting c.state)) [
      | inl leaving ↦ rw leaving (nothing-Adds c v)
      | inr staying ↦ rw staying (elim (Bool-cases (is_idle c)) [
        | inl idle ↦ rw idle (
            queue_file-Adds (offset + length xs) (count - length xs) xs c
              (call_if ((count - length xs == 0) && c.has_write_complete) write_complete_callback
                (record c { wire = c.wire ++ xs }))
              (written-Adds xs c (idle-empty c idle) v))
        | inr busy ↦ rw busy (queue_file-Adds offset count [] c c (nothing-Adds c v))
      ])
    ]

run_functor-Adds :
    (r : WriteResult) (f : FileResult) (fs : List Functor) (c : TcpConnection)
    → IsValid c.output
    → Adds (added_functor r f fs c) c (run_functor r f fs c)
unfolding run_functor added_functor shutdown_in_loop
run_functor-Adds r f [] c v = nothing-Adds c v
run_functor-Adds r f (send_functor xs ∷ fs) c v =
    send_in_loop-Adds r xs (record c { pending = fs }) v
run_functor-Adds r f (shutdown_functor ∷ fs) c v =
    Adds-if c.writing [] c (record c { pending = fs }) (record c { pending = fs; fin = true })
      (λ e. nothing-Adds c v) (λ e. nothing-Adds c v)
run_functor-Adds r f (send_file_functor offset count ∷ fs) c v =
    send_file_in_loop-Adds f offset count (record c { pending = fs }) v

-- A write of the front of the buffer moves those bytes to the wire.
flush-Adds :
    (n : ℕ) (c : TcpConnection)
    → IsValid c.output
    → Adds [] c
        (record c { wire = c.wire ++ take n (content c.output); output = retrieve n c.output })
flush-Adds n c v = (
  retrieve-IsValid n c.output v,
  ap (λ t. (c.wire ++ take n (content c.output)) ++ t) (content-retrieve n c.output v)
      ∙ append_assoc c.wire (take n (content c.output)) (drop n (content c.output))
      ∙ ap (λ t. c.wire ++ t) (take-append-drop n (content c.output))
      ∙ sym (append-nil (stream c)),
)

after_flush-Adds : (a c : TcpConnection) → Adds [] a c → Adds [] a (after_flush c)
unfolding after_flush shutdown_in_loop
after_flush-Adds a c h = elim (Bool-cases (readable_bytes c.output == 0)) [
  | inl done ↦ rw done (elim (Bool-cases (is_disconnecting c.state)) [
    | inl leaving ↦ rw leaving h
    | inr staying ↦ rw staying h
  ])
  | inr more ↦ rw more h
]

shutdown-Adds : (here : Bool) (c : TcpConnection) → IsValid c.output → Adds [] c (shutdown here c)
unfolding shutdown shutdown_in_loop
shutdown-Adds here c v = elim (Bool-cases (is_connected c.state)) [
  | inl up ↦ rw up (
      Adds-if here [] c
        (if c.writing
          then record c { state = disconnecting }
          else record c { state = disconnecting; fin = true })
        (queue_in_loop shutdown_functor (record c { state = disconnecting }))
        (λ e.
          Adds-if c.writing [] c (record c { state = disconnecting })
            (record c { state = disconnecting; fin = true }) (λ e. nothing-Adds c v)
            (λ e. nothing-Adds c v))
        (λ e. nothing-Adds c v))
  | inr down ↦ rw down (nothing-Adds c v)
]

pub step-Adds : (o : Op) (c : TcpConnection) → IsValid c.output → Adds (added o c) c (step o c)
unfolding step added send shutdown shutdown_in_loop handle_close handle_read handle_write
    connect_destroyed send_file
step-Adds (sending true r xs) c v = elim (Bool-cases (is_connected c.state)) [
  | inl up ↦ rw up (send_in_loop-Adds r xs c v)
  | inr down ↦ rw down (nothing-Adds c v)
]
step-Adds (sending false r xs) c v = elim (Bool-cases (is_connected c.state)) [
  | inl up ↦ rw up (nothing-Adds c v)
  | inr down ↦ rw down (nothing-Adds c v)
]
step-Adds (writable (write_failed errno)) c v = nothing-Adds c v
step-Adds (writable (written n)) c v =
    let flushed = record c {
      wire = c.wire ++ take n (content c.output);
      output = retrieve n c.output;
    } in
    Adds-if (c.writing && leb 1 n) [] c (after_flush flushed) c
      (λ e. after_flush-Adds c flushed (flush-Adds n c v)) (λ e. nothing-Adds c v)
step-Adds (running r f) c v = run_functor-Adds r f c.pending c v
step-Adds (file_sending true f offset count) c v = elim (Bool-cases (is_connected c.state)) [
  | inl up ↦ rw up (send_file_in_loop-Adds f offset count c v)
  | inr down ↦ rw down (nothing-Adds c v)
]
step-Adds (file_sending false f offset count) c v = elim (Bool-cases (is_connected c.state)) [
  | inl up ↦ rw up (nothing-Adds c v)
  | inr down ↦ rw down (nothing-Adds c v)
]
step-Adds (reading on_message (failed errno)) c v = nothing-Adds c v
step-Adds (reading on_message (received xs)) c v = elim (Bool-cases (length xs == 0)) [
  | inl end ↦ rw end (nothing-Adds c v)
  | inr more ↦ rw more (nothing-Adds c v)
]
step-Adds (shutting_down here) c v = shutdown-Adds here c v
step-Adds destroying c v = elim (Bool-cases (is_connected c.state)) [
  | inl up ↦ rw up (nothing-Adds c v)
  | inr down ↦ rw down (nothing-Adds c v)
]

-- The kernel has taken, and the buffer still holds, exactly the bytes accepted: those before, then
-- those of each send, functor and sendfile, in the order of the steps.
pub run-stream :
    (os : List Op) (c : TcpConnection)
    → IsValid c.output
    → IsValid (run os c).output × (stream (run os c) ≡ stream c ++ added_all os c)
unfolding run added_all
run-stream [] c v = nothing-Adds c v
run-stream (o ∷ os) c v =
    let (v', e) = step-Adds o c v in
    Adds-trans (added o c) (added_all os (step o c)) c (step o c) (run os (step o c)) e
      (run-stream os (step o c) v')
