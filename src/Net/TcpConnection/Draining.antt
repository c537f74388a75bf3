-- ===== src/Net/TcpConnection/Draining.antt =====
-- A peer that goes on reading gets everything.
use ai_chat_server.Base.{
  if-true, if-false, ◌≡◌, refl, sym, ap, ◌∙◌, ℕ, ◌-◌, ◌≤◌, ◌&&◌, Bool, true, false, not, List, [],
  ◌∷◌, ◌++◌, length, take, ◌==◌, leb, if◌then◌else◌, append-nil, arith, dec_le, Bool-cases, inl,
  inr,
}
use mathlib.Core.Path.{subst}
use ai_chat_server.Net.Buffer.{Buffer, retrieve_all, readable_bytes, content, retrieve, written}
use ai_chat_server.Net.TcpConnection.{
  TcpConnection, StateE, is_disconnecting, write_complete_callback, call_if, shutdown_in_loop,
  after_flush, handle_write,
}
use ai_chat_server.Net.TcpConnection.Steps.{Op, writable, step, run}
use ai_chat_server.Net.TcpConnection.Stream.{stream, content-empty, run-stream, added, added_all}
use ai_chat_server.Net.TcpConnection.Closing.{
  opened, opened-IsValid, opened-Watched, opened-stream, all_taken,
}
use ai_chat_server.Net.TcpConnection.Watched.{is_disconnected, run-Watched}

abbrev pub AllPositive : List ℕ → Type 0
AllPositive [] = Unit {0}
AllPositive (n ∷ ns) = (1 ≤ n) × AllPositive ns

-- The socket becomes writable again and again, and each time the kernel takes some bytes.
abbrev pub writes : List ℕ → List Op
writes [] = []
writes (n ∷ ns) = writable (written n) ∷ writes ns

abbrev pub Drained : StateE → TcpConnection → Type 0
Drained s c =
    (c.writing ≡ false) × (content c.output ≡ []) × (is_disconnecting s ≡ true → c.fin ≡ true)

abbrev flushed : ℕ → TcpConnection → TcpConnection
flushed n c = record c { wire = c.wire ++ take n (content c.output); output = retrieve n c.output }

step-flush :
    (n : ℕ) (c : TcpConnection)
    → c.writing ≡ true
    → 1 ≤ n
    → step (writable (written n)) c ≡ after_flush (flushed n c)
unfolding step handle_write
step-flush n c w p = if-true (c.writing && leb 1 n) (after_flush (flushed n c)) c (ground arith)

step-idle : (n : ℕ) (c : TcpConnection) → c.writing ≡ false → step (writable (written n)) c ≡ c
unfolding step handle_write
step-idle n c w = if-false (c.writing && leb 1 n) (after_flush (flushed n c)) c (ground arith)

pub run-idle : (ns : List ℕ) (c : TcpConnection) → c.writing ≡ false → run (writes ns) c ≡ c
unfolding run
run-idle [] c h = refl
run-idle (n ∷ ns) c h = ap (run (writes ns)) (step-idle n c h) ∙ run-idle ns c h

after_flush-more : (c : TcpConnection) → 1 ≤ readable_bytes c.output → after_flush c ≡ c
unfolding after_flush
after_flush-more c h =
    let done =
      call_if c.has_write_complete write_complete_callback (record c { writing = false }) in
    if-false (readable_bytes c.output == 0)
      (if is_disconnecting c.state then shutdown_in_loop done else done) c (ground arith)

after_flush-Drained :
    (c : TcpConnection) → readable_bytes c.output ≡ 0 → Drained c.state (after_flush c)
unfolding after_flush shutdown_in_loop
after_flush-Drained c h =
    let last : (readable_bytes c.output == 0) ≡ true = ground (arith, h) in
    elim (Bool-cases (is_disconnecting c.state)) [
      | inl leaving ↦ rw (last, leaving) (refl, content-empty c.output h, λ e. refl)
      | inr staying ↦
          rw (last, staying) (refl, content-empty c.output h, λ e. absurd (ground arith))
    ]

readable-retrieve : (n : ℕ) (b : Buffer) → readable_bytes (retrieve n b) ≡ readable_bytes b - n
unfolding retrieve retrieve_all
readable-retrieve n b = ground arith

pub added_all-writes : (ns : List ℕ) (c : TcpConnection) → added_all (writes ns) c ≡ []
unfolding added_all added
added_all-writes [] c = refl
added_all-writes (n ∷ ns) c = added_all-writes ns (step (writable (written n)) c)

pub run-Drained :
    (ns : List ℕ) (c : TcpConnection)
    → c.writing ≡ true
    → AllPositive ns
    → 1 ≤ readable_bytes c.output
    → readable_bytes c.output ≤ length ns
    → Drained c.state (run (writes ns) c)
unfolding run
run-Drained [] c w p h k = absurd (omega arith)
run-Drained (n ∷ ns) c w (p, ps) h k = elim (dec_le 1 (readable_bytes (retrieve n c.output))) [
  | yes more ↦
      let e = step-flush n c w p ∙ after_flush-more (flushed n c) more in
      subst (λ t. Drained c.state (run (writes ns) t)) (sym e)
        (run-Drained ns (flushed n c) w ps more (omega (arith, readable-retrieve n c.output)))
  | no last ↦
      let d = after_flush-Drained (flushed n c) (omega arith) in
      subst (λ t. Drained c.state t)
        (sym
          (ap (run (writes ns)) (step-flush n c w p) ∙ run-idle ns (after_flush (flushed n c)) d.0))
        d
]

-- While the connection is up and bytes wait, a kernel that takes at least one byte at each of as
-- many events as bytes wait takes them all, in order; the channel then no longer waits for room,
-- and a connection that is to be shut is shut.
pub writes-drain :
    (write_complete high_water : Bool) (mark : ℕ) (os : List Op) (ns : List ℕ)
    → let c = run os (opened write_complete high_water mark) in
      is_disconnected c.state ≡ false
      → 1 ≤ readable_bytes c.output
      → readable_bytes c.output ≤ length ns
      → AllPositive ns
      → let end = run (writes ns) c in
        (end.wire ≡ added_all os (opened write_complete high_water mark))
        × (end.writing ≡ false)
        × (is_disconnecting c.state ≡ true → end.fin ≡ true)
writes-drain write_complete high_water mark os ns up h k p =
    let start = opened write_complete high_water mark in
    let c = run os start in
    let (v, e) = run-stream os start (opened-IsValid write_complete high_water mark) in
    let w =
      run-Watched os start (opened-IsValid write_complete high_water mark)
        (opened-Watched write_complete high_water mark) in
    let (quiet, empty, shut) =
      run-Drained ns c (w up ∙ ap not (positive (readable_bytes c.output) h)) p h k in
    (
      all_taken (run (writes ns) c) empty
          ∙ (run-stream (writes ns) c v).1
          ∙ ap (λ t. stream c ++ t) (added_all-writes ns c)
          ∙ append-nil (stream c)
          ∙ e
          ∙ ap (λ t. t ++ added_all os start) (opened-stream write_complete high_water mark),
      quiet,
      shut,
    )
  where
    positive : (n : ℕ) → 1 ≤ n → (n == 0) ≡ false
    positive n h = ground arith
