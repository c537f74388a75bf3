-- ===== src/Net/Buffer/Queue.antt =====
-- The buffer against its specification: a queue of bytes.
use ai_chat_server.Base.{
  ℕ, ◌+◌, ◌≤◌, ◌≡◌, refl, ap, ◌∙◌, Bytes, List, [], ◌∷◌, ◌++◌, length, drop, arith,
}
use ai_chat_server.Net.Buffer.{
  Buffer, content, writable_bytes, prependable_bytes, cheap_prepend, new, retrieve, retrieve_all,
  ensure_writable_bytes, append, ReadResult, failed, received, read_fd, make_space, compact,
}
use ai_chat_server.Net.Buffer.Invariant.{
  IsValid, new-IsValid, retrieve-IsValid, ensure_writable_bytes-IsValid, append-IsValid,
  read_fd-IsValid, length-content, length-write_at,
}
use ai_chat_server.Net.Buffer.Content.{
  content-new, content-retrieve, content-retrieve_all, content-ensure_writable_bytes,
  content-append, content-read_fd,
}

-- The public calls that change a buffer.
pub data Op : Type 0 where
  retrieves : (len : ℕ) → Op
  retrieves_all : Op
  ensures : (len : ℕ) → Op
  appends : (xs : Bytes) → Op
  reads : (r : ReadResult) → Op

pub step : Op → Buffer → Buffer
step (retrieves len) b = retrieve len b
step retrieves_all b = retrieve_all b
step (ensures len) b = ensure_writable_bytes len b
step (appends xs) b = append xs b
step (reads r) b = read_fd r b

pub run : List Op → Buffer → Buffer
run [] b = b
run (o ∷ os) b = run os (step o b)

-- The same calls on a queue.
unfoldable pub spec_step : Op → Bytes → Bytes
spec_step (retrieves len) q = drop len q
spec_step retrieves_all q = []
spec_step (ensures len) q = q
spec_step (appends xs) q = q ++ xs
spec_step (reads (failed errno)) q = q
spec_step (reads (received xs)) q = q ++ xs

unfoldable pub spec_run : List Op → Bytes → Bytes
unfolding spec_step
spec_run [] q = q
spec_run (o ∷ os) q = spec_run os (spec_step o q)

pub step-IsValid : (o : Op) (b : Buffer) → IsValid b → IsValid (step o b)
unfolding step
step-IsValid (retrieves len) b v = retrieve-IsValid len b v
step-IsValid retrieves_all b v = unfold retrieve_all in (omega arith)
step-IsValid (ensures len) b v = ensure_writable_bytes-IsValid len b v
step-IsValid (appends xs) b v = append-IsValid xs b v
step-IsValid (reads r) b v = read_fd-IsValid r b v

content-step : (o : Op) (b : Buffer) → IsValid b → content (step o b) ≡ spec_step o (content b)
unfolding step spec_step
content-step (retrieves len) b v = content-retrieve len b v
content-step retrieves_all b v = content-retrieve_all b
content-step (ensures len) b v = content-ensure_writable_bytes len b v
content-step (appends xs) b v = content-append xs b v
content-step (reads (failed errno)) b v = unfold read_fd in refl
content-step (reads (received xs)) b v = content-read_fd xs b v

content-run :
    (os : List Op) (b : Buffer)
    → IsValid b
    → IsValid (run os b) × (content (run os b) ≡ spec_run os (content b))
unfolding run spec_run
content-run [] b v = (v, refl)
content-run (o ∷ os) b v =
    let (v', e) = content-run os (step o b) (step-IsValid o b v) in
    (v', e ∙ ap (spec_run os) (content-step o b v))

-- From a new buffer of any size, after any sequence of calls, the indices are in order
-- (8 ≤ reader ≤ writer ≤ size) and the readable bytes are those of the queue after the same calls.
pub run-new-refines :
    (n : ℕ) (os : List Op) → IsValid (run os (new n)) × (content (run os (new n)) ≡ spec_run os [])
run-new-refines n os =
    let (v, e) = content-run os (new n) (new-IsValid n) in (v, e ∙ ap (spec_run os) (content-new n))

-- For a buffer in order: where the bytes asked for fit into the free room before and behind the
-- readable bytes, the first 8 bytes kept, the vector keeps its size.
pub length-ensure_writable_bytes :
    (len : ℕ) (b : Buffer)
    → IsValid b
    → len + cheap_prepend ≤ writable_bytes b + prependable_bytes b
    → length (ensure_writable_bytes len b).storage ≡ length b.storage
unfolding ensure_writable_bytes make_space compact
length-ensure_writable_bytes len b v h =
    ground (arith, length-content b v, length-write_at cheap_prepend (content b) b.storage)
