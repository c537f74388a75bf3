-- ===== src/Net/Buffer/Invariant.antt =====
-- The order of the indices of a buffer, kept by every operation.
use ai_chat_server.Base.{
  ℕ, ◌+◌, ◌-◌, ◌≤◌, ◌≡◌, Bytes, ◌++◌, length, take, drop, replicate, arith, length-append,
  length-take, length-drop, length-replicate,
}
use ai_chat_server.Net.Buffer.{
  Buffer, cheap_prepend, readable_bytes, writable_bytes, new, content, write_at, resize,
  retrieve_all, retrieve, grow, compact, make_space, ensure_writable_bytes, put_bytes, append,
  ReadResult, failed, received, read_fd,
}

pub record IsValid (b : Buffer) : Type 0 where
  pub prepend : cheap_prepend ≤ b.reader_index
  pub ordered : b.reader_index ≤ b.writer_index
  pub inside : b.writer_index ≤ length b.storage

pub length-content : (b : Buffer) → IsValid b → length (content b) ≡ readable_bytes b
unfolding content
length-content b v = omega (
  arith,
  length-take (readable_bytes b) (drop b.reader_index b.storage),
  length-drop b.reader_index b.storage,
)

pub length-write_at :
    (i : ℕ) (xs storage : Bytes)
    → i + length xs ≤ length storage
    → length (write_at i xs storage) ≡ length storage
unfolding write_at
length-write_at i xs storage h = omega (
  arith,
  length-append (take i storage) (xs ++ drop (i + length xs) storage),
  length-append xs (drop (i + length xs) storage),
  length-take i storage,
  length-drop (i + length xs) storage,
)

pub length-resize : (n : ℕ) (storage : Bytes) → length (resize n storage) ≡ n
unfolding resize
length-resize n storage = ground (
  arith,
  length-append storage (replicate (n - length storage) 0),
  length-replicate {A = ℕ} (n - length storage) 0,
  length-take n storage,
)

pub new-IsValid : (n : ℕ) → IsValid (new n)
unfolding new
new-IsValid n = omega (arith, length-replicate {A = ℕ} (cheap_prepend + n) 0)

pub retrieve-IsValid : (len : ℕ) (b : Buffer) → IsValid b → IsValid (retrieve len b)
unfolding retrieve retrieve_all
retrieve-IsValid len b v = ground arith

pub grow-IsValid : (len : ℕ) (b : Buffer) → IsValid b → IsValid (grow len b)
unfolding grow
grow-IsValid len b v = omega (arith, length-resize (b.writer_index + len) b.storage)

pub compact-IsValid : (b : Buffer) → IsValid b → IsValid (compact b)
unfolding compact
compact-IsValid b v =
    omega (arith, length-content b v, length-write_at cheap_prepend (content b) b.storage)

pub ensure_writable_bytes-IsValid :
    (len : ℕ) (b : Buffer) → IsValid b → IsValid (ensure_writable_bytes len b)
unfolding ensure_writable_bytes make_space
ensure_writable_bytes-IsValid len b v = ground (arith, grow-IsValid len b v, compact-IsValid b v)

-- After ensureWritableBytes the asked room is there.
pub le-writable_ensure :
    (len : ℕ) (b : Buffer) → IsValid b → len ≤ writable_bytes (ensure_writable_bytes len b)
unfolding ensure_writable_bytes make_space grow compact
le-writable_ensure len b v = ground (
  arith,
  length-resize (b.writer_index + len) b.storage,
  length-content b v,
  length-write_at cheap_prepend (content b) b.storage,
)

pub put_bytes-IsValid :
    (xs : Bytes) (b : Buffer) → IsValid b → length xs ≤ writable_bytes b → IsValid (put_bytes xs b)
unfolding put_bytes
put_bytes-IsValid xs b v h = omega (arith, length-write_at b.writer_index xs b.storage)

pub append-IsValid : (xs : Bytes) (b : Buffer) → IsValid b → IsValid (append xs b)
unfolding append
append-IsValid xs b v =
    put_bytes-IsValid xs (ensure_writable_bytes (length xs) b)
      (ensure_writable_bytes-IsValid (length xs) b v) (le-writable_ensure (length xs) b v)

pub read_fd-IsValid : (r : ReadResult) (b : Buffer) → IsValid b → IsValid (read_fd r b)
unfolding read_fd
read_fd-IsValid (failed errno) b v = v
read_fd-IsValid (received xs) b v =
    let w = writable_bytes b in
    ground (
      arith,
      put_bytes-IsValid xs b v,
      put_bytes-IsValid (take w xs) b v,
      append-IsValid (drop w xs) (put_bytes (take w xs) b),
      length-take w xs,
    )
