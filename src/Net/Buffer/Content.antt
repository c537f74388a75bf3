-- ===== src/Net/Buffer/Content.antt =====
-- What each operation of the buffer does to the readable bytes.
use ai_chat_server.Base.{
  ℕ, ◌+◌, ◌-◌, ◌≤◌, ◌≡◌, refl, sym, ap, ◌∙◌, Bytes, [], ◌++◌, length, take, drop, replicate, arith,
  append_assoc, length-append, length-take, take-append_le, drop-append_le, take-append_length,
  drop-append_length, drop-take, drop-drop, take-append-drop, take-take, drop_of_length-le,
}
use ai_chat_server.Net.Buffer.{
  Buffer, cheap_prepend, readable_bytes, writable_bytes, new, content, write_at, resize,
  retrieve_all, retrieve, retrieve_as_string, grow, compact, make_space, ensure_writable_bytes,
  put_bytes, append, received, read_fd,
}
use ai_chat_server.Net.Buffer.Invariant.{
  IsValid, length-content, ensure_writable_bytes-IsValid, put_bytes-IsValid,
}

pub content-new : (n : ℕ) → content (new n) ≡ []
unfolding content new
content-new n = refl

pub content-retrieve_all : (b : Buffer) → content (retrieve_all b) ≡ []
unfolding content retrieve_all
content-retrieve_all b = refl

content-advance :
    (len : ℕ) (b : Buffer)
    → content (record b { reader_index = b.reader_index + len }) ≡ drop len (content b)
unfolding content
content-advance len b =
    let r = b.reader_index in
    let w = b.writer_index in
    let e : w - (r + len) ≡ w - r - len = omega arith in
    rw (drop-take len (w - r) (drop r b.storage), drop-drop len r b.storage, e) refl

-- Reading past the readable bytes empties the buffer, as does reading exactly them.
pub content-retrieve :
    (len : ℕ) (b : Buffer) → IsValid b → content (retrieve len b) ≡ drop len (content b)
unfolding retrieve
content-retrieve len b v = ground (
  arith,
  content-advance len b,
  content-retrieve_all b,
  drop_of_length-le len (content b),
  length-content b v,
)

pub retrieve_as_string_lem :
    (len : ℕ) (b : Buffer)
    → IsValid b
    → len ≤ readable_bytes b
    → (retrieve_as_string len b).0 ≡ take len (content b)
unfolding retrieve_as_string content
retrieve_as_string_lem len b v h =
    sym (take-take len (readable_bytes b) (drop b.reader_index b.storage) h)

-- A write at the end of the readable bytes appends to them.
pub content-put_bytes :
    (xs : Bytes) (b : Buffer) → IsValid b → content (put_bytes xs b) ≡ content b ++ xs
unfolding put_bytes write_at content
content-put_bytes xs b v =
    let r = b.reader_index in
    let w = b.writer_index in
    let tail = drop (w + length xs) b.storage in
    let front : drop r (take w b.storage ++ (xs ++ tail)) ≡ content b ++ (xs ++ tail) =
      rw (drop-append_le r (take w b.storage) (xs ++ tail) (omega (arith, length-take w b.storage)))
        (ap (λ l. l ++ (xs ++ tail)) (drop-take r w b.storage)) in
    rw (front, sym (append_assoc (content b) xs tail))
      (take-append_length (w + length xs - r) (content b ++ xs) tail
        (omega (arith, length-append (content b) xs, length-content b v)))

content-prefix : (b : Buffer) → content b ≡ drop b.reader_index (take b.writer_index b.storage)
unfolding content
content-prefix b = sym (drop-take b.reader_index b.writer_index b.storage)

take-resize :
    (w n : ℕ) (storage : Bytes)
    → w ≤ n
    → w ≤ length storage
    → take w (resize n storage) ≡ take w storage
unfolding resize
take-resize w n storage h k = ground (
  arith,
  take-append_le w storage (replicate {A = ℕ} (n - length storage) 0) k,
  take-take w n storage h,
)

content-grow : (len : ℕ) (b : Buffer) → IsValid b → content (grow len b) ≡ content b
unfolding grow
content-grow len b v =
    content-prefix (grow len b)
    ∙ ap (drop b.reader_index)
        (take-resize b.writer_index (b.writer_index + len) b.storage (omega arith) v.inside)
    ∙ sym (content-prefix b)

content-compact : (b : Buffer) → IsValid b → content (compact b) ≡ content b
unfolding compact write_at
content-compact b v =
    let c = content b in
    let tail = drop (cheap_prepend + length c) b.storage in
    let front = take cheap_prepend b.storage in
    unfold content in
    rw
      (drop-append_length cheap_prepend front (c ++ tail)
        (omega (arith, length-take cheap_prepend b.storage)))
      (take-append_length (cheap_prepend + readable_bytes b - cheap_prepend) c tail
        (omega (arith, length-content b v)))

-- Making room moves or regrows the vector and keeps the readable bytes.
pub content-ensure_writable_bytes :
    (len : ℕ) (b : Buffer) → IsValid b → content (ensure_writable_bytes len b) ≡ content b
unfolding ensure_writable_bytes make_space
content-ensure_writable_bytes len b v = ground (arith, content-grow len b v, content-compact b v)

pub content-append : (xs : Bytes) (b : Buffer) → IsValid b → content (append xs b) ≡ content b ++ xs
unfolding append
content-append xs b v =
    let n = length xs in
    content-put_bytes xs (ensure_writable_bytes n b) (ensure_writable_bytes-IsValid n b v)
    ∙ ap (λ l. l ++ xs) (content-ensure_writable_bytes n b v)

-- Whatever readv stores arrives at the end of the readable bytes, also across the two blocks.
pub content-read_fd :
    (xs : Bytes) (b : Buffer) → IsValid b → content (read_fd (received xs) b) ≡ content b ++ xs
unfolding read_fd
content-read_fd xs b v =
    let w = writable_bytes b in
    let front = put_bytes (take w xs) b in
    ground (
      arith,
      content-put_bytes xs b v,
      content-put_bytes (take w xs) b v,
      put_bytes-IsValid (take w xs) b v,
      length-take w xs,
      content-append (drop w xs) front,
      append_assoc (content b) (take w xs) (drop w xs),
      take-append-drop w xs,
    )
