-- ===== src/Net/Buffer.antt =====
-- include/net/Buffer.h and src/net/Buffer.cc: the byte buffer below a connection. `storage` is
-- the vector `buffer_`; its size is its length. The two system calls are arguments.
pub mod Invariant
pub mod Content
pub mod Queue
use ai_chat_server.Base.{
  ℕ, ◌+◌, ◌-◌, Bytes, List, [], ◌∷◌, ◌++◌, length, take, drop, replicate, ltb, leb, if◌then◌else◌,
}

-- kCheapPrepend and kInitialSize
abbrev pub cheap_prepend : ℕ
cheap_prepend = 8

abbrev pub initial_size : ℕ
initial_size = 1024

-- sizeof(extrabuf)
abbrev pub extra_size : ℕ
extra_size = 65536

pub record Buffer : Type 0 where
  pub storage : Bytes
  pub reader_index : ℕ
  pub writer_index : ℕ

unfoldable pub new : ℕ → Buffer
new n = record {
  storage = replicate (cheap_prepend + n) 0;
  reader_index = cheap_prepend;
  writer_index = cheap_prepend;
}

abbrev pub readable_bytes : Buffer → ℕ
readable_bytes b = b.writer_index - b.reader_index

abbrev pub writable_bytes : Buffer → ℕ
writable_bytes b = length b.storage - b.writer_index

abbrev pub prependable_bytes : Buffer → ℕ
prependable_bytes b = b.reader_index

-- The bytes from peek() up to beginWrite().
unfoldable pub content : Buffer → Bytes
content b = take (b.writer_index - b.reader_index) (drop b.reader_index b.storage)

-- std::copy of `xs` to position `i` of the vector.
pub write_at : ℕ → Bytes → Bytes → Bytes
write_at i xs storage = take i storage ++ (xs ++ drop (i + length xs) storage)

-- std::vector::resize
pub resize : ℕ → Bytes → Bytes
resize n storage =
    if ltb (length storage) n then storage ++ replicate (n - length storage) 0 else take n storage

unfoldable pub retrieve_all : Buffer → Buffer
retrieve_all b = record b { reader_index = cheap_prepend; writer_index = cheap_prepend }

unfoldable pub retrieve : ℕ → Buffer → Buffer
retrieve len b =
    if ltb len (readable_bytes b)
    then record b { reader_index = b.reader_index + len }
    else retrieve_all b

-- A length beyond the readable bytes would read past them; `take` stops at the vector's end.
unfoldable pub retrieve_as_string : ℕ → Buffer → Bytes × Buffer
retrieve_as_string len b = (take len (drop b.reader_index b.storage), retrieve len b)

unfoldable pub retrieve_all_as_string : Buffer → Bytes × Buffer
retrieve_all_as_string b = retrieve_as_string (readable_bytes b) b

pub grow : ℕ → Buffer → Buffer
grow len b = record b { storage = resize (b.writer_index + len) b.storage }

pub compact : Buffer → Buffer
compact b = record b {
  storage = write_at cheap_prepend (content b) b.storage;
  reader_index = cheap_prepend;
  writer_index = cheap_prepend + readable_bytes b;
}

pub make_space : ℕ → Buffer → Buffer
make_space len b =
    if ltb (writable_bytes b + prependable_bytes b) (len + cheap_prepend)
    then grow len b
    else compact b

unfoldable pub ensure_writable_bytes : ℕ → Buffer → Buffer
unfolding make_space grow compact
ensure_writable_bytes len b = if ltb (writable_bytes b) len then make_space len b else b

-- The copy to beginWrite() and the move of the writer index.
pub put_bytes : Bytes → Buffer → Buffer
put_bytes xs b = record b {
  storage = write_at b.writer_index xs b.storage;
  writer_index = b.writer_index + length xs;
}

unfoldable pub append : Bytes → Buffer → Buffer
unfolding put_bytes
append xs b = put_bytes xs (ensure_writable_bytes (length xs) b)

-- What readv answers: an errno, or the bytes that it stored, in the order of the two blocks.
pub data ReadResult : Type 0 where
  failed : (errno : ℕ) → ReadResult
  received : (xs : Bytes) → ReadResult

-- The room that the iovec offers: the stack block only while the buffer has less than 64 KB.
abbrev pub iov_room : Buffer → ℕ
iov_room b =
    if ltb (writable_bytes b) extra_size then writable_bytes b + extra_size else writable_bytes b

unfoldable pub read_fd : ReadResult → Buffer → Buffer
unfolding put_bytes
read_fd (failed errno) b = b
read_fd (received xs) b =
    let w = writable_bytes b in
    if leb (length xs) w then put_bytes xs b else append (drop w xs) (put_bytes (take w xs) b)

-- What write answers: an errno, or the number of bytes taken.
pub data WriteResult : Type 0 where
  write_failed : (errno : ℕ) → WriteResult
  written : (n : ℕ) → WriteResult

-- write(fd, peek(), readableBytes()): the buffer stays as it is.
abbrev pub write_fd : (Bytes → WriteResult) → Buffer → WriteResult
write_fd kernel b = kernel (content b)
