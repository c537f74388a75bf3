-- ===== src/Log/AsyncLogging.antt =====
-- include/logging/AsyncLogging.h and log/AsyncLogging.cc: the buffers between the threads that
-- log and the thread that writes. A buffer of `size` bytes is what it holds; a pointer is none when
-- it has been moved from. An operation is what happens under the lock, or between two locks; none is
-- a use of a pointer or of an element that is not there.
pub mod Sound
pub mod Rounds
pub mod Order
use ai_chat_server.Base.{
  ℕ, zero, suc, ◌-◌, Bool, true, false, Option, none, some, Bytes, List, [], ◌∷◌, ◌++◌, length,
  take, join, ltb, if◌then◌else◌,
}
use ai_chat_server.Log.FixedBuffer
use ai_chat_server.Log.FixedBuffer.{avail, reset}

pub record AsyncLogging : Type 0 where
  pub current_buffer : Option Bytes
  pub next_buffer : Option Bytes
  pub buffers : List Bytes
  -- The writing thread: its two spare buffers, what it took, whether it has still to write it, and
  -- the log.
  pub newbuffer1 : Option Bytes
  pub newbuffer2 : Option Bytes
  pub buffers_to_write : List Bytes
  pub writing : Bool
  pub output : Bytes

unfoldable pub new_async : AsyncLogging
new_async = record {
  current_buffer = some [];
  next_buffer = some [];
  buffers = [];
  newbuffer1 = some [];
  newbuffer2 = some [];
  buffers_to_write = [];
  writing = false;
  output = [];
}

abbrev next_or_new : Option Bytes → Bytes
next_or_new none = []
next_or_new (some b) = b

abbrev append_to : ℕ → Bytes → AsyncLogging → Option Bytes → Option AsyncLogging
append_to size line s none = none
append_to size line s (some b) =
    if ltb (length line) (avail size b)
    then some (record s { current_buffer = some (FixedBuffer.append size line b) })
    else some (record s {
      buffers = s.buffers ++ (b ∷ []);
      current_buffer = some (FixedBuffer.append size line (next_or_new s.next_buffer));
      next_buffer = none;
    })

-- append, of a thread that logs.
unfoldable pub append : ℕ → Bytes → AsyncLogging → Option AsyncLogging
append size line s = append_to size line s s.current_buffer

-- nextBuffer_, replaced where it is missing, and what is left of the second spare buffer.
abbrev pub full_of : Option Bytes → Option Bytes → Option Bytes
full_of none spare = spare
full_of (some n) spare = some n

abbrev pub left_of : Option Bytes → Option Bytes → Option Bytes
left_of none spare = none
left_of (some n) spare = spare

abbrev collect_from : AsyncLogging → Option Bytes → Option AsyncLogging
collect_from s none = none
collect_from s (some b) = some (record s {
  buffers_to_write = s.buffers ++ (b ∷ []);
  buffers = s.buffers_to_write;
  current_buffer = s.newbuffer1;
  newbuffer1 = none;
  next_buffer = full_of s.next_buffer s.newbuffer2;
  newbuffer2 = left_of s.next_buffer s.newbuffer2;
  writing = true;
})

-- The round of the writing thread, under the lock.
unfoldable pub collect : AsyncLogging → Option AsyncLogging
collect s = if s.writing then some s else collect_from s s.current_buffer

-- vector::back and pop_back
unfoldable pub pop_back : List Bytes → Option (Bytes × List Bytes)
pop_back [] = none
pop_back (b ∷ []) = some (b, [])
pop_back (b ∷ c ∷ bs) = elim (pop_back (c ∷ bs)) [ none ↦ none | some r ↦ some (r.0, b ∷ r.1) ]

-- A spare buffer that is missing is the last of those written, emptied.
unfoldable pub refill : Option Bytes → List Bytes → Option (Option Bytes × List Bytes)
unfolding pop_back
refill (some b) bs = some (some b, bs)
refill none bs = elim (pop_back bs) [ none ↦ none | some r ↦ some (some (reset r.0), r.1) ]

abbrev pub written :
    AsyncLogging → Option Bytes → Option (Option Bytes × List Bytes) → Option AsyncLogging
written s spare none = none
written s spare (some (second, rest)) = some (record s {
  output = s.output ++ join s.buffers_to_write;
  newbuffer1 = spare;
  newbuffer2 = second;
  buffers_to_write = [];
  writing = false;
})

abbrev pub refill_second : AsyncLogging → Option (Option Bytes × List Bytes) → Option AsyncLogging
refill_second s none = none
refill_second s (some (spare, rest)) = written s spare (refill s.newbuffer2 rest)

-- The round without the lock: what was taken is written, and two spare buffers are kept.
unfoldable pub write_out : AsyncLogging → Option AsyncLogging
unfolding refill
write_out s =
    if s.writing then refill_second s (refill s.newbuffer1 (take 2 s.buffers_to_write)) else some s
