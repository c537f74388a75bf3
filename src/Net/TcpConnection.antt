-- ===== src/Net/TcpConnection.antt =====
-- include/net/TcpConnection.h and src/net/TcpConnection.cc: a connection, with the socket as the
-- bytes the kernel has taken and whether the writing side is shut. What the system calls answer
-- and what a callback does to the input buffer are arguments; the callbacks made or queued are
-- kept in order. The functors that wait for the loop are a queue.
pub mod Steps
pub mod Stream
pub mod Watched
pub mod Closing
pub mod Draining
mod Tests
use ai_chat_server.Base.{
  ℕ, ◌+◌, ◌-◌, ◌&&◌, ◌||◌, Bool, true, false, not, Bytes, List, [], ◌∷◌, ◌++◌, length, take, drop,
  ◌==◌, leb, ltb, if◌then◌else◌,
}
use ai_chat_server.Net.Buffer.{
  Buffer, new, initial_size, readable_bytes, content, retrieve, append, ReadResult, failed,
  received, read_fd, WriteResult, write_failed, written,
}

pub data StateE : Type 0 where
  disconnected connecting connected disconnecting : StateE

pub data Call : Type 0 where
  connection_callback message_callback write_complete_callback close_callback : Call
  high_water_mark_callback : (size : ℕ) → Call

-- What waits in the loop's queue for this connection.
pub data Functor : Type 0 where
  send_functor : (data_ : Bytes) → Functor
  shutdown_functor : Functor
  send_file_functor : (offset count : ℕ) → Functor

pub record TcpConnection : Type 0 where
  pub state : StateE
  -- The channel's interest in events, and whether it has been taken from the poller.
  pub reading : Bool
  pub writing : Bool
  pub removed : Bool
  pub input : Buffer
  pub output : Buffer
  pub high_water_mark : ℕ
  -- Whether the two callbacks are set.
  pub has_write_complete : Bool
  pub has_high_water_mark : Bool
  pub pending : List Functor
  pub wire : Bytes
  pub fin : Bool
  pub calls : List Call

unfoldable pub new_connection : Bool → Bool → ℕ → TcpConnection
new_connection write_complete high_water mark = record {
  state = connecting;
  reading = false;
  writing = false;
  removed = false;
  input = new initial_size;
  output = new initial_size;
  high_water_mark = mark;
  has_write_complete = write_complete;
  has_high_water_mark = high_water;
  pending = [];
  wire = [];
  fin = false;
  calls = [];
}

abbrev pub is_connected : StateE → Bool
is_connected connected = true
is_connected _ = false

abbrev pub is_disconnecting : StateE → Bool
is_disconnecting disconnecting = true
is_disconnecting _ = false

abbrev pub call : Call → TcpConnection → TcpConnection
call k c = record c { calls = c.calls ++ (k ∷ []) }

abbrev pub call_if : Bool → Call → TcpConnection → TcpConnection
call_if b k c = record c { calls = if b then c.calls ++ (k ∷ []) else c.calls }

abbrev pub queue_in_loop : Functor → TcpConnection → TcpConnection
queue_in_loop f c = record c { pending = c.pending ++ (f ∷ []) }

-- errno == EPIPE || errno == ECONNRESET
abbrev pub is_fault : ℕ → Bool
is_fault errno = errno == 32 || errno == 104

-- The rest of what was to be sent goes to the output buffer, and the channel waits for room.
unfoldable pub keep_rest : Bytes → TcpConnection → TcpConnection
keep_rest rest c =
    let old_len = readable_bytes c.output in
    let crossed =
      leb c.high_water_mark (old_len + length rest)
      && (ltb old_len c.high_water_mark && c.has_high_water_mark) in
    record (call_if crossed (high_water_mark_callback (old_len + length rest)) c) {
      output = append rest c.output;
      writing = true;
    }

-- What follows the write: `n` bytes were taken.
unfoldable pub after_write : ℕ → Bytes → TcpConnection → TcpConnection
unfolding keep_rest
after_write n data_ c =
    let sent = record c { wire = c.wire ++ take n data_ } in
    if length data_ - n == 0
    then call_if c.has_write_complete write_complete_callback sent
    else keep_rest (drop n data_) sent

-- A channel that is not writing, with nothing in the output buffer: the kernel is asked at once.
abbrev pub is_idle : TcpConnection → Bool
is_idle c = not c.writing && (readable_bytes c.output == 0)

-- Bytes that are kept without a write: none at all change nothing.
abbrev pub keep_all : Bytes → TcpConnection → TcpConnection
keep_all [] c = c
keep_all (x ∷ xs) c = keep_rest (x ∷ xs) c

-- sendInLoop. write answers with at most the number of bytes it is given.
unfoldable pub send_in_loop : WriteResult → Bytes → TcpConnection → TcpConnection
unfolding after_write keep_rest
send_in_loop (written n) data_ c = if is_idle c then after_write n data_ c else keep_all data_ c
send_in_loop (write_failed errno) data_ c =
    if is_idle c && is_fault errno then c else keep_all data_ c

-- send, in the loop's thread or in another: there the functor refers to the caller's bytes, which
-- are taken to be still in place when it runs.
unfoldable pub send : Bool → WriteResult → Bytes → TcpConnection → TcpConnection
unfolding send_in_loop
send here r data_ c =
    if is_connected c.state
    then if here then send_in_loop r data_ c else queue_in_loop (send_functor data_) c
    else c

unfoldable pub shutdown_in_loop : TcpConnection → TcpConnection
shutdown_in_loop c = if c.writing then c else record c { fin = true }

unfoldable pub shutdown : Bool → TcpConnection → TcpConnection
unfolding shutdown_in_loop
shutdown here c =
    let c' = record c { state = disconnecting } in
    if is_connected c.state
    then if here then shutdown_in_loop c' else queue_in_loop shutdown_functor c'
    else c

unfoldable pub connect_established : TcpConnection → TcpConnection
connect_established c = call connection_callback (record c { state = connected; reading = true })

unfoldable pub connect_destroyed : TcpConnection → TcpConnection
connect_destroyed c =
    record (if is_connected c.state
      then call connection_callback
          (record c { state = disconnected; reading = false; writing = false })
      else c) { removed = true }

unfoldable pub handle_close : TcpConnection → TcpConnection
handle_close c =
    call close_callback (
      call connection_callback
        (record c { state = disconnected; reading = false; writing = false }))

-- handleRead: 0 bytes are the end of the stream, and an error is only logged. `on_message` is what
-- the callback leaves of the input buffer.
unfoldable pub handle_read : (Buffer → Buffer) → ReadResult → TcpConnection → TcpConnection
unfolding handle_close
handle_read on_message (failed errno) c = record c { input = read_fd (failed errno) c.input }
handle_read on_message (received xs) c =
    if length xs == 0
    then handle_close (record c { input = read_fd (received xs) c.input })
    else call message_callback (record c { input = on_message (read_fd (received xs) c.input) })

-- What follows a write of `n` > 0 bytes of the output buffer.
unfoldable pub after_flush : TcpConnection → TcpConnection
unfolding shutdown_in_loop
after_flush c =
    let done =
      call_if c.has_write_complete write_complete_callback (record c { writing = false }) in
    if readable_bytes c.output == 0
    then if is_disconnecting c.state then shutdown_in_loop done else done
    else c

unfoldable pub handle_write : WriteResult → TcpConnection → TcpConnection
unfolding after_flush
handle_write (write_failed errno) c = c
handle_write (written n) c =
    if c.writing && leb 1 n
    then after_flush
        (record c { wire = c.wire ++ take n (content c.output); output = retrieve n c.output })
    else c

-- What sendfile answers: an errno, or the bytes of the file that the kernel took.
pub data FileResult : Type 0 where
  file_failed : (errno : ℕ) → FileResult
  file_sent : (xs : Bytes) → FileResult

-- The functor that sends what remains.
abbrev pub queue_file : ℕ → ℕ → TcpConnection → TcpConnection
queue_file offset remaining c =
    if leb 1 remaining then queue_in_loop (send_file_functor offset remaining) c else c

-- sendFileInLoop. sendfile moves the offset by what it sent.
unfoldable pub send_file_in_loop : FileResult → ℕ → ℕ → TcpConnection → TcpConnection
send_file_in_loop (file_sent xs) offset count c =
    let sent = record c { wire = c.wire ++ xs } in
    if is_disconnecting c.state
    then c
    else if is_idle c
    then queue_file (offset + length xs) (count - length xs)
        (call_if ((count - length xs == 0) && c.has_write_complete) write_complete_callback sent)
    else queue_file offset count c
send_file_in_loop (file_failed errno) offset count c =
    if is_disconnecting c.state
    then c
    else if is_idle c && is_fault errno
    then c
    else queue_file offset count c

unfoldable pub send_file : Bool → FileResult → ℕ → ℕ → TcpConnection → TcpConnection
unfolding send_file_in_loop
send_file here r offset count c =
    if is_connected c.state
    then if here
      then send_file_in_loop r offset count c
      else queue_in_loop (send_file_functor offset count) c
    else c

-- The first functor of the queue runs, with what its system call answers.
unfoldable pub run_functor : WriteResult → FileResult → List Functor → TcpConnection → TcpConnection
unfolding send_in_loop shutdown_in_loop send_file_in_loop
run_functor r f [] c = c
run_functor r f (send_functor data_ ∷ fs) c = send_in_loop r data_ (record c { pending = fs })
run_functor r f (shutdown_functor ∷ fs) c = shutdown_in_loop (record c { pending = fs })
run_functor r f (send_file_functor offset count ∷ fs) c =
    send_file_in_loop f offset count (record c { pending = fs })
