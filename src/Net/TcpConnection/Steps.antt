-- ===== src/Net/TcpConnection/Steps.antt =====
-- The steps that concern the sending side, in any order.
use ai_chat_server.Base.{ℕ, Bool, Bytes, List, [], ◌∷◌}
use ai_chat_server.Net.Buffer.{Buffer, ReadResult, WriteResult}
use ai_chat_server.Net.TcpConnection.{
  TcpConnection, send, shutdown, connect_destroyed, handle_read, handle_write, FileResult,
  send_file, run_functor,
}

-- A step that concerns the sending side.
pub data Op : Type 0 where
  sending : (here : Bool) (r : WriteResult) (data_ : Bytes) → Op
  writable : (r : WriteResult) → Op
  running : (r : WriteResult) (f : FileResult) → Op
  file_sending : (here : Bool) (f : FileResult) (offset count : ℕ) → Op
  reading : (on_message : Buffer → Buffer) (r : ReadResult) → Op
  shutting_down : (here : Bool) → Op
  destroying : Op

unfoldable pub step : Op → TcpConnection → TcpConnection
step (sending here r data_) c = send here r data_ c
step (writable r) c = handle_write r c
step (running r f) c = run_functor r f c.pending c
step (file_sending here f offset count) c = send_file here f offset count c
step (reading on_message r) c = handle_read on_message r c
step (shutting_down here) c = shutdown here c
step destroying c = connect_destroyed c

unfoldable pub run : List Op → TcpConnection → TcpConnection
run [] c = c
run (o ∷ os) c = run os (step o c)
