-- ===== src/Net/TcpConnection/Tests.antt =====
-- Connections in a few steps.
use ai_chat_server.Base.{◌≡◌, refl, ◌≤◌, true, false, codes, List, [], ◌∷◌, ◌++◌, arith}
use ai_chat_server.Net.Buffer.{new, readable_bytes, append, ensure_writable_bytes, written}
use ai_chat_server.Net.Buffer.Invariant.{IsValid, new-IsValid}
use ai_chat_server.Net.TcpConnection.{
  TcpConnection, new_connection, connect_established, send, send_in_loop, after_write, keep_rest,
  shutdown, shutdown_in_loop, is_disconnecting, file_sent, send_file_in_loop, run_functor,
  send_file_functor,
}
use ai_chat_server.Net.TcpConnection.Steps.{Op, sending, shutting_down, step, run}
use ai_chat_server.Net.TcpConnection.Stream.{stream, added, added_data, added_all, run-stream}
use ai_chat_server.Net.TcpConnection.Watched.{is_disconnected}
use ai_chat_server.Net.TcpConnection.Closing.{opened}
use ai_chat_server.Net.TcpConnection.Draining.{writes, writes-drain}

abbrev start : TcpConnection
start = opened true true 100

-- The kernel takes two of the five bytes, then the writing side is to be shut.
abbrev partly : List Op
partly = sending true (written 2) (codes "hello") ∷ shutting_down true ∷ []

run-stream_example :
    IsValid (run partly (record start { output = new 8 })).output
    × (stream (run partly (record start { output = new 8 }))
        ≡ stream (record start { output = new 8 })
          ++ added_all partly (record start { output = new 8 }))
run-stream_example = run-stream partly (record start { output = new 8 }) (new-IsValid 8)

all_sent : added_all partly start ≡ codes "hello"
unfolding added_all added added_data step send send_in_loop connect_established new_connection new
all_sent = refl

waits_for_room : 1 ≤ readable_bytes (run partly start).output
unfolding run step send send_in_loop after_write keep_rest shutdown shutdown_in_loop
    connect_established new_connection new append ensure_writable_bytes
waits_for_room = omega arith

up_before : is_disconnected (run partly start).state ≡ false
unfolding run step send send_in_loop after_write keep_rest shutdown shutdown_in_loop
    connect_established new_connection new
up_before = refl

three_bytes : readable_bytes (run partly start).output ≤ 3
unfolding run step send send_in_loop after_write keep_rest shutdown shutdown_in_loop
    connect_established new_connection new append ensure_writable_bytes
three_bytes = omega arith

writes-drain_example :
    let end = run (writes (1 ∷ 1 ∷ 5 ∷ [])) (run partly start) in
    (end.wire ≡ added_all partly start)
    × (end.writing ≡ false)
    × (is_disconnecting (run partly start).state ≡ true → end.fin ≡ true)
writes-drain_example =
    writes-drain true true 100 partly (1 ∷ 1 ∷ 5 ∷ []) up_before waits_for_room three_bytes
      (omega arith, (omega arith, (omega arith, tt)))

-- sendfile that finds no more of the file leaves its functor in the queue again.
queued_again :
    (run_functor (written 0) (file_sent []) (send_file_functor 7 3 ∷ []) start).pending
    ≡ send_file_functor 7 3 ∷ []
unfolding run_functor send_file_in_loop connect_established new_connection new
queued_again = refl
