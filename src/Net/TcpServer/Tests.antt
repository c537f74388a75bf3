-- ===== src/Net/TcpServer/Tests.antt =====
-- A server with two threads.
use ai_chat_server.Base.{
  ◌≡◌, refl, ◌+◌, ◌-◌, ◌≤◌, ◌<◌, ◌^◌, arith, none, some, codes, c_str, [], ◌∷◌, length,
}
use ai_chat_server.Base.Decimal.{to_decimal}
use ai_chat_server.Net.TcpServer.{
  accepted, handle_accept, EventLoopThreadPool, new_pool, set_thread_num, start_loops, start_pool,
  TcpServer, Connection, new_server, int_text, conn_name, find_connection, new_connection,
  get_next_loop,
}
use ai_chat_server.Net.TcpServer.Site.{
  Site, new_site, accept, run_established, close, close_again, accepts, establishes, closes,
  closes_again, Reached, fresh, later,
}
use ai_chat_server.Net.TcpServer.Stages.{ups, named, waiting_ups, removals}
use ai_chat_server.Net.TcpServer.Holders.{Held}
use ai_chat_server.Net.TcpServer.Lives.{Reached-lives}
use ai_chat_server.Net.TcpServer.Names.{accepting, step, run, run-fresh_name}

abbrev two_threads : EventLoopThreadPool
two_threads = start_pool (λ i. 10 + i) (set_thread_num 2 (new_pool 1))

two_loops : 1 ≤ length two_threads.loops
unfolding start_pool set_thread_num new_pool start_loops
two_loops = omega arith

first_next : two_threads.next ≡ 0
unfolding start_pool set_thread_num new_pool
first_next = refl

abbrev busy : TcpServer
busy =
    run (accepting (accepted 5) ∷ accepting (accepted 6) ∷ [])
      (new_server 1 (codes "1.2.3.4:80") (codes "chat"))

short_ip : length (c_str (codes "1.2.3.4:80")) ≤ 41
unfolding c_str
short_ip = omega arith

few : busy.next_conn_id < 2 ^ 31
unfolding run step handle_accept new_connection get_next_loop new_server new_pool
few = omega arith

run-fresh_name_example :
    find_connection
      (conn_name (codes "chat") (codes "1.2.3.4:80") busy.next_conn_id)
      busy.connections
    ≡ none
run-fresh_name_example =
    run-fresh_name (accepting (accepted 5) ∷ accepting (accepted 6) ∷ []) 1 (codes "1.2.3.4:80")
      (codes "chat") short_ip few

-- A connection is accepted and comes up.
abbrev first_site : Site
first_site = accept (accepted 5) (new_site 1 (codes "1.2.3.4:80") (codes "chat"))

abbrev first_conn : Connection
first_conn = record {
  name = conn_name (codes "chat") (codes "1.2.3.4:80") 1;
  io_loop = some 1;
  sockfd = 5;
}

abbrev second_site : Site
second_site = run_established first_conn [] [] first_site

second_site-Reached : Reached 1 (codes "1.2.3.4:80") (codes "chat") second_site
unfolding accept run_established handle_accept new_connection new_server get_next_loop new_pool
second_site-Reached =
    later
      (later fresh
        (accepts (accepted 5) (new_site 1 (codes "1.2.3.4:80") (codes "chat")) (omega arith)))
      (establishes first_conn [] [] first_site refl)

Reached-lives_example :
    (ups first_conn.name second_site.ran ≤ 1)
    × (ups first_conn.name second_site.ran
        ≡ named first_conn.name second_site.up + named first_conn.name second_site.closed)
    × (0 < removals first_conn.name second_site
        → (ups first_conn.name second_site.ran ≡ 1) × (named first_conn.name second_site.up ≡ 0))
    × (0 < waiting_ups first_conn.name second_site + named first_conn.name second_site.up
        → Held first_conn.name second_site)
Reached-lives_example = Reached-lives first_conn.name short_ip second_site-Reached

-- The closed connection may close again.
third_site-Reached :
    Reached 1
      (codes "1.2.3.4:80")
      (codes "chat")
      (close_again first_conn (close first_conn [] [] second_site))
unfolding close run_established accept handle_accept new_connection new_server get_next_loop
    new_pool
third_site-Reached =
    later (later second_site-Reached (closes first_conn [] [] second_site refl))
      (closes_again first_conn [] [] (close first_conn [] [] second_site) refl)

-- After 2 ^ 31 - 1 the int would be printed as a negative one.
wrapped_text : int_text (2 ^ 32 - 1) ≡ codes "-1"
unfolding int_text to_decimal
wrapped_text = refl
