-- ===== src/Net/TcpServer.antt =====
-- include/net/TcpServer.h, src/net/TcpServer.cc, include/net/EventLoopThreadPool.h and
-- src/net/EventLoopThreadPool.cc, with what src/net/Acceptor.cc accepts: who gets a new connection,
-- and the map of connections. A loop is its number; what a thread's loop is called is an argument.
-- The functors given to loops are kept in order.
pub mod Rounds
pub mod Names
pub mod Site
pub mod Stages
pub mod Holders
pub mod Lives
mod Tests
use ai_chat_server.Base.{
  ℕ, zero, suc, ◌+◌, ◌-◌, ◌%◌, ◌^◌, Bool, true, false, Option, none, some, Bytes, List, [], ◌∷◌,
  ◌++◌, length, take, get_elem?, ◌==◌, leb, ltb, bytes_eq, c_str, codes, if◌then◌else◌,
}
use ai_chat_server.Base.Decimal.{to_decimal}

pub record EventLoopThreadPool : Type 0 where
  pub base_loop : ℕ
  pub started : Bool
  pub num_threads : ℕ
  pub next : ℕ
  pub loops : List ℕ

unfoldable pub new_pool : ℕ → EventLoopThreadPool
new_pool base = record { base_loop = base; started = false; num_threads = 0; next = 0; loops = [] }

unfoldable pub set_thread_num : ℕ → EventLoopThreadPool → EventLoopThreadPool
set_thread_num n p = record p { num_threads = n }

-- The loops of threads i, i + 1, …, `n` of them.
unfoldable pub start_loops : (ℕ → ℕ) → ℕ → ℕ → List ℕ
start_loops start_loop i zero = []
start_loops start_loop i (suc n) = start_loop i ∷ start_loops start_loop (suc i) n

unfoldable pub start_pool : (ℕ → ℕ) → EventLoopThreadPool → EventLoopThreadPool
unfolding start_loops
start_pool start_loop p = record p {
  started = true;
  loops = p.loops ++ start_loops start_loop 0 p.num_threads;
}

abbrev next_of : List ℕ → EventLoopThreadPool → Option ℕ × EventLoopThreadPool
next_of [] p = (some p.base_loop, p)
next_of (l ∷ ls) p = (
  get_elem? (l ∷ ls) p.next,
  record p { next = if leb (length (l ∷ ls)) (suc p.next) then 0 else suc p.next },
)

-- getNextLoop; none is a use of an element that is not there.
unfoldable pub get_next_loop : EventLoopThreadPool → Option ℕ × EventLoopThreadPool
get_next_loop p = next_of p.loops p

abbrev all_of : List ℕ → ℕ → List ℕ
all_of [] base = base ∷ []
all_of (l ∷ ls) base = l ∷ ls

unfoldable pub get_all_loops : EventLoopThreadPool → List ℕ
get_all_loops p = all_of p.loops p.base_loop

-- A connection, as far as the server knows it.
pub record Connection : Type 0 where
  pub name : Bytes
  pub io_loop : Option ℕ
  pub sockfd : ℕ

pub data Task : Type 0 where
  listen_task : Task
  established_task destroyed_task : (name : Bytes) → Task

pub record TcpServer : Type 0 where
  pub loop : ℕ
  pub ip_port : Bytes
  pub name : Bytes
  pub pool : EventLoopThreadPool
  pub started : ℕ
  pub next_conn_id : ℕ
  pub connections : List (Bytes × Connection)
  pub posted : List (Option ℕ × Task)

unfoldable pub new_server : ℕ → Bytes → Bytes → TcpServer
unfolding new_pool
new_server loop ip_port name = record {
  loop = loop;
  ip_port = ip_port;
  name = name;
  pool = new_pool loop;
  started = 0;
  next_conn_id = 1;
  connections = [];
  posted = [];
}

unfoldable pub set_server_threads : ℕ → TcpServer → TcpServer
unfolding set_thread_num
set_server_threads n s = record s { pool = set_thread_num n s.pool }

-- start: only the first call does anything but count.
unfoldable pub start_server : (ℕ → ℕ) → TcpServer → TcpServer
unfolding start_pool
start_server start_loop s =
    if s.started == 0
    then record s {
      started = suc s.started;
      pool = start_pool start_loop s.pool;
      posted = s.posted ++ ((some s.loop, listen_task) ∷ []);
    }
    else record s { started = suc s.started }

-- The int of these low 32 bits, as snprintf("%d") prints it.
unfoldable pub int_text : ℕ → Bytes
int_text id =
    let low = id % 2 ^ 32 in
    if ltb low (2 ^ 31) then to_decimal low else b'-' ∷ to_decimal (2 ^ 32 - low)

-- name_ + "-ip:port#id", where the second part is printed into 64 bytes.
unfoldable pub conn_name : Bytes → Bytes → ℕ → Bytes
unfolding int_text
conn_name name ip_port id =
    name ++ take 63 (codes "-" ++ (c_str ip_port ++ (codes "#" ++ int_text id)))

unfoldable pub find_connection : Bytes → List (Bytes × Connection) → Option Connection
find_connection n [] = none
find_connection n ((m, c) ∷ cs) = if bytes_eq m n then some c else find_connection n cs

unfoldable pub erase_connection : Bytes → List (Bytes × Connection) → List (Bytes × Connection)
erase_connection n [] = []
erase_connection n ((m, c) ∷ cs) =
    let rest = erase_connection n cs in if bytes_eq m n then rest else (m, c) ∷ rest

-- newConnection: the connection that has the name, if there is one, is replaced.
unfoldable pub new_connection : ℕ → TcpServer → TcpServer
unfolding get_next_loop conn_name erase_connection
new_connection sockfd s =
    let (io_loop, pool) = get_next_loop s.pool in
    let n = conn_name s.name s.ip_port s.next_conn_id in
    let c : Connection = record { name = n; io_loop = io_loop; sockfd = sockfd } in
    record s {
      pool = pool;
      next_conn_id = suc s.next_conn_id;
      connections = (n, c) ∷ erase_connection n s.connections;
      posted = s.posted ++ ((io_loop, established_task n) ∷ []);
    }

-- What accept answers: an errno, or the descriptor of a new connection.
pub data AcceptResult : Type 0 where
  accept_failed : (errno : ℕ) → AcceptResult
  accepted : (sockfd : ℕ) → AcceptResult

-- Acceptor::handleRead, with newConnection as its callback: an error is only logged.
unfoldable pub handle_accept : AcceptResult → TcpServer → TcpServer
unfolding new_connection
handle_accept (accept_failed errno) s = s
handle_accept (accepted sockfd) s = new_connection sockfd s

unfoldable pub remove_connection_in_loop : Connection → TcpServer → TcpServer
unfolding erase_connection
remove_connection_in_loop c s = record s {
  connections = erase_connection c.name s.connections;
  posted = s.posted ++ ((c.io_loop, destroyed_task c.name) ∷ []);
}

-- The destructor: each connection is destroyed in its loop, and the map is left with empty pointers.
unfoldable pub destroy_all : List (Bytes × Connection) → List (Option ℕ × Task)
destroy_all [] = []
destroy_all ((n, c) ∷ cs) = (c.io_loop, destroyed_task c.name) ∷ destroy_all cs

unfoldable pub destroy_server : TcpServer → TcpServer
unfolding destroy_all
destroy_server s = record s { connections = []; posted = s.posted ++ destroy_all s.connections }

-- The listening socket, and whether its channel waits for connections. The constructor sets up the
-- socket, the destructor takes the channel out of the poller.
pub record Acceptor : Type 0 where
  pub listenfd : ℕ
  pub listenning : Bool
  pub reading : Bool

unfoldable pub new_acceptor : ℕ → Acceptor
new_acceptor fd = record { listenfd = fd; listenning = false; reading = false }

unfoldable pub listen : Acceptor → Acceptor
listen a = record a { listenning = true; reading = true }

unfoldable pub destroy_acceptor : Acceptor → Acceptor
destroy_acceptor a = record a { reading = false }
