-- ===== src/Net/TcpServer/Site.antt =====
-- The server's main loop and the loops of its connections at work: connections come up, close and
-- are removed. connectDestroyed is queued, so it runs after the earlier tasks of its loop;
-- connectEstablished is given to runInLoop, which runs it at once in the loop's own thread. A
-- connection closes first while it is up; TcpConnection::handleClose has no guard, so it may close
-- again at any time after that. Each time its close callback hands removeConnectionInLoop to the main
-- loop, which may run it at once.
use ai_chat_server.Base.{◌≡◌, ℕ, ◌-◌, ◌^◌, ◌<◌, Option, List, [], ◌∷◌, ◌++◌, Bytes}
use ai_chat_server.Net.TcpServer.{
  AcceptResult, handle_accept, TcpServer, Connection, Task, established_task, destroyed_task,
  new_server, remove_connection_in_loop,
}

-- The server with the tasks that have not run, the connections that are up, those whose removal
-- waits in the main loop, those that have closed, and the tasks run.
pub record Site : Type 0 where
  pub server : TcpServer
  pub up : List Connection
  pub closing : List Connection
  pub closed : List Connection
  pub ran : List Task

abbrev pub new_site : ℕ → Bytes → Bytes → Site
new_site loop ip name = record {
  server = new_server loop ip name;
  up = [];
  closing = [];
  closed = [];
  ran = [];
}

abbrev pub with_posted : Site → List (Option ℕ × Task) → TcpServer
with_posted s tasks = record s.server { posted = tasks }

unfoldable pub accept : AcceptResult → Site → Site
accept r s = record s { server = handle_accept r s.server }

-- connectEstablished and connectDestroyed, of the task between `before` and `after`.
unfoldable pub run_established :
    Connection → List (Option ℕ × Task) → List (Option ℕ × Task) → Site → Site
run_established c before after s = record s {
  server = with_posted s (before ++ after);
  up = c ∷ s.up;
  ran = s.ran ++ (established_task c.name ∷ []);
}

unfoldable pub run_destroyed : Bytes → List (Option ℕ × Task) → List (Option ℕ × Task) → Site → Site
run_destroyed n before after s = record s {
  server = with_posted s (before ++ after);
  ran = s.ran ++ (destroyed_task n ∷ []);
}

-- handleClose, with TcpServer::removeConnection as the close callback.
unfoldable pub close : Connection → List Connection → List Connection → Site → Site
close c before after s = record s {
  up = before ++ after;
  closing = s.closing ++ (c ∷ []);
  closed = c ∷ s.closed;
}

-- handleClose of a connection that has closed before.
unfoldable pub close_again : Connection → Site → Site
close_again c s = record s { closing = s.closing ++ (c ∷ []) }

unfoldable pub remove : Connection → List Connection → Site → Site
remove c later s = record s { server = remove_connection_in_loop c s.server; closing = later }

-- No task of a loop.
abbrev pub NoneOf : Option ℕ → List (Option ℕ × Task) → Type 0
NoneOf l [] = Unit {0}
NoneOf l ((m, t) ∷ tasks) = (¬ (l ≡ m)) × NoneOf l tasks

-- nextConnId_ is an int, which must not pass its limit.
pub data Step : Site → Site → Type 0 where
  accepts : (r : AcceptResult) (s : Site) → s.server.next_conn_id < 2 ^ 31 - 1 → Step s (accept r s)
  establishes :
      (c : Connection) (before after : List (Option ℕ × Task)) (s : Site)
      → s.server.posted ≡ before ++ (c.io_loop, established_task c.name) ∷ after
      → Step s (run_established c before after s)
  destroys :
      (l : Option ℕ) (n : Bytes) (before after : List (Option ℕ × Task)) (s : Site)
      → s.server.posted ≡ before ++ (l, destroyed_task n) ∷ after
      → NoneOf l before
      → Step s (run_destroyed n before after s)
  closes :
      (c : Connection) (before after : List Connection) (s : Site)
      → s.up ≡ before ++ c ∷ after
      → Step s (close c before after s)
  closes_again :
      (c : Connection) (before after : List Connection) (s : Site)
      → s.closed ≡ before ++ c ∷ after
      → Step s (close_again c s)
  removes :
      (c : Connection) (later : List Connection) (s : Site)
      → s.closing ≡ c ∷ later
      → Step s (remove c later s)

pub data Reached (loop : ℕ) (ip name : Bytes) : Site → Type 0 where
  fresh : Reached loop ip name (new_site loop ip name)
  later : {s t : Site} → Reached loop ip name s → Step s t → Reached loop ip name t
