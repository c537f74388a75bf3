-- ===== src/Http/Server/Site.antt =====
-- The HTTP server on top of its TcpServer: connections come up, send bytes and close, in any order,
-- each with the input buffer of its TcpConnection. The callbacks are those that the constructor
-- sets, onConnection and onMessage.
use ai_chat_server.Base.{
  ◌≡◌, ℕ, ◌-◌, ◌^◌, ◌<◌, true, false, Option, none, some, Bytes, List, [], ◌∷◌, ◌++◌, bytes_eq,
  if◌then◌else◌,
}
use ai_chat_server.Net.Buffer.{Buffer, new, initial_size, received, read_fd}
use ai_chat_server.Net.TcpServer.{AcceptResult, Connection, Task, established_task, destroyed_task}
use ai_chat_server.Net.TcpServer.Site
use ai_chat_server.Net.TcpServer.Site.{
  accept, run_established, run_destroyed, close, close_again, remove, new_site,
}
use ai_chat_server.Net.TcpServer.Stages.{named}
use ai_chat_server.Http.Context.{Context, parse_request}
use ai_chat_server.Http.StaticFile.{FileSystem}
use ai_chat_server.Http.Server.{Contexts, Reaction, react, on_connection, on_message}

-- With what each connection's socket has given since it came up, piece by piece.
pub record HttpSite : Type 0 where
  pub site : Site.Site
  pub contexts : Contexts
  pub inputs : Bytes → Buffer
  pub heard : Bytes → List Bytes

unfoldable pub new_input : Buffer
new_input = new initial_size

abbrev pub new_http_site : ℕ → Bytes → Bytes → HttpSite
new_http_site loop ip name = record {
  site = new_site loop ip name;
  contexts = [];
  inputs = λ n. new_input;
  heard = λ n. [];
}

abbrev pub set_at {ℓ} : {A : Type ℓ} → Bytes → A → (Bytes → A) → Bytes → A
set_at n a f m = if bytes_eq n m then a else f m

-- connectEstablished, with onConnection.
unfoldable pub open_connection :
    Connection → List (Option ℕ × Task) → List (Option ℕ × Task) → HttpSite → HttpSite
open_connection c before after s = record {
  site = run_established c before after s.site;
  contexts = on_connection true c.name s.contexts;
  inputs = set_at c.name new_input s.inputs;
  heard = set_at c.name [] s.heard;
}

-- handleClose, with onConnection.
unfoldable pub close_connection :
    Connection → List Connection → List Connection → HttpSite → HttpSite
close_connection c before after s = record s {
  site = close c before after s.site;
  contexts = on_connection false c.name s.contexts;
}

-- handleClose of a connection that has closed before, with onConnection.
unfoldable pub close_connection_again : Connection → HttpSite → HttpSite
close_connection_again c s = record s {
  site = close_again c s.site;
  contexts = on_connection false c.name s.contexts;
}

-- handleRead: some bytes, and what onMessage makes of the buffer.
unfoldable pub hear : Bytes → Bytes → Contexts → Buffer → HttpSite → HttpSite
hear n chunk contexts b s = record s {
  contexts = contexts;
  inputs = set_at n b s.inputs;
  heard = set_at n (s.heard n ++ (chunk ∷ [])) s.heard;
}

module _ (files : FileSystem) (root : Bytes) where
  -- The steps of the TcpServer; those with a callback move the HTTP server's state as well.
  pub data HttpStep : HttpSite → HttpSite → Type 0 where
    accepts :
        (r : AcceptResult) (s : HttpSite)
        → s.site.server.next_conn_id < 2 ^ 31 - 1
        → HttpStep s (record s { site = accept r s.site })
    destroys :
        (l : Option ℕ) (n : Bytes) (before after : List (Option ℕ × Task)) (s : HttpSite)
        → s.site.server.posted ≡ before ++ (l, destroyed_task n) ∷ after
        → Site.NoneOf l before
        → HttpStep s (record s { site = run_destroyed n before after s.site })
    removes :
        (c : Connection) (later : List Connection) (s : HttpSite)
        → s.site.closing ≡ c ∷ later
        → HttpStep s (record s { site = remove c later s.site })
    opens :
        (c : Connection) (before after : List (Option ℕ × Task)) (s : HttpSite)
        → s.site.server.posted ≡ before ++ (c.io_loop, established_task c.name) ∷ after
        → HttpStep s (open_connection c before after s)
    shuts :
        (c : Connection) (before after : List Connection) (s : HttpSite)
        → s.site.up ≡ before ++ c ∷ after
        → HttpStep s (close_connection c before after s)
    shuts_again :
        (c : Connection) (before after : List Connection) (s : HttpSite)
        → s.site.closed ≡ before ++ c ∷ after
        → HttpStep s (close_connection_again c s)
    hears :
        (n chunk : Bytes) (re : Reaction) (contexts : Contexts) (b : Buffer) (s : HttpSite)
        → 0 < named n s.site.up
        → on_message files root n s.contexts (read_fd (received chunk) (s.inputs n))
          ≡ some (re, contexts, b)
        → HttpStep s (hear n chunk contexts b s)

  pub data HttpReached (loop : ℕ) (ip name : Bytes) : HttpSite → Type 0 where
    at_start : HttpReached loop ip name (new_http_site loop ip name)
    and_then :
        {s t : HttpSite} → HttpReached loop ip name s → HttpStep s t → HttpReached loop ip name t

  -- One connection alone: what its parser and its buffer become by a piece of input, and by many.
  unfoldable pub serve : Bytes → Option (Context × Buffer) → Option (Context × Buffer)
  serve chunk none = none
  serve chunk (some (c, b)) = elim (parse_request c (read_fd (received chunk) b)) [
    | none ↦ none
    | some (ok, c', b') ↦ some ((react files root ok c').1, b')
  ]

  unfoldable pub session : List Bytes → Option (Context × Buffer) → Option (Context × Buffer)
  session [] o = o
  session (chunk ∷ chunks) o = session chunks (serve chunk o)
