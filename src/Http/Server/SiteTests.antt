-- ===== src/Http/Server/SiteTests.antt =====
-- One connection of the HTTP server comes up and sends the start of a request.
use ai_chat_server.Base.{
  ◌≡◌, refl, ◌≤◌, ◌<◌, none, some, Bytes, codes, c_str, bytes_eq_refl, [], length, arith,
}
use ai_chat_server.Net.Buffer.{Buffer, initial_size, received, read_fd}
use ai_chat_server.Net.Buffer.Invariant.{IsValid, new-IsValid, read_fd-IsValid}
use ai_chat_server.Net.TcpServer.{
  accepted, handle_accept, new_connection, new_server, get_next_loop, new_pool, Connection,
  conn_name,
}
use ai_chat_server.Net.TcpServer.Site.{accept, run_established}
use ai_chat_server.Net.TcpServer.Stages.{named}
use ai_chat_server.Http.StaticFile.{FileSystem}
use ai_chat_server.Http.Server.{find_context, Contexts, Reaction, on_message}
use ai_chat_server.Http.Server.Sessions.{on_message_total}
use ai_chat_server.Http.Server.Site.{
  HttpSite, new_input, new_http_site, open_connection, hear, accepts, opens, hears, HttpReached,
  at_start, and_then,
}
use ai_chat_server.Http.Server.Own.{IsOwn}
use ai_chat_server.Http.Server.Isolated.{Reached-isolated}

abbrev no_files : FileSystem
no_files path = none

abbrev ip_port : Bytes
ip_port = codes "1.2.3.4:80"

abbrev start_site : HttpSite
start_site = new_http_site 1 ip_port (codes "chat")

abbrev accepted_site : HttpSite
accepted_site = record start_site { site = accept (accepted 5) start_site.site }

abbrev conn : Connection
conn = record { name = conn_name (codes "chat") ip_port 1; io_loop = some 1; sockfd = 5 }

abbrev open_site : HttpSite
open_site = open_connection conn [] [] accepted_site

abbrev first_bytes : Bytes
first_bytes = codes "GET / HTTP/1.1\r\n"

own_input-IsValid : IsValid (read_fd (received first_bytes) (open_site.inputs conn.name))
unfolding open_connection new_input
own_input-IsValid =
    read_fd-IsValid (received first_bytes) (open_site.inputs conn.name)
      (rw (bytes_eq_refl conn.name) (new-IsValid initial_size))

abbrev answered :
    (re : Reaction) × (cs : Contexts) × (b : Buffer) × (on_message no_files
        (codes "www")
        conn.name
        open_site.contexts
        (read_fd (received first_bytes) (open_site.inputs conn.name))
      ≡ some (re, cs, b))
answered =
    let (re, cs, b, e, _, _) =
      on_message_total no_files (codes "www") conn.name open_site.contexts
        (read_fd (received first_bytes) (open_site.inputs conn.name)) own_input-IsValid in
    (re, cs, b, e)

abbrev heard_site : HttpSite
heard_site = hear conn.name first_bytes answered.1 answered.2 open_site

conn_up : 0 < named conn.name open_site.site.up
unfolding open_connection run_established
conn_up = ground (arith, bytes_eq_refl conn.name)

heard_site-Reached : HttpReached no_files (codes "www") 1 ip_port (codes "chat") heard_site
unfolding accept handle_accept new_connection new_server get_next_loop new_pool
heard_site-Reached =
    and_then
      (and_then (and_then at_start (accepts (accepted 5) start_site (omega arith)))
        (opens conn [] [] accepted_site refl))
      (hears conn.name first_bytes answered.0 answered.1 answered.2 open_site conn_up answered.3)

short_ip_port : length (c_str ip_port) ≤ 41
unfolding c_str
short_ip_port = omega arith

Reached-isolated_example :
    (0 < named conn.name heard_site.site.up → IsOwn no_files (codes "www") conn.name heard_site)
    × (named conn.name heard_site.site.up ≡ 0 → find_context conn.name heard_site.contexts ≡ none)
Reached-isolated_example =
    Reached-isolated no_files (codes "www") conn.name short_ip_port heard_site-Reached
