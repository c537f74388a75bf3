-- ===== src/Http/Tests.antt =====
-- The theorems of the HTTP layer at concrete texts.
use ai_chat_server.Base.{
  inr, join, ◌≡◌, ℕ, refl, suc, Bool, true, false, none, some, Bytes, codes, List, [], ◌∷◌, ◌++◌,
  length, arith, bytes_eq, case_eq, is_empty, c_str, search_crlf, find_byte, if◌then◌else◌,
}
use ai_chat_server.Base.Decimal.{to_decimal}
use ai_chat_server.Net.Buffer.{
  Buffer, new, content, initial_size, cheap_prepend, received, read_fd, retrieve, retrieve_all,
}
use ai_chat_server.Net.Buffer.Invariant.{IsValid, new-IsValid}
use ai_chat_server.Http.Headers.{assign}
use ai_chat_server.Http.Lines.{split_message}
use ai_chat_server.Http.Request.{
  Request, new_request, get, http11, set_method, method_of, trim, add_header, get_header,
}
use ai_chat_server.Http.Request.Laws.{get_header-add_header}
use ai_chat_server.Http.Context.{
  Context, new_context, parse_request, parse_loop, parse_step, process_request_line,
}
use ai_chat_server.Http.Context.Feed.{
  feed, concat, verdict, observe, feed-concat, parse_request_total,
}
use ai_chat_server.Http.Response.{
  Response, new_response, bad_request, append_to_buffer, code_number, phrase, reason_phrase,
}
use ai_chat_server.Http.Response.Framing.{IsClean, response_lines, split_message-append_to_buffer}
use ai_chat_server.Http.Chunked.{make_sse_event}
use ai_chat_server.Http.Chunked.Decode.{dechunk}
use ai_chat_server.Http.StaticFile.{FileSystem, has_dots, resolve_path}
use ai_chat_server.Http.StaticFile.Laws.{resolve_path-below}
use ai_chat_server.Http.Router.{Router, Handler, route, add_route}
use ai_chat_server.Http.Router.Laws.{route-add_route}
use ai_chat_server.Http.Server.{
  send, shutdown, Contexts, handled, find_context, set_context, react, handle_request, on_message,
  send_error, starts_with, context_for,
}
use ai_chat_server.Http.Server.Confined.{AgreeBelow, handle_request-confined}
use ai_chat_server.Http.Server.Errors.{send_error-split_message}
use ai_chat_server.Http.Server.Stream.{
  AgentRun, agent_status, agent_error, stream_head, handle_agent_stream,
}
use ai_chat_server.Http.Server.Stream.Decoded.{sent, error_text, dechunk-handle_agent_stream}

abbrev start : Buffer
start = new initial_size

abbrev start-IsValid : IsValid start
start-IsValid = new-IsValid initial_size

abbrev halves : List Bytes
halves = codes "TP/1.1\r\nHost: x\r\n" ∷ codes "\r\n" ∷ []

feed-concat_example :
    verdict (observe (feed new_context start (codes "GET /a HT" ∷ halves)))
    ≡ verdict (
        observe (
          parse_request new_context
            (read_fd (received (concat (codes "GET /a HT" ∷ halves))) start)))
feed-concat_example = feed-concat new_context start (codes "GET /a HT") halves start-IsValid

-- A buffer of 36 bytes that holds one whole request.
abbrev arrived : Buffer
arrived = record {
  storage = codes "--------GET /a HTTP/1.1\r\nHost: x\r\n\r\n";
  reader_index = 8;
  writer_index = 36;
}

arrived-IsValid : IsValid arrived
arrived-IsValid = record { prepend = ground arith; ordered = ground arith; inside = ground arith }

parse_request_total_example :
    (ok : Bool) × (c' : Context) × (b' : Buffer) × (parse_request new_context arrived
      ≡ some (ok, c', b'))
    × IsValid b'
parse_request_total_example = parse_request_total new_context arrived arrived-IsValid

abbrev plain_dump : Bytes → Bytes
plain_dump text = text

abbrev failed_run : AgentRun
failed_run = record {
  pieces = codes "one" ∷ [] ∷ codes "two" ∷ [];
  success = false;
  error = codes "down";
}

dechunk-handle_agent_stream_example :
    (body : Bytes) × (rounds : ℕ) × (sent (handle_agent_stream plain_dump true failed_run)
      ≡ stream_head true ++ body)
    × (dechunk rounds body
        ≡ some (
          agent_status plain_dump ++ (join failed_run.pieces ++ error_text plain_dump failed_run),
          [],
        ))
dechunk-handle_agent_stream_example = dechunk-handle_agent_stream plain_dump true failed_run (
    unfold agent_status agent_error make_sse_event in
    (ground arith, (ground arith, (ground arith, (ground arith, (ground arith, tt))))))

abbrev files : FileSystem
files path = if bytes_eq path (codes "www/index.html") then some (codes "<p>hi</p>") else none

abbrev no_files : FileSystem
no_files path = none

abbrev request : Request
request = record new_request { method = get; path = codes "/../secret" }

handle_request-confined_example :
    (AgreeBelow files files (codes "www")
      → handle_request files (codes "www") request ≡ handle_request files (codes "www") request)
    × (starts_with (codes "/api/") request.path ≡ true
        → handle_request files (codes "www") request ≡ handle_request files (codes "www") request)
handle_request-confined_example = handle_request-confined files files (codes "www") request

send_error-split_message_example :
    (text : Bytes) × (send_error bad_request (codes "Bad Request") ≡ send text ∷ shutdown ∷ [])
    × (split_message 5 text
        ≡ some (
          (codes "HTTP/1.1 " ++ (to_decimal 400 ++ (32 ∷ codes "Bad Request")))
              ∷ codes "Connection: close"
              ∷ (codes "Content-Length: " ++ to_decimal 11)
              ∷ codes "Content-Type: text/plain; charset=utf-8"
              ∷ [],
          codes "Bad Request",
        ))
send_error-split_message_example =
    unfold code_number in
    send_error-split_message bad_request 66 (codes "ad Request") (ground arith) (ground arith)
      (ground arith)

abbrev page : Response
page = record (new_response true) {
  headers = (codes "Content-Type", codes "text/html") ∷ [];
  body = codes "<p>hi</p>";
}

page-IsClean : IsClean page
page-IsClean = record {
  short = unfold phrase is_empty reason_phrase c_str in ground arith;
  no_break = unfold phrase is_empty reason_phrase c_str in ground arith;
  clean = ground arith;
  sized = ground arith;
}

split_message-append_to_buffer_example :
    (text : Bytes) × (content (append_to_buffer page start) ≡ content start ++ text)
    × (split_message (suc (length (response_lines page))) text
        ≡ some (response_lines page, page.body))
split_message-append_to_buffer_example =
    split_message-append_to_buffer page start page-IsClean start-IsValid

abbrev answer_text : Bytes
answer_text = codes "An answer of a little more than forty-eight bytes, in two pieces."

resolve_path-below_example :
    (rest : Bytes) × (has_dots rest ≡ false)
    × (resolve_path (codes "www") (codes "/../secret") ≡ codes "www" ++ (b'/' ∷ rest))
resolve_path-below_example = resolve_path-below (codes "www") (codes "/../secret")

abbrev hello : Handler
hello req resp = record resp { body = codes "hello" }

abbrev empty_router : Router
empty_router = record { routes = []; not_found_handler = none }

route-add_route_example :
    ((get ≡ request.method) × (codes "/hello" ≡ request.path)
      → route (add_route get (codes "/hello") hello empty_router) request (new_response true)
        ≡ (true, hello request (new_response true)))
    × (¬ ((get ≡ request.method) × (codes "/hello" ≡ request.path))
        → route (add_route get (codes "/hello") hello empty_router) request (new_response true)
          ≡ route empty_router request (new_response true))
route-add_route_example =
    route-add_route empty_router get (codes "/hello") hello request (new_response true)

get_header-add_header_example :
    get_header (codes "host") (add_header (codes "Host") (codes " x y ") request) ≡ (
      if case_eq (codes "Host") (codes "host")
      then codes "x y"
      else get_header (codes "host") request)
get_header-add_header_example =
    get_header-add_header (codes "Host") (codes " ") (codes "x y") (codes " ") (codes "host")
      request (refl, tt) (refl, tt) (inr (refl, refl)) tt

abbrev host_request : Request
host_request = record new_request {
  method = get;
  version = http11;
  path = codes "/a";
  headers = (codes "Host", codes "x") ∷ [];
}

abbrev emptied : Buffer
emptied = record arrived { reader_index = cheap_prepend; writer_index = cheap_prepend }

abbrev served : Contexts
served = (codes "c1", new_context) ∷ []

arrived-handled :
    on_message files (codes "www") (codes "c1") [] arrived
    ≡ some (handled host_request (handle_request files (codes "www") host_request), served, emptied)
unfolding on_message context_for find_context set_context react parse_request parse_loop parse_step
    content retrieve retrieve_all search_crlf process_request_line find_byte set_method method_of
    bytes_eq is_empty get_header add_header assign case_eq c_str trim
arrived-handled = refl
