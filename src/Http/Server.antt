-- ===== src/Http/Server.antt =====
-- include/http/HttpServer.h and src/http/HttpServer.cc: the parser of each connection, and what a
-- request is answered with. What the I/O thread does for a connection is a list of actions; the
-- work that goes to the executor is in Stream. Locks, logging and callbacks are left out: each
-- function here is the critical part of a callback.
pub mod Sessions
pub mod Confined
pub mod Errors
pub mod Delivery
pub mod Stream
pub mod Chat
pub mod Site
pub mod Own
pub mod Isolated
mod Tests
mod SiteTests
use ai_chat_server.Base.{
  ℕ, ◌+◌, ◌*◌, Bool, true, false, not, ◌&&◌, ◌||◌, Option, none, some, Bytes, codes, List, [], ◌∷◌,
  ◌++◌, length, bytes_eq, if◌then◌else◌, ltb, ◌==◌, is_empty, ite,
}
use ai_chat_server.Net.Buffer.{Buffer, new, content, initial_size, retrieve_all_as_string}
use ai_chat_server.Http.Request.{
  Method, get, post, patch, delete, Request, method_string, keep_alive,
}
use ai_chat_server.Http.Response.{
  StatusCode, bad_request, method_not_allowed, payload_too_large, Response, new_response,
  set_content_type, append_to_buffer,
}
use ai_chat_server.Http.Context.{Context, new_context, got_all?, parse_request}
use ai_chat_server.Http.StaticFile.{FileSystem, handle, respond_not_found}
use ai_chat_server.Http.Router.{Router, Method-discrete, route}

pub data Action : Type 0 where
  send : (bytes : Bytes) → Action
  shutdown : Action

abbrev pub closing : Bool → List Action
closing true = shutdown ∷ []
closing false = []

unfoldable pub send_response : Response → List Action
send_response r =
    let (text, _) = retrieve_all_as_string (append_to_buffer r (new initial_size)) in
    send text ∷ closing r.close_connection

unfoldable pub error_response : StatusCode → Bytes → Response
error_response code msg =
    record (set_content_type (codes "text/plain; charset=utf-8")
      (record (new_response true) { status_code = code; status_message = msg })) { body = msg }

unfoldable pub send_error : StatusCode → Bytes → List Action
unfolding error_response
send_error code msg = send_response (error_response code msg)

-- Who answers a request: the agent's stream, the model, the agent's proxy, or this thread.
pub data Handling : Type 0 where
  agent_stream : (upstream_path : Bytes) (close : Bool) → Handling
  chat : (close : Bool) → Handling
  agent_json : (method : Bytes) (upstream_path : Bytes) (close : Bool) → Handling
  answered : List Action → Handling

-- text.rfind(prefix, 0) == 0
unfoldable pub starts_with : Bytes → Bytes → Bool
starts_with [] text = true
starts_with (x ∷ xs) [] = false
starts_with (x ∷ xs) (y ∷ ys) = x == y && starts_with xs ys

abbrev pub is_method : Method → Method → Bool
is_method a b = ite (Method-discrete a b) true false

unfoldable pub upstream_path : Request → Bytes
upstream_path req = if is_empty req.query then req.path else req.path ++ (b'?' ∷ req.query)

-- The constructor's fallback route: the static handler, its answer not looked at.
abbrev pub server_router : FileSystem → Bytes → Router
server_router files root = record {
  routes = [];
  not_found_handler = some (λ req resp. (handle files root req.path resp).1);
}

unfoldable pub answer_static : FileSystem → Bytes → Request → Bool → List Action
answer_static files root req close =
    let (found, resp) = route (server_router files root) req (new_response close) in
    send_response (if found then resp else respond_not_found resp)

unfoldable pub answer_local : FileSystem → Bytes → Request → Bool → List Action
answer_local files root req close =
    if is_method req.method get
      || is_method req.method post
      || is_method req.method patch
      || is_method req.method delete
    then answer_static files root req close
    else send_error method_not_allowed (codes "Method Not Allowed")

unfoldable pub handle_request : FileSystem → Bytes → Request → Handling
handle_request files root req =
    let close = not (keep_alive req) in
    let is_post = is_method req.method post in
    if is_post
      && (bytes_eq req.path (codes "/api/chat") || bytes_eq req.path (codes "/api/chat/stream"))
    then agent_stream (codes "/api/chat/stream") close
    else if is_post && bytes_eq req.path (codes "/api/runs/resume")
    then agent_stream (codes "/api/runs/resume") close
    else if is_post && bytes_eq req.path (codes "/api/chat/direct")
    then chat close
    else if starts_with (codes "/api/") req.path
    then agent_json (method_string req.method) (upstream_path req) close
    else answered (answer_local files root req close)

-- contexts_, by connection name.
abbrev pub Contexts : Type 0
Contexts = List (Bytes × Context)

unfoldable pub find_context : Bytes → Contexts → Option Context
find_context name [] = none
find_context name ((n, c) ∷ cs) = if bytes_eq n name then some c else find_context name cs

unfoldable pub set_context : Bytes → Context → Contexts → Contexts
set_context name c [] = (name, c) ∷ []
set_context name c ((n, d) ∷ cs) =
    if bytes_eq n name then (n, c) ∷ cs else (n, d) ∷ set_context name c cs

unfoldable pub erase_context : Bytes → Contexts → Contexts
erase_context name [] = []
erase_context name ((n, d) ∷ cs) =
    let rest = erase_context name cs in if bytes_eq n name then rest else (n, d) ∷ rest

-- contexts_[name]: a missing parser is made.
abbrev pub context_or_new : Option Context → Context
context_or_new none = new_context
context_or_new (some c) = c

unfoldable pub context_for : Bytes → Contexts → Context
context_for name cs = context_or_new (find_context name cs)

-- A connection that comes up gets a parser, unless its name has one; one that goes loses it.
unfoldable pub on_connection : Bool → Bytes → Contexts → Contexts
on_connection true name cs = elim (find_context name cs) [
  | none ↦ set_context name new_context cs
  | some _ ↦ cs
]
on_connection false name cs = erase_context name cs

-- kMaxBodySize
abbrev pub max_body_size : ℕ
max_body_size = 9 * 1024 * 1024

pub data Reaction : Type 0 where
  waiting : Reaction
  refused : List Action → Reaction
  handled : Request → Handling → Reaction

-- What onMessage does with the parser's answer: its reaction, and the parser that stays.
unfoldable pub react : FileSystem → Bytes → Bool → Context → Reaction × Context
react files root ok c =
    if not ok
    then (refused (send_error bad_request (codes "Bad Request")), c)
    else if ltb max_body_size (length c.request.body)
    then (refused (send_error payload_too_large (codes "Payload Too Large")), new_context)
    else if got_all? c
    then (handled c.request (handle_request files root c.request), new_context)
    else (waiting, c)

unfoldable pub on_message :
    FileSystem → Bytes → Bytes → Contexts → Buffer → Option (Reaction × Contexts × Buffer)
unfolding react context_for
on_message files root name cs b = elim (parse_request (context_for name cs) b) [
  | none ↦ none
  | some (ok, c, b') ↦
      let (reaction, c') = react files root ok c in some (reaction, set_context name c' cs, b')
]
