-- ===== src/Http/Server/Stream.antt =====
-- handleAgentStreamAsync and handleAgentJsonAsync of src/http/HttpServer.cc. What the executor's
-- task and its callbacks queue on the I/O thread runs there in the order queued, so each handler is
-- the list of what is sent. The agent client's answer and the JSON library are arguments.
pub mod Decoded
use ai_chat_server.Base.{
  ℕ, Bool, true, false, Option, none, some, Bytes, codes, List, [], ◌∷◌, ◌++◌, map, if◌then◌else◌,
  leb, is_empty,
}
use ai_chat_server.Http.Response.{
  StatusCode, bad_request, internal_server_error, Response, new_response, set_content_type,
}
use ai_chat_server.Http.Chunked.{to_chunk, last_chunk, make_sse_event}
use ai_chat_server.Http.Server.{Action, send, closing, send_response}

-- The UTF-8 bytes of the two Chinese messages.
abbrev connecting_text : Bytes
connecting_text =
    0xe6 ∷ 0xad ∷ 0xa3 ∷ 0xe5 ∷ 0x9c ∷ 0xa8 ∷ 0xe8 ∷ 0xbf ∷ 0x9e ∷ 0xe6 ∷ 0x8e ∷ 0xa5 ∷ 0xe5 ∷ 0xad
    ∷ 0xa6 ∷ 0xe4 ∷ 0xb9 ∷ 0xa0 ∷ 0x20 ∷ 0x41 ∷ 0x67 ∷ 0x65 ∷ 0x6e ∷ 0x74 ∷ 0x2e ∷ 0x2e ∷ 0x2e ∷ []

abbrev agent_unavailable_text : Bytes
agent_unavailable_text =
    0xe5 ∷ 0xad ∷ 0xa6 ∷ 0xe4 ∷ 0xb9 ∷ 0xa0 ∷ 0x20 ∷ 0x41 ∷ 0x67 ∷ 0x65 ∷ 0x6e ∷ 0x74 ∷ 0x20 ∷ 0xe6
    ∷ 0x9c ∷ 0x8d ∷ 0xe5 ∷ 0x8a ∷ 0xa1 ∷ 0xe4 ∷ 0xb8 ∷ 0x8d ∷ 0xe5 ∷ 0x8f ∷ 0xaf ∷ 0xe7 ∷ 0x94
    ∷ 0xa8 ∷ 0x3a ∷ 0x20 ∷ []

-- The head of an event stream, up to its blank line.
unfoldable pub stream_head : Bool → Bytes
stream_head close =
    codes "HTTP/1.1 200 OK\r\n"
    ++ (codes "Content-Type: text/event-stream; charset=utf-8\r\n"
        ++ (codes "Cache-Control: no-cache\r\n"
            ++ (codes "X-Accel-Buffering: no\r\n"
                ++ (codes "Transfer-Encoding: chunked\r\n"
                    ++ (if close
                        then codes "Connection: close\r\n\r\n"
                        else codes "Connection: keep-alive\r\n\r\n")))))

-- The text of the JSON object {"message": text}.
abbrev pub DumpMessage : Type 0
DumpMessage = Bytes → Bytes

-- A run of the agent client: the pieces handed to the callback, whether it succeeded, its error.
pub record AgentRun : Type 0 where
  pub pieces : List Bytes
  pub success : Bool
  pub error : Bytes

-- The callback drops an empty piece.
unfoldable pub send_pieces : List Bytes → List Action
send_pieces [] = []
send_pieces (p ∷ ps) =
    let rest = send_pieces ps in if is_empty p then rest else send (to_chunk p) ∷ rest

unfoldable pub agent_error : DumpMessage → Bytes → Bytes
agent_error dump error = make_sse_event (codes "error") (dump (agent_unavailable_text ++ error))

unfoldable pub agent_status : DumpMessage → Bytes
agent_status dump = make_sse_event (codes "status") (dump connecting_text)

finish_agent : DumpMessage → AgentRun → List Action
finish_agent dump run =
    if run.success then [] else send (to_chunk (agent_error dump run.error)) ∷ []

unfoldable pub handle_agent_stream : DumpMessage → Bool → AgentRun → List Action
unfolding finish_agent
handle_agent_stream dump close run =
    send (stream_head close)
    ∷ send (to_chunk (agent_status dump))
    ∷ (send_pieces run.pieces ++ (finish_agent dump run ++ (send last_chunk ∷ closing close)))

-- requestJson's answer: the body, if any, the upstream status, and the error text.
pub record AgentAnswer : Type 0 where
  pub response : Option Bytes
  pub upstream_status : ℕ
  pub error : Bytes

-- `dump_error` gives the text of the JSON object {"error": text}.
agent_reply : (Bytes → Bytes) → Bool → AgentAnswer → Option Bytes → Response
agent_reply dump_error close a none =
    record (set_content_type (codes "application/json; charset=utf-8") (new_response close)) {
      status_code = internal_server_error;
      body = dump_error (codes "learning agent unavailable: " ++ a.error);
    }
agent_reply dump_error close a (some body) =
    record (set_content_type (codes "application/json; charset=utf-8") (new_response close)) {
      status_code = if leb 400 a.upstream_status then bad_request else StatusCode.ok;
      body = body;
    }

unfoldable pub handle_agent_json : (Bytes → Bytes) → Bool → AgentAnswer → List Action
unfolding agent_reply
handle_agent_json dump_error close a = send_response (agent_reply dump_error close a a.response)
