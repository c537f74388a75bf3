-- ===== src/Client/Agent.antt =====
-- include/agent/AgentClient.h and src/agent/AgentClient.cc: the client of the agent service.
pub mod Laws
use ai_chat_server.Base.{
  ℕ, ◌&&◌, ◌||◌, Bool, true, false, not, Option, none, some, Bytes, codes, join, List, [], ◌∷◌,
  ◌++◌, ◌==◌, leb, bytes_eq, is_empty, c_str, if◌then◌else◌,
}
use ai_chat_server.Base.Decimal.{to_decimal}
use ai_chat_server.Client.Curl.{Curl, Transfer, Outcome, Verb, get, post, custom}
use ai_chat_server.Http.Server.Stream.{AgentRun, AgentAnswer}

pub record AgentClient : Type 0 where
  pub base_url : Bytes

-- while (!baseUrl_.empty() && baseUrl_.back() == '/') baseUrl_.pop_back();
unfoldable pub strip_slashes : Bytes → Bytes
strip_slashes [] = []
strip_slashes (x ∷ xs) =
    let rest = strip_slashes xs in if is_empty rest && x == b'/' then [] else x ∷ rest

abbrev pub configured_or : Bytes → Option Bytes → Bytes
configured_or fallback none = fallback
configured_or fallback (some text) = if is_empty text then fallback else text

-- The constructor, with the environment variable AGENT_SERVICE_URL.
unfoldable pub new_agent_client : Bytes → Option Bytes → AgentClient
unfolding strip_slashes
new_agent_client url configured = record {
  base_url =
      strip_slashes
        (if is_empty url then configured_or (codes "http://127.0.0.1:8010") configured else url);
}

unfoldable pub endpoint : AgentClient → Bytes → Bytes
endpoint client [] = client.base_url
endpoint client (x ∷ xs) = client.base_url ++ (if x == b'/' then x ∷ xs else codes "/" ++ (x ∷ xs))

abbrev content_type_header : Bytes → Bytes
content_type_header content_type =
    codes "Content-Type: "
    ++ (if is_empty content_type then codes "application/json" else content_type)

-- The callback, which may throw (false), if there is one.
abbrev pub StreamCallback : Type 0
StreamCallback = Option (Bytes → Bool)

-- The pieces the callback took, and callbackFailed.
pub record StreamWriteContext : Type 0 where
  pub pieces : List Bytes
  pub callback_failed : Bool

-- writeStream, for the pieces in turn: libcurl stops at a count that is not the piece's length.
unfoldable pub write_stream : StreamCallback → List Bytes → StreamWriteContext
write_stream none chunks = record { pieces = []; callback_failed = false }
write_stream (some takes) [] = record { pieces = []; callback_failed = false }
write_stream (some takes) (x ∷ xs) =
    let rest = write_stream (some takes) xs in
    if takes x
    then record { pieces = x ∷ rest.pieces; callback_failed = rest.callback_failed }
    else record { pieces = []; callback_failed = true }

unfoldable pub stream_transfer : AgentClient → Bytes → Bytes → Bytes → Transfer
unfolding endpoint
stream_transfer client path body content_type = record {
  url = c_str (endpoint client path);
  headers = c_str (content_type_header content_type) ∷ codes "Accept: text/event-stream" ∷ [];
  verb = post;
  fields = some body;
  fail_on_error = true;
}

abbrev stream_failed : Outcome → StreamWriteContext → AgentRun
stream_failed o context = record {
  pieces = context.pieces;
  success = false;
  error = if context.callback_failed then codes "agent stream consumer failed" else elim o.error [
    | some text ↦ text
    | none ↦ codes "agent service returned HTTP " ++ to_decimal o.status
  ];
}

abbrev is_error : Option Bytes → Bool
is_error none = false
is_error (some _) = true

unfoldable pub stream_result : Outcome → StreamWriteContext → AgentRun
stream_result o context =
    if is_error o.error || context.callback_failed || leb 400 o.status
    then stream_failed o context
    else record { pieces = context.pieces; success = true; error = [] }

-- streamRequest, with an error text of the caller's that is empty.
unfoldable pub stream_request :
    Curl → AgentClient → Bytes → Bytes → Bytes → StreamCallback → AgentRun
unfolding stream_result write_stream stream_transfer
stream_request none client path body content_type callback = record {
  pieces = [];
  success = false;
  error = codes "failed to initialize libcurl";
}
stream_request (some perform) client path body content_type callback =
    let o = perform (stream_transfer client path body content_type) in
    stream_result o (write_stream callback o.chunks)

-- The method and the fields: a body goes with POST always, with another verb if it is not empty.
unfoldable pub json_transfer : AgentClient → Bytes → Bytes → Bytes → Bytes → Transfer
unfolding endpoint
json_transfer client method path body content_type =
    let is_get = bytes_eq method (codes "GET") in
    let is_post = bytes_eq method (codes "POST") in
    record {
      url = c_str (endpoint client path);
      headers =
          codes "Accept: application/json"
          ∷ (if is_get then [] else c_str (content_type_header content_type) ∷ []);
      verb = if is_post then post else if is_get then get else custom (c_str method);
      fields = if is_post then some body else if is_get || is_empty body then none else some body;
      fail_on_error = false;
    }

-- requestJson, with a status and an error text of the caller's that are 0 and empty.
unfoldable pub request_json : Curl → AgentClient → Bytes → Bytes → Bytes → Bytes → AgentAnswer
unfolding json_transfer
request_json none client method path body content_type = record {
  response = none;
  upstream_status = 0;
  error = codes "failed to initialize libcurl";
}
request_json (some perform) client method path body content_type =
    let o = perform (json_transfer client method path body content_type) in
    elim o.error [
      | some text ↦ record { response = none; upstream_status = o.status; error = text }
      | none ↦ record { response = some (join o.chunks); upstream_status = o.status; error = [] }
    ]
