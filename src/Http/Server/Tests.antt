-- ===== src/Http/Server/Tests.antt =====
-- The theorems on chat requests at a small JSON library and a model that always says the same.
use ai_chat_server.Base.{
  ◌≡◌, refl, true, false, none, some, Bytes, codes, List, [], ◌∷◌, ◌++◌, arith, bytes_eq,
  if◌then◌else◌,
}
use ai_chat_server.Memory.Lfu.{Cache, new_cache, find_node}
use ai_chat_server.Memory.Lfu.Invariant.{IsLimit}
use ai_chat_server.Memory.Lfu.Hit.{Follows}
use ai_chat_server.Memory.Lfu.Runs.{new_cache-IsValid}
use ai_chat_server.Http.Server.{Action, send, shutdown}
use ai_chat_server.Http.Server.Delivery.{calls, sent_before_shutdown, calls-stream}
use ai_chat_server.Net.Buffer.{content}
use ai_chat_server.Net.TcpConnection.Steps.{run}
use ai_chat_server.Net.TcpConnection.Closing.{opened}
use ai_chat_server.Http.Server.Chat.{
  ChatMessage, Json, ChatRun, value, invalid, does, throws, chat_messages, start_chat, model_chat,
  cached_chat, handle_chat,
}
use ai_chat_server.Http.Chunked.{last_chunk}
use ai_chat_server.Http.Server.Chat.Ended.{Answered, handle_chat-Answered}
use ai_chat_server.Http.Server.Chat.Cached.{handle_chat-again}

-- Every text is the message of a request without a history.
abbrev plain_json : Json
plain_json = record {
  Value = Bytes;
  parse = λ body. value body;
  field = λ name v. if bytes_eq name (codes "message") then some v else none;
  string = λ v. some v;
  array = λ v. none;
  dump_message = λ text. value text;
  dump_content = λ text. value text;
  dump_history = λ messages. value (codes "history");
  dump_done = λ cached messages. value (codes "done");
}

abbrev polite_model : List ChatMessage → ChatRun
polite_model messages = record {
  deltas = codes "hel" ∷ codes "lo" ∷ [];
  answer = some (codes "hello");
}

abbrev silent_model : List ChatMessage → ChatRun
silent_model messages = record { deltas = []; answer = none }

abbrev asked : List ChatMessage
asked = record { role = codes "user"; content = codes "hi" } ∷ []

abbrev cache : Cache
cache = new_cache 2 10

ten-IsLimit : IsLimit 10
ten-IsLimit = record { not_low = omega arith; not_high = omega arith }

hi-asked : chat_messages plain_json (codes "hi") ≡ some asked
unfolding chat_messages bytes_eq
hi-asked = refl

handle_chat-again_example :
    (c' : Cache) × (c'' : Cache) × (handle_chat plain_json polite_model true (codes "hi") cache
      ≡ some
          (start_chat plain_json true ++ model_chat plain_json true asked (polite_model asked), c'))
    × Follows cache c'
    × (handle_chat plain_json silent_model false (codes "hi") c'
        ≡ some (
          start_chat plain_json false ++ cached_chat plain_json false asked (codes "hello"),
          c'',
        ))
    × Follows c' c''
handle_chat-again_example =
    handle_chat-again plain_json polite_model silent_model true false (codes "hi") (codes "hi")
      asked (codes "history") (codes "hello") cache refl ten-IsLimit (new_cache-IsValid 2 10)
      (omega arith) refl hi-asked (unfold find_node in refl) refl

-- A JSON library that dumps no text but plain ASCII: where the text of the parser's exception holds
-- another byte, the error event throws on the connection's thread, before the last chunk.
abbrev strict_json : Json
strict_json = record plain_json {
  parse = λ body. invalid body;
  dump_message = λ text.
      if bytes_eq text (codes "invalid json: " ++ (255 ∷ []))
      then invalid (codes "invalid UTF-8 byte")
      else value text;
}

strict_actions :
    handle_chat strict_json silent_model true (255 ∷ []) cache
    ≡ some (
      start_chat strict_json true ++ (throws ∷ does (send last_chunk) ∷ does shutdown ∷ []),
      cache,
    )
unfolding handle_chat start_chat bytes_eq
strict_actions = refl

handle_chat-Answered_example :
    Answered strict_json true cache (handle_chat strict_json silent_model true (255 ∷ []) cache)
handle_chat-Answered_example =
    handle_chat-Answered strict_json silent_model true (255 ∷ []) cache ten-IsLimit
      (new_cache-IsValid 2 10)

-- The kernel takes two bytes at a time, and something is sent behind the shutdown.
abbrev reply_actions : List Action
reply_actions = send (codes "hel") ∷ send (codes "lo") ∷ shutdown ∷ send (codes "late") ∷ []

calls-stream_example :
    let c = run (calls (λ i. 2) 0 reply_actions) (opened true true 100) in
    c.wire ++ content c.output ≡ sent_before_shutdown reply_actions
calls-stream_example = calls-stream true true 100 (λ i. 2) reply_actions

reply_bytes : sent_before_shutdown reply_actions ≡ codes "hello"
unfolding sent_before_shutdown
reply_bytes = refl
