-- ===== src/Http/Server/Chat.antt =====
-- handleChatAsync of src/http/HttpServer.cc: a chat request answered from the cache or by the
-- model, as a stream. The JSON library and the model are parameters; what the task and its
-- callbacks queue on the connection's thread is done in the order queued. `none` is a use of a
-- list that is not there in the cache.
pub mod Cached
pub mod Ended
use ai_chat_server.Base.{
  ℕ, ◌-◌, Bool, true, false, ◌||◌, Option, none, some, Bytes, codes, List, [], ◌∷◌, ◌++◌, length,
  drop, map, bytes_eq, if◌then◌else◌, ltb, is_empty,
}
use ai_chat_server.Http.Chunked.{to_chunk, last_chunk, make_sse_event, cut}
use ai_chat_server.Http.Server.{Action, send, closing}
use ai_chat_server.Http.Server.Stream.{stream_head}
use ai_chat_server.Memory.Lfu.{Cache, put, get}

-- OpenAIClient::ChatMessage
pub record ChatMessage : Type 0 where
  pub role : Bytes
  pub content : Bytes

-- What parse and dump answer: a value, or the text of the exception.
pub data Parsed (V : Type 0) : Type 0 where
  invalid : (what : Bytes) → Parsed V
  value : (v : V) → Parsed V

-- What the functors do on the connection's thread. An exception there is not caught: the functor and
-- its loop end at it, and nothing behind it is done.
pub data Queued : Type 0 where
  does : (a : Action) → Queued
  throws : Queued

-- The JSON library, as far as the handler uses it.
pub record Json : Type 1 where
  pub Value : Type 0
  pub parse : Bytes → Parsed Value
  pub field : Bytes → Value → Option Value
  pub string : Value → Option Bytes
  pub array : Value → Option (List Value)
  -- dump() of {"message": text}, {"content": text}, a history, and the closing event: it throws where
  -- a text is not well-formed UTF-8.
  pub dump_message : Bytes → Parsed Bytes
  pub dump_content : Bytes → Parsed Bytes
  pub dump_history : List ChatMessage → Parsed Bytes
  pub dump_done : Bool → List ChatMessage → Parsed Bytes

-- chatCompletionStream: the pieces handed to the callback, and the answer.
pub record ChatRun : Type 0 where
  pub deltas : List Bytes
  pub answer : Option Bytes

abbrev connected_text : Bytes
connected_text =
    229 ∷ 183 ∷ 178 ∷ 232 ∷ 191 ∷ 158 ∷ 230 ∷ 142 ∷ 165 ∷ 239 ∷ 188 ∷ 140 ∷ 230 ∷ 173 ∷ 163 ∷ 229
    ∷ 156 ∷ 168 ∷ 229 ∷ 164 ∷ 132 ∷ 231 ∷ 144 ∷ 134 ∷ 232 ∷ 175 ∷ 183 ∷ 230 ∷ 177 ∷ 130 ∷ 46 ∷ 46
    ∷ 46 ∷ []

abbrev cached_text : Bytes
cached_text =
    229 ∷ 145 ∷ 189 ∷ 228 ∷ 184 ∷ 173 ∷ 231 ∷ 188 ∷ 147 ∷ 229 ∷ 173 ∷ 152 ∷ 239 ∷ 188 ∷ 140 ∷ 230
    ∷ 173 ∷ 163 ∷ 229 ∷ 156 ∷ 168 ∷ 232 ∷ 190 ∷ 147 ∷ 229 ∷ 135 ∷ 186 ∷ 46 ∷ 46 ∷ 46 ∷ []

abbrev thinking_text : Bytes
thinking_text =
    230 ∷ 168 ∷ 161 ∷ 229 ∷ 158 ∷ 139 ∷ 230 ∷ 128 ∷ 157 ∷ 232 ∷ 128 ∷ 131 ∷ 228 ∷ 184 ∷ 173 ∷ 46
    ∷ 46 ∷ 46 ∷ []

module _ (json : Json) where
  string_field : Bytes → json.Value → Option Bytes
  string_field name v = elim (json.field name v) [ none ↦ none | some w ↦ json.string w ]

  -- An item of the history: only a user's or the assistant's is taken.
  message_of : Option Bytes → Option Bytes → List ChatMessage
  message_of (some role) (some content) =
      if bytes_eq role (codes "user") || bytes_eq role (codes "assistant")
      then record { role = role; content = content } ∷ []
      else []
  message_of (some role) none = []
  message_of none content = []

  messages_of : List json.Value → List ChatMessage
  unfolding message_of string_field
  messages_of [] = []
  messages_of (item ∷ items) =
      message_of (string_field (codes "role") item) (string_field (codes "content") item)
      ++ messages_of items

  history_of : json.Value → List ChatMessage
  unfolding messages_of
  history_of v = elim (json.field (codes "history") v) [
    | none ↦ []
    | some w ↦ elim (json.array w) [ none ↦ [] | some items ↦ messages_of items ]
  ]

  -- The last sixteen.
  recent : List ChatMessage → List ChatMessage
  recent messages =
      if ltb 16 (length messages) then drop (length messages - 16) messages else messages

  send_event : Bytes → Parsed Bytes → Queued
  send_event name (invalid what) = throws
  send_event name (value dump) = does (send (to_chunk (make_sse_event name dump)))

  pub finish : Bool → List Queued
  finish close = does (send last_chunk) ∷ map does (closing close)

  send_deltas : List Bytes → List Queued
  unfolding send_event
  send_deltas [] = []
  send_deltas (p ∷ ps) = send_event (codes "delta") (json.dump_content p) ∷ send_deltas ps

  -- The callback drops an empty piece.
  not_empty : List Bytes → List Bytes
  not_empty [] = []
  not_empty (p ∷ ps) = let rest = not_empty ps in if is_empty p then rest else p ∷ rest

  unfoldable pub start_chat : Bool → List Queued
  unfolding send_event
  start_chat close =
      does (send (stream_head close))
      ∷ send_event (codes "status") (json.dump_message connected_text)
      ∷ []

  pub chat_error : Bool → Bytes → List Queued
  unfolding send_event finish
  chat_error close text = send_event (codes "error") (json.dump_message text) ∷ finish close

  answered_with : List ChatMessage → Bytes → List ChatMessage
  answered_with messages answer =
      messages ++ (record { role = codes "assistant"; content = answer } ∷ [])

  pub cached_chat : Bool → List ChatMessage → Bytes → List Queued
  unfolding send_event send_deltas finish answered_with
  cached_chat close messages cached =
      send_event (codes "status") (json.dump_message cached_text)
      ∷ (send_deltas (cut cached)
          ++ (send_event (codes "done") (json.dump_done true (answered_with messages cached))
              ∷ finish close))

  pub model_chat : Bool → List ChatMessage → ChatRun → List Queued
  unfolding send_event send_deltas not_empty finish answered_with chat_error
  model_chat close messages run =
      send_event (codes "status") (json.dump_message thinking_text)
      ∷ (send_deltas (not_empty run.deltas) ++ elim run.answer [
        | none ↦ chat_error close (codes "AI service unavailable")
        | some answer ↦
            send_event (codes "done") (json.dump_done false (answered_with messages answer))
            ∷ finish close
      ])

  -- The exceptions that the task catches.
  pub chat_failed : Bool → Bytes → List Queued
  unfolding chat_error
  chat_failed close what = chat_error close (codes "invalid json: " ++ what)

  -- An answer goes into the cache.
  pub remember : Bytes → Option Bytes → Cache → Option Cache
  remember key none c = some c
  remember key (some answer) c = put key answer c

  pub answer_chat :
      (List ChatMessage → ChatRun) → Bool → List ChatMessage → Cache → Option (List Queued × Cache)
  unfolding cached_chat model_chat remember chat_failed
  answer_chat model close messages c = elim (json.dump_history messages) [
    | invalid what ↦ some (chat_failed close what, c)
    | value key ↦ elim (get key c) [
      | none ↦ none
      | some (some cached, c') ↦ some (cached_chat close messages cached, c')
      | some (none, c') ↦ elim (remember key (model messages).answer c') [
        | none ↦ none
        | some c'' ↦ some (model_chat close messages (model messages), c'')
      ]
    ]
  ]

  -- The messages that the model is asked, if the request has a message.
  unfoldable pub chat_messages : json.Value → Option (List ChatMessage)
  unfolding string_field history_of recent
  chat_messages v = elim (string_field (codes "message") v) [
    | none ↦ none
    | some text ↦
        some (recent (history_of v) ++ (record { role = codes "user"; content = text } ∷ []))
  ]

  unfoldable pub handle_chat :
      (List ChatMessage → ChatRun) → Bool → Bytes → Cache → Option (List Queued × Cache)
  unfolding start_chat chat_error chat_failed answer_chat chat_messages
  handle_chat model close body c = elim (json.parse body) [
    | invalid what ↦ some (start_chat close ++ chat_failed close what, c)
    | value v ↦ elim (chat_messages v) [
      | none ↦ some (start_chat close ++ chat_error close (codes "message required"), c)
      | some messages ↦ elim (answer_chat model close messages c) [
        | none ↦ none
        | some (actions, c') ↦ some (start_chat close ++ actions, c')
      ]
    ]
  ]
