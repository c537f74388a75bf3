-- ===== src/Http/Server/Chat/Cached.antt =====
-- A chat request that the cache can answer.
use ai_chat_server.Base.{◌<◌, ◌≡◌, refl, ap, ◌∙◌, Bool, none, some, Bytes, List, ◌++◌}
use ai_chat_server.Memory.Lfu.{Cache, get}
use ai_chat_server.Memory.Lfu.Invariant.{IsValid, IsLimit, value_at}
use ai_chat_server.Memory.Lfu.Hit.{Follows}
use ai_chat_server.Memory.Lfu.Runs.{get_lem, put_stores}
use ai_chat_server.Http.Server.Chat.{
  ChatMessage, Json, ChatRun, value, chat_messages, start_chat, model_chat, cached_chat, remember,
  answer_chat, handle_chat,
}

module _ (json : Json) where
  answer_chat-hit :
      (model : List ChatMessage → ChatRun) (close : Bool) (messages : List ChatMessage)
      (key answer : Bytes) (c : Cache)
      → json.dump_history messages ≡ value key
      → IsLimit c.max_average
      → IsValid c
      → value_at key c.nodes ≡ some answer
      → (c' : Cache) × (answer_chat json model close messages c
          ≡ some (cached_chat json close messages answer, c'))
        × Follows c c'
  unfolding answer_chat
  answer_chat-hit model close messages key answer c dumped limit valid known =
      let (c', e, follows, _) = get_lem key c limit valid in
      let e' : get key c ≡ some (some answer, c') = e ∙ ap (λ o. some (o, c')) known in
      (c', rw (dumped, answer_chat) (rw e' refl), follows)

  answer_chat-miss :
      (model : List ChatMessage → ChatRun) (close : Bool) (messages : List ChatMessage)
      (key answer : Bytes) (c : Cache)
      → json.dump_history messages ≡ value key
      → IsLimit c.max_average
      → IsValid c
      → 0 < c.capacity
      → value_at key c.nodes ≡ none
      → (model messages).answer ≡ some answer
      → (c' : Cache) × (answer_chat json model close messages c
          ≡ some (model_chat json close messages (model messages), c'))
        × Follows c c'
        × (value_at key c'.nodes ≡ some answer)
  unfolding answer_chat remember
  answer_chat-miss model close messages key answer c dumped limit valid room unknown answered =
      let (mid, e, first, _) = get_lem key c limit valid in
      let e' : get key c ≡ some (none, mid) = e ∙ ap (λ o. some (o, mid)) unknown in
      let (c', p, second, stored) =
        put_stores key answer mid (rw first.limit limit) first.valid (rw first.capacity room) in
      let kept : remember json key (model messages).answer mid ≡ some c' = rw answered p in
      (
        c',
        rw (dumped, answer_chat) (rw e' (rw kept refl)),
        record {
          valid = second.valid;
          capacity = second.capacity ∙ first.capacity;
          limit = second.limit ∙ first.limit;
        },
        stored,
      )

  -- With a cache in order of a limit from 2 to 125 and some capacity: where the model answers a
  -- chat request whose messages are written as a key that the cache does not know, for the same request, asked again at once,
  -- that answer from the cache is queued, whatever the model would say now, and both leave the cache
  -- in order.
  pub handle_chat-again :
      (model other : List ChatMessage → ChatRun) (close again : Bool) (body : Bytes)
      (v : json.Value) (messages : List ChatMessage) (key answer : Bytes) (c : Cache)
      → json.dump_history messages ≡ value key
      → IsLimit c.max_average
      → IsValid c
      → 0 < c.capacity
      → json.parse body ≡ value v
      → chat_messages json v ≡ some messages
      → value_at key c.nodes ≡ none
      → (model messages).answer ≡ some answer
      → (c' : Cache) × (c'' : Cache) × (handle_chat json model close body c
          ≡ some (start_chat json close ++ model_chat json close messages (model messages), c'))
        × Follows c c'
        × (handle_chat json other again body c'
            ≡ some (start_chat json again ++ cached_chat json again messages answer, c''))
        × Follows c' c''
  unfolding handle_chat
  handle_chat-again model other close again body v messages key answer c dumped limit valid room e
        asked unknown answered =
      let (c', first, follows, known) =
        answer_chat-miss model close messages key answer c dumped limit valid room unknown
          answered in
      let (c'', second, follows') =
        answer_chat-hit other again messages key answer c' dumped (rw follows.limit limit)
          follows.valid known in
      (
        c',
        c'',
        rw (e, handle_chat) (rw asked (rw first refl)),
        follows,
        rw (e, handle_chat) (rw asked (rw second refl)),
        follows',
      )
