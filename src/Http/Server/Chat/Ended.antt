-- ===== src/Http/Server/Chat/Ended.antt =====
-- How what a chat request has queued ends.
use ai_chat_server.Base.{
  ◌≡◌, refl, sym, ap, ◌∙◌, Bool, Option, none, some, Bytes, codes, List, [], ◌∷◌, ◌++◌,
  append_assoc, Option-cases, inl, inr,
}
use ai_chat_server.Memory.Lfu.{Cache, get}
use ai_chat_server.Memory.Lfu.Invariant.{IsValid, IsLimit, value_at}
use ai_chat_server.Memory.Lfu.Runs.{get_lem, put_total}
use ai_chat_server.Memory.Lfu.Hit.{Follows}
use ai_chat_server.Http.Server.Chat.{
  ChatMessage, Json, ChatRun, Parsed, Queued, value, invalid, chat_messages, start_chat, finish,
  chat_error, chat_failed, model_chat, cached_chat, remember, answer_chat, handle_chat,
}

module _ (json : Json) where
  -- The last chunk, and the shutdown if the connection is to be closed, stand at the end.
  abbrev pub Ends : Bool → List Queued → Type 0
  Ends close queued = (front : List Queued) × (queued ≡ front ++ finish json close)

  Ends-behind :
      (close : Bool) (before queued : List Queued)
      → Ends close queued
      → Ends close (before ++ queued)
  Ends-behind close before queued (front, e) = (
    before ++ front,
    ap (λ qs. before ++ qs) e ∙ sym (append_assoc before front (finish json close)),
  )

  chat_error-Ends : (close : Bool) (text : Bytes) → Ends close (chat_error json close text)
  unfolding chat_error
  chat_error-Ends close text = (_ ∷ [], refl)

  cached_chat-Ends :
      (close : Bool) (messages : List ChatMessage) (cached : Bytes)
      → Ends close (cached_chat json close messages cached)
  unfolding cached_chat
  cached_chat-Ends close messages cached =
      Ends-behind close (_ ∷ []) _ (Ends-behind close _ _ (_ ∷ [], refl))

  model_chat-Ends :
      (close : Bool) (messages : List ChatMessage) (run : ChatRun)
      → Ends close (model_chat json close messages run)
  unfolding model_chat
  model_chat-Ends close messages run = elim (Option-cases run.answer) [
    | inl missing ↦ rw missing (
        Ends-behind close (_ ∷ []) _
          (Ends-behind close _ _ (chat_error-Ends close (codes "AI service unavailable"))))
    | inr (answer, there) ↦
        rw there (Ends-behind close (_ ∷ []) _ (Ends-behind close _ _ (_ ∷ [], refl)))
  ]

  remember_total :
      (key : Bytes) (o : Option Bytes) (c : Cache)
      → IsLimit c.max_average
      → IsValid c
      → (c' : Cache) × (remember json key o c ≡ some c') × Follows c c'
  unfolding remember
  remember_total key none c limit valid =
      (c, refl, record { valid = valid; capacity = refl; limit = refl })
  remember_total key (some answer) c limit valid = put_total key answer c limit valid

  -- What a request comes to: something that ends as it should, and a cache in order.
  abbrev pub Answered : Bool → Cache → Option (List Queued × Cache) → Type 0
  Answered close c o =
      (queued : List Queued) × (c' : Cache) × (o ≡ some (queued, c'))
      × Ends close queued
      × Follows c c'

  answer_chat-Answered :
      (model : List ChatMessage → ChatRun) (close : Bool) (messages : List ChatMessage) (c : Cache)
      → IsLimit c.max_average
      → IsValid c
      → Answered close c (answer_chat json model close messages c)
  unfolding answer_chat chat_failed
  answer_chat-Answered model close messages c limit valid = go (json.dump_history messages) refl
    where
      go :
          (p : Parsed Bytes)
          → json.dump_history messages ≡ p
          → Answered close c (answer_chat json model close messages c)
      go (invalid what) e = (
        chat_failed json close what,
        c,
        rw (e, answer_chat) refl,
        chat_error-Ends close (codes "invalid json: " ++ what),
        record { valid = valid; capacity = refl; limit = refl },
      )
      go (value key) e =
          let (mid, read, first, _) = get_lem key c limit valid in
          elim (Option-cases (value_at key c.nodes)) [
            | inr (cached, known) ↦
                let read' : get key c ≡ some (some cached, mid) =
                  read ∙ ap (λ o. some (o, mid)) known in
                (
                  cached_chat json close messages cached,
                  mid,
                  rw (e, answer_chat) (rw read' refl),
                  cached_chat-Ends close messages cached,
                  first,
                )
            | inl unknown ↦
                let read' : get key c ≡ some (none, mid) = read ∙ ap (λ o. some (o, mid)) unknown in
                let (c', kept, second) =
                  remember_total key (model messages).answer mid (rw first.limit limit)
                    first.valid in
                (
                  model_chat json close messages (model messages),
                  c',
                  rw (e, answer_chat) (rw read' (rw kept refl)),
                  model_chat-Ends close messages (model messages),
                  record {
                    valid = second.valid;
                    capacity = second.capacity ∙ first.capacity;
                    limit = second.limit ∙ first.limit;
                  },
                )
          ]

  -- With a cache in order of a limit from 2 to 125, the task of every chat request, whatever its body,
  -- whatever the model answers and whatever the JSON library refuses to read or to write, comes to its
  -- end: what it has queued ends with the last chunk, and the shutdown if the connection is to be
  -- closed, and the cache is left in order. (An event whose dump throws keeps the connection's thread
  -- from what is queued behind it.)
  pub handle_chat-Answered :
      (model : List ChatMessage → ChatRun) (close : Bool) (body : Bytes) (c : Cache)
      → IsLimit c.max_average
      → IsValid c
      → Answered close c (handle_chat json model close body c)
  unfolding handle_chat chat_failed
  handle_chat-Answered model close body c limit valid = go (json.parse body) refl
    where
      stays : Follows c c
      stays = record { valid = valid; capacity = refl; limit = refl }

      go :
          (p : Parsed json.Value)
          → json.parse body ≡ p
          → Answered close c (handle_chat json model close body c)
      go (invalid what) e = (
        start_chat json close ++ chat_failed json close what,
        c,
        rw (e, handle_chat) refl,
        Ends-behind close (start_chat json close) _
            (chat_error-Ends close (codes "invalid json: " ++ what)),
        stays,
      )
      go (value v) e = elim (Option-cases (chat_messages json v)) [
        | inl missing ↦ (
          start_chat json close ++ chat_error json close (codes "message required"),
          c,
          rw (e, handle_chat) (rw missing refl),
          Ends-behind close (start_chat json close) _
              (chat_error-Ends close (codes "message required")),
          stays,
        )
        | inr (messages, asked) ↦
            let (queued, c', answered, ends, follows) =
              answer_chat-Answered model close messages c limit valid in
            (
              start_chat json close ++ queued,
              c',
              rw (e, handle_chat) (rw asked (rw answered refl)),
              Ends-behind close (start_chat json close) queued ends,
              follows,
            )
      ]
