-- ===== src/Client/Model/Answers.antt =====
-- The model's answers against what was streamed.
use ai_chat_server.Base.{
  ◌≡◌, refl, ◌∙◌, Bool, true, false, ◌||◌, Option, none, some, Bytes, join, join-append, List, [],
  ◌∷◌, ◌++◌, append-nil, is_empty, codes, take, drop, length, ℕ, zero, suc, ◌<◌, ◌==◌, bytes_eq,
  find_byte, if◌then◌else◌, arith, Bool-cases, inl, inr,
}
use ai_chat_server.Client.Curl.{Curl, Outcome}
use ai_chat_server.Client.Model.{
  Json, Progress, StreamContext, new_context, add_delta, read_choices, read_frame, read_data,
  read_line, drain, write_stream_data, write_all, choice_text, array_in, ltrim_copy, chomp,
  has_data,
}
use ai_chat_server.Client.Model.Requests.{
  OpenAiClient, stream_answer, stream_run, no_run, no_messages, model_transfer,
  chat_completion_stream,
}
use ai_chat_server.Http.Server.Chat.{ChatMessage, ChatRun}

-- The text assembled is that of the deltas.
abbrev Joined : Progress → Type 0
Joined p = p.assembled ≡ join p.deltas

module _ (json : Json) where
  add_delta-Joined : (delta : Bytes) (p : Progress) → Joined p → Joined (add_delta json delta p)
  add_delta-Joined delta p h = ground (arith, join-append p.deltas (delta ∷ []), append-nil delta)

  read_choices-Joined :
      (o : Option (List json.Value)) (p : Progress) → Joined p → Joined (read_choices json o p)
  unfolding read_choices
  read_choices-Joined none p h = h
  read_choices-Joined (some []) p h = h
  read_choices-Joined (some (choice ∷ _)) p h = add_delta-Joined (choice_text json choice) p h

  Joined-if : (b : Bool) (p q : Progress) → Joined p → Joined q → Joined (if b then p else q)
  Joined-if true p q hp hq = hp
  Joined-if false p q hp hq = hq

  read_frame-Joined : (v : json.Value) (p : Progress) → Joined p → Joined (read_frame json v p)
  unfolding read_frame
  read_frame-Joined v p h = go (json.field (codes "error") v)
    where
      go :
          (o : Option json.Value)
          → Joined (elim o [
            | some e ↦ record p { error = json.dump e }
            | none ↦ read_choices json (array_in json (codes "choices") v) p
          ])
      go none = read_choices-Joined (array_in json (codes "choices") v) p h
      go (some e) = h

  read_line-Joined : (line : Bytes) (p : Progress) → Joined p → Joined (read_line json line p)
  unfolding read_line read_data
  read_line-Joined line p h =
      let text = ltrim_copy (drop 5 (chomp line)) in
      Joined-if (has_data (chomp line)) (read_data json text p) p
        (Joined-if (is_empty text || bytes_eq text (codes "[DONE]")) p (parsed (json.parse text)) h
          (go (json.parse text)))
        h
    where
      parsed : Option json.Value → Progress
      parsed o = elim o [ none ↦ p | some v ↦ read_frame json v p ]

      go : (o : Option json.Value) → Joined (parsed o)
      go none = h
      go (some v) = read_frame-Joined v p h

  drain-Joined : (f : ℕ) (c : StreamContext) → Joined c.progress → Joined (drain json f c).progress
  unfolding drain
  drain-Joined zero c h = h
  drain-Joined (suc f) c h = elim (Bool-cases (find_byte 10 c.pending == length c.pending)) [
    | inl done ↦ rw done h
    | inr more ↦ rw more (
        drain-Joined f
          (record {
            pending = drop (suc (find_byte 10 c.pending)) c.pending;
            progress = read_line json (take (find_byte 10 c.pending) c.pending) c.progress;
          })
          (read_line-Joined (take (find_byte 10 c.pending) c.pending) c.progress h))
  ]

  write_all-Joined :
      (chunks : List Bytes) (c : StreamContext)
      → Joined c.progress
      → Joined (write_all json chunks c).progress
  unfolding write_all write_stream_data
  write_all-Joined [] c h = h
  write_all-Joined (xs ∷ chunks) c h =
      write_all-Joined chunks (write_stream_data json xs c)
        (drain-Joined (length (c.pending ++ xs)) (record c { pending = c.pending ++ xs }) h)

  stream_answer-eq-some :
      (o : Outcome) (c : StreamContext) (answer : Bytes)
      → stream_answer json o c ≡ some answer
      → (o.error ≡ none)
        × (o.status < 400)
        × (c.progress.error ≡ [])
        × (answer ≡ c.progress.assembled)
  unfolding stream_answer is_empty
  stream_answer-eq-some o c answer h = ground arith

  abbrev Whole : ChatRun → Type 0
  Whole run = (answer : Bytes) → run.answer ≡ some answer → answer ≡ join run.deltas

  no_run-Whole : Whole (no_run json)
  no_run-Whole answer h = ground arith

  stream_run-Whole : (o : Outcome) → Whole (stream_run json o)
  unfolding stream_run
  stream_run-Whole o answer h =
      let (_, _, _, t) = stream_answer-eq-some o (write_all json o.chunks new_context) answer h in
      t ∙ write_all-Joined o.chunks new_context refl

  Whole-if : (b : Bool) (run : ChatRun) → Whole run → Whole (if b then no_run json else run)
  Whole-if true run h = no_run-Whole
  Whole-if false run h = h

  -- The answer of a streamed request is the deltas handed to the callback, joined.
  pub chat_completion_stream_lem :
      (curl : Curl) (client : OpenAiClient) (messages : List ChatMessage) (answer : Bytes)
      → (chat_completion_stream json curl client messages).answer ≡ some answer
      → answer ≡ join (chat_completion_stream json curl client messages).deltas
  unfolding chat_completion_stream
  chat_completion_stream_lem none client messages answer h =
      Whole-if (is_empty client.api_key || no_messages json messages) (no_run json) no_run-Whole
        answer h
  chat_completion_stream_lem (some perform) client messages answer h =
      Whole-if (is_empty client.api_key || no_messages json messages)
        (stream_run json (
          perform (
            model_transfer json client (codes "Accept: text/event-stream" ∷ [])
              (json.dump_payload client.model messages true))))
        (stream_run-Whole (
          perform (
            model_transfer json client (codes "Accept: text/event-stream" ∷ [])
              (json.dump_payload client.model messages true))))
        answer h
