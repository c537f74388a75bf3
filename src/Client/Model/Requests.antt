-- ===== src/Client/Model/Requests.antt =====
-- The requests of the model's client.
use ai_chat_server.Base.{
  ◌||◌, Bool, true, false, not, Option, none, some, Bytes, codes, join, List, [], ◌∷◌, ◌++◌, length,
  take, leb, bytes_eq, is_empty, c_str, if◌then◌else◌,
}
use ai_chat_server.Client.Curl.{Curl, Transfer, Outcome, post}
use ai_chat_server.Client.Model.{Json, StreamContext, new_context, write_all, array_in}
use ai_chat_server.Http.Server.Chat.{ChatMessage, ChatRun}

abbrev text_or : Bytes → Option Bytes → Bytes
text_or fallback none = fallback
text_or fallback (some text) = text

abbrev not_empty_or : Bytes → Option Bytes → Bytes
not_empty_or fallback none = fallback
not_empty_or fallback (some text) = if is_empty text then fallback else text

-- The fields of the client.
pub record OpenAiClient : Type 0 where
  pub api_key : Bytes
  pub model : Bytes
  pub base_url : Bytes

-- The constructor, with the two environment variables.
pub new_client : Bytes → Option Bytes → Option Bytes → OpenAiClient
new_client key env_key env_base = record {
  api_key = if is_empty key then text_or key env_key else key;
  model = codes "gpt-3.5-turbo";
  base_url = not_empty_or (codes "https://api.openai.com/v1/chat/completions") env_base;
}

unfoldable pub set_model : Bytes → OpenAiClient → OpenAiClient
set_model model client = record client { model = model }

unfoldable pub set_api_key : Bytes → OpenAiClient → OpenAiClient
set_api_key key client = record client { api_key = key }

unfoldable pub set_base_url : Bytes → OpenAiClient → OpenAiClient
set_base_url url client = record client { base_url = url }

module _ (json : Json) where
  abbrev authorization : OpenAiClient → Bytes
  authorization client = c_str (codes "Authorization: Bearer " ++ client.api_key)

  -- What both calls set up.
  pub model_transfer : OpenAiClient → List Bytes → Bytes → Transfer
  model_transfer client accept payload = record {
    url = c_str client.base_url;
    headers = authorization client ∷ codes "Content-Type: application/json" ∷ accept;
    verb = post;
    fields = some payload;
    fail_on_error = false;
  }

  -- What the request comes to, after the last piece.
  unfoldable pub stream_answer : Outcome → StreamContext → Option Bytes
  stream_answer o c = elim o.error [
    | some _ ↦ none
    | none ↦
        if leb 400 o.status
        then none
        else if not (is_empty c.progress.error)
        then none
        else some c.progress.assembled
  ]

  abbrev pub no_run : ChatRun
  no_run = record { deltas = []; answer = none }

  unfoldable pub stream_run : Outcome → ChatRun
  unfolding stream_answer
  stream_run o =
      let c = write_all json o.chunks new_context in
      record { deltas = c.progress.deltas; answer = stream_answer o c }

  unfoldable pub no_messages : List ChatMessage → Bool
  no_messages [] = true
  no_messages (m ∷ messages) = false

  -- chatCompletionStream: the calls of onDelta and the answer.
  unfoldable pub chat_completion_stream : Curl → OpenAiClient → List ChatMessage → ChatRun
  unfolding model_transfer stream_run no_messages
  chat_completion_stream curl client messages =
      if is_empty client.api_key || no_messages messages then no_run else elim curl [
        | none ↦ no_run
        | some perform ↦ stream_run (
            perform (
              model_transfer client (codes "Accept: text/event-stream" ∷ [])
                (json.dump_payload client.model messages true)))
      ]

  -- json["choices"][0]["message"]["content"].get<std::string>(), where no step throws.
  pub first_content : Option (List json.Value) → Option Bytes
  first_content none = none
  first_content (some []) = none
  first_content (some (choice ∷ _)) = elim (json.field (codes "message") choice) [
    | none ↦ none
    | some m ↦ elim (json.field (codes "content") m) [ none ↦ none | some w ↦ json.string w ]
  ]

  pub whole_answer : Outcome → Option Bytes
  unfolding first_content
  whole_answer o = elim o.error [
    | some _ ↦ none
    | none ↦ if leb 400 o.status then none else elim (json.parse (join o.chunks)) [
      | none ↦ none
      | some v ↦ first_content (array_in json (codes "choices") v)
    ]
  ]

  -- baseUrl_.find("deepseek") != npos
  pub holds : Bytes → Bytes → Bool
  holds part [] = is_empty part
  holds part (x ∷ xs) =
      let later = holds part xs in bytes_eq (take (length part) (x ∷ xs)) part || later

  pub chat_completion : Curl → OpenAiClient → List ChatMessage → Option Bytes
  unfolding model_transfer whole_answer no_messages holds
  chat_completion curl client messages =
      if is_empty client.api_key || no_messages messages then none else elim curl [
        | none ↦ none
        | some perform ↦ whole_answer (
            perform (
              model_transfer client
                (if holds (codes "deepseek") client.base_url
                  then codes "Accept: application/json" ∷ []
                  else [])
                (json.dump_payload client.model messages false)))
      ]

  -- chatCompletion of one text.
  pub chat_completion_text : Curl → OpenAiClient → Bytes → Option Bytes
  unfolding chat_completion
  chat_completion_text curl client text =
      chat_completion curl client (record { role = codes "user"; content = text } ∷ [])
