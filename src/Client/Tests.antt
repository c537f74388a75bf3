-- ===== src/Client/Tests.antt =====
-- The clients on concrete transfers.
use ai_chat_server.Base.{
  ◌≡◌, refl, true, none, some, Bytes, codes, List, [], ◌∷◌, bytes_eq, find_byte, is_empty,
  if◌then◌else◌,
}
use ai_chat_server.Client.Curl.{Transfer, Outcome}
use ai_chat_server.Client.Model.{
  Json, new_context, write_stream_data, write_all, ltrim_copy, chomp, drain, read_line, read_data,
  read_frame, read_choices,
}
use ai_chat_server.Client.Model.Lines.{write_all-join}
use ai_chat_server.Client.Model.Requests.{
  OpenAiClient, chat_completion_stream, stream_run, stream_answer, no_messages,
}
use ai_chat_server.Client.Agent.{
  AgentClient, new_agent_client, strip_slashes, stream_request, write_stream, stream_result,
}
use ai_chat_server.Http.Server.Chat.{ChatMessage}

-- A text is its own value: every member but an error's is the text again.
abbrev echo_json : Json
echo_json = record {
  Value = Bytes;
  parse = λ t. some t;
  field = λ name v. if bytes_eq name (codes "error") then none else some v;
  string = λ v. some v;
  array = λ v. some (v ∷ []);
  is_object = λ v. true;
  dump = λ v. v;
  dump_payload = λ model messages stream. [];
}

abbrev answering : Transfer → Outcome
answering t = record {
  chunks = codes "data:h" ∷ codes "i\ndata: [DONE]\n" ∷ [];
  error = none;
  status = 200;
}

abbrev keyed : OpenAiClient
keyed = record { api_key = codes "k"; model = codes "m"; base_url = codes "u" }

abbrev hello : List ChatMessage
hello = record { role = codes "user"; content = codes "x" } ∷ []

write_all-join_example :
    write_all echo_json (codes "data:h" ∷ codes "i\n" ∷ []) new_context
    ≡ write_stream_data echo_json (codes "data:hi\n") new_context
write_all-join_example = write_all-join echo_json (codes "data:h") (codes "i\n" ∷ []) new_context

answered :
    (chat_completion_stream echo_json (some answering) keyed hello).answer ≡ some (codes "hi")
unfolding chat_completion_stream stream_run stream_answer no_messages is_empty write_all
    write_stream_data drain read_line read_data read_frame read_choices find_byte chomp ltrim_copy
    bytes_eq
answered = refl

agent_base : (new_agent_client (codes "http://a//") none).base_url ≡ codes "http://a"
unfolding new_agent_client strip_slashes is_empty
agent_base = refl

abbrev sample_agent : AgentClient
sample_agent = record { base_url = codes "http://a" }

-- The callback that throws at the second piece has taken the first.
refused :
    (stream_request
      (some answering)
      sample_agent
      (codes "run")
      []
      []
      (some (λ piece. bytes_eq piece (codes "data:h")))).error
    ≡ codes "agent stream consumer failed"
unfolding stream_request stream_result write_stream bytes_eq
refused = refl
