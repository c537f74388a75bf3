-- ===== src/Client/Model.antt =====
-- include/ai/openai.hpp and src/ai/OpenAIClient.cc: the client of the model.
pub mod Lines
pub mod Requests
pub mod Answers
use ai_chat_server.Base.{
  ℕ, zero, suc, ◌+◌, ◌&&◌, ◌||◌, Bool, true, false, not, Option, none, some, Bytes, codes, join,
  List, [], ◌∷◌, ◌++◌, length, take, drop, ◌==◌, leb, bytes_eq, find_byte, is_empty, c_str,
  if◌then◌else◌,
}
use ai_chat_server.Client.Curl.{Curl, Transfer, Outcome, post}
use ai_chat_server.Http.Server.Chat.{ChatMessage, ChatRun}

-- The JSON library, as far as the client uses it. `field` gives none where the value is no object
-- or has no such member, `parse` where the text is refused.
pub record Json : Type 1 where
  pub Value : Type 0
  pub parse : Bytes → Option Value
  pub field : Bytes → Value → Option Value
  pub string : Value → Option Bytes
  pub array : Value → Option (List Value)
  pub is_object : Value → Bool
  pub dump : Value → Bytes
  -- The text of the request: the model, the messages, and {"stream": true} or not.
  pub dump_payload : Bytes → List ChatMessage → Bool → Bytes

-- What the lines read so far have brought: the text, the last error, and the calls of onDelta.
pub record Progress : Type 0 where
  pub assembled : Bytes
  pub error : Bytes
  pub deltas : List Bytes

pub record StreamContext : Type 0 where
  pub pending : Bytes
  pub progress : Progress

abbrev pub new_context : StreamContext
new_context = record { pending = []; progress = record { assembled = []; error = []; deltas = [] } }

-- ltrimCopy
unfoldable pub ltrim_copy : Bytes → Bytes
ltrim_copy [] = []
ltrim_copy (x ∷ xs) = if x == 32 || x == 9 then ltrim_copy xs else x ∷ xs

-- The line without the carriage return at its end.
unfoldable pub chomp : Bytes → Bytes
chomp [] = []
chomp (x ∷ xs) = let rest = chomp xs in if is_empty xs && x == 13 then [] else x ∷ rest

abbrev pub has_data : Bytes → Bool
has_data line = bytes_eq (take 5 line) (codes "data:")

module _ (json : Json) where
  -- v[outer]["content"], if v[outer] is an object and the text is there.
  pub content_in : Bytes → json.Value → Bytes
  content_in outer v = elim (json.field outer v) [
    | none ↦ []
    | some d ↦
        if json.is_object d
        then elim (json.field (codes "content") d) [
          | none ↦ []
          | some w ↦ elim (json.string w) [ none ↦ [] | some text ↦ text ]
        ]
        else []
  ]

  -- The text of a choice: of its delta, or else of its message.
  pub choice_text : json.Value → Bytes
  unfolding content_in
  choice_text choice =
      if is_empty (content_in (codes "delta") choice)
      then content_in (codes "message") choice
      else content_in (codes "delta") choice

  abbrev pub add_delta : Bytes → Progress → Progress
  add_delta delta p =
      if is_empty delta
      then p
      else record p { assembled = p.assembled ++ delta; deltas = p.deltas ++ (delta ∷ []) }

  unfoldable pub read_choices : Option (List json.Value) → Progress → Progress
  unfolding choice_text
  read_choices none p = p
  read_choices (some []) p = p
  read_choices (some (choice ∷ _)) p = add_delta (choice_text choice) p

  pub array_in : Bytes → json.Value → Option (List json.Value)
  array_in name v = elim (json.field name v) [ none ↦ none | some w ↦ json.array w ]

  unfoldable pub read_frame : json.Value → Progress → Progress
  unfolding read_choices array_in
  read_frame v p = elim (json.field (codes "error") v) [
    | some e ↦ record p { error = json.dump e }
    | none ↦ read_choices (array_in (codes "choices") v) p
  ]

  unfoldable pub read_data : Bytes → Progress → Progress
  unfolding read_frame
  read_data text p =
      if is_empty text || bytes_eq text (codes "[DONE]")
      then p
      else elim (json.parse text) [ none ↦ p | some v ↦ read_frame v p ]

  -- A line, its newline taken off.
  unfoldable pub read_line : Bytes → Progress → Progress
  unfolding read_data
  read_line line p =
      if has_data (chomp line) then read_data (ltrim_copy (drop 5 (chomp line))) p else p

  -- The loop over the lines, on fuel.
  unfoldable pub drain : ℕ → StreamContext → StreamContext
  drain zero c = c
  drain (suc f) c =
      let nl = find_byte 10 c.pending in
      let rest = drain f (record {
        pending = drop (suc nl) c.pending;
        progress = read_line (take nl c.pending) c.progress;
      }) in
      if nl == length c.pending then c else rest

  -- A piece from the network. Each round takes a newline off, so as many rounds as there are bytes
  -- are enough.
  unfoldable pub write_stream_data : Bytes → StreamContext → StreamContext
  unfolding drain
  write_stream_data xs c = drain (length (c.pending ++ xs)) (record c { pending = c.pending ++ xs })

  unfoldable pub write_all : List Bytes → StreamContext → StreamContext
  write_all [] c = c
  write_all (xs ∷ chunks) c = write_all chunks (write_stream_data xs c)
