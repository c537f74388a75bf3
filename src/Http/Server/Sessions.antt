-- ===== src/Http/Server/Sessions.antt =====
-- The parsers of the connections: each message moves its own connection's parser only.
use ai_chat_server.Base.{
  ◌≡◌, ◌≢◌, refl, ◌∙◌, Bool, true, false, none, some, Bytes, [], ◌∷◌, bytes_eq, bytes_eq_iff,
  bytes_eq_refl, if◌then◌else◌, arith,
}
use ai_chat_server.Net.Buffer.{Buffer}
use ai_chat_server.Net.Buffer.Invariant.{IsValid}
use ai_chat_server.Http.Context.{Context, new_context}
use ai_chat_server.Http.Context.Feed.{parse_request_total}
use ai_chat_server.Http.StaticFile.{FileSystem}
use ai_chat_server.Http.Server.{
  Contexts, find_context, set_context, erase_context, context_for, on_connection, Reaction, react,
  on_message,
}

pub find_context-set_context :
    (name other : Bytes) (c : Context) (cs : Contexts)
    → find_context other (set_context name c cs)
      ≡ (if bytes_eq name other then some c else find_context other cs)
unfolding find_context set_context
find_context-set_context name other c [] = refl
find_context-set_context name other c ((n, d) ∷ cs) = ground (
  arith,
  bytes_eq_iff n name,
  bytes_eq_iff n other,
  bytes_eq_iff name other,
  find_context-set_context name other c cs,
)

pub find_context-erase_context :
    (name other : Bytes) (cs : Contexts)
    → find_context other (erase_context name cs)
      ≡ (if bytes_eq name other then none else find_context other cs)
unfolding find_context erase_context
find_context-erase_context name other [] = ground arith
find_context-erase_context name other ((n, d) ∷ cs) = ground (
  arith,
  bytes_eq_iff n name,
  bytes_eq_iff n other,
  bytes_eq_iff name other,
  find_context-erase_context name other cs,
)

-- A connection that comes up under a free name gets a fresh parser, and one that goes leaves none,
-- so a name that is used again starts anew; the parsers of all other connections stay.
pub find_context-on_connection :
    (up : Bool) (name other : Bytes) (cs : Contexts)
    → find_context other (on_connection up name (erase_context name cs)) ≡ (
        if bytes_eq name other
        then (if up then some new_context else none)
        else find_context other cs)
unfolding on_connection
find_context-on_connection true name other cs =
    let free : find_context name (erase_context name cs) ≡ none =
      find_context-erase_context name name cs ∙ rw (bytes_eq_refl name) refl in
    rw (free, on_connection)
      (ground (
        arith,
        find_context-set_context name other new_context (erase_context name cs),
        find_context-erase_context name other cs,
      ))
find_context-on_connection false name other cs = ground (
  arith,
  find_context-erase_context name other (erase_context name cs),
  find_context-erase_context name other cs,
)

-- On a buffer in order every message gets a reaction and leaves the buffer in order, and the parser of every other
-- connection as it was.
pub on_message_total :
    (files : FileSystem) (root name : Bytes) (cs : Contexts) (b : Buffer)
    → IsValid b
    → (re : Reaction) × (cs' : Contexts) × (b' : Buffer) × (on_message files root name cs b
        ≡ some (re, cs', b'))
      × IsValid b'
      × ((other : Bytes) → other ≢ name → find_context other cs' ≡ find_context other cs)
unfolding on_message
on_message_total files root name cs b v =
    let (ok, c, b', e, v') = parse_request_total (context_for name cs) b v in
    let (re, c') = react files root ok c in
    (
      re,
      set_context name c' cs,
      b',
      rw (e, on_message) refl,
      v',
      λ other differs.
          let apart : bytes_eq name other ≡ false = ground (arith, bytes_eq_iff name other) in
          find_context-set_context name other c' cs ∙ rw apart refl,
    )
