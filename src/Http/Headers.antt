-- ===== src/Http/Headers.antt =====
-- std::map<std::string, std::string>, the headers of requests and responses: an association list
-- in the order of the names.
use ai_chat_server.Base.{
  ◌≡◌, refl, Option, none, some, Bytes, List, [], ◌∷◌, bytes_eq, bytes_eq_iff, lex_lt,
  if◌then◌else◌, arith,
}

abbrev pub Headers : Type 0
Headers = List (Bytes × Bytes)

-- headers[key] = value
unfoldable pub assign : Bytes → Bytes → Headers → Headers
assign k v [] = (k, v) ∷ []
assign k v ((j, w) ∷ hs) =
    if bytes_eq j k
    then (j, v) ∷ hs
    else if lex_lt k j
    then (k, v) ∷ (j, w) ∷ hs
    else (j, w) ∷ assign k v hs

-- headers.find(key)
unfoldable pub lookup : Bytes → Headers → Option Bytes
lookup k [] = none
lookup k ((j, w) ∷ hs) = if bytes_eq j k then some w else lookup k hs

pub lookup-assign :
    (k j v : Bytes) (hs : Headers)
    → lookup j (assign k v hs) ≡ (if bytes_eq k j then some v else lookup j hs)
unfolding lookup assign
lookup-assign k j v [] = refl
lookup-assign k j v ((i, w) ∷ hs) =
    ground (arith, bytes_eq_iff i k, bytes_eq_iff i j, bytes_eq_iff k j, lookup-assign k j v hs)
