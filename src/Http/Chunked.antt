-- ===== src/Http/Chunked.antt =====
-- The streaming helpers at the top of src/http/HttpServer.cc: chunks, server-sent events, and the
-- cuts of a cached answer between UTF-8 characters.
pub mod Decode
pub mod Pieces
use Prim.Native.Nat.{bit_and}
use ai_chat_server.Base.{
  ℕ, zero, suc, ◌+◌, ◌-◌, ◌/◌, ◌%◌, min, Bool, true, false, ◌++◌, Bytes, codes, List, [], ◌∷◌,
  length, take, drop, ltb, ◌==◌, if◌then◌else◌,
}

abbrev pub hex_digit : ℕ → ℕ
hex_digit d = if ltb d 10 then 48 + d else 87 + d

-- The low digit last. Each round divides by sixteen, so `n + 1` rounds are enough.
pub hex_from : ℕ → ℕ → Bytes
hex_from zero n = []
hex_from (suc f) n = elim (ltb n 16) [
  | true ↦ hex_digit n ∷ []
  | false ↦ hex_from f (n / 16) ++ hex_digit (n % 16) ∷ []
]

-- snprintf("%zx")
unfoldable pub to_hex : ℕ → Bytes
unfolding hex_from
to_hex n = hex_from (suc n) n

unfoldable pub to_chunk : Bytes → Bytes
to_chunk payload = take 31 (to_hex (length payload)) ++ (13 ∷ 10 ∷ (payload ++ (13 ∷ 10 ∷ [])))

-- What ends a chunked body.
abbrev pub last_chunk : Bytes
last_chunk = b'0' ∷ 13 ∷ 10 ∷ 13 ∷ 10 ∷ []

-- `dump` is the event's JSON text, as the JSON library prints it.
unfoldable pub make_sse_event : Bytes → Bytes → Bytes
make_sse_event name dump =
    codes "event: " ++ (name ++ (10 ∷ (codes "data: " ++ (dump ++ (10 ∷ 10 ∷ [])))))

-- (byte & 0xC0) == 0x80
abbrev pub is_continuation : ℕ → Bool
is_continuation x = bit_and x 0xc0 == 0x80

-- The loop of nextUtf8Boundary, over the bytes from position `next`.
pub skip_continuation : ℕ → Bytes → ℕ
skip_continuation next [] = next
skip_continuation next (x ∷ xs) =
    let more = skip_continuation (suc next) xs in if is_continuation x then more else next

unfoldable pub next_utf8_boundary : Bytes → ℕ → ℕ → ℕ
unfolding skip_continuation
next_utf8_boundary s from chunk_bytes =
    let next = min (length s) (from + chunk_bytes) in skip_continuation next (drop next s)

-- kChunkBytes
abbrev pub chunk_size : ℕ
chunk_size = 48

-- The loop that cuts a cached answer, on fuel: the pieces from position `pos` on.
unfoldable pub cut_from : ℕ → ℕ → Bytes → List Bytes
unfolding next_utf8_boundary
cut_from zero pos s = []
cut_from (suc f) pos s =
    let next = next_utf8_boundary s pos chunk_size in
    let rest = cut_from f next s in
    if ltb pos (length s) then take (next - pos) (drop pos s) ∷ rest else []

-- Each round moves on, so as many rounds as there are bytes are enough.
unfoldable pub cut : Bytes → List Bytes
unfolding cut_from
cut s = cut_from (length s) 0 s
