-- ===== src/Http/Chunked/Decode.antt =====
-- Chunks as a client decodes them.
use native.Mathlib.Nat.{pow-suc}
use ai_chat_server.Base.{
  join, ℕ, zero, suc, ◌+◌, ◌-◌, ◌*◌, ◌/◌, ◌%◌, ◌^◌, ◌≤◌, ◌<◌, ◌≡◌, refl, ◌∙◌, true, false, Option,
  none, some, Bytes, List, [], ◌∷◌, ◌++◌, length, take, drop, search_crlf, NoByte, NoByte-append,
  ltb, leb, ◌==◌, if◌then◌else◌, arith, append_assoc, length-append, take-append_length,
  take_of_length-le, Bool-cases, inl, inr,
}
use ai_chat_server.Http.Lines.{first_line, length-line, drop_line}
use ai_chat_server.Http.Chunked.{hex_digit, hex_from, to_hex, to_chunk, last_chunk}

unhex : ℕ → ℕ
unhex x = if leb 97 x then x - 87 else x - 48

hex_value : ℕ → Bytes → ℕ
hex_value acc [] = acc
hex_value acc (x ∷ xs) = hex_value (acc * 16 + unhex x) xs

push_payload : Bytes → Option (Bytes × Bytes) → Option (Bytes × Bytes)
push_payload p none = none
push_payload p (some (body, rest)) = some (p ++ body, rest)

-- A client's reader of a chunked body, on fuel: the payloads joined, and what is behind the end.
pub dechunk : ℕ → Bytes → Option (Bytes × Bytes)
unfolding hex_value unhex push_payload
dechunk zero xs = none
dechunk (suc f) xs =
    let k = search_crlf xs in
    let size = hex_value 0 (take k xs) in
    let behind = drop (k + 2) xs in
    let more = dechunk f (drop (size + 2) behind) in
    if k == length xs
    then none
    else if size == 0
    then some ([], drop 2 behind)
    else if ltb (length behind) (size + 2)
    then none
    else push_payload (take size behind) more

hex_value-append :
    (acc : ℕ) (xs ys : Bytes) → hex_value acc (xs ++ ys) ≡ hex_value (hex_value acc xs) ys
unfolding hex_value
hex_value-append acc [] ys = refl
hex_value-append acc (x ∷ xs) ys = hex_value-append (acc * 16 + unhex x) xs ys

unhex-hex_digit : (d : ℕ) → d < 16 → unhex (hex_digit d) ≡ d
unfolding unhex
unhex-hex_digit d h = ground arith

hex_value-hex_from : (f n : ℕ) → n < f → hex_value 0 (hex_from f n) ≡ n
unfolding hex_from hex_value
hex_value-hex_from zero n h = elim h [ ]
hex_value-hex_from (suc f) n h = elim (Bool-cases (ltb n 16)) [
  | inl low ↦ rw (low, hex_from, hex_value) (omega (arith, unhex-hex_digit n (ground arith)))
  | inr high ↦
      rw
        (
          high,
          hex_from,
          hex_value-append 0 (hex_from f (n / 16)) (hex_digit (n % 16) ∷ []),
          hex_value-hex_from f (n / 16) (ground arith),
        )
        (unfold hex_value in (omega (arith, unhex-hex_digit (n % 16) (omega arith))))
]

hex_from-NoByte : (f n : ℕ) → NoByte 13 (hex_from f n)
unfolding hex_from
hex_from-NoByte zero n = tt
hex_from-NoByte (suc f) n = elim (Bool-cases (ltb n 16)) [
  | inl low ↦ rw (low, hex_from) (ground arith, tt)
  | inr high ↦
      rw (high, hex_from)
        (NoByte-append 13 (hex_from f (n / 16)) (hex_digit (n % 16) ∷ [])
          (hex_from-NoByte f (n / 16)) (ground arith, tt))
]

length-hex_from-le : (k f n : ℕ) → n < 16 ^ suc k → length (hex_from f n) ≤ suc k
unfolding hex_from
length-hex_from-le k zero n h = omega arith
length-hex_from-le zero (suc f) n h =
    let low : ltb n 16 ≡ true = ground arith in rw (low, hex_from) (omega arith)
length-hex_from-le (suc k) (suc f) n h = elim (Bool-cases (ltb n 16)) [
  | inl low ↦ rw (low, hex_from) (omega arith)
  | inr high ↦
      let less : n / 16 < 16 ^ suc k = omega (arith, pow-suc 16 (suc k)) in
      rw (high, hex_from)
        (omega (
          arith,
          length-append (hex_from f (n / 16)) (hex_digit (n % 16) ∷ []),
          length-hex_from-le k f (n / 16) less,
        ))
]

abbrev pub chunked : List Bytes → Bytes
chunked [] = last_chunk
chunked (p ∷ ps) = to_chunk p ++ chunked ps

-- A payload of no bytes would end the body; the server sends none.
abbrev pub AllPayloads : List Bytes → Type 0
AllPayloads [] = Unit {0}
AllPayloads (p ∷ ps) = (0 < length p) × (length p < 2 ^ 64) × AllPayloads ps

to_chunk_lem :
    (p rest : Bytes)
    → length p < 2 ^ 64
    → to_chunk p ++ rest ≡ to_hex (length p) ++ (13 ∷ 10 ∷ (p ++ (13 ∷ 10 ∷ rest)))
unfolding to_chunk to_hex
to_chunk_lem p rest h =
    let hex = hex_from (suc (length p)) (length p) in
    let short : length hex ≤ 16 = length-hex_from-le 15 (suc (length p)) (length p) h in
    rw (take_of_length-le 31 hex (omega arith)) (simp append_assoc)

dechunk-step :
    (f : ℕ) (hex behind : Bytes)
    → NoByte 13 hex
    → dechunk (suc f) (hex ++ (13 ∷ 10 ∷ behind)) ≡ (
        if hex_value 0 hex == 0
        then some ([], drop 2 behind)
        else if ltb (length behind) (hex_value 0 hex + 2)
        then none
        else push_payload
            (take (hex_value 0 hex) behind)
            (dechunk f (drop (hex_value 0 hex + 2) behind)))
unfolding dechunk
dechunk-step f hex behind h =
    let (at, head, tail) = first_line hex behind h in
    rw (at, dechunk) (rw (length-line hex behind, head, tail) refl)

-- On more rounds than there are payloads, the chunks of payloads that are not empty and of fewer
-- than 2 ^ 64 bytes, ended by the last chunk, decode to the payloads
-- joined, and nothing behind the last chunk is consumed.
pub dechunk-chunked :
    (f : ℕ) (ps : List Bytes) (rest : Bytes)
    → length ps < f
    → AllPayloads ps
    → dechunk f (chunked ps ++ rest) ≡ some (join ps, rest)
unfolding to_hex
dechunk-chunked zero ps rest h a = elim h [ ]
dechunk-chunked (suc f) [] rest h a =
    dechunk-step f (b'0' ∷ []) (13 ∷ 10 ∷ rest) (refl, tt) ∙ unfold hex_value unhex in refl
dechunk-chunked (suc f) (p ∷ ps) rest h (some_bytes, sized, a) =
    let tail = chunked ps ++ rest in
    let n = length p in
    let behind = p ++ (13 ∷ 10 ∷ tail) in
    let value : hex_value 0 (to_hex n) ≡ n = hex_value-hex_from (suc n) n (omega arith) in
    let solid : (n == 0) ≡ false = ground arith in
    let inside : ltb (length behind) (n + 2) ≡ false =
      ground (arith, length-append p (13 ∷ 10 ∷ tail)) in
    rw
      (
        append_assoc (to_chunk p) (chunked ps) rest,
        to_chunk_lem p tail sized,
        dechunk-step f (to_hex n) behind (hex_from-NoByte (suc n) n),
      )
      (rw value (
        rw
          (
            solid,
            inside,
            take-append_length n p (13 ∷ 10 ∷ tail) refl,
            drop_line p tail,
            dechunk-chunked f ps rest (omega arith) a,
          )
          (unfold push_payload in refl)))
