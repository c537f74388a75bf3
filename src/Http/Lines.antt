-- ===== src/Http/Lines.antt =====
-- A message as a client reads it: lines up to the blank one, and the bytes behind it.
use ai_chat_server.Base.{
  ℕ, zero, suc, ◌+◌, ◌<◌, ◌≡◌, refl, sym, ap, ◌∙◌, ◌==◌, false, Option, none, some, Bytes, List, [],
  ◌∷◌, ◌++◌, length, take, drop, search_crlf, search_crlf_line, NoByte, if◌then◌else◌, arith,
  append_assoc, length-append, take-append_length, drop-append_length,
}

unfoldable pub join_lines : List Bytes → Bytes
join_lines [] = []
join_lines (l ∷ ls) = l ++ (13 ∷ 10 ∷ join_lines ls)

abbrev pub message : List Bytes → Bytes → Bytes
message ls body = join_lines ls ++ (13 ∷ 10 ∷ body)

abbrev push_line : Bytes → Option (List Bytes × Bytes) → Option (List Bytes × Bytes)
push_line l none = none
push_line l (some (ls, body)) = some (l ∷ ls, body)

-- The reader, on fuel: the lines up to the first blank one.
pub split_message : ℕ → Bytes → Option (List Bytes × Bytes)
split_message zero xs = none
split_message (suc f) xs =
    let k = search_crlf xs in
    let rest = split_message f (drop (k + 2) xs) in
    if k == length xs
    then none
    else if k == 0
    then some ([], drop 2 xs)
    else push_line (take k xs) rest

-- A line that a reader takes for one: not blank, and with no carriage return.
abbrev pub IsLine : Bytes → Type 0
IsLine [] = ⊥
IsLine (x ∷ xs) = NoByte 13 (x ∷ xs)

abbrev pub AllLines : List Bytes → Type 0
AllLines [] = Unit {0}
AllLines (l ∷ ls) = IsLine l × AllLines ls

pub IsLine-NoByte : (l : Bytes) → IsLine l → NoByte 13 l
IsLine-NoByte [] h = absurd h
IsLine-NoByte (x ∷ xs) h = h

pub drop_line : (l rest : Bytes) → drop (length l + 2) (l ++ (13 ∷ 10 ∷ rest)) ≡ rest
drop_line l rest =
    ap (drop (length l + 2)) (sym (append_assoc l (13 ∷ 10 ∷ []) rest))
    ∙ drop-append_length (length l + 2) (l ++ (13 ∷ 10 ∷ [])) rest
        (omega (arith, length-append l (13 ∷ 10 ∷ [])))

-- The first line of a text that starts with one, and what is behind it.
pub first_line :
    (l rest : Bytes)
    → NoByte 13 l
    → (search_crlf (l ++ (13 ∷ 10 ∷ rest)) ≡ length l)
      × (take (length l) (l ++ (13 ∷ 10 ∷ rest)) ≡ l)
      × (drop (length l + 2) (l ++ (13 ∷ 10 ∷ rest)) ≡ rest)
first_line l rest h = (
  search_crlf_line l rest h,
  take-append_length (length l) l (13 ∷ 10 ∷ rest) refl,
  drop_line l rest,
)

pub length-line : (l rest : Bytes) → (length l == length (l ++ (13 ∷ 10 ∷ rest))) ≡ false
length-line l rest = ground (arith, length-append l (13 ∷ 10 ∷ rest))

IsLine-solid : (l : Bytes) → IsLine l → (length l == 0) ≡ false
IsLine-solid [] h = absurd h
IsLine-solid (x ∷ xs) h = ground arith

-- Lines joined by "\r\n" and ended by a blank one are read back, and so is all that follows.
pub split_message-message :
    (f : ℕ) (ls : List Bytes) (body : Bytes)
    → length ls < f
    → AllLines ls
    → split_message f (message ls body) ≡ some (ls, body)
unfolding split_message join_lines search_crlf
split_message-message zero ls body h a = elim h [ ]
split_message-message (suc f) [] body h a = ground arith
split_message-message (suc f) (l ∷ ls) body h (is_line, a) =
    let rest = join_lines ls ++ (13 ∷ 10 ∷ body) in
    let (at, head, tail) = first_line l rest (IsLine-NoByte l is_line) in
    let inside = length-line l rest in
    let solid = IsLine-solid l is_line in
    let ih = split_message-message f ls body (omega arith) a in
    rw (append_assoc l (13 ∷ 10 ∷ join_lines ls) (13 ∷ 10 ∷ body))
      (rw (at, split_message) (rw (inside, solid, head, tail, ih) refl))
