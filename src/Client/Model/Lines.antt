-- ===== src/Client/Model/Lines.antt =====
-- Lines that arrive in pieces.
use ai_chat_server.Base.{
  join, ℕ, zero, suc, ◌≤◌, ◌≡◌, refl, sym, ap, ◌∙◌, Bool, true, false, Bytes, List, [], ◌∷◌, ◌++◌,
  length, take, drop, ◌==◌, find_byte, if◌then◌else◌, arith, Bool-cases, inl, inr, append_assoc,
  append-nil, length-drop, find_byte-le,
}
use ai_chat_server.Client.Model.{
  Json, Progress, StreamContext, read_line, drain, write_stream_data, write_all,
}

abbrev no_lines : List Bytes → Bool
no_lines [] = true
no_lines (l ∷ ls) = false

abbrev on_first : ℕ → List Bytes → List Bytes
on_first x [] = []
on_first x (l ∷ ls) = (x ∷ l) ∷ ls

-- The whole lines of a text, and what is behind the last newline.
pub lines : Bytes → List Bytes
lines [] = []
lines (x ∷ xs) = let more = lines xs in if x == 10 then [] ∷ more else on_first x more

pub rest_of : Bytes → Bytes
unfolding lines
rest_of [] = []
rest_of (x ∷ xs) =
    let more = rest_of xs in
    if x == 10 then more else if no_lines (lines xs) then x ∷ more else more

lines-append : (xs ys : Bytes) → lines (xs ++ ys) ≡ lines xs ++ lines (rest_of xs ++ ys)
unfolding lines rest_of
lines-append [] ys = refl
lines-append (x ∷ xs) ys = ground (arith, lines-append xs ys)

rest_of-append : (xs ys : Bytes) → rest_of (xs ++ ys) ≡ rest_of (rest_of xs ++ ys)
unfolding lines rest_of
rest_of-append [] ys = refl
rest_of-append (x ∷ xs) ys = ground (arith, rest_of-append xs ys, lines-append xs ys)

-- The first newline ends the first line.
lines_first :
    (xs : Bytes)
    → (find_byte 10 xs == length xs) ≡ false
    → (lines xs ≡ take (find_byte 10 xs) xs ∷ lines (drop (suc (find_byte 10 xs)) xs))
      × (rest_of xs ≡ rest_of (drop (suc (find_byte 10 xs)) xs))
unfolding lines rest_of find_byte
lines_first [] h = absurd (cc)
lines_first (x ∷ xs) h = elim (Bool-cases (x == 10)) [
  | inl here ↦ rw here (refl, refl)
  | inr later ↦ rw later (ground (arith, later, lines_first xs))
]

lines_none :
    (xs : Bytes) → (find_byte 10 xs == length xs) ≡ true → (lines xs ≡ []) × (rest_of xs ≡ xs)
unfolding lines rest_of find_byte
lines_none [] h = (refl, refl)
lines_none (x ∷ xs) h = ground (arith, lines_none xs)

module _ (json : Json) where
  -- The lines read one by one.
  pub read_lines : List Bytes → Progress → Progress
  read_lines [] p = p
  read_lines (l ∷ ls) p = read_lines ls (read_line json l p)

  read_lines-append :
      (ls ms : List Bytes) (p : Progress)
      → read_lines (ls ++ ms) p ≡ read_lines ms (read_lines ls p)
  unfolding read_lines
  read_lines-append [] ms p = refl
  read_lines-append (l ∷ ls) ms p = read_lines-append ls ms (read_line json l p)

  drain_lem :
      (f : ℕ) (c : StreamContext)
      → length c.pending ≤ f
      → drain json f c
        ≡ record { pending = rest_of c.pending; progress = read_lines (lines c.pending) c.progress }
  unfolding drain read_lines
  drain_lem zero c h = ground (arith, lines_none c.pending, find_byte-le 10 c.pending)
  drain_lem (suc f) c h = elim (Bool-cases (find_byte 10 c.pending == length c.pending)) [
    | inl none_left ↦ ground (arith, lines_none c.pending, none_left)
    | inr found ↦
        let nl = find_byte 10 c.pending in
        let (whole, behind) = lines_first c.pending found in
        let next : StreamContext = record {
          pending = drop (suc nl) c.pending;
          progress = read_line json (take nl c.pending) c.progress;
        } in
        let shorter : length next.pending ≤ f = omega (arith, length-drop (suc nl) c.pending, h) in
        rw found (drain_lem f next shorter ∙ ground (arith, whole, behind))
  ]

  read_pending : Bytes → Progress → StreamContext
  read_pending xs p = record { pending = rest_of xs; progress = read_lines (lines xs) p }

  write_stream_data_lem :
      (xs : Bytes) (c : StreamContext)
      → write_stream_data json xs c ≡ read_pending (c.pending ++ xs) c.progress
  unfolding write_stream_data read_pending
  write_stream_data_lem xs c =
      drain_lem (length (c.pending ++ xs)) (record c { pending = c.pending ++ xs }) (omega arith)

  -- What has been read is the same whether two pieces come apart or together.
  write_stream_data-append :
      (xs ys : Bytes) (c : StreamContext)
      → write_stream_data json ys (write_stream_data json xs c)
        ≡ write_stream_data json (xs ++ ys) c
  unfolding read_pending
  write_stream_data-append xs ys c =
      let all = c.pending ++ xs in
      ap (write_stream_data json ys) (write_stream_data_lem xs c)
      ∙ write_stream_data_lem ys
          (record { pending = rest_of all; progress = read_lines (lines all) c.progress })
      ∙ ground (
        arith,
        append_assoc c.pending xs ys,
        rest_of-append all ys,
        lines-append all ys,
        read_lines-append (lines all) (lines (rest_of all ++ ys)) c.progress,
      )
      ∙ sym (write_stream_data_lem (xs ++ ys) c)

  -- However the bytes of a stream are cut into pieces (at least one), the text assembled, the
  -- deltas handed on, the error and the unfinished line are those of the bytes in one piece.
  pub write_all-join :
      (xs : Bytes) (chunks : List Bytes) (c : StreamContext)
      → write_all json (xs ∷ chunks) c ≡ write_stream_data json (join (xs ∷ chunks)) c
  unfolding write_all
  write_all-join xs [] c = rw (append-nil xs) refl
  write_all-join xs (ys ∷ chunks) c =
      write_all-join ys chunks (write_stream_data json xs c)
      ∙ write_stream_data-append xs (join (ys ∷ chunks)) c
