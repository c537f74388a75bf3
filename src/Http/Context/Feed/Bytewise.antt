-- ===== src/Http/Context/Feed/Bytewise.antt =====
-- The loop of the parser on a plain byte list.
use ai_chat_server.Base.{
  ℕ, zero, suc, ◌+◌, ◌<◌, ◌≡◌, refl, sym, ap, ◌∙◌, Bool, true, false, Option, none, some, Bytes,
  ◌++◌, length, drop, arith, drop-append_le, length-append, length-drop,
}
use ai_chat_server.Net.Buffer.{Buffer, content, readable_bytes, retrieve}
use ai_chat_server.Net.Buffer.Invariant.{IsValid, length-content, retrieve-IsValid}
use ai_chat_server.Net.Buffer.Content.{content-retrieve}
use ai_chat_server.Http.Context.{
  Context, Step, stop, advance, parse_step, parse_loop, parse_request,
}
use ai_chat_server.Http.Context.Rounds.{rank, rank-le, waits, refuses, consumes, parse_step-Sound}

abbrev pub Answer : Type 0
Answer = Bool × Context × Bytes

pub parse_bytes : ℕ → Context → Bytes → Option Answer
parse_bytes zero c xs = none
parse_bytes (suc f) c xs = elim (parse_step c xs) [
  | stop ok c' ↦ some (ok, c', xs)
  | advance n c' ↦ parse_bytes f c' (drop n xs)
]

abbrev measure : Context → Bytes → ℕ
measure c xs = rank c.state + length xs

-- The same answer with the bytes that a buffer holds in place of the buffer.
abbrev pub observe : Option (Bool × Context × Buffer) → Option Answer
observe none = none
observe (some (ok, c, b)) = some (ok, c, content b)

parse_loop-parse_bytes :
    (f : ℕ) (c : Context) (b : Buffer)
    → IsValid b
    → observe (parse_loop f c b) ≡ parse_bytes f c (content b)
unfolding parse_loop parse_bytes
parse_loop-parse_bytes zero c b v = refl
parse_loop-parse_bytes (suc f) c b v = go (parse_step c (content b)) refl (λ n c'.
    parse_loop-parse_bytes f c' (retrieve n b) (retrieve-IsValid n b v)
    ∙ ap (parse_bytes f c') (content-retrieve n b v))
  where
    go :
        (s : Step)
        → parse_step c (content b) ≡ s
        → ((n : ℕ) (c' : Context)
            → observe (parse_loop f c' (retrieve n b)) ≡ parse_bytes f c' (drop n (content b)))
        → observe (parse_loop (suc f) c b) ≡ parse_bytes (suc f) c (content b)
    go (stop ok c') e ih = rw (e, parse_loop, parse_bytes) refl
    go (advance n c') e ih = rw (e, parse_loop, parse_bytes) (ih n c')

-- Enough fuel gives an answer, and more fuel the same one.
parse_bytes_total :
    (f : ℕ) (c : Context) (xs : Bytes)
    → measure c xs < f
    → (r : Answer) × (parse_bytes f c xs ≡ some r)
unfolding parse_bytes
parse_bytes_total zero c xs h = elim h [ ]
parse_bytes_total (suc f) c xs h = elim (parse_step-Sound c xs) [
  | waits e ↦ ((true, c, xs), rw (e, parse_bytes) refl)
  | refuses c' e _ ↦ ((false, c', xs), rw (e, parse_bytes) refl)
  | consumes n c' e _ less _ ↦
      let (r, p) = parse_bytes_total f c' (drop n xs) (omega (arith, length-drop n xs, less)) in
      (r, rw (e, parse_bytes) p)
]

parse_bytes_fuel :
    (f g : ℕ) (c : Context) (xs : Bytes)
    → measure c xs < f
    → measure c xs < g
    → parse_bytes f c xs ≡ parse_bytes g c xs
unfolding parse_bytes
parse_bytes_fuel zero g c xs h k = elim h [ ]
parse_bytes_fuel (suc f) zero c xs h k = elim k [ ]
parse_bytes_fuel (suc f) (suc g) c xs h k = elim (parse_step-Sound c xs) [
  | waits e ↦ rw (e, parse_bytes) refl
  | refuses c' e _ ↦ rw (e, parse_bytes) refl
  | consumes n c' e _ less _ ↦
      rw (e, parse_bytes)
        (parse_bytes_fuel f g c' (drop n xs) (omega (arith, length-drop n xs, less))
          (omega (arith, length-drop n xs, less)))
]

-- What the loop leaves unread it leaves for the bytes that follow.
parse_bytes-append :
    (f g k : ℕ) (c c' : Context) (xs ys rest : Bytes)
    → measure c xs < f
    → measure c (xs ++ ys) < g
    → measure c' (rest ++ ys) < k
    → parse_bytes f c xs ≡ some (true, c', rest)
    → parse_bytes g c (xs ++ ys) ≡ parse_bytes k c' (rest ++ ys)
unfolding parse_bytes
parse_bytes-append zero g k c c' xs ys rest h hg hk p = elim h [ ]
parse_bytes-append (suc f) zero k c c' xs ys rest h hg hk p = elim hg [ ]
parse_bytes-append (suc f) (suc g) k c c' xs ys rest h hg hk p = elim (parse_step-Sound c xs) [
  | waits e ↦
      let q : ◌≡◌ {A = Option Answer} (some (true, c, xs)) (some (true, c', rest)) =
        rw (e, parse_bytes) at p in
      let ec : c ≡ c' = cc in
      let er : xs ≡ rest = cc in
      let enough : measure c (xs ++ ys) < k = rw (ec, er) hk in
      rw (← ec, ← er) (parse_bytes_fuel (suc g) k c (xs ++ ys) hg enough)
  | refuses d e _ ↦
      let q : ◌≡◌ {A = Option Answer} (some (false, d, xs)) (some (true, c', rest)) =
        rw (e, parse_bytes) at p in
      cc
  | consumes n d e inside less later ↦
      rw (later ys, parse_bytes, drop-append_le n xs ys inside)
        (parse_bytes-append f g k d c' (drop n xs) ys rest (omega (arith, length-drop n xs, less))
          (omega (arith, length-append (drop n xs) ys, length-append xs ys, length-drop n xs, less))
          hk (rw (e, parse_bytes) at p))
]

-- A refusal stands whatever follows.
parse_bytes-refused :
    (f g : ℕ) (c c' : Context) (xs ys rest : Bytes)
    → measure c xs < f
    → measure c (xs ++ ys) < g
    → parse_bytes f c xs ≡ some (false, c', rest)
    → parse_bytes g c (xs ++ ys) ≡ some (false, c', rest ++ ys)
unfolding parse_bytes
parse_bytes-refused zero g c c' xs ys rest h hg p = elim h [ ]
parse_bytes-refused (suc f) zero c c' xs ys rest h hg p = elim hg [ ]
parse_bytes-refused (suc f) (suc g) c c' xs ys rest h hg p = elim (parse_step-Sound c xs) [
  | waits e ↦
      let q : ◌≡◌ {A = Option Answer} (some (true, c, xs)) (some (false, c', rest)) =
        rw (e, parse_bytes) at p in
      cc
  | refuses d e later ↦
      let q : ◌≡◌ {A = Option Answer} (some (false, d, xs)) (some (false, c', rest)) =
        rw (e, parse_bytes) at p in
      let ed : d ≡ c' = cc in let er : xs ≡ rest = cc in rw (later ys, parse_bytes, ed, er) refl
  | consumes n d e inside less later ↦
      rw (later ys, parse_bytes, drop-append_le n xs ys inside)
        (parse_bytes-refused f g d c' (drop n xs) ys rest (omega (arith, length-drop n xs, less))
          (omega (arith, length-append (drop n xs) ys, length-append xs ys, length-drop n xs, less))
          (rw (e, parse_bytes) at p))
]

-- The parser on a byte list, with fuel that is enough.
pub outcome : Context → Bytes → Option Answer
outcome c xs = parse_bytes (length xs + 2) c xs

measure_lt : (c : Context) (xs : Bytes) → measure c xs < length xs + 2
measure_lt c xs = omega (arith, rank-le c.state)

pub outcome_total : (c : Context) (xs : Bytes) → (r : Answer) × (outcome c xs ≡ some r)
unfolding outcome
outcome_total c xs = parse_bytes_total (length xs + 2) c xs (measure_lt c xs)

pub outcome-append :
    (c c' : Context) (xs ys rest : Bytes)
    → outcome c xs ≡ some (true, c', rest)
    → outcome c (xs ++ ys) ≡ outcome c' (rest ++ ys)
unfolding outcome
outcome-append c c' xs ys rest =
    parse_bytes-append (length xs + 2) (length (xs ++ ys) + 2) (length (rest ++ ys) + 2) c c' xs ys
      rest (measure_lt c xs) (measure_lt c (xs ++ ys)) (measure_lt c' (rest ++ ys))

pub outcome-refused :
    (c c' : Context) (xs ys rest : Bytes)
    → outcome c xs ≡ some (false, c', rest)
    → outcome c (xs ++ ys) ≡ some (false, c', rest ++ ys)
unfolding outcome
outcome-refused c c' xs ys rest =
    parse_bytes-refused (length xs + 2) (length (xs ++ ys) + 2) c c' xs ys rest (measure_lt c xs)
      (measure_lt c (xs ++ ys))

pub parse_request-outcome :
    (c : Context) (b : Buffer) → IsValid b → observe (parse_request c b) ≡ outcome c (content b)
unfolding parse_request outcome
parse_request-outcome c b v =
    parse_loop-parse_bytes (readable_bytes b + 2) c b v
    ∙ ap (λ n. parse_bytes (n + 2) c (content b)) (sym (length-content b v))

-- The buffer that is left is in order.
parse_loop-IsValid :
    (f : ℕ) (c c' : Context) (b b' : Buffer) (ok : Bool)
    → IsValid b
    → parse_loop f c b ≡ some (ok, c', b')
    → IsValid b'
unfolding parse_loop
parse_loop-IsValid zero c c' b b' ok v e = cc
parse_loop-IsValid (suc f) c c' b b' ok v e = elim (parse_step-Sound c (content b)) [
  | waits s ↦
      let q : ◌≡◌ {A = Option (Bool × Context × Buffer)} (some (true, c, b)) (some (ok, c', b')) =
        rw (s, parse_loop) at e in
      let eb : b ≡ b' = cc in rw (← eb) v
  | refuses d s _ ↦
      let q : ◌≡◌ {A = Option (Bool × Context × Buffer)} (some (false, d, b)) (some (ok, c', b')) =
        rw (s, parse_loop) at e in
      let eb : b ≡ b' = cc in rw (← eb) v
  | consumes n d s _ _ _ ↦
      parse_loop-IsValid f d c' (retrieve n b) b' ok (retrieve-IsValid n b v)
        (rw (s, parse_loop) at e)
]

pub parse_request-IsValid :
    (c c' : Context) (b b' : Buffer) (ok : Bool)
    → IsValid b
    → parse_request c b ≡ some (ok, c', b')
    → IsValid b'
unfolding parse_request
parse_request-IsValid c c' b b' ok = parse_loop-IsValid (readable_bytes b + 2) c c' b b' ok
