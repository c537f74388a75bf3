-- ===== src/Http/Context/Feed.antt =====
-- The parser over bytes that arrive in pieces, against the parser over the whole text.
mod Bytewise
use ai_chat_server.Base.{
  ℕ, suc, ◌+◌, ◌≤◌, ◌<◌, ◌≡◌, refl, sym, ap, ◌∙◌, Bool, true, false, Option, none, some, Bytes,
  List, [], ◌∷◌, ◌++◌, length, drop, if◌then◌else◌, arith, append_assoc, append-nil, Option-cases,
}
use ai_chat_server.Net.Buffer.{Buffer, content, readable_bytes, received, read_fd}
use ai_chat_server.Net.Buffer.Invariant.{IsValid, length-content, read_fd-IsValid}
use ai_chat_server.Net.Buffer.Content.{content-read_fd}
use ai_chat_server.Http.Context.{Context, parse_request}
pub use Bytewise.{Answer, observe}
use Bytewise.{
  outcome, parse_request-outcome, parse_request-IsValid, outcome_total, outcome-append,
  outcome-refused,
}

-- A connection whose bytes arrive as `chunks`: each is read into the buffer and parsed, up to the
-- first refusal.
pub feed : Context → Buffer → List Bytes → Option (Bool × Context × Buffer)
feed c b [] = some (true, c, b)
feed c b (xs ∷ chunks) = elim (parse_request c (read_fd (received xs) b)) [
  | none ↦ none
  | some (ok, c', b') ↦ let rest = feed c' b' chunks in if ok then rest else some (false, c', b')
]

pub concat : List Bytes → Bytes
concat [] = []
concat (xs ∷ chunks) = xs ++ concat chunks

-- What counts of an answer: whether the text was accepted so far, the parser's state and request,
-- and, unless it was refused, the bytes that are not yet parsed.
abbrev pub pending : Bool → Bytes → Bytes
pending true xs = xs
pending false xs = []

abbrev pub verdict : Option Answer → Option Answer
verdict none = none
verdict (some (ok, c, xs)) = some (ok, c, pending ok xs)

-- An answer of the parser is one of the bytewise loop, and its buffer is in order.
parse_cases :
    (c : Context) (b : Buffer)
    → IsValid b
    → (ok : Bool) × (c' : Context) × (b' : Buffer) × (parse_request c b ≡ some (ok, c', b'))
      × IsValid b'
      × (outcome c (content b) ≡ some (ok, c', content b'))
parse_cases c b v = go (parse_request c b) refl
  where
    go :
        (r : Option (Bool × Context × Buffer))
        → parse_request c b ≡ r
        → (ok : Bool) × (c' : Context) × (b' : Buffer) × (parse_request c b ≡ some (ok, c', b'))
          × IsValid b'
          × (outcome c (content b) ≡ some (ok, c', content b'))
    go none e =
        let (r, total) = outcome_total c (content b) in
        let q : ◌≡◌ {A = Option Answer} none (some r) =
          sym (ap observe e) ∙ parse_request-outcome c b v ∙ total in
        absurd (cc)
    go (some (ok, c', b')) e = (
      ok,
      c',
      b',
      e,
      parse_request-IsValid c c' b b' ok v e,
      sym (parse_request-outcome c b v) ∙ ap observe e,
    )

-- On a buffer in order the parser always answers, within its fuel, and the buffer that it leaves
-- is in order.
pub parse_request_total :
    (c : Context) (b : Buffer)
    → IsValid b
    → (ok : Bool) × (c' : Context) × (b' : Buffer) × (parse_request c b ≡ some (ok, c', b'))
      × IsValid b'
parse_request_total c b v = let (ok, c', b', e, v', _) = parse_cases c b v in (ok, c', b', e, v')

feed_bytes : Context → Bytes → List Bytes → Option Answer
feed_bytes c pre [] = some (true, c, pre)
feed_bytes c pre (xs ∷ chunks) = elim (outcome c (pre ++ xs)) [
  | none ↦ none
  | some (ok, c', rest) ↦
      let more = feed_bytes c' rest chunks in if ok then more else some (false, c', rest)
]

feed-feed_bytes :
    (c : Context) (b : Buffer) (chunks : List Bytes)
    → IsValid b
    → observe (feed c b chunks) ≡ feed_bytes c (content b) chunks
unfolding feed feed_bytes
feed-feed_bytes c b [] v = refl
feed-feed_bytes c b (xs ∷ chunks) v =
    let b1 = read_fd (received xs) b in
    let (ok, c', b', e, v', o) = parse_cases c b1 (read_fd-IsValid (received xs) b v) in
    let o' : outcome c (content b ++ xs) ≡ some (ok, c', content b') =
      ap (outcome c) (sym (content-read_fd xs b v)) ∙ o in
    rw (e, feed, o', feed_bytes) (branch ok c' b' (feed-feed_bytes c' b' chunks v'))
  where
    branch :
        (ok : Bool) (c' : Context) (b' : Buffer)
        → observe (feed c' b' chunks) ≡ feed_bytes c' (content b') chunks
        → observe (if ok then feed c' b' chunks else some (false, c', b'))
          ≡ (if ok then feed_bytes c' (content b') chunks else some (false, c', content b'))
    branch true c' b' ih = ih
    branch false c' b' ih = refl

feed_bytes-concat :
    (c : Context) (pre xs : Bytes) (chunks : List Bytes)
    → verdict (feed_bytes c pre (xs ∷ chunks)) ≡ verdict (outcome c (pre ++ concat (xs ∷ chunks)))
unfolding feed_bytes concat
feed_bytes-concat c pre xs [] =
    let (r, e) = outcome_total c (pre ++ xs) in rw (append-nil xs, e, feed_bytes) (last r.0 r.1 r.2)
  where
    last :
        (ok : Bool) (c' : Context) (rest : Bytes)
        → verdict (if ok then some (true, c', rest) else some (false, c', rest))
          ≡ verdict (some (ok, c', rest))
    last true c' rest = refl
    last false c' rest = refl
feed_bytes-concat c pre xs (ys ∷ chunks) =
    let (r, e) = outcome_total c (pre ++ xs) in
    rw (← append_assoc pre xs (ys ++ concat chunks))
      (rw (e, feed_bytes) (go r.0 r.1 r.2 e (feed_bytes-concat r.1 r.2 ys chunks)))
  where
    go :
        (ok : Bool) (c' : Context) (rest : Bytes)
        → outcome c (pre ++ xs) ≡ some (ok, c', rest)
        → verdict (feed_bytes c' rest (ys ∷ chunks))
          ≡ verdict (outcome c' (rest ++ concat (ys ∷ chunks)))
        → verdict (if ok then feed_bytes c' rest (ys ∷ chunks) else some (false, c', rest))
          ≡ verdict (outcome c ((pre ++ xs) ++ (ys ++ concat chunks)))
    go true c' rest e ih =
        ih ∙ ap verdict (sym (outcome-append c c' (pre ++ xs) (ys ++ concat chunks) rest e))
    go false c' rest e ih =
        ap verdict (sym (outcome-refused c c' (pre ++ xs) (ys ++ concat chunks) rest e))

-- Into a buffer in order: however the bytes of a connection are cut into chunks (at least one), parsing after each chunk
-- ends as parsing once after the last: the same acceptance, the same parser state and request,
-- and, unless the text is refused, the same bytes left over.
pub feed-concat :
    (c : Context) (b : Buffer) (xs : Bytes) (chunks : List Bytes)
    → IsValid b
    → verdict (observe (feed c b (xs ∷ chunks)))
      ≡ verdict (observe (parse_request c (read_fd (received (concat (xs ∷ chunks))) b)))
feed-concat c b xs chunks v =
    let all = concat (xs ∷ chunks) in
    ap verdict (feed-feed_bytes c b (xs ∷ chunks) v)
    ∙ feed_bytes-concat c (content b) xs chunks
    ∙ ap (λ t. verdict (outcome c t)) (sym (content-read_fd all b v))
    ∙ ap verdict (
        sym
          (parse_request-outcome c (read_fd (received all) b) (read_fd-IsValid (received all) b v)))
