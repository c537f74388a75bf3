-- ===== src/Log/AsyncLogging/Sound.antt =====
-- What holds between two steps of the buffers, and logging.
use ai_chat_server.Base.{
  ◌≡◌, ◌≢◌, refl, ap, ◌∙◌, ℕ, ◌-◌, ◌≤◌, true, false, Option, none, some, Bytes, [], ◌∷◌, ◌++◌,
  append_assoc, append-nil, length, length-append, join, join-append, ltb, if◌then◌else◌, arith,
  Bool-cases, inl, inr,
}
use ai_chat_server.Log.FixedBuffer
use ai_chat_server.Log.FixedBuffer.{avail}
use ai_chat_server.Log.AsyncLogging.{AsyncLogging, append_to, next_or_new}

abbrev pub text_of : Option Bytes → Bytes
text_of none = []
text_of (some b) = b

-- Written, taken, waiting, and being filled.
abbrev pub all_text : AsyncLogging → Bytes
all_text s = s.output ++ (join s.buffers_to_write ++ (join s.buffers ++ text_of s.current_buffer))

-- A spare buffer of the front is there or has been used since the last round; the writing thread
-- has its own, or enough buffers to write to get them back.
pub record Sound (s : AsyncLogging) : Type 0 where
  pub current : s.current_buffer ≢ none
  pub spare_empty : (b : Bytes) → s.next_buffer ≡ some b → b ≡ []
  pub spare : s.next_buffer ≡ none → 1 ≤ length s.buffers
  pub idle :
      s.writing ≡ false
      → (s.newbuffer1 ≡ some []) × (s.newbuffer2 ≡ some []) × (s.buffers_to_write ≡ [])
  pub busy : s.writing ≡ true → (s.newbuffer1 ≡ none) × (1 ≤ length s.buffers_to_write)
  pub second : s.writing ≡ true → s.newbuffer2 ≡ none → 2 ≤ length s.buffers_to_write
  pub second_empty : (b : Bytes) → s.newbuffer2 ≡ some b → b ≡ []

-- A step that keeps the order, and adds `xs` at the end.
abbrev pub Good : Bytes → AsyncLogging → Option AsyncLogging → Type 0
Good xs s o = (t : AsyncLogging) × ((o ≡ some t) × Sound t × (all_text t ≡ all_text s ++ xs))

next-empty : (o : Option Bytes) → ((b : Bytes) → o ≡ some b → b ≡ []) → next_or_new o ≡ []
next-empty none h = refl
next-empty (some b) h = h b refl

append-empty :
    (size : ℕ) (line : Bytes)
    → FixedBuffer.append size line [] ≡ (if ltb (length line) size then line else [])
unfolding FixedBuffer.append
append-empty size line = let e : size - 0 ≡ size = omega arith in rw e refl

pub append-Good :
    (size : ℕ) (line : Bytes) (s : AsyncLogging) (c : Option Bytes)
    → s.current_buffer ≡ c
    → Sound s
    → Good (if ltb (length line) size then line else []) s (append_to size line s c)
unfolding FixedBuffer.append
append-Good size line s none e h = absurd (h.current e)
append-Good size line s (some b) e h = elim (Bool-cases (ltb (length line) (avail size b))) [
  | inl fits ↦
      let t = record s { current_buffer = some (b ++ line) } in
      let short : ltb (length line) size ≡ true = ground arith in
      let same : append_to size line s (some b) ≡ some t = rw (fits, FixedBuffer.append) refl in
      (
        t,
        (
          same,
          record {
            current = λ k. ground arith;
            spare_empty = h.spare_empty;
            spare = h.spare;
            idle = h.idle;
            busy = h.busy;
            second = h.second;
            second_empty = h.second_empty;
          },
          simp (e, short, append_assoc),
        ),
      )
  | inr full ↦
      let kept = if ltb (length line) size then line else [] in
      let t = record s {
        buffers = s.buffers ++ (b ∷ []);
        current_buffer = some kept;
        next_buffer = none;
      } in
      let filled : FixedBuffer.append size line (next_or_new s.next_buffer) ≡ kept =
        ap (FixedBuffer.append size line) (next-empty s.next_buffer h.spare_empty)
        ∙ append-empty size line in
      let same : append_to size line s (some b) ≡ some t =
        rw full refl
        ∙ ap
            (λ x. some (record s {
              buffers = s.buffers ++ (b ∷ []);
              current_buffer = some x;
              next_buffer = none;
            }))
            filled in
      (
        t,
        (
          same,
          record {
            current = λ k. ground arith;
            spare_empty = λ x k. ground arith;
            spare = λ k. omega (arith, length-append s.buffers (b ∷ []));
            idle = h.idle;
            busy = h.busy;
            second = h.second;
            second_empty = h.second_empty;
          },
          simp (e, join-append s.buffers (b ∷ []), append-nil, append_assoc),
        ),
      )
]
