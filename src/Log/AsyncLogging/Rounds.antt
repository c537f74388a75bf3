-- ===== src/Log/AsyncLogging/Rounds.antt =====
-- The rounds of the writing thread.
use ai_chat_server.Base.{
  ◌≡◌, ◌≢◌, refl, sym, ap, ◌∙◌, suc, ◌≤◌, true, false, Option, none, some, Bytes, List, [], ◌∷◌,
  ◌++◌, append_assoc, append-nil, length, length-append, length-take, take, join, join-append,
  if-true, if-false, arith, Bool-cases, inl, inr,
}
use ai_chat_server.Log.AsyncLogging.{
  AsyncLogging, collect, collect_from, pop_back, refill, full_of, left_of, written, refill_second,
  write_out,
}
use ai_chat_server.Log.AsyncLogging.Sound.{all_text, Sound, Good}

some_not_none : (b : Bytes) → some b ≢ none
some_not_none b h = ground arith

full-empty :
    (o n : Option Bytes) (x : Bytes)
    → ((b : Bytes) → o ≡ some b → b ≡ [])
    → n ≡ some []
    → full_of o n ≡ some x
    → x ≡ []
full-empty none n x h e k = ground arith
full-empty (some b) n x h e k = h x k

full-some : (o n : Option Bytes) → n ≡ some [] → full_of o n ≢ none
full-some none n e k = some_not_none [] (sym e ∙ k)
full-some (some b) n e k = some_not_none b k

left-none : (o n : Option Bytes) → n ≡ some [] → left_of o n ≡ none → o ≡ none
left-none none n e k = refl
left-none (some b) n e k = absurd (some_not_none [] (sym e ∙ k))

left-empty : (o n : Option Bytes) (x : Bytes) → n ≡ some [] → left_of o n ≡ some x → x ≡ []
left-empty none n x e k = ground arith
left-empty (some b) n x e k = ground arith

collect_from-Good :
    (s : AsyncLogging) (c : Option Bytes)
    → s.writing ≡ false
    → s.current_buffer ≡ c
    → Sound s
    → Good [] s (collect_from s c)
collect_from-Good s none w e h = absurd (h.current e)
collect_from-Good s (some b) w e h =
    let (n1, n2, taken) = h.idle w in
    let t = record s {
      buffers_to_write = s.buffers ++ (b ∷ []);
      buffers = s.buffers_to_write;
      current_buffer = s.newbuffer1;
      newbuffer1 = none;
      next_buffer = full_of s.next_buffer s.newbuffer2;
      newbuffer2 = left_of s.next_buffer s.newbuffer2;
      writing = true;
    } in
    (
      t,
      (
        refl,
        record {
          current = λ k. some_not_none [] (sym n1 ∙ k);
          spare_empty = λ x k. full-empty s.next_buffer s.newbuffer2 x h.spare_empty n2 k;
          spare = λ k. absurd (full-some s.next_buffer s.newbuffer2 n2 k);
          idle = λ k. ground arith;
          busy = λ k. (refl, omega (arith, length-append s.buffers (b ∷ [])));
          second = λ k l. two_buffers (left-none s.next_buffer s.newbuffer2 n2 l);
          second_empty = λ x k. left-empty s.next_buffer s.newbuffer2 x n2 k;
        },
        simp (e, n1, taken, join-append s.buffers (b ∷ []), append-nil),
      ),
    )
  where
    two_buffers : s.next_buffer ≡ none → 2 ≤ length (s.buffers ++ (b ∷ []))
    two_buffers l = omega (arith, length-append s.buffers (b ∷ []), h.spare l)

pub collect-Good : (s : AsyncLogging) → Sound s → Good [] s (collect s)
unfolding collect
collect-Good s h = elim (Bool-cases s.writing) [
  | inl busy ↦ (
    s,
    (
      if-true s.writing (some s) (collect_from s s.current_buffer) busy,
      h,
      sym (append-nil (all_text s)),
    ),
  )
  | inr idle ↦
      let (t, (e, sound, text)) = collect_from-Good s s.current_buffer idle refl h in
      (t, (if-false s.writing (some s) (collect_from s s.current_buffer) idle ∙ e, sound, text))
]

pop_back-some :
    (bs : List Bytes)
    → 1 ≤ length bs
    → (r : Bytes × List Bytes) × ((pop_back bs ≡ some r) × (suc (length r.1) ≡ length bs))
unfolding pop_back
pop_back-some [] h = absurd (omega arith)
pop_back-some (b ∷ []) h = ((b, []), (refl, refl))
pop_back-some (b ∷ c ∷ bs) h =
    let (r, (e, l)) = pop_back-some (c ∷ bs) (omega arith) in
    ((r.0, b ∷ r.1), (rw e refl, ap suc l))

refill-some :
    (o : Option Bytes) (bs : List Bytes)
    → (o ≡ none → 1 ≤ length bs)
    → ((b : Bytes) → o ≡ some b → b ≡ [])
    → (r : List Bytes) × ((refill o bs ≡ some (some [], r)) × (length bs ≤ suc (length r)))
unfolding refill
refill-some none bs h k =
    let (r, (e, l)) = pop_back-some bs (h refl) in (r.1, (rw (refill, e) refl, omega arith))
refill-some (some b) bs h k = (bs, (ap (λ x. some (some x, bs)) (k b refl), omega arith))

pub write_out-Good : (s : AsyncLogging) → Sound s → Good [] s (write_out s)
unfolding write_out
write_out-Good s h = elim (Bool-cases s.writing) [
  | inl busy ↦
      let (n1, some_taken) = h.busy busy in
      let ws = take 2 s.buffers_to_write in
      let (r, (e, l)) =
        refill-some s.newbuffer1 ws (λ k. omega (arith, length-take 2 s.buffers_to_write))
          (λ x k. absurd (some_not_none x (sym k ∙ n1))) in
      let (q, (e', l')) =
        refill-some s.newbuffer2 r
          (λ k. omega (arith, h.second busy k, length-take 2 s.buffers_to_write)) h.second_empty in
      let t = record s {
        output = s.output ++ join s.buffers_to_write;
        newbuffer1 = some [];
        newbuffer2 = some [];
        buffers_to_write = [];
        writing = false;
      } in
      (
        t,
        (
          if-true s.writing (refill_second s (refill s.newbuffer1 ws)) (some s) busy
              ∙ ap (refill_second s) e
              ∙ ap (written s (some [])) e',
          record {
            current = h.current;
            spare_empty = h.spare_empty;
            spare = h.spare;
            idle = λ k. (refl, refl, refl);
            busy = λ k. ground arith;
            second = λ k. ground arith;
            second_empty = λ x k. ground arith;
          },
          simp (append-nil, append_assoc),
        ),
      )
  | inr idle ↦ (
    s,
    (
      if-false s.writing (refill_second s (refill s.newbuffer1 (take 2 s.buffers_to_write)))
          (some s) idle,
      h,
      sym (append-nil (all_text s)),
    ),
  )
]
