-- ===== src/Http/Context/Rounds.antt =====
-- One round of the parser: what it consumes, and how it answers when more bytes have come.
use ai_chat_server.Base.{
  ℕ, ◌+◌, ◌-◌, ◌≤◌, ◌<◌, ◌≡◌, refl, ◌≢◌, inl, inr, ◌==◌, ltb, true, false, Bytes, ◌++◌, length,
  take, search_crlf, search_crlf_room, search_crlf-append, take_line, take-append_le, length-append,
  arith, Bool-cases,
}
use ai_chat_server.Http.Context.{
  Context, ParseState, expect_request_line, expect_headers, expect_body, got_all, Step, stop,
  advance, process_request_line, request_line_step, end_of_headers, header_line, headers_step,
  body_step, step_in, parse_step,
}

-- The final state does no more; every other may still consume nothing once.
abbrev pub rank : ParseState → ℕ
rank got_all = 0
rank _ = 1

-- What a round may do: leave the loop with nothing changed, refuse the line and keep refusing it,
-- or consume bytes that are there, and do the same when more bytes follow.
pub data Sound (step : Bytes → Step) (c : Context) (xs : Bytes) : Type 0 where
  waits : step xs ≡ stop true c → Sound step c xs
  refuses :
      (c' : Context)
      → step xs ≡ stop false c'
      → ((ys : Bytes) → step (xs ++ ys) ≡ stop false c')
      → Sound step c xs
  consumes :
      (n : ℕ) (c' : Context)
      → step xs ≡ advance n c'
      → n ≤ length xs
      → rank c'.state + (length xs - n) < rank c.state + length xs
      → ((ys : Bytes) → step (xs ++ ys) ≡ advance n c')
      → Sound step c xs

pub rank-le : (s : ParseState) → rank s ≤ 1
rank-le got_all = omega arith
rank-le _ = omega arith

-- The line that ends within `xs` is also the first line of `xs ++ ys`.
no_end :
    (xs ys : Bytes)
    → search_crlf xs ≢ length xs
    → (search_crlf (xs ++ ys) == length (xs ++ ys)) ≡ false
no_end xs ys h =
    ground (arith, search_crlf-append xs ys h, search_crlf_room xs h, length-append xs ys)

fewer : (n k : ℕ) (s s' : ParseState) → k + 2 ≤ n → rank s' + (n - (k + 2)) < rank s + n
fewer n k s s' h = omega (arith, rank-le s, rank-le s')

request_line_step-Sound : (c : Context) (xs : Bytes) → Sound (request_line_step c) c xs
unfolding request_line_step
request_line_step-Sound c xs = elim (Bool-cases (search_crlf xs == length xs)) [
  | inl e ↦ waits (rw e refl)
  | inr e ↦
      let ne : search_crlf xs ≢ length xs = ground arith in
      let k = search_crlf xs in
      let r = (process_request_line (take k xs) c.request).1 in
      elim (Bool-cases (process_request_line (take k xs) c.request).0) [
        | inl good ↦
            consumes (k + 2) (record c { request = r; state = expect_headers }) (rw (e, good) refl)
              (search_crlf_room xs ne)
              (fewer (length xs) k c.state expect_headers (search_crlf_room xs ne))
              λ ys. rw (no_end xs ys ne, search_crlf-append xs ys ne, take_line xs ys, good) refl
        | inr bad ↦
            refuses (record c { request = r }) (rw (e, bad) refl)
              λ ys. rw (no_end xs ys ne, search_crlf-append xs ys ne, take_line xs ys, bad) refl
      ]
]

headers_step-Sound : (c : Context) (xs : Bytes) → Sound (headers_step c) c xs
unfolding headers_step
headers_step-Sound c xs = elim (Bool-cases (search_crlf xs == length xs)) [
  | inl e ↦ waits (rw e refl)
  | inr e ↦
      let ne : search_crlf xs ≢ length xs = ground arith in
      let k = search_crlf xs in
      elim (Bool-cases (k == 0)) [
        | inl blank ↦
            consumes 2 (end_of_headers c) (rw (e, blank) refl)
              (omega (arith, search_crlf_room xs ne))
              (omega
                (arith, search_crlf_room xs ne, rank-le c.state, rank-le (end_of_headers c).state))
              λ ys. rw (no_end xs ys ne, search_crlf-append xs ys ne, blank) refl
        | inr line ↦
            consumes (k + 2) (header_line (take k xs) c) (rw (e, line) refl)
              (search_crlf_room xs ne)
              (fewer (length xs) k c.state (header_line (take k xs) c).state
                (search_crlf_room xs ne))
              λ ys. rw (no_end xs ys ne, search_crlf-append xs ys ne, line, take_line xs ys) refl
      ]
]

body_step-Sound : (c : Context) (xs : Bytes) → rank c.state ≡ 1 → Sound (body_step c) c xs
unfolding body_step
body_step-Sound c xs live = elim (Bool-cases (ltb (length xs) c.body_expected)) [
  | inl short ↦ waits (rw short refl)
  | inr enough ↦
      let there : c.body_expected ≤ length xs = ground arith in
      consumes c.body_expected
        (record c {
          request = record (c.request) { body = take c.body_expected xs };
          state = got_all;
        })
        (rw enough refl) there (omega arith)
        λ ys.
          let more : ltb (length (xs ++ ys)) c.body_expected ≡ false =
            ground (arith, length-append xs ys) in
          rw (more, take-append_le c.body_expected xs ys there) refl
]

step_in-Sound : (s : ParseState) (c : Context) (xs : Bytes) → c.state ≡ s → Sound (step_in s c) c xs
unfolding step_in
step_in-Sound expect_request_line c xs e = request_line_step-Sound c xs
step_in-Sound expect_headers c xs e = headers_step-Sound c xs
step_in-Sound expect_body c xs e = body_step-Sound c xs (rw e refl)
step_in-Sound got_all c xs e = waits refl

pub parse_step-Sound : (c : Context) (xs : Bytes) → Sound (parse_step c) c xs
unfolding parse_step
parse_step-Sound c xs = step_in-Sound c.state c xs refl
