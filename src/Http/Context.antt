-- ===== src/Http/Context.antt =====
-- include/http/HttpContext.h and src/http/HttpContext.cc: the incremental request parser.
pub mod Rounds
pub mod Feed
use ai_chat_server.Base.{
  ℕ, zero, suc, ◌+◌, ◌==◌, ltb, Bool, true, false, ◌&&◌, Option, none, some, Bytes, codes, List, [],
  ◌∷◌, length, take, drop, bytes_eq, find_byte, search_crlf, if◌then◌else◌, is_empty, c_str,
}
use ai_chat_server.Base.Decimal.{atoi_size}
use ai_chat_server.Net.Buffer.{Buffer, content, readable_bytes, retrieve}
use ai_chat_server.Http.Request.{
  Version, unknown, http10, http11, Request, new_request, set_method, add_header, get_header,
}

pub data ParseState : Type 0 where
  expect_request_line expect_headers expect_body got_all : ParseState

pub record Context : Type 0 where
  pub state : ParseState
  pub request : Request
  pub body_expected : ℕ

-- The constructor, and what reset() leaves.
abbrev pub new_context : Context
new_context = record { state = expect_request_line; request = new_request; body_expected = 0 }

abbrev pub reset : Context → Context
reset c = new_context

abbrev pub is_got_all : ParseState → Bool
is_got_all got_all = true
is_got_all _ = false

abbrev pub got_all? : Context → Bool
got_all? c = is_got_all c.state

-- setPath and setQuery from the second word of the line.
set_target : Bytes → Request → Request
set_target target r =
    let question = find_byte b'?' target in
    if question == length target
    then record r { path = target }
    else record r { path = take question target; query = drop (question + 1) target }

-- The third word: eight bytes, HTTP/1.1 or HTTP/1.0.
set_version : Bytes → Request → Bool × Request
set_version word r =
    if length word == 8 && bytes_eq word (codes "HTTP/1.1")
    then (true, record r { version = http11 })
    else if length word == 8 && bytes_eq word (codes "HTTP/1.0")
    then (true, record r { version = http10 })
    else (false, r)

-- What follows the method. A request is changed also where the line is refused further on.
set_rest : Bytes → Request → Bool × Request
unfolding set_target set_version
set_rest rest r =
    let space = find_byte 32 rest in
    if space == length rest
    then (false, r)
    else set_version (drop (space + 1) rest) (set_target (take space rest) r)

unfoldable pub process_request_line : Bytes → Request → Bool × Request
unfolding set_rest
process_request_line line r =
    let space = find_byte 32 line in
    if space == length line
    then (false, r)
    else let (valid, r') = set_method (take space line) r in
      if valid then set_rest (drop (space + 1) line) r' else (false, r')

-- One round of the loop: leave it with the value of `ok`, or retrieve bytes and go on.
pub data Step : Type 0 where
  stop : (ok : Bool) → Context → Step
  advance : (n : ℕ) → Context → Step

request_line_step : Context → Bytes → Step
request_line_step c xs =
    let crlf = search_crlf xs in
    if crlf == length xs
    then stop true c
    else let (ok, r) = process_request_line (take crlf xs) c.request in
      if ok
      then advance (crlf + 2) (record c { request = r; state = expect_headers })
      else stop false (record c { request = r })

-- The blank line: how long is the body?
content_length : Request → ℕ
content_length r =
    let text = get_header (codes "Content-Length") r in
    if is_empty text then 0 else atoi_size (c_str text)

end_of_headers : Context → Context
unfolding content_length
end_of_headers c =
    let n = content_length c.request in
    if ltb 0 n
    then record c { body_expected = n; state = expect_body }
    else record c { body_expected = n; state = got_all }

-- A line with no colon is skipped.
header_line : Bytes → Context → Context
header_line line c =
    let colon = find_byte b':' line in
    if colon == length line
    then c
    else record c { request = add_header (take colon line) (drop (colon + 1) line) c.request }

headers_step : Context → Bytes → Step
unfolding end_of_headers header_line
headers_step c xs =
    let crlf = search_crlf xs in
    if crlf == length xs
    then stop true c
    else if crlf == 0
    then advance 2 (end_of_headers c)
    else advance (crlf + 2) (header_line (take crlf xs) c)

body_step : Context → Bytes → Step
body_step c xs =
    if ltb (length xs) c.body_expected
    then stop true c
    else advance c.body_expected (record c {
      request = record (c.request) { body = take c.body_expected xs };
      state = got_all;
    })

step_in : ParseState → Context → Bytes → Step
unfolding request_line_step headers_step body_step
step_in expect_request_line c xs = request_line_step c xs
step_in expect_headers c xs = headers_step c xs
step_in expect_body c xs = body_step c xs
step_in got_all c xs = stop true c

-- The round that the readable bytes `xs` and the state call for.
unfoldable pub parse_step : Context → Bytes → Step
unfolding step_in
parse_step c xs = step_in c.state c xs

-- The loop, on fuel; `none` means that the fuel ran out.
unfoldable pub parse_loop : ℕ → Context → Buffer → Option (Bool × Context × Buffer)
parse_loop zero c b = none
parse_loop (suc f) c b = elim (parse_step c (content b)) [
  | stop ok c' ↦ some (ok, c', b)
  | advance n c' ↦ parse_loop f c' (retrieve n b)
]

unfoldable pub parse_request : Context → Buffer → Option (Bool × Context × Buffer)
unfolding parse_loop
parse_request c b = parse_loop (readable_bytes b + 2) c b
