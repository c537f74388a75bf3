-- ===== src/Http/Response/Framing.antt =====
-- The bytes of a response, and how a client takes them apart.
use ai_chat_server.Base.{
  suc, ◌^◌, ◌≤◌, ◌<◌, ◌≡◌, refl, Bool, true, false, some, Bytes, codes, List, [], ◌∷◌, ◌++◌, length,
  NoByte, if◌then◌else◌, arith, NoByte-append, length-append, take_of_length-le, append_assoc,
}
use ai_chat_server.Net.Buffer.{Buffer, content}
use ai_chat_server.Net.Buffer.Invariant.{IsValid}
use ai_chat_server.Http.Headers.{Headers}
use ai_chat_server.Base.Decimal.{to_decimal}
use ai_chat_server.Base.Decimal.Laws.{to_decimal-NoByte, length-to_decimal-le}
use ai_chat_server.Http.Lines.{
  join_lines, message, split_message, IsLine, AllLines, split_message-message,
}
use ai_chat_server.Http.Response.{
  Response, StatusCode, bad_request, not_found, method_not_allowed, payload_too_large,
  internal_server_error, code_number, phrase, crlf, status_line, connection_line, has_length,
  length_line, append_to_buffer,
}
use ai_chat_server.Http.Response.Text.{
  header_text, length_text, response_text, append_to_buffer-Adds,
}

header_lines : Headers → List Bytes
header_lines [] = []
header_lines ((key, value) ∷ hs) = (key ++ (codes ": " ++ value)) ∷ header_lines hs

length_lines : Response → List Bytes
length_lines r =
    if has_length r then [] else (codes "Content-Length: " ++ to_decimal (length r.body)) ∷ []

-- Header names and values that hold no carriage return.
abbrev pub CleanHeaders : Headers → Type 0
CleanHeaders [] = Unit {0}
CleanHeaders ((key, value) ∷ hs) = NoByte 13 key × NoByte 13 value × CleanHeaders hs

-- The status text fits snprintf's 64 bytes, no text holds a carriage return, and the body's size
-- is one of a 64-bit machine.
pub record IsClean (r : Response) : Type 0 where
  pub short : length (phrase r) ≤ 48
  pub no_break : NoByte 13 (phrase r)
  pub clean : CleanHeaders r.headers
  pub sized : length r.body < 2 ^ 64

header_text-join : (hs : Headers) → header_text hs ≡ join_lines (header_lines hs)
unfolding header_text header_lines join_lines
header_text-join [] = refl
header_text-join ((key, value) ∷ hs) = simp (append_assoc, header_text-join hs)

length-code : (s : StatusCode) → length (to_decimal (code_number s)) ≡ 3
unfolding code_number to_decimal
length-code StatusCode.ok = refl
length-code bad_request = refl
length-code not_found = refl
length-code method_not_allowed = refl
length-code payload_too_large = refl
length-code internal_server_error = refl

status_line_lem :
    (r : Response)
    → length (phrase r) ≤ 48
    → status_line r
      ≡ codes "HTTP/1.1 " ++ (to_decimal (code_number r.status_code) ++ (32 ∷ (phrase r ++ crlf)))
unfolding status_line
status_line_lem r h =
    let number = to_decimal (code_number r.status_code) in
    take_of_length-le 63 (codes "HTTP/1.1 " ++ (number ++ (32 ∷ (phrase r ++ crlf)))) (
      omega (
        arith,
        length-code r.status_code,
        length-append number (32 ∷ (phrase r ++ crlf)),
        length-append (phrase r) crlf,
      ))

length_line_lem :
    (r : Response)
    → length r.body < 2 ^ 64
    → length_line r ≡ codes "Content-Length: " ++ (to_decimal (length r.body) ++ crlf)
unfolding length_line
length_line_lem r h =
    let number = to_decimal (length r.body) in
    take_of_length-le 63 (codes "Content-Length: " ++ (number ++ crlf))
      (omega (arith, length-to_decimal-le (length r.body) h, length-append number crlf))

connection_text : Bool → Bytes
connection_text true = codes "Connection: close"
connection_text false = codes "Connection: keep-alive"

connection_line_lem :
    (r : Response) → connection_line r ≡ connection_text r.close_connection ++ crlf
unfolding connection_line connection_text
connection_line_lem r = go r.close_connection
  where
    go :
        (b : Bool)
        → (if b then codes "Connection: close" ++ crlf else codes "Connection: keep-alive" ++ crlf)
          ≡ connection_text b ++ crlf
    go true = refl
    go false = refl

length_text_lem :
    (r : Response) → length r.body < 2 ^ 64 → length_text r ≡ join_lines (length_lines r)
unfolding length_text length_lines join_lines
length_text_lem r h = rw (length_line_lem r h) (go (has_length r))
  where
    number : Bytes
    number = to_decimal (length r.body)

    go :
        (b : Bool)
        → (if b then [] else codes "Content-Length: " ++ (number ++ crlf))
          ≡ join_lines (if b then [] else (codes "Content-Length: " ++ number) ∷ [])
    go true = refl
    go false = simp append_assoc

join_lines-append : (ls ms : List Bytes) → join_lines (ls ++ ms) ≡ join_lines ls ++ join_lines ms
unfolding join_lines
join_lines-append [] ms = refl
join_lines-append (l ∷ ls) ms = simp (append_assoc, join_lines-append ls ms)

-- The lines that the response is meant to have.
unfoldable pub response_lines : Response → List Bytes
unfolding length_lines header_lines connection_text
response_lines r =
    (codes "HTTP/1.1 " ++ (to_decimal (code_number r.status_code) ++ (32 ∷ phrase r)))
    ∷ connection_text r.close_connection
    ∷ (length_lines r ++ header_lines r.headers)

-- The written bytes are the lines, each ended by "\r\n", a blank line and the body.
response_text-message :
    (r : Response) → IsClean r → response_text r ≡ message (response_lines r) r.body
unfolding response_text response_lines
response_text-message r c =
    rw
      (
        status_line_lem r c.short,
        connection_line_lem r,
        length_text_lem r c.sized,
        header_text-join r.headers,
      )
      (unfold join_lines in
        (simp (append_assoc, join_lines-append (length_lines r) (header_lines r.headers))))

IsLine-header :
    (key value : Bytes) → NoByte 13 key → NoByte 13 value → IsLine (key ++ (codes ": " ++ value))
IsLine-header [] value h k = (refl, (refl, k))
IsLine-header (x ∷ xs) value h k =
    NoByte-append 13 (x ∷ xs) (codes ": " ++ value) h (refl, (refl, k))

header_lines-AllLines : (hs : Headers) → CleanHeaders hs → AllLines (header_lines hs)
unfolding header_lines
header_lines-AllLines [] c = tt
header_lines-AllLines ((key, value) ∷ hs) (clean_key, clean_value, c) =
    (IsLine-header key value clean_key clean_value, header_lines-AllLines hs c)

AllLines-append : (ls ms : List Bytes) → AllLines ls → AllLines ms → AllLines (ls ++ ms)
AllLines-append [] ms a b = b
AllLines-append (l ∷ ls) ms (is_line, a) b = (is_line, AllLines-append ls ms a b)

connection_text-IsLine : (b : Bool) → IsLine (connection_text b)
unfolding connection_text
connection_text-IsLine true = ground arith
connection_text-IsLine false = ground arith

length_lines-AllLines : (r : Response) → AllLines (length_lines r)
unfolding length_lines
length_lines-AllLines r = go (has_length r)
  where
    number : Bytes
    number = to_decimal (length r.body)

    go : (b : Bool) → AllLines (if b then [] else (codes "Content-Length: " ++ number) ∷ [])
    go true = tt
    go false = (
      NoByte-append 13 (codes "Content-Length: ") number (ground arith)
          (to_decimal-NoByte 13 (length r.body) (omega arith)),
      tt,
    )

response_lines-AllLines : (r : Response) → IsClean r → AllLines (response_lines r)
unfolding response_lines
response_lines-AllLines r c =
    let number = to_decimal (code_number r.status_code) in
    let first = NoByte-append 13 (codes "HTTP/1.1 ") (number ++ (32 ∷ phrase r)) (ground arith) (
      NoByte-append 13 number (32 ∷ phrase r)
        (to_decimal-NoByte 13 (code_number r.status_code) (omega arith)) (refl, c.no_break)) in
    (
      first,
      (
        connection_text-IsLine r.close_connection,
        AllLines-append (length_lines r) (header_lines r.headers) (length_lines-AllLines r)
            (header_lines-AllLines r.headers c.clean),
      ),
    )

-- A client that reads lines up to the blank one gets back, behind what the buffer held, exactly
-- the status line, the connection line, the computed length line (unless a length was set), one
-- line for each header, and then the body, if the response is clean and the buffer in order.
pub split_message-append_to_buffer :
    (r : Response) (out : Buffer)
    → IsClean r
    → IsValid out
    → (text : Bytes) × (content (append_to_buffer r out) ≡ content out ++ text)
      × (split_message (suc (length (response_lines r))) text ≡ some (response_lines r, r.body))
split_message-append_to_buffer r out c v = (
  response_text r,
  (append_to_buffer-Adds r).adds out v,
  rw (response_text-message r c) (
      split_message-message (suc (length (response_lines r))) (response_lines r) r.body
        (omega arith) (response_lines-AllLines r c)),
)

pub append_to_buffer-IsValid :
    (r : Response) (out : Buffer) → IsValid out → IsValid (append_to_buffer r out)
append_to_buffer-IsValid r out v = (append_to_buffer-Adds r).keeps out v
