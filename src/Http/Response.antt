-- ===== src/Http/Response.antt =====
-- include/http/HttpResponse.h and src/http/HttpResponse.cc.
pub mod Text
pub mod Framing
use ai_chat_server.Base.{
  ℕ, ◌++◌, Bool, true, false, Option, none, some, Bytes, codes, List, [], ◌∷◌, length, take,
  is_empty, c_str, if◌then◌else◌,
}
use ai_chat_server.Base.Decimal.{to_decimal}
use ai_chat_server.Net.Buffer.{Buffer, append}
use ai_chat_server.Http.Headers.{Headers, assign, lookup}

pub data StatusCode : Type 0 where
  ok bad_request not_found method_not_allowed payload_too_large internal_server_error : StatusCode

unfoldable pub code_number : StatusCode → ℕ
code_number ok = 200
code_number bad_request = 400
code_number not_found = 404
code_number method_not_allowed = 405
code_number payload_too_large = 413
code_number internal_server_error = 500

unfoldable pub reason_phrase : StatusCode → Bytes
reason_phrase ok = codes "OK"
reason_phrase bad_request = codes "Bad Request"
reason_phrase not_found = codes "Not Found"
reason_phrase method_not_allowed = codes "Method Not Allowed"
reason_phrase payload_too_large = codes "Payload Too Large"
reason_phrase internal_server_error = codes "Internal Server Error"

pub record Response : Type 0 where
  pub headers : Headers
  pub status_code : StatusCode
  pub status_message : Bytes
  pub body : Bytes
  pub close_connection : Bool

-- The constructor.
abbrev pub new_response : Bool → Response
new_response close = record {
  headers = [];
  status_code = ok;
  status_message = codes "OK";
  body = [];
  close_connection = close;
}

unfoldable pub add_header : Bytes → Bytes → Response → Response
add_header key value r = record r { headers = assign key value r.headers }

abbrev pub set_content_type : Bytes → Response → Response
set_content_type type r = add_header (codes "Content-Type") type r

abbrev pub crlf : Bytes
crlf = 13 ∷ 10 ∷ []

-- snprintf into 64 bytes keeps 63 of them.
abbrev pub snprintf64 : Bytes → Bytes
snprintf64 text = take 63 text

unfoldable pub phrase : Response → Bytes
phrase r = if is_empty r.status_message then reason_phrase r.status_code else c_str r.status_message

unfoldable pub status_line : Response → Bytes
status_line r =
    snprintf64
      (codes "HTTP/1.1 " ++ (to_decimal (code_number r.status_code) ++ (32 ∷ (phrase r ++ crlf))))

unfoldable pub connection_line : Response → Bytes
connection_line r =
    if r.close_connection
    then codes "Connection: close" ++ crlf
    else codes "Connection: keep-alive" ++ crlf

unfoldable pub has_length : Response → Bool
has_length r = elim (lookup (codes "Content-Length") r.headers) [ none ↦ false | some _ ↦ true ]

unfoldable pub length_line : Response → Bytes
length_line r = snprintf64 (codes "Content-Length: " ++ (to_decimal (length r.body) ++ crlf))

-- The loop over the headers, in the order of their names.
unfoldable pub append_headers : Headers → Buffer → Buffer
append_headers [] out = out
append_headers ((key, value) ∷ hs) out =
    append_headers hs (append crlf (append value (append (codes ": ") (append key out))))

append_length : Response → Buffer → Buffer
append_length r out = if has_length r then out else append (length_line r) out

unfoldable pub append_to_buffer : Response → Buffer → Buffer
unfolding append_headers append_length
append_to_buffer r out =
    let head = append (connection_line r) (append (status_line r) out) in
    append r.body (append crlf (append_headers r.headers (append_length r head)))
