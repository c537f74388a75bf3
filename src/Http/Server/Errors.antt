-- ===== src/Http/Server/Errors.antt =====
-- What a client reads from an answer of this thread.
use ai_chat_server.Base.{
  ℕ, suc, ◌≤◌, ◌≡◌, refl, ap, ◌∙◌, some, Bytes, codes, [], ◌∷◌, ◌++◌, length, NoByte, arith,
  is_empty, c_str-absent, bytes_eq, take_of_length-le,
}
use ai_chat_server.Base.Decimal.{to_decimal}
use ai_chat_server.Net.Buffer.{
  Buffer, new, content, initial_size, retrieve_all_as_string, readable_bytes,
}
use ai_chat_server.Net.Buffer.Invariant.{IsValid, new-IsValid, length-content}
use ai_chat_server.Net.Buffer.Content.{content-new, retrieve_as_string_lem}
use ai_chat_server.Http.Headers.{assign, lookup}
use ai_chat_server.Http.Lines.{split_message}
use ai_chat_server.Http.Response.{
  StatusCode, Response, code_number, phrase, append_to_buffer, add_header, has_length,
}
use ai_chat_server.Http.Response.Framing.{
  IsClean, response_lines, split_message-append_to_buffer, append_to_buffer-IsValid,
}
use ai_chat_server.Http.Server.{send, shutdown, closing, send_response, error_response, send_error}

text_of : (b : Buffer) → IsValid b → (retrieve_all_as_string b).0 ≡ content b
unfolding retrieve_all_as_string
text_of b v =
    retrieve_as_string_lem (readable_bytes b) b v (omega arith)
    ∙ take_of_length-le (readable_bytes b) (content b) (omega (arith, length-content b v))

-- A clean response is sent as one text, from which a client reads its lines and its body, and the
-- connection is shut down behind it exactly if the response says so.
pub send_response-split_message :
    (r : Response)
    → IsClean r
    → (text : Bytes) × (send_response r ≡ send text ∷ closing r.close_connection)
      × (split_message (suc (length (response_lines r))) text ≡ some (response_lines r, r.body))
unfolding send_response
send_response-split_message r c =
    let out = new initial_size in
    let v = new-IsValid initial_size in
    let (text, written, read) = split_message-append_to_buffer r out c v in
    let same : (retrieve_all_as_string (append_to_buffer r out)).0 ≡ text =
      text_of (append_to_buffer r out) (append_to_buffer-IsValid r out v)
      ∙ written
      ∙ ap (λ l. l ++ text) (content-new initial_size) in
    (text, rw same refl, read)

-- An error reply, for a message that is not empty, holds no NUL and no carriage return and is not
-- longer than 48 bytes: the client reads the status and the message, that the connection closes,
-- the message's length and type, and the message as the body; then the connection is shut down.
pub send_error-split_message :
    (code : StatusCode) (x : ℕ) (xs : Bytes)
    → NoByte 0 (x ∷ xs)
    → NoByte 13 (x ∷ xs)
    → length (x ∷ xs) ≤ 48
    → (text : Bytes) × (send_error code (x ∷ xs) ≡ send text ∷ shutdown ∷ [])
      × (split_message 5 text
          ≡ some (
            (codes "HTTP/1.1 " ++ (to_decimal (code_number code) ++ (32 ∷ x ∷ xs)))
                ∷ codes "Connection: close"
                ∷ (codes "Content-Length: " ++ to_decimal (length (x ∷ xs)))
                ∷ codes "Content-Type: text/plain; charset=utf-8"
                ∷ [],
            x ∷ xs,
          ))
unfolding send_error error_response response_lines phrase add_header assign has_length lookup
    bytes_eq is_empty
send_error-split_message code x xs no_nul no_break short =
    let r = error_response code (x ∷ xs) in
    let same : phrase r ≡ x ∷ xs = c_str-absent (x ∷ xs) no_nul in
    let clean : IsClean r = record {
      short = rw same short;
      no_break = rw same no_break;
      clean = ground arith;
      sized = omega arith;
    } in
    let (text, sent, read) = send_response-split_message r clean in
    let lines : response_lines r
        ≡ (codes "HTTP/1.1 " ++ (to_decimal (code_number code) ++ (32 ∷ x ∷ xs)))
          ∷ codes "Connection: close"
          ∷ (codes "Content-Length: " ++ to_decimal (length (x ∷ xs)))
          ∷ codes "Content-Type: text/plain; charset=utf-8"
          ∷ [] =
      rw same refl in
    (text, sent, rw lines at read)
