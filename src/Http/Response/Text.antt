-- ===== src/Http/Response/Text.antt =====
-- The bytes that appendToBuffer adds to a buffer.
use ai_chat_server.Base.{
  ◌≡◌, sym, ap, ◌∙◌, Bool, true, false, Bytes, codes, [], ◌∷◌, ◌++◌, if◌then◌else◌, append_assoc,
  append-nil,
}
use ai_chat_server.Net.Buffer.{Buffer, content, append}
use ai_chat_server.Net.Buffer.Invariant.{IsValid, append-IsValid}
use ai_chat_server.Net.Buffer.Content.{content-append}
use ai_chat_server.Http.Headers.{Headers}
use ai_chat_server.Http.Response.{
  Response, crlf, status_line, connection_line, has_length, length_line, append_headers,
  append_length, append_to_buffer,
}

-- What an operation on a buffer adds to it.
pub record Adds (f : Buffer → Buffer) (xs : Bytes) : Type 0 where
  pub keeps : (b : Buffer) → IsValid b → IsValid (f b)
  pub adds : (b : Buffer) → IsValid b → content (f b) ≡ content b ++ xs

append-Adds : (xs : Bytes) → Adds (append xs) xs
append-Adds xs = record { keeps = append-IsValid xs; adds = content-append xs }

Adds-then :
    {f g : Buffer → Buffer} {xs ys : Bytes} → Adds f xs → Adds g ys → Adds (λ b. g (f b)) (xs ++ ys)
Adds-then {f} {g} {xs} {ys} p q = record {
  keeps = λ b v. q.keeps (f b) (p.keeps b v);
  adds = λ b v.
      q.adds (f b) (p.keeps b v) ∙ ap (λ l. l ++ ys) (p.adds b v) ∙ append_assoc (content b) xs ys;
}

unfoldable pub header_text : Headers → Bytes
header_text [] = []
header_text ((key, value) ∷ hs) = (key ++ (codes ": " ++ (value ++ crlf))) ++ header_text hs

append_headers-Adds : (hs : Headers) → Adds (append_headers hs) (header_text hs)
unfolding append_headers header_text
append_headers-Adds [] = record { keeps = λ b v. v; adds = λ b v. sym (append-nil (content b)) }
append_headers-Adds ((key, value) ∷ hs) =
    Adds-then
      (Adds-then (append-Adds key)
        (Adds-then (append-Adds (codes ": ")) (Adds-then (append-Adds value) (append-Adds crlf))))
      (append_headers-Adds hs)

-- What appendToBuffer writes, line by line.
unfoldable pub length_text : Response → Bytes
length_text r = if has_length r then [] else length_line r

unfoldable pub response_text : Response → Bytes
response_text r =
    ((((status_line r ++ connection_line r) ++ length_text r) ++ header_text r.headers) ++ crlf)
    ++ r.body

append_length-Adds : (r : Response) → Adds (append_length r) (length_text r)
unfolding append_length length_text
append_length-Adds r = go (has_length r)
  where
    go :
        (b : Bool)
        → Adds
            (λ out. if b then out else append (length_line r) out)
            (if b then [] else length_line r)
    go true = record { keeps = λ b v. v; adds = λ b v. sym (append-nil (content b)) }
    go false = append-Adds (length_line r)

pub append_to_buffer-Adds : (r : Response) → Adds (append_to_buffer r) (response_text r)
unfolding append_to_buffer response_text
append_to_buffer-Adds r =
    Adds-then
      (Adds-then
        (Adds-then
          (Adds-then (Adds-then (append-Adds (status_line r)) (append-Adds (connection_line r)))
            (append_length-Adds r))
          (append_headers-Adds r.headers))
        (append-Adds crlf))
      (append-Adds r.body)
