-- ===== src/Http/StaticFile.antt =====
-- include/http/StaticFileHandler.h and src/http/StaticFileHandler.cc. The file system is an
-- argument: the content of a path, or none where it is no regular file or cannot be opened.
pub mod Laws
use ai_chat_server.Base.{
  ℕ, suc, ◌+◌, Bool, true, false, ◌&&◌, ◌||◌, Option, none, some, Bytes, codes, List, [], ◌∷◌, ◌++◌,
  drop, bytes_eq, if◌then◌else◌, ◌==◌,
}
use ai_chat_server.Http.Response.{StatusCode, not_found, Response, set_content_type}

abbrev pub FileSystem : Type 0
FileSystem = Bytes → Option Bytes

-- path.find("..") != npos
unfoldable pub has_dots : Bytes → Bool
has_dots [] = false
has_dots (x ∷ []) = false
has_dots (x ∷ y ∷ xs) = (x == b'.' && y == b'.') || has_dots (y ∷ xs)

abbrev strip_slash : Bytes → Bytes
strip_slash [] = []
strip_slash (x ∷ xs) = if x == b'/' then xs else x ∷ xs

unfoldable pub resolve_path : Bytes → Bytes → Bytes
resolve_path root url =
    let path = if bytes_eq url (codes "/") then codes "/index.html" else url in
    if has_dots path then root ++ codes "/index.html" else root ++ (b'/' ∷ strip_slash path)

-- path.rfind(c): the last position, if any.
unfoldable pub rfind : ℕ → Bytes → Option ℕ
rfind c [] = none
rfind c (x ∷ xs) = elim (rfind c xs) [
  | some i ↦ some (suc i)
  | none ↦ if x == c then some 0 else none
]

mime_of : Bytes → Bytes
mime_of ext =
    if bytes_eq ext (codes "html") || bytes_eq ext (codes "htm")
    then codes "text/html; charset=utf-8"
    else if bytes_eq ext (codes "css")
    then codes "text/css; charset=utf-8"
    else if bytes_eq ext (codes "js")
    then codes "application/javascript"
    else if bytes_eq ext (codes "json")
    then codes "application/json"
    else if bytes_eq ext (codes "png")
    then codes "image/png"
    else if bytes_eq ext (codes "jpg") || bytes_eq ext (codes "jpeg")
    then codes "image/jpeg"
    else if bytes_eq ext (codes "gif")
    then codes "image/gif"
    else if bytes_eq ext (codes "svg")
    then codes "image/svg+xml"
    else codes "application/octet-stream"

unfoldable pub detect_mime : Bytes → Bytes
unfolding mime_of
detect_mime path = elim (rfind b'.' path) [
  | none ↦ codes "application/octet-stream"
  | some pos ↦ mime_of (drop (pos + 1) path)
]

abbrev plain_text : Bytes
plain_text = codes "text/plain; charset=utf-8"

-- The 404 that the static handler and the server give.
unfoldable pub respond_not_found : Response → Response
respond_not_found r =
    record (set_content_type plain_text
      (record r { status_code = not_found; status_message = codes "Not Found" })) {
        body = codes "404 Not Found";
      }

respond_file : Bytes → Bytes → Response → Response
respond_file path content r =
    record (set_content_type (detect_mime path)
      (record r { status_code = StatusCode.ok; status_message = codes "OK" })) { body = content }

answer : Bytes → Option Bytes → Response → Bool × Response
answer path none r = (false, respond_not_found r)
answer path (some content) r = (true, respond_file path content r)

unfoldable pub handle : FileSystem → Bytes → Bytes → Response → Bool × Response
unfolding answer respond_file
handle files root url r = let path = resolve_path root url in answer path (files path) r
