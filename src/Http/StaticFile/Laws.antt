-- ===== src/Http/StaticFile/Laws.antt =====
-- The static handler stays below its root.
use ai_chat_server.Base.{
  ◌≡◌, refl, false, Bytes, codes, [], ◌∷◌, ◌++◌, bytes_eq, if◌then◌else◌, arith, Bool-cases, inl,
  inr,
}
use ai_chat_server.Http.Response.{Response}
use ai_chat_server.Http.StaticFile.{FileSystem, has_dots, strip_slash, resolve_path, handle}

strip_slash-has_dots : (p : Bytes) → has_dots p ≡ false → has_dots (strip_slash p) ≡ false
unfolding has_dots
strip_slash-has_dots [] h = refl
strip_slash-has_dots (x ∷ []) h = ground arith
strip_slash-has_dots (x ∷ y ∷ xs) h = ground arith

below :
    (root path : Bytes)
    → (rest : Bytes) × (has_dots rest ≡ false)
      × ((if has_dots path then root ++ codes "/index.html" else root ++ (b'/' ∷ strip_slash path))
          ≡ root ++ (b'/' ∷ rest))
below root path = elim (Bool-cases (has_dots path)) [
  | inl dots ↦ (codes "index.html", unfold has_dots in refl, rw dots refl)
  | inr plain ↦ (strip_slash path, strip_slash-has_dots path plain, rw plain refl)
]

-- Whatever the URL path, the file looked up is the root directory, a slash, and a rest in which
-- ".." does not occur.
pub resolve_path-below :
    (root url : Bytes)
    → (rest : Bytes) × (has_dots rest ≡ false) × (resolve_path root url ≡ root ++ (b'/' ∷ rest))
unfolding resolve_path
resolve_path-below root url =
    below root (if bytes_eq url (codes "/") then codes "/index.html" else url)

-- So two file systems that agree on those paths give every request the same response: no other
-- file can be read through the handler.
pub handle-confined :
    (files other : FileSystem) (root url : Bytes) (r : Response)
    → ((rest : Bytes)
        → has_dots rest ≡ false
        → files (root ++ (b'/' ∷ rest)) ≡ other (root ++ (b'/' ∷ rest)))
    → handle files root url r ≡ handle other root url r
unfolding handle
handle-confined files other root url r same =
    let (rest, plain, e) = resolve_path-below root url in
    let agree : files (resolve_path root url) ≡ other (resolve_path root url) =
      rw e (same rest plain) in
    rw agree refl
