-- ===== src/Http/Server/Confined.antt =====
-- Which requests can reach the file system, and which files.
use ai_chat_server.Base.{◌≡◌, refl, ap, Bool, true, false, Bytes, codes, ◌∷◌, ◌++◌}
use ai_chat_server.Http.Request.{Request}
use ai_chat_server.Http.Response.{new_response}
use ai_chat_server.Http.Router.{route}
use ai_chat_server.Http.StaticFile.{FileSystem, has_dots}
use ai_chat_server.Http.StaticFile.Laws.{handle-confined}
use ai_chat_server.Http.Server.{
  send_response, starts_with, answer_static, answer_local, handle_request,
}

abbrev pub AgreeBelow : FileSystem → FileSystem → Bytes → Type 0
AgreeBelow files other root =
    (rest : Bytes)
    → has_dots rest ≡ false
    → files (root ++ (b'/' ∷ rest)) ≡ other (root ++ (b'/' ∷ rest))

answer_static-confined :
    (files other : FileSystem) (root : Bytes) (req : Request) (close : Bool)
    → AgreeBelow files other root
    → answer_static files root req close ≡ answer_static other root req close
unfolding answer_static route
answer_static-confined files other root req close same =
    ap (λ p. send_response (p.1))
      (handle-confined files other root req.path (new_response close) same)

answer_local-confined :
    (files other : FileSystem) (root : Bytes) (req : Request) (close : Bool)
    → AgreeBelow files other root
    → answer_local files root req close ≡ answer_local other root req close
unfolding answer_local
answer_local-confined files other root req close same =
    rw (answer_static-confined files other root req close same) refl

-- Two file systems that agree below the root, on paths in which ".." does not occur, make the
-- server handle every request alike; a request whose path starts with "/api/" is handled alike
-- with any two.
pub handle_request-confined :
    (files other : FileSystem) (root : Bytes) (req : Request)
    → (AgreeBelow files other root → handle_request files root req ≡ handle_request other root req)
      × (starts_with (codes "/api/") req.path ≡ true
          → handle_request files root req ≡ handle_request other root req)
unfolding handle_request
handle_request-confined files other root req =
    (λ same. rw (answer_local-confined files other root req _ same) refl, λ api. rw api refl)
