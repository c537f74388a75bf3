-- ===== src/Http/Server/Isolated.antt =====
-- Each connection's parser sees the bytes of its own connection only.
use ai_chat_server.Base.{◌≡◌, refl, ℕ, ◌≤◌, ◌<◌, none, Bytes, length, c_str, arith}
use ai_chat_server.Net.TcpServer.Site.{
  Site, accept, run_established, run_destroyed, close, remove, Reached, fresh, later,
}
use ai_chat_server.Net.TcpServer.Site
use ai_chat_server.Net.TcpServer.Stages.{named, Stages}
use ai_chat_server.Net.TcpServer.Lives.{Reached-Stages}
use ai_chat_server.Http.StaticFile.{FileSystem}
use ai_chat_server.Http.Server.{find_context}
use ai_chat_server.Http.Server.Site.{
  HttpSite, open_connection, close_connection, close_connection_again, hear, HttpStep, accepts,
  opens, destroys, removes, shuts, shuts_again, hears, HttpReached, at_start, and_then,
}
use ai_chat_server.Http.Server.Own.{
  IsOwn, Own, Own-other, open-Own, close-Own, close_again-Own, hear-Own,
}

module _ (files : FileSystem) (root : Bytes) where
  site-Reached :
      {loop : ℕ} {ip name : Bytes} {s : HttpSite}
      → HttpReached files root loop ip name s
      → Reached loop ip name s.site
  unfolding open_connection close_connection close_connection_again hear
  site-Reached at_start = fresh
  site-Reached (and_then r (accepts a s few)) =
      later (site-Reached r) (Site.Step.accepts a s.site few)
  site-Reached (and_then r (destroys l n before after s e first)) =
      later (site-Reached r) (Site.Step.destroys l n before after s.site e first)
  site-Reached (and_then r (removes c others s e)) =
      later (site-Reached r) (Site.Step.removes c others s.site e)
  site-Reached (and_then r (opens c before after s e)) =
      later (site-Reached r) (Site.Step.establishes c before after s.site e)
  site-Reached (and_then r (shuts c before after s e)) =
      later (site-Reached r) (Site.Step.closes c before after s.site e)
  site-Reached (and_then r (shuts_again c before after s e)) =
      later (site-Reached r) (Site.Step.closes_again c before after s.site e)
  site-Reached (and_then r (hears n chunk re cs b s lives e)) = site-Reached r

  step-Own :
      {s t : HttpSite} (n : Bytes)
      → HttpStep files root s t
      → ((m : Bytes) → Stages m s.site)
      → ((m : Bytes) → Own files root m s)
      → Own files root n t
  unfolding accept run_destroyed remove
  step-Own n (accepts a s few) stages h = Own-other files root n s _ refl refl refl refl (h n)
  step-Own n (destroys l m before after s e first) stages h =
      Own-other files root n s _ refl refl refl refl (h n)
  step-Own n (removes c others s e) stages h = Own-other files root n s _ refl refl refl refl (h n)
  step-Own n (opens c before after s e) stages h =
      open-Own files root n c before after s e (stages n) (h n)
  step-Own n (shuts c before after s e) stages h =
      close-Own files root n c before after s e (stages n) (h n)
  step-Own n (shuts_again c before after s e) stages h =
      close_again-Own files root n c before after s e (stages n) (h n)
  step-Own n (hears m chunk re cs b s lives e) stages h =
      hear-Own files root n m chunk re cs b s lives e (h m) (h n)

  Reached-Own :
      {loop : ℕ} {ip name : Bytes} {s : HttpSite} (n : Bytes)
      → length (c_str ip) ≤ 41
      → HttpReached files root loop ip name s
      → Own files root n s
  unfolding find_context
  Reached-Own n short at_start = record { up = λ k. absurd (omega (arith, k)); down = λ k. refl }
  Reached-Own n short (and_then r step) =
      step-Own n step (λ m. Reached-Stages m short (site-Reached r)) (λ m. Reached-Own m short r)

  -- However connections come up, send their bytes and close, if the server's address has at most 41
  -- characters: the parser and the input buffer of a connection that is up are what a new parser and
  -- a new buffer become by the bytes of that connection alone, taken in the pieces in which they were
  -- read; and a name under which no connection is up has no parser.
  pub Reached-isolated :
      {loop : ℕ} {ip name : Bytes} {s : HttpSite} (n : Bytes)
      → length (c_str ip) ≤ 41
      → HttpReached files root loop ip name s
      → (0 < named n s.site.up → IsOwn files root n s)
        × (named n s.site.up ≡ 0 → find_context n s.contexts ≡ none)
  Reached-isolated n short r = let own = Reached-Own n short r in (own.up, own.down)
