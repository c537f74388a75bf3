-- ===== src/Http/Server/Own.antt =====
-- What a step of the HTTP server leaves of each connection's parser and input buffer.
use ai_chat_server.Base.{
  ◌≡◌, refl, sym, ap, ◌∙◌, ℕ, ◌<◌, Bool, true, false, Option, none, some, Bytes, List, [], ◌∷◌,
  ◌++◌, bytes_eq, bytes_eq_iff, if-true, if-false, arith, Bool-cases, Option-cases, inl, inr,
}
use ai_chat_server.Net.Buffer.{Buffer, received, read_fd}
use ai_chat_server.Net.TcpServer.{Connection, Task, established_task}
use ai_chat_server.Net.TcpServer.Site.{run_established, close, close_again}
use ai_chat_server.Net.TcpServer.Stages.{named, Stages, named-append, established-waits}
use ai_chat_server.Http.Context.{Context, new_context, parse_request}
use ai_chat_server.Http.StaticFile.{FileSystem}
use ai_chat_server.Http.Server.{
  Contexts, Reaction, react, find_context, set_context, context_for, on_connection, on_message,
}
use ai_chat_server.Http.Server.Sessions.{find_context-set_context, find_context-erase_context}
use ai_chat_server.Http.Server.Site.{
  HttpSite, new_input, set_at, open_connection, close_connection, close_connection_again, hear,
  serve, session,
}

parts :
    {re re' : Reaction} {cs cs' : Contexts} {b b' : Buffer}
    → ◌≡◌ {A = Option (Reaction × Contexts × Buffer)} (some (re, cs, b)) (some (re', cs', b'))
    → (cs ≡ cs') × (b ≡ b')
parts h = (cc h, cc h)

module _ (files : FileSystem) (root : Bytes) where
  session-snoc :
      (chunks : List Bytes) (chunk : Bytes) (o : Option (Context × Buffer))
      → session files root (chunks ++ (chunk ∷ [])) o
        ≡ serve files root chunk (session files root chunks o)
  unfolding session
  session-snoc [] chunk o = refl
  session-snoc (first ∷ chunks) chunk o = session-snoc chunks chunk (serve files root first o)

  -- The parser of a connection that is up is what its own bytes make of a new one.
  pub record IsOwn (n : Bytes) (s : HttpSite) : Type 0 where
    pub parser : Context
    pub served :
        session files root (s.heard n) (some (new_context, new_input)) ≡ some (parser, s.inputs n)
    pub found : find_context n s.contexts ≡ some parser

  pub record Own (n : Bytes) (s : HttpSite) : Type 0 where
    pub up : 0 < named n s.site.up → IsOwn n s
    pub down : named n s.site.up ≡ 0 → find_context n s.contexts ≡ none

  hear-serve :
      (n chunk : Bytes) (re : Reaction) (cs : Contexts) (b : Buffer) (c : Context) (s : HttpSite)
      → find_context n s.contexts ≡ some c
      → on_message files root n s.contexts (read_fd (received chunk) (s.inputs n))
        ≡ some (re, cs, b)
      → (c' : Context) × (serve files root chunk (some (c, s.inputs n)) ≡ some (c', b))
        × (cs ≡ set_context n c' s.contexts)
  unfolding on_message serve context_for
  hear-serve n chunk re cs b c s found e =
      let input = read_fd (received chunk) (s.inputs n) in
      let own : context_for n s.contexts ≡ c = rw found refl in
      let same = ap (λ d. parse_request d input) own in
      elim (Option-cases (parse_request c input)) [
        | inl fails ↦
            let lost : on_message files root n s.contexts input ≡ none =
              rw (same ∙ fails, on_message) refl in
            absurd (ground (arith, lost, e))
        | inr ((ok, c', b'), parsed) ↦
            let kept = (react files root ok c').1 in
            let whole : on_message files root n s.contexts input
                ≡ some ((react files root ok c').0, set_context n kept s.contexts, b') =
              rw (same ∙ parsed, on_message) refl in
            let (stored, left) = parts (sym whole ∙ e) in
            (kept, rw (parsed, serve) (ap (λ x. some (kept, x)) left), sym stored)
      ]

  -- A name that a step does not touch.
  pub Own-other :
      (n : Bytes) (s t : HttpSite)
      → named n t.site.up ≡ named n s.site.up
      → find_context n t.contexts ≡ find_context n s.contexts
      → t.inputs n ≡ s.inputs n
      → t.heard n ≡ s.heard n
      → Own n s
      → Own n t
  Own-other n s t ups found input heard h = record {
    up = λ k.
        let own = h.up (omega (arith, k, ups)) in
        record {
          parser = own.parser;
          served =
              ap (λ x. session files root x (some (new_context, new_input))) heard
              ∙ own.served
              ∙ ap (λ x. some (own.parser, x)) (sym input);
          found = found ∙ own.found;
        };
    down = λ k. found ∙ h.down (omega (arith, k, ups));
  }

  set_at-other :
      {A : Type 0} (m n : Bytes) (a : A) (f : Bytes → A)
      → bytes_eq m n ≡ false
      → set_at m a f n ≡ f n
  set_at-other m n a f h = if-false (bytes_eq m n) a (f n) h

  set_at-here :
      {A : Type 0} (m n : Bytes) (a : A) (f : Bytes → A) → bytes_eq m n ≡ true → set_at m a f n ≡ a
  set_at-here m n a f h = if-true (bytes_eq m n) a (f n) h

  find_context-on_connection_other :
      (up : Bool) (m n : Bytes) (cs : Contexts)
      → bytes_eq m n ≡ false
      → find_context n (on_connection up m cs) ≡ find_context n cs
  unfolding on_connection
  find_context-on_connection_other true m n cs h = elim (Option-cases (find_context m cs)) [
    | inl free ↦
        rw (free, on_connection)
          (find_context-set_context m n new_context cs ∙ if-false (bytes_eq m n) _ _ h)
    | inr (c, there) ↦ rw (there, on_connection) refl
  ]
  find_context-on_connection_other false m n cs h =
      find_context-erase_context m n cs ∙ if-false (bytes_eq m n) _ _ h

  pub open-Own :
      (n : Bytes) (c : Connection) (before after : List (Option ℕ × Task)) (s : HttpSite)
      → s.site.server.posted ≡ before ++ (c.io_loop, established_task c.name) ∷ after
      → Stages n s.site
      → Own n s
      → Own n (open_connection c before after s)
  unfolding open_connection run_established on_connection session
  open-Own n c before after s e stages h = elim (Bool-cases (bytes_eq c.name n)) [
    | inr other ↦
        let zero = if-false {A = ℕ} (bytes_eq c.name n) 1 0 other in
        Own-other n s (open_connection c before after s) (omega (arith, zero))
          (find_context-on_connection_other true c.name n s.contexts other)
          (set_at-other c.name n new_input s.inputs other) (set_at-other c.name n [] s.heard other)
          h
    | inl same ↦
        let one = if-true {A = ℕ} (bytes_eq c.name n) 1 0 same in
        let equal : c.name ≡ n = (bytes_eq_iff c.name n).0 same in
        let first : named n s.site.up ≡ 0 =
          omega
            (arith, stages.once, stages.onward, established-waits n c before after s.site e same) in
        let free : find_context c.name s.contexts ≡ none =
          ap (λ m. find_context m s.contexts) equal ∙ h.down first in
        record {
          up = λ k. record {
            parser = new_context;
            served =
                ap (λ x. session files root x (some (new_context, new_input)))
                  (set_at-here c.name n [] s.heard same)
                ∙ ap (λ x. some (new_context, x))
                    (sym (set_at-here c.name n new_input s.inputs same));
            found =
                rw (free, on_connection)
                  (find_context-set_context c.name n new_context s.contexts
                    ∙ if-true (bytes_eq c.name n) _ _ same);
          };
          down = λ k. absurd (omega (arith, k, one));
        }
  ]

  pub close-Own :
      (n : Bytes) (c : Connection) (before after : List Connection) (s : HttpSite)
      → s.site.up ≡ before ++ c ∷ after
      → Stages n s.site
      → Own n s
      → Own n (close_connection c before after s)
  unfolding close_connection close on_connection
  close-Own n c before after s e stages h =
      let all = ap (named n) e ∙ named-append n before (c ∷ after) in
      let left = named-append n before after in
      elim (Bool-cases (bytes_eq c.name n)) [
        | inr other ↦
            let zero = if-false {A = ℕ} (bytes_eq c.name n) 1 0 other in
            Own-other n s (close_connection c before after s) (omega (arith, zero, all, left))
              (find_context-on_connection_other false c.name n s.contexts other) refl refl h
        | inl same ↦
            let one = if-true {A = ℕ} (bytes_eq c.name n) 1 0 same in
            record {
              up = λ k. absurd (omega (arith, k, one, all, left, stages.once, stages.onward));
              down = λ k.
                  find_context-erase_context c.name n s.contexts
                  ∙ if-true (bytes_eq c.name n) _ _ same;
            }
      ]

  pub close_again-Own :
      (n : Bytes) (c : Connection) (before after : List Connection) (s : HttpSite)
      → s.site.closed ≡ before ++ c ∷ after
      → Stages n s.site
      → Own n s
      → Own n (close_connection_again c s)
  unfolding close_connection_again close_again on_connection
  close_again-Own n c before after s e stages h =
      let there = ap (named n) e ∙ named-append n before (c ∷ after) in
      elim (Bool-cases (bytes_eq c.name n)) [
        | inr other ↦
            Own-other n s (close_connection_again c s) refl
              (find_context-on_connection_other false c.name n s.contexts other) refl refl h
        | inl same ↦
            let one = if-true {A = ℕ} (bytes_eq c.name n) 1 0 same in
            record {
              up = λ k. absurd (omega (arith, k, one, there, stages.once, stages.onward));
              down = λ k.
                  find_context-erase_context c.name n s.contexts
                  ∙ if-true (bytes_eq c.name n) _ _ same;
            }
      ]

  pub hear-Own :
      (m n chunk : Bytes) (re : Reaction) (cs : Contexts) (b : Buffer) (s : HttpSite)
      → 0 < named n s.site.up
      → on_message files root n s.contexts (read_fd (received chunk) (s.inputs n))
        ≡ some (re, cs, b)
      → Own n s
      → Own m s
      → Own m (hear n chunk cs b s)
  unfolding hear
  hear-Own m n chunk re cs b s lives e own h =
      let mine = own.up lives in
      let (c', served, stored) = hear-serve n chunk re cs b mine.parser s mine.found e in
      let now = ap (find_context m) stored ∙ find_context-set_context n m c' s.contexts in
      elim (Bool-cases (bytes_eq n m)) [
        | inr other ↦
            Own-other m s (hear n chunk cs b s) refl (now ∙ if-false (bytes_eq n m) _ _ other)
              (set_at-other n m b s.inputs other)
              (set_at-other n m (s.heard n ++ (chunk ∷ [])) s.heard other) h
        | inl same ↦
            let equal : n ≡ m = (bytes_eq_iff n m).0 same in
            record {
              up = λ k. record {
                parser = c';
                served =
                    ap (λ x. session files root x (some (new_context, new_input)))
                      (set_at-here n m (s.heard n ++ (chunk ∷ [])) s.heard same)
                    ∙ session-snoc (s.heard n) chunk (some (new_context, new_input))
                    ∙ ap (serve files root chunk) mine.served
                    ∙ served
                    ∙ ap (λ x. some (c', x)) (sym (set_at-here n m b s.inputs same));
                found = now ∙ if-true (bytes_eq n m) _ _ same;
              };
              down = λ k. absurd (omega (arith, lives, k, ap (λ x. named x s.site.up) equal));
            }
      ]
