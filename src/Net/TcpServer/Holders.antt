-- ===== src/Net/TcpServer/Holders.antt =====
-- What the server's map holds.
use ai_chat_server.Base.{
  ◌≡◌, ◌≢◌, refl, sym, ap, ◌∙◌, ℕ, ◌+◌, ◌≤◌, ◌<◌, false, Option, none, Bytes, List, [], ◌∷◌, ◌++◌,
  bytes_eq, bytes_eq_iff, if-true, if-false, arith, Bool-cases, inl, inr,
}
use ai_chat_server.Net.TcpServer.{
  Connection, Task, established_task, destroyed_task, conn_name, find_connection, erase_connection,
  new_connection, remove_connection_in_loop, get_next_loop,
}
use ai_chat_server.Net.TcpServer.Site.{Site, run_established, run_destroyed, close, remove}
use ai_chat_server.Net.TcpServer.Stages.{
  ups, named, tasks_of, named-append, waiting_ups, Stages, ups-posted,
}

pub find-erase :
    (m n : Bytes) (cs : List (Bytes × Connection))
    → bytes_eq m n ≡ false
    → find_connection n (erase_connection m cs) ≡ find_connection n cs
unfolding find_connection erase_connection
find-erase m n [] h = refl
find-erase m n ((k, c) ∷ cs) h = elim (Bool-cases (bytes_eq k m)) [
  | inl same ↦
      let equal : k ≡ m = (bytes_eq_iff k m).0 same in
      let other : bytes_eq k n ≡ false = rw equal h in rw (same, other) (find-erase m n cs h)
  | inr different ↦ rw (different, find_connection) (rw (find-erase m n cs h) refl)
]

-- A name that waits to come up or is up is in the map.
abbrev pub Held : Bytes → Site → Type 0
Held n s = find_connection n s.server.connections ≢ none

abbrev pub holders : Bytes → Site → ℕ
holders n s = waiting_ups n s + named n s.up

abbrev pub InMap : Bytes → Site → Type 0
InMap n s = 0 < holders n s → Held n s

pub establish-holders :
    (n : Bytes) (c : Connection) (before after : List (Option ℕ × Task)) (s : Site)
    → s.server.posted ≡ before ++ (c.io_loop, established_task c.name) ∷ after
    → holders n (run_established c before after s) ≡ holders n s
unfolding run_established
establish-holders n c before after s e =
    let u =
      ap (λ ps. ups n (tasks_of ps)) e
      ∙ ups-posted n before ((c.io_loop, established_task c.name) ∷ after) in
    omega (arith, u, ups-posted n before after)

pub destroy-holders :
    (n : Bytes) (l : Option ℕ) (m : Bytes) (before after : List (Option ℕ × Task)) (s : Site)
    → s.server.posted ≡ before ++ (l, destroyed_task m) ∷ after
    → holders n (run_destroyed m before after s) ≡ holders n s
unfolding run_destroyed
destroy-holders n l m before after s e =
    let u =
      ap (λ ps. ups n (tasks_of ps)) e ∙ ups-posted n before ((l, destroyed_task m) ∷ after) in
    omega (arith, u, ups-posted n before after)

pub close-holders :
    (n : Bytes) (c : Connection) (before after : List Connection) (s : Site)
    → s.up ≡ before ++ c ∷ after
    → holders n (close c before after s) ≤ holders n s
unfolding close
close-holders n c before after s e =
    let here = ap (named n) e ∙ named-append n before (c ∷ after) in
    omega (arith, here, named-append n before after)

pub remove-InMap :
    (n : Bytes) (c : Connection) (others : List Connection) (s : Site)
    → s.closing ≡ c ∷ others
    → Stages n s
    → InMap n s
    → InMap n (remove c others s)
unfolding remove remove_connection_in_loop
remove-InMap n c others s e h held some_left =
    let here = ap (named n) e in
    let u = ups-posted n s.server.posted ((c.io_loop, destroyed_task c.name) ∷ []) in
    elim (Bool-cases (bytes_eq c.name n)) [
      | inl same ↦
          let one = if-true {A = ℕ} (bytes_eq c.name n) 1 0 same in
          absurd
            (omega (arith, h.once, h.onward, h.removed (omega (arith, here, one)), u, some_left))
      | inr other ↦
          let zero = if-false {A = ℕ} (bytes_eq c.name n) 1 0 other in
          λ gone.
            held (omega (arith, here, zero, u, some_left))
              (sym (find-erase c.name n s.server.connections other) ∙ gone)
    ]

pub new_connection-InMap :
    (n : Bytes) (sockfd : ℕ) (s : Site)
    → InMap n s
    → InMap n (record s { server = new_connection sockfd s.server })
unfolding new_connection find_connection
new_connection-InMap n sockfd s held some_left =
    let server = s.server in
    let new = conn_name server.name server.ip_port server.next_conn_id in
    let u =
      ups-posted n server.posted (((get_next_loop server.pool).0, established_task new) ∷ []) in
    elim (Bool-cases (bytes_eq new n)) [
      | inl same ↦ rw same (λ gone. absurd (ground (arith, gone)))
      | inr other ↦
          let zero = if-false {A = ℕ} (bytes_eq new n) 1 0 other in
          rw other (λ gone.
            held (omega (arith, u, zero, some_left))
              (sym (find-erase new n server.connections other) ∙ gone))
    ]
