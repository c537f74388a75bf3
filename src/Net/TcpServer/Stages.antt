-- ===== src/Net/TcpServer/Stages.antt =====
-- How far the connection of each name has come.
use ai_chat_server.Base.{
  ◌≡◌, refl, ap, ◌∙◌, ℕ, ◌+◌, ◌≤◌, ◌<◌, true, Option, Bytes, List, [], ◌∷◌, ◌++◌, bytes_eq,
  if◌then◌else◌, if-true, if-false, arith, Bool-cases, inl, inr,
}
use ai_chat_server.Net.TcpServer.{
  Connection, Task, listen_task, established_task, destroyed_task, conn_name, new_connection,
  remove_connection_in_loop, get_next_loop,
}
use ai_chat_server.Net.TcpServer.Site.{
  Site, run_established, run_destroyed, close, close_again, remove,
}

-- How often a name's connection is brought up or destroyed by some tasks, and how often it stands
-- in a list.
abbrev pub ups : Bytes → List Task → ℕ
ups n [] = 0
ups n (established_task m ∷ ts) = (if bytes_eq m n then 1 else 0) + ups n ts
ups n (destroyed_task m ∷ ts) = ups n ts
ups n (listen_task ∷ ts) = ups n ts

abbrev pub downs : Bytes → List Task → ℕ
downs n [] = 0
downs n (established_task m ∷ ts) = downs n ts
downs n (destroyed_task m ∷ ts) = (if bytes_eq m n then 1 else 0) + downs n ts
downs n (listen_task ∷ ts) = downs n ts

abbrev pub named : Bytes → List Connection → ℕ
named n [] = 0
named n (c ∷ cs) = (if bytes_eq c.name n then 1 else 0) + named n cs

abbrev pub tasks_of : List (Option ℕ × Task) → List Task
tasks_of [] = []
tasks_of ((l, t) ∷ posted) = t ∷ tasks_of posted

pub ups-append : (n : Bytes) (ts us : List Task) → ups n (ts ++ us) ≡ ups n ts + ups n us
ups-append n [] us = omega arith
ups-append n (established_task m ∷ ts) us = omega (arith, ups-append n ts us)
ups-append n (destroyed_task m ∷ ts) us = ups-append n ts us
ups-append n (listen_task ∷ ts) us = ups-append n ts us

pub downs-append : (n : Bytes) (ts us : List Task) → downs n (ts ++ us) ≡ downs n ts + downs n us
downs-append n [] us = omega arith
downs-append n (established_task m ∷ ts) us = downs-append n ts us
downs-append n (destroyed_task m ∷ ts) us = omega (arith, downs-append n ts us)
downs-append n (listen_task ∷ ts) us = downs-append n ts us

pub named-append :
    (n : Bytes) (cs ds : List Connection) → named n (cs ++ ds) ≡ named n cs + named n ds
named-append n [] ds = omega arith
named-append n (c ∷ cs) ds = omega (arith, named-append n cs ds)

pub tasks_of-append :
    (ps qs : List (Option ℕ × Task)) → tasks_of (ps ++ qs) ≡ tasks_of ps ++ tasks_of qs
tasks_of-append [] qs = refl
tasks_of-append ((l, t) ∷ ps) qs = ap (λ ts. t ∷ ts) (tasks_of-append ps qs)

abbrev pub waiting_ups : Bytes → Site → ℕ
waiting_ups n s = ups n (tasks_of s.server.posted)

abbrev pub waiting_downs : Bytes → Site → ℕ
waiting_downs n s = downs n (tasks_of s.server.posted)

-- The removals of a name that wait in the main loop or have gone on from there.
abbrev pub removals : Bytes → Site → ℕ
removals n s = named n s.closing + waiting_downs n s + downs n s.ran

-- The stages of a name: it is brought up at most once, stays up until it closes for the first time,
-- and is removed only after that.
pub record Stages (n : Bytes) (s : Site) : Type 0 where
  pub once : waiting_ups n s + ups n s.ran ≤ 1
  pub onward : ups n s.ran ≡ named n s.up + named n s.closed
  pub removed : 0 < removals n s → 0 < named n s.closed

-- Adding tasks, and running one.
pub ups-posted :
    (n : Bytes) (ps qs : List (Option ℕ × Task))
    → ups n (tasks_of (ps ++ qs)) ≡ ups n (tasks_of ps) + ups n (tasks_of qs)
ups-posted n ps qs = ap (ups n) (tasks_of-append ps qs) ∙ ups-append n (tasks_of ps) (tasks_of qs)

pub downs-posted :
    (n : Bytes) (ps qs : List (Option ℕ × Task))
    → downs n (tasks_of (ps ++ qs)) ≡ downs n (tasks_of ps) + downs n (tasks_of qs)
downs-posted n ps qs =
    ap (downs n) (tasks_of-append ps qs) ∙ downs-append n (tasks_of ps) (tasks_of qs)

pub establish-Stages :
    (n : Bytes) (c : Connection) (before after : List (Option ℕ × Task)) (s : Site)
    → s.server.posted ≡ before ++ (c.io_loop, established_task c.name) ∷ after
    → Stages n s
    → Stages n (run_established c before after s)
unfolding run_established
establish-Stages n c before after s e h =
    let here = (c.io_loop, established_task c.name) ∷ after in
    let u = ap (λ ps. ups n (tasks_of ps)) e ∙ ups-posted n before here in
    let d = ap (λ ps. downs n (tasks_of ps)) e ∙ downs-posted n before here in
    let u' = ups-posted n before after in
    let d' = downs-posted n before after in
    let r = ups-append n s.ran (established_task c.name ∷ []) in
    let r' = downs-append n s.ran (established_task c.name ∷ []) in
    record {
      once = omega (arith, h.once, u, u', r);
      onward = omega (arith, h.onward, r);
      removed = λ some_left. h.removed (omega (arith, some_left, d, d', r'));
    }

pub destroy-Stages :
    (n : Bytes) (l : Option ℕ) (m : Bytes) (before after : List (Option ℕ × Task)) (s : Site)
    → s.server.posted ≡ before ++ (l, destroyed_task m) ∷ after
    → Stages n s
    → Stages n (run_destroyed m before after s)
unfolding run_destroyed
destroy-Stages n l m before after s e h =
    let here = (l, destroyed_task m) ∷ after in
    let u = ap (λ ps. ups n (tasks_of ps)) e ∙ ups-posted n before here in
    let d = ap (λ ps. downs n (tasks_of ps)) e ∙ downs-posted n before here in
    let u' = ups-posted n before after in
    let d' = downs-posted n before after in
    let r = ups-append n s.ran (destroyed_task m ∷ []) in
    let r' = downs-append n s.ran (destroyed_task m ∷ []) in
    record {
      once = omega (arith, h.once, u, u', r);
      onward = omega (arith, h.onward, r);
      removed = λ some_left. h.removed (omega (arith, some_left, d, d', r'));
    }

pub close-Stages :
    (n : Bytes) (c : Connection) (before after : List Connection) (s : Site)
    → s.up ≡ before ++ c ∷ after
    → Stages n s
    → Stages n (close c before after s)
unfolding close
close-Stages n c before after s e h =
    let here = ap (named n) e ∙ named-append n before (c ∷ after) in
    let gone = named-append n before after in
    let closed = named-append n s.closing (c ∷ []) in
    record {
      once = h.once;
      onward = omega (arith, h.onward, here, gone);
      removed = λ some_left. elim (Bool-cases (bytes_eq c.name n)) [
        | inl same ↦ let one = if-true {A = ℕ} (bytes_eq c.name n) 1 0 same in omega (arith, one)
        | inr other ↦
            let zero = if-false {A = ℕ} (bytes_eq c.name n) 1 0 other in
            omega (arith, zero, h.removed (omega (arith, some_left, closed, zero)))
      ];
    }

pub close_again-Stages :
    (n : Bytes) (c : Connection) (before after : List Connection) (s : Site)
    → s.closed ≡ before ++ c ∷ after
    → Stages n s
    → Stages n (close_again c s)
unfolding close_again
close_again-Stages n c before after s e h =
    let there = ap (named n) e ∙ named-append n before (c ∷ after) in
    let closed = named-append n s.closing (c ∷ []) in
    record {
      once = h.once;
      onward = h.onward;
      removed = λ some_left. elim (Bool-cases (bytes_eq c.name n)) [
        | inl same ↦
            let one = if-true {A = ℕ} (bytes_eq c.name n) 1 0 same in omega (arith, one, there)
        | inr other ↦
            let zero = if-false {A = ℕ} (bytes_eq c.name n) 1 0 other in
            h.removed (omega (arith, some_left, closed, zero))
      ];
    }

pub remove-Stages :
    (n : Bytes) (c : Connection) (others : List Connection) (s : Site)
    → s.closing ≡ c ∷ others
    → Stages n s
    → Stages n (remove c others s)
unfolding remove remove_connection_in_loop
remove-Stages n c others s e h =
    let here = ap (named n) e in
    let task : List (Option ℕ × Task) = (c.io_loop, destroyed_task c.name) ∷ [] in
    let u = ups-posted n s.server.posted task in
    let d = downs-posted n s.server.posted task in
    record {
      once = omega (arith, h.once, u);
      onward = h.onward;
      removed = λ some_left. h.removed (omega (arith, some_left, here, d));
    }

-- A new connection: its name has not been used.
pub new_connection-Stages :
    (n : Bytes) (sockfd : ℕ) (s : Site)
    → let server = s.server in
      (bytes_eq (conn_name server.name server.ip_port server.next_conn_id) n ≡ true
        → waiting_ups n s + ups n s.ran ≡ 0)
      → Stages n s
      → Stages n (record s { server = new_connection sockfd s.server })
unfolding new_connection
new_connection-Stages n sockfd s unused h =
    let server = s.server in
    let new = conn_name server.name server.ip_port server.next_conn_id in
    let task : List (Option ℕ × Task) =
      ((get_next_loop server.pool).0, established_task new) ∷ [] in
    let u = ups-posted n server.posted task in
    let d = downs-posted n server.posted task in
    elim (Bool-cases (bytes_eq new n)) [
      | inl same ↦
          let one = if-true {A = ℕ} (bytes_eq new n) 1 0 same in
          record {
            once = omega (arith, unused same, u, one);
            onward = h.onward;
            removed = λ some_left. h.removed (omega (arith, some_left, d));
          }
      | inr other ↦
          let zero = if-false {A = ℕ} (bytes_eq new n) 1 0 other in
          record {
            once = omega (arith, h.once, u, zero);
            onward = h.onward;
            removed = λ some_left. h.removed (omega (arith, some_left, d));
          }
    ]

-- A connection that is about to come up has a name that waits to come up.
pub established-waits :
    (n : Bytes) (c : Connection) (before after : List (Option ℕ × Task)) (s : Site)
    → s.server.posted ≡ before ++ (c.io_loop, established_task c.name) ∷ after
    → bytes_eq c.name n ≡ true
    → 0 < waiting_ups n s
established-waits n c before after s e same =
    let u =
      ap (λ ps. ups n (tasks_of ps)) e
      ∙ ups-posted n before ((c.io_loop, established_task c.name) ∷ after) in
    let one = if-true {A = ℕ} (bytes_eq c.name n) 1 0 same in omega (arith, u, one)
