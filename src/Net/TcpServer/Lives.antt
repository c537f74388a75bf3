-- ===== src/Net/TcpServer/Lives.antt =====
-- The life of each connection of a server.
use ai_chat_server.Base.{
  ◌≡◌, refl, sym, ap, ◌∙◌, ℕ, ◌+◌, ◌-◌, ◌^◌, ◌≤◌, ◌<◌, Option, Bytes, List, [], ◌∷◌, ◌++◌, length,
  bytes_eq, bytes_eq_iff, c_str, if-false, arith, Bool-cases, inl, inr,
}
use ai_chat_server.Net.TcpServer.{
  accept_failed, accepted, handle_accept, Connection, Task, established_task, destroyed_task,
  new_server, conn_name, new_connection, remove_connection_in_loop, get_next_loop,
}
use ai_chat_server.Net.TcpServer.Names.{conn_name-injective}
use ai_chat_server.Net.TcpServer.Site.{
  Site, accept, run_established, run_destroyed, close, close_again, remove, Step, accepts,
  establishes, destroys, closes, closes_again, removes, Reached, fresh, later,
}
use ai_chat_server.Net.TcpServer.Stages.{
  ups, named, tasks_of, ups-append, waiting_ups, removals, Stages, ups-posted, establish-Stages,
  destroy-Stages, close-Stages, close_again-Stages, remove-Stages, new_connection-Stages,
}
use ai_chat_server.Net.TcpServer.Holders.{
  Held, InMap, establish-holders, destroy-holders, close-holders, remove-InMap,
  new_connection-InMap,
}

-- How often a name's connection has been or will be brought up.
abbrev uses : Bytes → Site → ℕ
uses n s = waiting_ups n s + ups n s.ran

record Inv (name ip : Bytes) (s : Site) : Type 0 where
  same_name : s.server.name ≡ name
  same_ip : s.server.ip_port ≡ ip
  stages : (n : Bytes) → Stages n s
  in_map : (n : Bytes) → InMap n s
  unused : (i : ℕ) → s.server.next_conn_id ≤ i → i < 2 ^ 31 → uses (conn_name name ip i) s ≡ 0

establish-uses :
    (n : Bytes) (c : Connection) (before after : List (Option ℕ × Task)) (s : Site)
    → s.server.posted ≡ before ++ (c.io_loop, established_task c.name) ∷ after
    → uses n (run_established c before after s) ≡ uses n s
unfolding run_established
establish-uses n c before after s e =
    let u =
      ap (λ ps. ups n (tasks_of ps)) e
      ∙ ups-posted n before ((c.io_loop, established_task c.name) ∷ after) in
    let r = ups-append n s.ran (established_task c.name ∷ []) in
    omega (arith, u, r, ups-posted n before after)

destroy-uses :
    (n : Bytes) (l : Option ℕ) (m : Bytes) (before after : List (Option ℕ × Task)) (s : Site)
    → s.server.posted ≡ before ++ (l, destroyed_task m) ∷ after
    → uses n (run_destroyed m before after s) ≡ uses n s
unfolding run_destroyed
destroy-uses n l m before after s e =
    let u =
      ap (λ ps. ups n (tasks_of ps)) e ∙ ups-posted n before ((l, destroyed_task m) ∷ after) in
    let r = ups-append n s.ran (destroyed_task m ∷ []) in
    omega (arith, u, r, ups-posted n before after)

new_connection-Inv :
    (name ip : Bytes) (sockfd : ℕ) (s : Site)
    → length (c_str ip) ≤ 41
    → s.server.next_conn_id < 2 ^ 31 - 1
    → Inv name ip s
    → Inv name ip (record s { server = new_connection sockfd s.server })
unfolding new_connection
new_connection-Inv name ip sockfd s short few h =
    let server = s.server in
    let id = server.next_conn_id in
    let new = conn_name server.name server.ip_port id in
    let task : List (Option ℕ × Task) =
      ((get_next_loop server.pool).0, established_task new) ∷ [] in
    let named_so : new ≡ conn_name name ip id =
      ap (λ t. conn_name t server.ip_port id) h.same_name
      ∙ ap (λ t. conn_name name t id) h.same_ip in
    let none_yet : uses new s ≡ 0 =
      ap (λ t. uses t s) named_so ∙ h.unused id (omega arith) (omega (arith, few)) in
    record {
      same_name = h.same_name;
      same_ip = h.same_ip;
      stages = λ n.
          new_connection-Stages n sockfd s
            (λ same. ap (λ t. uses t s) (sym ((bytes_eq_iff new n).0 same)) ∙ none_yet)
            (h.stages n);
      in_map = λ n. new_connection-InMap n sockfd s (h.in_map n);
      unused = λ i later small.
          let n = conn_name name ip i in
          let u = ups-posted n server.posted task in
          let old = h.unused i (omega (arith, later)) small in
          elim (Bool-cases (bytes_eq new n)) [
            | inl same ↦
                let clash : id ≡ i =
                  conn_name-injective name ip id i short (omega (arith, few)) small
                    (sym named_so ∙ (bytes_eq_iff new n).0 same) in
                absurd (omega (arith, clash, later))
            | inr other ↦
                let zero = if-false {A = ℕ} (bytes_eq new n) 1 0 other in
                omega (arith, u, old, zero)
          ];
    }

step-Inv :
    (name ip : Bytes) {s t : Site}
    → length (c_str ip) ≤ 41
    → Step s t
    → Inv name ip s
    → Inv name ip t
unfolding accept handle_accept run_established run_destroyed close close_again remove
    remove_connection_in_loop
step-Inv name ip short (accepts (accept_failed errno) s few) h = h
step-Inv name ip short (accepts (accepted sockfd) s few) h =
    new_connection-Inv name ip sockfd s short few h
step-Inv name ip short (establishes c before after s e) h = record {
  same_name = h.same_name;
  same_ip = h.same_ip;
  stages = λ n. establish-Stages n c before after s e (h.stages n);
  in_map = λ n k. h.in_map n (omega (arith, k, establish-holders n c before after s e));
  unused = λ i later small.
      establish-uses (conn_name name ip i) c before after s e ∙ h.unused i later small;
}
step-Inv name ip short (destroys l n before after s e first) h = record {
  same_name = h.same_name;
  same_ip = h.same_ip;
  stages = λ m. destroy-Stages m l n before after s e (h.stages m);
  in_map = λ m k. h.in_map m (omega (arith, k, destroy-holders m l n before after s e));
  unused = λ i later small.
      destroy-uses (conn_name name ip i) l n before after s e ∙ h.unused i later small;
}
step-Inv name ip short (closes c before after s e) h = record {
  same_name = h.same_name;
  same_ip = h.same_ip;
  stages = λ n. close-Stages n c before after s e (h.stages n);
  in_map = λ n k. h.in_map n (omega (arith, k, close-holders n c before after s e));
  unused = h.unused;
}
step-Inv name ip short (closes_again c before after s e) h = record {
  same_name = h.same_name;
  same_ip = h.same_ip;
  stages = λ n. close_again-Stages n c before after s e (h.stages n);
  in_map = h.in_map;
  unused = h.unused;
}
step-Inv name ip short (removes c others s e) h = record {
  same_name = h.same_name;
  same_ip = h.same_ip;
  stages = λ n. remove-Stages n c others s e (h.stages n);
  in_map = λ n. remove-InMap n c others s e (h.stages n) (h.in_map n);
  unused = λ i later small.
      let n = conn_name name ip i in
      omega (
        arith,
        h.unused i later small,
        ups-posted n s.server.posted ((c.io_loop, destroyed_task c.name) ∷ []),
      );
}

Reached-Inv :
    {loop : ℕ} {ip name : Bytes} {s : Site}
    → length (c_str ip) ≤ 41
    → Reached loop ip name s
    → Inv name ip s
unfolding new_server
Reached-Inv short fresh = record {
  same_name = refl;
  same_ip = refl;
  stages = λ n. record {
    once = omega arith;
    onward = omega arith;
    removed = λ k. absurd (omega (arith, k));
  };
  in_map = λ n k. absurd (omega (arith, k));
  unused = λ i later small. omega arith;
}
Reached-Inv {ip} {name} short (later r step) = step-Inv name ip short step (Reached-Inv short r)

pub Reached-Stages :
    {loop : ℕ} {ip name : Bytes} {s : Site} (n : Bytes)
    → length (c_str ip) ≤ 41
    → Reached loop ip name s
    → Stages n s
Reached-Stages n short reached = (Reached-Inv short reached).stages n

-- However the loops of a server take turns, if its address has at most 41 characters, as the text of
-- an IPv4 address and a port has: under each name connectEstablished runs at most once; a connection
-- of the name that has come up is up until it closes for the first time; once its removal waits in the
-- main loop, or connectDestroyed waits or has run, it has come up and is up no longer, though it may
-- close, and be removed, again; and while one waits to come up or is up, the server's map holds a
-- connection of the name.
pub Reached-lives :
    {loop : ℕ} {ip name : Bytes} {s : Site} (n : Bytes)
    → length (c_str ip) ≤ 41
    → Reached loop ip name s
    → (ups n s.ran ≤ 1)
      × (ups n s.ran ≡ named n s.up + named n s.closed)
      × (0 < removals n s → (ups n s.ran ≡ 1) × (named n s.up ≡ 0))
      × (0 < waiting_ups n s + named n s.up → Held n s)
Reached-lives {ip} {name} {s} n short reached =
    let h = Reached-Inv short reached in
    let stages = h.stages n in
    (
      omega (arith, stages.once),
      stages.onward,
      λ k.
          let closed = stages.removed k in
          (
            omega (arith, stages.once, stages.onward, closed),
            omega (arith, stages.once, stages.onward, closed),
          ),
      h.in_map n,
    )
