-- ===== src/Memory/Lfu/Counters.antt =====
-- How far a call moves curTotalNum_, the largest of the counters.
use ai_chat_server.Base.{
  ◌≡◌, refl, sym, ◌∙◌, min, Option, suc, ◌+◌, ◌≤◌, none, some, Bytes, arith, Bool-cases,
  Option-cases, inl, inr, length, ltb, ◌==◌,
}
use ai_chat_server.Memory.Lfu.Hit.{next_min}
use ai_chat_server.Memory.Lfu.{
  Node, Cache, find_node, remove_from_freq_list, add_to_freq_list, average, update_min_freq,
  handle_over_max_average_num, add_freq_num, decrease_freq_num, get_internal, kick_out, make_room,
  insert_node, put_internal, put, get, set_node,
}

handle-total : (c c' : Cache) → handle_over_max_average_num c ≡ some c' → c'.cur_total ≡ c.cur_total
unfolding handle_over_max_average_num update_min_freq
handle-total c c' e = ground (arith, e)

add_freq_num-total : (c c' : Cache) → add_freq_num c ≡ some c' → c'.cur_total ≡ suc c.cur_total
unfolding add_freq_num
add_freq_num-total c c' e =
    let total = c.cur_total + 1 in
    let counted : Cache = record c { cur_total = total; cur_average = average total c.nodes } in
    elim (Bool-cases (ltb c.max_average (average total c.nodes))) [
      | inl over ↦
          let aged : handle_over_max_average_num counted ≡ some c' = ground (arith, e, over) in
          omega (arith, handle-total counted c' aged)
      | inr under ↦
          let same : some counted ≡ some c' = ground (arith, e, under) in ground (arith, same)
    ]

get_internal-total :
    (k : Bytes) (n : Node) (c c' : Cache)
    → get_internal k n c ≡ some c'
    → c'.cur_total ≡ suc c.cur_total
unfolding get_internal next_min
get_internal-total k n c c' e = elim (Option-cases (remove_from_freq_list k n.freq c.lists)) [
  | inl missing ↦
      let fails : get_internal k n c ≡ none = rw (missing, get_internal) refl in
      absurd (ground (arith, e, fails))
  | inr (less, removed) ↦
      let lists = add_to_freq_list k (n.freq + 1) less in
      let moved : Cache = record c {
        nodes = set_node k (record n { freq = n.freq + 1 }) c.nodes;
        lists = lists;
        min_freq = next_min n c.min_freq lists;
      } in
      let whole : get_internal k n c ≡ add_freq_num moved = rw (removed, get_internal) refl in
      add_freq_num-total moved c' (sym whole ∙ e)
]

kick_out-total : (c c' : Cache) → kick_out c ≡ some c' → c'.cur_total ≤ c.cur_total
unfolding kick_out decrease_freq_num
kick_out-total c c' e = ground (arith, e)

make_room-total : (c c' : Cache) → make_room c ≡ some c' → c'.cur_total ≤ c.cur_total
unfolding make_room
make_room-total c c' e = elim (Bool-cases (length c.nodes == c.capacity)) [
  | inl full ↦ kick_out-total c c' (ground (arith, e, full))
  | inr room ↦ let same : some c ≡ some c' = ground (arith, e, room) in ground (arith, same)
]

insert_node-total :
    (k v : Bytes) (c c' : Cache) → insert_node k v c ≡ some c' → c'.cur_total ≡ suc c.cur_total
unfolding insert_node
insert_node-total k v c c' e =
    let mid : Cache = record c {
      nodes = set_node k (record { freq = 1; value = v }) c.nodes;
      lists = add_to_freq_list k 1 c.lists;
    } in
    elim (Option-cases (add_freq_num mid)) [
      | inl missing ↦
          let fails : insert_node k v c ≡ none = rw (missing, insert_node) refl in
          absurd (ground (arith, e, fails))
      | inr (d, counted) ↦
          let whole : insert_node k v c ≡ some (record d { min_freq = min (d.min_freq) 1 }) =
            rw (counted, insert_node) refl in
          let same : d.cur_total ≡ c'.cur_total = ground (arith, sym whole ∙ e) in
          sym same ∙ add_freq_num-total mid d counted
    ]

-- A put or a get raises the total by one at most.
pub put-total : (k v : Bytes) (c c' : Cache) → put k v c ≡ some c' → c'.cur_total ≤ suc c.cur_total
unfolding put put_internal
put-total k v c c' e = elim (Bool-cases (c.capacity == 0)) [
  | inl nothing ↦
      let same : some c ≡ some c' = sym (rw (nothing, put) refl) ∙ e in ground (arith, same)
  | inr some_room ↦ elim (Option-cases (find_node k c.nodes)) [
    | inr (n, found) ↦
        let n' = record n { value = v } in
        let written : Cache = record c { nodes = set_node k n' c.nodes } in
        let whole : put k v c ≡ get_internal k n' written = rw (some_room, put) (rw found refl) in
        omega (arith, get_internal-total k n' written c' (sym whole ∙ e))
    | inl new ↦ elim (Option-cases (make_room c)) [
      | inl stuck ↦
          let fails : put k v c ≡ none =
            rw (some_room, put) (rw new (rw (stuck, put_internal) refl)) in
          absurd (ground (arith, e, fails))
      | inr (d, made) ↦
          let whole : put k v c ≡ insert_node k v d =
            rw (some_room, put) (rw new (rw (made, put_internal) refl)) in
          omega (arith, make_room-total c d made, insert_node-total k v d c' (sym whole ∙ e))
    ]
  ]
]

pub get-total :
    (k : Bytes) (o : Option Bytes) (c c' : Cache)
    → get k c ≡ some (o, c')
    → c'.cur_total ≤ suc c.cur_total
unfolding get
get-total k o c c' e = elim (Option-cases (find_node k c.nodes)) [
  | inl absent ↦
      let whole : get k c ≡ some (none, c) = rw (absent, get) refl in
      let same : c.cur_total ≡ c'.cur_total = ground (arith, sym whole ∙ e) in omega (arith, same)
  | inr (n, found) ↦ elim (Option-cases (get_internal k n c)) [
    | inl stuck ↦
        let fails : get k c ≡ none = rw (found, get) (rw stuck refl) in
        absurd (ground (arith, e, fails))
    | inr (d, hit) ↦
        let whole : get k c ≡ some (some n.value, d) = rw (found, get) (rw hit refl) in
        let same : d.cur_total ≡ c'.cur_total = ground (arith, sym whole ∙ e) in
        omega (arith, same, get_internal-total k n c d hit)
  ]
]
