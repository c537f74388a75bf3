-- ===== src/Memory/Lfu/Calls.antt =====
-- put and get: what they return, what stays in the cache, and what leaves it.
use mathlib.Core.Path.{subst}
use ai_chat_server.Base.{
  ◌<◌, ◌≤◌, ◌≡◌, ap, ◌∙◌, true, false, Option, none, some, Bytes, length, arith, bytes_eq,
  bytes_eq_iff, if◌then◌else◌, ◌==◌, Bool-cases, inl, inr,
}
use ai_chat_server.Memory.Lfu.{Node, Cache, find_node, set_node, make_room, put_internal, put}
use ai_chat_server.Memory.Lfu.Nodes.{
  find_node-set_node, find_node-erase_node, Distinct-set_node, sum_freq-set_node, length-set_node,
  length-erase_node,
}
use ai_chat_server.Memory.Lfu.Invariant.{IsLeast, IsValid, IsLimit, value_at}
use ai_chat_server.Memory.Lfu.Hit.{
  Follows, get_internal-Follows, find_node-set_node_same, find_node-set_node_other, set_node_cases,
}
use ai_chat_server.Memory.Lfu.Miss.{IsOldest, kick_out-IsSound, insert_node-Follows}

-- A node's value is overwritten.
abbrev overwrite : Bytes → Bytes → Node → Cache → Cache
overwrite k v n c = record c { nodes = set_node k (record n { value = v }) c.nodes }

overwrite-IsLeast :
    (k v : Bytes) (n : Node) (c : Cache)
    → find_node k c.nodes ≡ some n
    → IsLeast c
    → IsLeast (overwrite k v n c)
overwrite-IsLeast k v n c found least = record {
  lowest = λ j m e. elim (set_node_cases k j (record n { value = v }) m c.nodes e) [
    | inl same ↦ subst (λ x. c.min_freq ≤ x.freq) same (least.lowest k n found)
    | inr (other, there) ↦ least.lowest j m there
  ];
  attained =
      let (j, m, there, f) = least.attained in
      elim (Bool-cases (bytes_eq k j)) [
        | inl same ↦ (
          k,
          record n { value = v },
          find_node-set_node_same k (record n { value = v }) c.nodes,
          ground (arith, same, found, there, f, bytes_eq_iff k j),
        )
        | inr other ↦
            (j, m, find_node-set_node_other k j (record n { value = v }) m c.nodes other there, f)
      ];
  bounded = least.bounded;
}

overwrite-IsValid :
    (k v : Bytes) (n : Node) (c : Cache)
    → find_node k c.nodes ≡ some n
    → IsValid c
    → IsValid (overwrite k v n c)
overwrite-IsValid k v n c found valid =
    let n' = record n { value = v } in
    let size = length-set_node k n' c.nodes in
    record {
      sound = record {
        agree = λ j g. ground (
          arith,
          valid.sound.agree j g,
          found,
          find_node-set_node k j n' c.nodes,
          bytes_eq_iff k j,
        );
        distinct = Distinct-set_node k n' c.nodes valid.sound.distinct;
        distinct_lists = valid.sound.distinct_lists;
        positive = λ j m e. elim (set_node_cases k j n' m c.nodes e) [
          | inl same ↦ subst (λ x. 1 ≤ x.freq) same (valid.sound.positive k n found)
          | inr (other, there) ↦ valid.sound.positive j m there
        ];
        counted = ground (arith, sum_freq-set_node k n' c.nodes, found, valid.sound.counted);
        min_pos = valid.sound.min_pos;
      };
      fits = ground (arith, size, found, valid.fits);
      least = λ some_node.
          overwrite-IsLeast k v n c found (valid.least (ground (arith, size, found, some_node)));
    }

-- The values of the cache after a call: `v` under `k`, and those of `kept` under all other keys.
abbrev pub Stored : Bytes → Bytes → (Bytes → Option Bytes) → Cache → Type 0
Stored k v kept c' = (j : Bytes) → value_at j c'.nodes ≡ (if bytes_eq k j then some v else kept j)

pub put_hit :
    (k v : Bytes) (n : Node) (c : Cache)
    → IsLimit c.max_average
    → IsValid c
    → 0 < c.capacity
    → find_node k c.nodes ≡ some n
    → (c' : Cache) × (put k v c ≡ some c') × Follows c c' × Stored k v (λ j. value_at j c.nodes) c'
unfolding put
put_hit k v n c limit valid room found =
    let n' = record n { value = v } in
    let (c', e, follows, values) =
      get_internal-Follows k n' (overwrite k v n c) limit (overwrite-IsValid k v n c found valid)
        (find_node-set_node_same k n' c.nodes) in
    let some_room : (c.capacity == 0) ≡ false = ground arith in
    (
      c',
      rw (some_room, put) (rw found e),
      record { valid = follows.valid; capacity = follows.capacity; limit = follows.limit },
      λ j. ground (arith, values j, find_node-set_node k j n' c.nodes),
    )

pub put_room :
    (k v : Bytes) (c : Cache)
    → IsLimit c.max_average
    → IsValid c
    → find_node k c.nodes ≡ none
    → length c.nodes < c.capacity
    → (c' : Cache) × (put k v c ≡ some c') × Follows c c' × Stored k v (λ j. value_at j c.nodes) c'
unfolding put put_internal make_room
put_room k v c limit valid new room =
    let (c', e, follows, values) = insert_node-Follows k v c limit valid.sound new room in
    let some_room : (c.capacity == 0) ≡ false = ground arith in
    let not_full : (length c.nodes == c.capacity) ≡ false = ground arith in
    (c', rw (some_room, put) (rw new (rw (not_full, put_internal) e)), follows, values)

-- On a full cache in order with some capacity and a limit from 2 to 125, a put of a new key is
-- answered, leaves the cache in order, kicks out a least used key, the first in the list of its
-- frequency, stores the value, and keeps the values of all other keys.
pub put_evicts :
    (k v : Bytes) (c : Cache)
    → IsLimit c.max_average
    → IsValid c
    → find_node k c.nodes ≡ none
    → length c.nodes ≡ c.capacity
    → 0 < c.capacity
    → (old : Bytes) × (n : Node) × IsOldest c old n
      × (c' : Cache) × (put k v c ≡ some c')
      × Follows c c'
      × Stored k v (λ j. if bytes_eq old j then none else value_at j c.nodes) c'
unfolding put put_internal make_room
put_evicts k v c limit valid new full room =
    let (old, n, is_oldest, mid, kicked, sound, nodes, capacity, same_limit) =
      kick_out-IsSound c valid.sound (valid.least (omega arith)) in
    let left = find_node-erase_node old k c.nodes valid.sound.distinct in
    let new' : find_node k mid.nodes ≡ none = rw nodes (ground (arith, left, new)) in
    let size : length mid.nodes < mid.capacity = ground (
      arith,
      ap length nodes,
      length-erase_node old c.nodes,
      is_oldest.found,
      capacity,
      full,
      room,
    ) in
    let (c', e, follows, values) =
      insert_node-Follows k v mid (rw same_limit limit) sound new' size in
    let some_room : (c.capacity == 0) ≡ false = ground arith in
    let is_full : (length c.nodes == c.capacity) ≡ true = ground arith in
    (
      old,
      n,
      is_oldest,
      c',
      rw (some_room, put) (rw new (rw (is_full, put_internal) (rw kicked e))),
      record {
        valid = follows.valid;
        capacity = follows.capacity ∙ capacity;
        limit = follows.limit ∙ same_limit;
      },
      λ j. ground (
        arith,
        values j,
        ap (find_node j) nodes,
        find_node-erase_node old j c.nodes valid.sound.distinct,
      ),
    )
