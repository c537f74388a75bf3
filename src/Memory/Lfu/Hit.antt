-- ===== src/Memory/Lfu/Hit.antt =====
-- A hit: getInternal keeps the cache in order.
use mathlib.Core.Option.{map}
use mathlib.Core.Path.{subst}
use ai_chat_server.Base.{
  ℕ, ◌+◌, ◌<◌, ◌≤◌, ◌≡◌, ◌⊎◌, refl, ap, ◌∙◌, Bool, true, false, ◌&&◌, Option, some, Bytes, List, [],
  ◌∷◌, length, arith, bytes_eq, bytes_eq_iff, bytes_eq_refl, if◌then◌else◌, ◌==◌, Bool-cases, inl,
  inr,
}
use ai_chat_server.Memory.Lfu.{
  Node, NodeMap, FreqLists, Cache, find_node, set_node, keys_at, has_none, add_to_freq_list,
  get_internal,
}
use ai_chat_server.Memory.Lfu.Lists.{count, count-move}
use ai_chat_server.Memory.Lfu.Ageing.{Agree}
use ai_chat_server.Memory.Lfu.Nodes.{
  Lowest, find_node-set_node, Distinct-set_node, sum_freq-set_node, length-set_node,
}
use ai_chat_server.Memory.Lfu.Least.{
  DistinctLists-add_to_freq_list, DistinctLists-remove_from_freq_list,
}
use ai_chat_server.Memory.Lfu.Invariant.{
  HasFreq, IsValid, IsLimit, IsOpen, counting, value_at, node_of_count, count_of_node,
  add_freq_num-Counted,
}

pub set_node_cases :
    (k j : Bytes) (n m : Node) (nodes : NodeMap)
    → find_node j (set_node k n nodes) ≡ some m
    → (n ≡ m) ⊎ ((bytes_eq k j ≡ false) × (find_node j nodes ≡ some m))
set_node_cases k j n m nodes e = elim (Bool-cases (bytes_eq k j)) [
  | inl same ↦
      let same_node : some n ≡ some m = ground (arith, e, same, find_node-set_node k j n nodes) in
      inl cc
  | inr other ↦ inr (other, ground (arith, e, other, find_node-set_node k j n nodes))
]

pub find_node-set_node_other :
    (k j : Bytes) (n m : Node) (nodes : NodeMap)
    → bytes_eq k j ≡ false
    → find_node j nodes ≡ some m
    → find_node j (set_node k n nodes) ≡ some m
find_node-set_node_other k j n m nodes other e = rw (find_node-set_node k j n nodes, other) e

pub find_node-set_node_same :
    (k : Bytes) (n : Node) (nodes : NodeMap) → find_node k (set_node k n nodes) ≡ some n
find_node-set_node_same k n nodes = rw (find_node-set_node k k n nodes, bytes_eq_refl k) refl

pub length-pos_of_find_node :
    (k : Bytes) (n : Node) (nodes : NodeMap) → find_node k nodes ≡ some n → 0 < length nodes
unfolding find_node
length-pos_of_find_node k n [] e = absurd (cc)
length-pos_of_find_node k n (first ∷ others) e = omega arith

count-has_none : (k : Bytes) (keys : List Bytes) → has_none keys ≡ true → count k keys ≡ 0
unfolding count
count-has_none k [] h = refl
count-has_none k (j ∷ keys) h = absurd (cc)

pub some_count : (keys : List Bytes) → has_none keys ≡ false → (k : Bytes) × (0 < count k keys)
unfolding count
some_count [] h = absurd (cc)
some_count (j ∷ keys) h = (j, ground (arith, bytes_eq_refl j))

-- The node map after a hit on `n`.
abbrev hit : Bytes → Node → NodeMap → NodeMap
hit k n nodes = set_node k (record n { freq = n.freq + 1 }) nodes

hit-Lowest :
    (k : Bytes) (n : Node) (nodes : NodeMap) (m : ℕ)
    → find_node k nodes ≡ some n
    → Lowest m nodes
    → Lowest m (hit k n nodes)
hit-Lowest k n nodes m found low j l e =
    elim (set_node_cases k j (record n { freq = n.freq + 1 }) l nodes e) [
      | inl same ↦ subst (λ x. m ≤ x.freq) same (omega (arith, low k n found))
      | inr (other, there) ↦ low j l there
    ]

-- The least frequency after a hit on a node of cache `c`, with the new lists.
unfoldable pub next_min : Node → ℕ → FreqLists → ℕ
next_min n m lists = if n.freq == m && has_none (keys_at n.freq lists) then m + 1 else m

next_min-Lowest :
    (k : Bytes) (n : Node) (nodes : NodeMap) (lists : FreqLists) (m : ℕ)
    → Agree (hit k n nodes) lists
    → find_node k nodes ≡ some n
    → Lowest m nodes
    → Lowest (next_min n m lists) (hit k n nodes)
unfolding next_min
next_min-Lowest k n nodes lists m agree found low j l e =
    elim (Bool-cases (n.freq == m && has_none (keys_at n.freq lists))) [
      | inl last ↦ rw last (elim (set_node_cases k j (record n { freq = n.freq + 1 }) l nodes e) [
        | inl same ↦ subst (λ x. m + 1 ≤ x.freq) same (ground (arith, last))
        | inr (other, there) ↦
            let same_freq : n.freq ≡ m = ground (arith, last) in
            ground (
              arith,
              low j l there,
              agree j m,
              e,
              count-has_none j (keys_at n.freq lists),
              last,
              same_freq,
            )
      ])
      | inr not_last ↦ rw not_last (hit-Lowest k n nodes m found low j l e)
    ]

next_min-HasFreq :
    (k : Bytes) (n : Node) (nodes : NodeMap) (lists : FreqLists) (m : ℕ)
    → Agree (hit k n nodes) lists
    → find_node k nodes ≡ some n
    → HasFreq m nodes
    → HasFreq (next_min n m lists) (hit k n nodes)
unfolding next_min
next_min-HasFreq k n nodes lists m agree found (j, l, there, f) = elim (Bool-cases (n.freq == m)) [
  | inl least ↦ elim (Bool-cases (has_none (keys_at n.freq lists))) [
    | inl last ↦
        rw (least, last)
          (
            k,
            record n { freq = n.freq + 1 },
            find_node-set_node_same k (record n { freq = n.freq + 1 }) nodes,
            ground (arith, least),
          )
    | inr more ↦
        let (i, stands) = some_count (keys_at n.freq lists) more in
        let (x, e, g) =
          node_of_count i n.freq (find_node i (hit k n nodes))
            (ground (arith, stands, agree i n.freq)) in
        rw (least, more) (i, x, e, ground (arith, g, least))
  ]
  | inr above ↦ rw above (
    j,
    l,
    find_node-set_node_other k j (record n { freq = n.freq + 1 }) l nodes
        (ground (arith, above, f, there, found, bytes_eq_iff k j)) there,
    f,
  )
]

-- What a call of the cache leaves: a cache in order, of the same capacity and limit.
pub record Follows (c c' : Cache) : Type 0 where
  pub valid : IsValid c'
  pub capacity : c'.capacity ≡ c.capacity
  pub limit : c'.max_average ≡ c.max_average

hit-near :
    (k : Bytes) (n : Node) (nodes : NodeMap) (m limit : ℕ)
    → find_node k nodes ≡ some n
    → HasFreq m nodes
    → m ≤ limit + 1
    → (j : Bytes) × (l : Node) × (find_node j (hit k n nodes) ≡ some l) × (l.freq ≤ limit + 2)
hit-near k n nodes m limit found (j, l, there, f) le = elim (Bool-cases (bytes_eq k j)) [
  | inl same ↦
      let e : n.freq ≡ l.freq = ground (arith, same, found, there, bytes_eq_iff k j) in
      (
        k,
        record n { freq = n.freq + 1 },
        find_node-set_node_same k (record n { freq = n.freq + 1 }) nodes,
        omega (arith, e, f, le),
      )
  | inr other ↦ (
    j,
    l,
    find_node-set_node_other k j (record n { freq = n.freq + 1 }) l nodes other there,
    omega (arith, f, le),
  )
]

pub map-if :
    (b : Bool) (n : Node) (o : Option Node)
    → map (λ x. x.value) (if b then some n else o)
      ≡ (if b then some n.value else map (λ x. x.value) o)
map-if true n o = refl
map-if false n o = refl

pub get_internal-Follows :
    (k : Bytes) (n : Node) (c : Cache)
    → IsLimit c.max_average
    → IsValid c
    → find_node k c.nodes ≡ some n
    → (c' : Cache) × (get_internal k n c ≡ some c')
      × Follows c c'
      × ((j : Bytes)
          → value_at j c'.nodes ≡ (if bytes_eq k j then some n.value else value_at j c.nodes))
unfolding get_internal next_min
get_internal-Follows k n c limit valid found =
    let sound = valid.sound in
    let least = valid.least (length-pos_of_find_node k n c.nodes found) in
    let n' = record n { freq = n.freq + 1 } in
    let (less, removed, moved) =
      count-move k n.freq (n.freq + 1) c.lists (count_of_node k n c sound.agree found) in
    let lists = add_to_freq_list k (n.freq + 1) less in
    let mid : Cache = record c {
      nodes = set_node k n' c.nodes;
      lists = lists;
      min_freq = next_min n c.min_freq lists;
    } in
    let agree : Agree (hit k n c.nodes) lists = λ j g. ground (
      arith,
      moved j g,
      sound.agree j g,
      found,
      find_node-set_node k j n' c.nodes,
      bytes_eq_iff k j,
    ) in
    let lowest = next_min-Lowest k n c.nodes lists c.min_freq agree found least.lowest in
    let attained = next_min-HasFreq k n c.nodes lists c.min_freq agree found least.attained in
    let before : IsOpen (counting mid) = record {
      agree = agree;
      distinct = Distinct-set_node k n' c.nodes sound.distinct;
      distinct_lists =
          DistinctLists-add_to_freq_list k (n.freq + 1) less (
            DistinctLists-remove_from_freq_list k n.freq c.lists less sound.distinct_lists removed);
      positive = hit-Lowest k n c.nodes 1 found sound.positive;
      counted = ground (arith, sum_freq-set_node k n' c.nodes, found, sound.counted);
      min_pos = ground (arith, sound.min_pos);
      some_node =
          omega (arith, length-set_node k n' c.nodes, length-pos_of_find_node k n c.nodes found);
      near = hit-near k n c.nodes c.min_freq c.max_average found least.attained least.bounded;
    } in
    let (c', e, done) = add_freq_num-Counted mid limit before in
    (
      c',
      rw (removed, get_internal) e,
      record {
        valid = record {
          sound = done.sound;
          fits =
              ground
                (arith, done.size, done.capacity, length-set_node k n' c.nodes, found, valid.fits);
          least = λ _. done.least lowest attained;
        };
        capacity = done.capacity;
        limit = done.limit;
      },
      λ j.
          done.values j
          ∙ ap (map (λ x. x.value)) (find_node-set_node k j n' c.nodes)
          ∙ map-if (bytes_eq k j) n' (find_node j c.nodes),
    )
