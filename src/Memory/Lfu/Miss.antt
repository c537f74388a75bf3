-- ===== src/Memory/Lfu/Miss.antt =====
-- A miss: kickOut and the insertion of a node.
use mathlib.Core.Option.{map}
use ai_chat_server.Base.{
  ℕ, ◌<◌, min, ◌≡◌, refl, ap, ◌∙◌, Option, none, some, Bytes, List, [], ◌∷◌, length, arith,
  bytes_eq, bytes_eq_iff, bytes_eq_refl, if◌then◌else◌, inl, inr,
}
use ai_chat_server.Memory.Lfu.{
  Node, NodeMap, FreqLists, Cache, find_node, set_node, erase_node, find_list, keys_or_none,
  keys_at, add_to_freq_list, decrease_freq_num, kick_out, insert_node,
}
use ai_chat_server.Memory.Lfu.Lists.{count, count-remove_from_freq_list, count-add_to_freq_list}
use ai_chat_server.Memory.Lfu.Ageing.{Distinct}
use ai_chat_server.Memory.Lfu.Nodes.{
  Lowest, find_node-set_node, find_node-erase_node, Distinct-set_node, Distinct-erase_node,
  sum_freq-set_node, sum_freq-erase_node, length-set_node,
}
use ai_chat_server.Memory.Lfu.Least.{
  DistinctLists-add_to_freq_list, DistinctLists-remove_from_freq_list,
}
use ai_chat_server.Memory.Lfu.Invariant.{
  IsSound, IsLeast, IsLimit, IsOpen, counting, value_at, node_of_count, count_of_node,
  add_freq_num-Counted,
}
use ai_chat_server.Memory.Lfu.Hit.{Follows, set_node_cases, find_node-set_node_same, map-if}

-- The list of the least frequency has a first key.
first_key :
    (k : Bytes) (f : ℕ) (lists : FreqLists)
    → 0 < count k (keys_at f lists)
    → (old : Bytes) × (rest : List Bytes) × (find_list f lists ≡ some (old ∷ rest))
unfolding keys_at count
first_key k f lists h = go (find_list f lists) h
  where
    go :
        (o : Option (List Bytes))
        → 0 < count k (keys_or_none o)
        → (old : Bytes) × (rest : List Bytes) × (o ≡ some (old ∷ rest))
    go none bad = absurd (omega (arith, bad))
    go (some []) bad = absurd (omega (arith, bad))
    go (some (old ∷ rest)) _ = (old, rest, refl)

-- The key that is kicked out: the oldest of the least frequency.
pub record IsOldest (c : Cache) (old : Bytes) (n : Node) : Type 0 where
  pub found : find_node old c.nodes ≡ some n
  pub lowest : Lowest n.freq c.nodes
  pub rest : List Bytes
  pub first : keys_at n.freq c.lists ≡ old ∷ rest

pub oldest :
    (c : Cache)
    → IsSound c
    → IsLeast c
    → (old : Bytes) × (n : Node) × (rest : List Bytes) × (find_list c.min_freq c.lists
        ≡ some (old ∷ rest))
      × (n.freq ≡ c.min_freq)
      × IsOldest c old n
unfolding keys_at count
oldest c sound least =
    let (k, l, there, f) = least.attained in
    let (old, rest, first) =
      first_key k c.min_freq c.lists (ground (arith, count_of_node k l c sound.agree there, f)) in
    let at_min : keys_at c.min_freq c.lists ≡ old ∷ rest = rw first refl in
    let (n, found, same) =
      node_of_count old c.min_freq (find_node old c.nodes)
        (ground (arith, sound.agree old c.min_freq, at_min, bytes_eq_refl old)) in
    (
      old,
      n,
      rest,
      first,
      same,
      record {
        found = found;
        lowest = λ k m e. omega (arith, least.lowest k m e, same);
        rest = rest;
        first = rw same at_min;
      },
    )

erase-Lowest :
    (k : Bytes) (nodes : NodeMap) → Distinct nodes → Lowest 1 nodes → Lowest 1 (erase_node k nodes)
erase-Lowest k nodes d low j m e = low j m (ground (arith, e, find_node-erase_node k j nodes d))

pub kick_out-IsSound :
    (c : Cache)
    → IsSound c
    → IsLeast c
    → (old : Bytes) × (n : Node) × IsOldest c old n
      × (c' : Cache) × (kick_out c ≡ some c')
      × IsSound c'
      × (c'.nodes ≡ erase_node old c.nodes)
      × (c'.capacity ≡ c.capacity)
      × (c'.max_average ≡ c.max_average)
unfolding kick_out decrease_freq_num
kick_out-IsSound c sound least =
    let (old, n, rest, first, same, is_oldest) = oldest c sound least in
    let (less, removed, taken) =
      count-remove_from_freq_list old n.freq c.lists
        (count_of_node old n c sound.agree is_oldest.found) in
    (
      old,
      n,
      is_oldest,
      decrease_freq_num n.freq (record c { nodes = erase_node old c.nodes; lists = less }),
      rw (first, kick_out) (rw is_oldest.found (rw removed refl)),
      record {
        agree = λ k g. ground (
          arith,
          taken k g,
          sound.agree k g,
          is_oldest.found,
          find_node-erase_node old k c.nodes sound.distinct,
          bytes_eq_iff old k,
        );
        distinct = Distinct-erase_node old c.nodes sound.distinct;
        distinct_lists =
            DistinctLists-remove_from_freq_list old n.freq c.lists less sound.distinct_lists
              removed;
        positive = erase-Lowest old c.nodes sound.distinct sound.positive;
        counted = ground (arith, sum_freq-erase_node old c.nodes, is_oldest.found, sound.counted);
        min_pos = sound.min_pos;
      },
      refl,
      refl,
      refl,
    )

pub insert_node-Follows :
    (k v : Bytes) (c : Cache)
    → IsLimit c.max_average
    → IsSound c
    → find_node k c.nodes ≡ none
    → length c.nodes < c.capacity
    → (c' : Cache) × (insert_node k v c ≡ some c')
      × Follows c c'
      × ((j : Bytes) → value_at j c'.nodes ≡ (if bytes_eq k j then some v else value_at j c.nodes))
unfolding insert_node
insert_node-Follows k v c limit sound new room =
    let n : Node = record { freq = 1; value = v } in
    let mid : Cache = record c {
      nodes = set_node k n c.nodes;
      lists = add_to_freq_list k 1 c.lists;
    } in
    let positive : Lowest 1 mid.nodes = λ j m e. elim (set_node_cases k j n m c.nodes e) [
      | inl same ↦ ground (arith, ap (λ x. x.freq) same)
      | inr (other, there) ↦ sound.positive j m there
    ] in
    let before : IsOpen (counting mid) = record {
      agree = λ j g. ground (
        arith,
        count-add_to_freq_list j k 1 g c.lists,
        sound.agree j g,
        new,
        find_node-set_node k j n c.nodes,
        bytes_eq_iff k j,
      );
      distinct = Distinct-set_node k n c.nodes sound.distinct;
      distinct_lists = DistinctLists-add_to_freq_list k 1 c.lists sound.distinct_lists;
      positive = positive;
      counted = ground (arith, sum_freq-set_node k n c.nodes, new, sound.counted);
      min_pos = sound.min_pos;
      some_node = ground (arith, length-set_node k n c.nodes, new);
      near = (k, n, find_node-set_node_same k n c.nodes, omega arith);
    } in
    let (c', e, done) = add_freq_num-Counted mid limit before in
    let is_one : min (c'.min_freq) 1 ≡ 1 = omega (arith, done.sound.min_pos) in
    (
      record c' { min_freq = min (c'.min_freq) 1 },
      rw (e, insert_node) refl,
      record {
        valid = record {
          sound = record {
            agree = done.sound.agree;
            distinct = done.sound.distinct;
            distinct_lists = done.sound.distinct_lists;
            positive = done.sound.positive;
            counted = done.sound.counted;
            min_pos = omega (arith, is_one);
          };
          fits = ground (arith, done.size, done.capacity, length-set_node k n c.nodes, new, room);
          least = λ _. record {
            lowest = rw is_one done.sound.positive;
            attained = rw is_one (done.keeps_one (k, n, find_node-set_node_same k n c.nodes, refl));
            bounded = omega (arith, is_one);
          };
        };
        capacity = done.capacity;
        limit = done.limit;
      },
      λ j.
          done.values j
          ∙ ap (map (λ x. x.value)) (find_node-set_node k j n c.nodes)
          ∙ map-if (bytes_eq k j) n (find_node j c.nodes),
    )
