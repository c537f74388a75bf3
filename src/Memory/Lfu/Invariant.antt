-- ===== src/Memory/Lfu/Invariant.antt =====
-- What every call of the cache keeps, and what a count of an access does.
use mathlib.Core.Option.{map}
use mathlib.Core.Path.{subst}
use native.Mathlib.Nat.{div-lt_iff_lt-mul}
use ai_chat_server.Base.{
  ℕ, suc, ◌+◌, ◌*◌, ◌/◌, ◌<◌, ◌≤◌, ◌≡◌, refl, sym, ◌∙◌, false, Option, none, some, Bytes, [], ◌∷◌,
  length, arith, ltb, ◌==◌, Bool-cases, inl, inr,
}
use ai_chat_server.Memory.Lfu.{
  Node, NodeMap, Cache, find_node, keys_at, aged, aged_nodes, no_nodes, no_freq, least_freq,
  update_min_freq, average, handle_over_max_average_num, add_freq_num,
}
use ai_chat_server.Memory.Lfu.Lists.{count}
use ai_chat_server.Memory.Lfu.Ageing.{
  Distinct, Agree, of_node, find_node-aged_nodes, age_lists-Agree,
}
use ai_chat_server.Memory.Lfu.Nodes.{
  Lowest, sum_freq, Distinct-aged_nodes, sum_freq-aged_nodes-le, length-aged_nodes, pigeonhole,
}
use ai_chat_server.Memory.Lfu.Least.{
  DistinctLists, DistinctLists-age_lists, least_freq-le, least_freq-attained,
}

-- Some node has this frequency.
abbrev pub HasFreq : ℕ → NodeMap → Type 0
HasFreq f nodes = (k : Bytes) × (n : Node) × (find_node k nodes ≡ some n) × (n.freq ≡ f)

pub record IsSound (c : Cache) : Type 0 where
  pub agree : Agree c.nodes c.lists
  pub distinct : Distinct c.nodes
  pub distinct_lists : DistinctLists c.lists
  pub positive : Lowest 1 c.nodes
  pub counted : sum_freq c.nodes ≤ c.cur_total
  pub min_pos : 1 ≤ c.min_freq

-- The least frequency is that of some node, and not above the average's limit by more than one.
pub record IsLeast (c : Cache) : Type 0 where
  pub lowest : Lowest c.min_freq c.nodes
  pub attained : HasFreq c.min_freq c.nodes
  pub bounded : c.min_freq ≤ c.max_average + 1

pub record IsValid (c : Cache) : Type 0 where
  pub sound : IsSound c
  pub fits : length c.nodes ≤ c.capacity
  pub least : 0 < length c.nodes → IsLeast c

-- The limits for which ageing keeps the least frequency below INT8_MAX.
pub record IsLimit (limit : ℕ) : Type 0 where
  pub not_low : 2 ≤ limit
  pub not_high : limit ≤ 125

-- What holds of the cache where an access has been counted: some frequency is near the average.
pub record IsOpen (c : Cache) : Type 0 where
  pub agree : Agree c.nodes c.lists
  pub distinct : Distinct c.nodes
  pub distinct_lists : DistinctLists c.lists
  pub positive : Lowest 1 c.nodes
  pub counted : sum_freq c.nodes ≤ c.cur_total
  pub min_pos : 1 ≤ c.min_freq
  pub some_node : 0 < length c.nodes
  pub near :
      (k : Bytes) × (n : Node) × (find_node k c.nodes ≡ some n) × (n.freq ≤ c.max_average + 2)

abbrev pub value_at : Bytes → NodeMap → Option Bytes
value_at k nodes = map (λ n. n.value) (find_node k nodes)

-- What counting an access keeps and brings about.
pub record Counted (c c' : Cache) : Type 0 where
  pub sound : IsSound c'
  pub capacity : c'.capacity ≡ c.capacity
  pub limit : c'.max_average ≡ c.max_average
  pub size : length c'.nodes ≡ length c.nodes
  pub values : (k : Bytes) → value_at k c'.nodes ≡ value_at k c.nodes
  pub keeps_one : HasFreq 1 c.nodes → HasFreq 1 c'.nodes
  pub least : Lowest c.min_freq c.nodes → HasFreq c.min_freq c.nodes → IsLeast c'

-- A key that stands in a list has a node of the list's frequency.
pub node_of_count :
    (k : Bytes) (g : ℕ) (o : Option Node)
    → 0 < of_node g o
    → (n : Node) × (o ≡ some n) × (n.freq ≡ g)
node_of_count k g none h = absurd (omega arith)
node_of_count k g (some n) h = (n, refl, ground (arith, h))

pub count_of_node :
    (k : Bytes) (n : Node) (c : Cache)
    → Agree c.nodes c.lists
    → find_node k c.nodes ≡ some n
    → 0 < count k (keys_at n.freq c.lists)
count_of_node k n c agree e = ground (arith, agree k n.freq, e)

filled_lem : (nodes : NodeMap) → 0 < length nodes → no_nodes nodes ≡ false
filled_lem [] h = absurd (omega arith)
filled_lem (first ∷ others) h = refl

abbrev pub counting : Cache → Cache
counting c = record c {
  cur_total = c.cur_total + 1;
  cur_average = average (c.cur_total + 1) c.nodes;
}

-- The average is within the limit: nothing else moves.
within-Counted :
    (d : Cache) → IsOpen d → ltb d.max_average (average d.cur_total d.nodes) ≡ false → Counted d d
unfolding average
within-Counted d before low = record {
  sound = record {
    agree = before.agree;
    distinct = before.distinct;
    distinct_lists = before.distinct_lists;
    positive = before.positive;
    counted = before.counted;
    min_pos = before.min_pos;
  };
  capacity = refl;
  limit = refl;
  size = refl;
  values = λ k. refl;
  keeps_one = λ h. h;
  least = λ lowest attained.
      let filled : no_nodes d.nodes ≡ false = filled_lem d.nodes before.some_node in
      let within : d.cur_total / length d.nodes < suc d.max_average = ground (arith, low, filled) in
      let room : d.cur_total < suc d.max_average * length d.nodes =
        (div-lt_iff_lt-mul {k = length d.nodes} {x = d.cur_total} {y = suc d.max_average}
            before.some_node).0
          within in
      let few : sum_freq d.nodes < suc d.max_average * length d.nodes =
        omega (arith, room, before.counted) in
      let (k, n, e, small) = pigeonhole d.max_average d.nodes before.distinct few in
      record { lowest = lowest; attained = attained; bounded = omega (arith, lowest k n e, small) };
}

aged_freq-pos : (half : ℕ) (n : Node) → 1 ≤ (aged half n).freq
aged_freq-pos half n = ground arith

aged_nodes-positive : (half : ℕ) (nodes : NodeMap) → Lowest 1 (aged_nodes half nodes)
aged_nodes-positive half nodes k n e =
    go (find_node k nodes) (sym (find_node-aged_nodes half k nodes) ∙ e)
  where
    go : (o : Option Node) → map (aged half) o ≡ some n → 1 ≤ n.freq
    go none h = absurd (cc)
    go (some m) h =
        let same : aged half m ≡ n = cc in subst (λ x. 1 ≤ x.freq) same (aged_freq-pos half m)

value_at-aged_nodes :
    (half : ℕ) (nodes : NodeMap) (k : Bytes) → value_at k (aged_nodes half nodes) ≡ value_at k nodes
value_at-aged_nodes half nodes k = rw (find_node-aged_nodes half k nodes) (go (find_node k nodes))
  where
    go : (o : Option Node) → map (λ n. n.value) (map (aged half) o) ≡ map (λ n. n.value) o
    go none = refl
    go (some m) = refl

-- After ageing the least frequency is found: some node is below INT8_MAX.
update_lem :
    (c : Cache)
    → Agree c.nodes c.lists
    → DistinctLists c.lists
    → (k : Bytes) (n : Node) → find_node k c.nodes ≡ some n
    → n.freq ≤ c.max_average + 1
    → c.max_average ≤ 125
    → Lowest (update_min_freq c).min_freq c.nodes
      × HasFreq (update_min_freq c).min_freq c.nodes
      × ((update_min_freq c).min_freq ≤ c.max_average + 1)
unfolding update_min_freq
update_lem c agree distinct k n found near high =
    let least = least_freq c.lists no_freq in
    let low : (j : Bytes) (m : Node) → find_node j c.nodes ≡ some m → least ≤ m.freq =
      λ j m e. least_freq-le j m.freq no_freq c.lists (count_of_node j m c agree e) in
    let below : (least == no_freq) ≡ false = ground (arith, low k n found, near, high) in
    rw below (
      low,
      elim (least_freq-attained no_freq c.lists distinct) [
        | inl start ↦ absurd (ground (arith, start, below))
        | inr (j, h) ↦
            let (m, e, f) =
              node_of_count j least (find_node j c.nodes) (ground (arith, h, agree j least)) in
            (j, m, e, f)
      ],
      omega (arith, low k n found, near),
    )

positive_min : {f : ℕ} (nodes : NodeMap) → HasFreq f nodes → Lowest 1 nodes → 1 ≤ f
positive_min nodes (k, n, e, same) low = omega (arith, low k n e, same)

-- The average is above the limit: all nodes age.
handle_over-Counted :
    (d : Cache)
    → IsLimit d.max_average
    → IsOpen d
    → (c' : Cache) × (handle_over_max_average_num d ≡ some c') × Counted d c'
unfolding handle_over_max_average_num update_min_freq
handle_over-Counted d limit before =
    let half = d.max_average / 2 in
    let (lists', e, agree') = age_lists-Agree half d.nodes d.lists before.distinct before.agree in
    let distinct' = DistinctLists-age_lists half d.nodes d.lists lists' before.distinct_lists e in
    let nodes' = aged_nodes half d.nodes in
    let filled : no_nodes d.nodes ≡ false = filled_lem d.nodes before.some_node in
    let (k, n, found, near) = before.near in
    let found' : find_node k nodes' ≡ some (aged half n) =
      rw (find_node-aged_nodes half k d.nodes, found) refl in
    let (lowest, attained, bounded) =
      update_lem (record d { nodes = nodes'; lists = lists' }) agree' distinct' k (aged half n)
        found' (ground (arith, near, limit.not_low)) limit.not_high in
    (
      update_min_freq (record d { nodes = nodes'; lists = lists' }),
      rw (filled, e) refl,
      record {
        sound = record {
          agree = agree';
          distinct = Distinct-aged_nodes half d.nodes before.distinct;
          distinct_lists = distinct';
          positive = aged_nodes-positive half d.nodes;
          counted = omega (
            arith,
            sum_freq-aged_nodes-le half d.nodes before.distinct before.positive,
            before.counted,
          );
          min_pos = positive_min nodes' attained (aged_nodes-positive half d.nodes);
        };
        capacity = refl;
        limit = refl;
        size = length-aged_nodes half d.nodes;
        values = value_at-aged_nodes half d.nodes;
        keeps_one = λ (j, m, g, one_freq). (
          j,
          aged half m,
          rw (find_node-aged_nodes half j d.nodes, g) refl,
          ground (arith, one_freq),
        );
        least = λ _ _. record { lowest = lowest; attained = attained; bounded = bounded };
      },
    )

-- Counting an access: the call returns, and the cache is in order again.
pub add_freq_num-Counted :
    (c : Cache)
    → IsLimit c.max_average
    → IsOpen (counting c)
    → (c' : Cache) × (add_freq_num c ≡ some c') × Counted (counting c) c'
unfolding add_freq_num
add_freq_num-Counted c limit before =
    elim (Bool-cases (ltb c.max_average (average (c.cur_total + 1) c.nodes))) [
      | inl above ↦
          let (c', e, done) = handle_over-Counted (counting c) limit before in
          (c', rw above e, done)
      | inr within ↦ (counting c, rw within refl, within-Counted (counting c) before within)
    ]
