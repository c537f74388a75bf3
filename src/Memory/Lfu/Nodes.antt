-- ===== src/Memory/Lfu/Nodes.antt =====
-- The node map under its changes: what is found, how many nodes there are, and the sum of their
-- frequencies.
use ai_chat_server.Base.{
  ℕ, suc, ◌+◌, ◌*◌, ◌<◌, ◌≤◌, ◌≡◌, refl, ap, Option, none, some, Bytes, [], ◌∷◌, length, arith,
  bytes_eq, bytes_eq_iff, bytes_eq_refl, if◌then◌else◌, ltb, Bool-cases, inl, inr,
}
use ai_chat_server.Memory.Lfu.{Node, NodeMap, find_node, set_node, erase_node, aged_nodes}
use ai_chat_server.Memory.Lfu.Ageing.{Distinct, find_node-aged_nodes}

pub find_node-set_node :
    (k j : Bytes) (n : Node) (nodes : NodeMap)
    → find_node j (set_node k n nodes) ≡ (if bytes_eq k j then some n else find_node j nodes)
unfolding find_node set_node
find_node-set_node k j n [] = refl
find_node-set_node k j n ((i, m) ∷ nodes) =
    ground
      (arith, bytes_eq_iff i k, bytes_eq_iff i j, bytes_eq_iff k j, find_node-set_node k j n nodes)

pub find_node-erase_node :
    (k j : Bytes) (nodes : NodeMap)
    → Distinct nodes
    → find_node j (erase_node k nodes) ≡ (if bytes_eq k j then none else find_node j nodes)
unfolding find_node erase_node
find_node-erase_node k j [] d = ground arith
find_node-erase_node k j ((i, m) ∷ nodes) (new, d) = ground (
  arith,
  new,
  bytes_eq_iff i k,
  bytes_eq_iff i j,
  bytes_eq_iff k j,
  find_node-erase_node k j nodes d,
)

pub Distinct-set_node :
    (k : Bytes) (n : Node) (nodes : NodeMap) → Distinct nodes → Distinct (set_node k n nodes)
unfolding set_node find_node
Distinct-set_node k n [] d = (refl, tt)
Distinct-set_node k n ((i, m) ∷ nodes) (new, d) = elim (Bool-cases (bytes_eq i k)) [
  | inl same ↦ rw same (new, d)
  | inr other ↦ rw other (
    ground (arith, new, bytes_eq_iff i k, bytes_eq_iff k i, find_node-set_node k i n nodes),
    Distinct-set_node k n nodes d,
  )
]

pub Distinct-erase_node :
    (k : Bytes) (nodes : NodeMap) → Distinct nodes → Distinct (erase_node k nodes)
unfolding erase_node
Distinct-erase_node k [] d = tt
Distinct-erase_node k ((i, m) ∷ nodes) (new, d) = elim (Bool-cases (bytes_eq i k)) [
  | inl same ↦ rw same d
  | inr other ↦
      rw other
        (ground (arith, new, find_node-erase_node k i nodes d), Distinct-erase_node k nodes d)
]

pub Distinct-aged_nodes :
    (half : ℕ) (nodes : NodeMap) → Distinct nodes → Distinct (aged_nodes half nodes)
unfolding aged_nodes
Distinct-aged_nodes half [] d = tt
Distinct-aged_nodes half ((i, m) ∷ nodes) (new, d) =
    (ground (arith, new, find_node-aged_nodes half i nodes), Distinct-aged_nodes half nodes d)

-- All frequencies together.
unfoldable pub sum_freq : NodeMap → ℕ
sum_freq [] = 0
sum_freq ((k, n) ∷ nodes) = n.freq + sum_freq nodes

abbrev pub freq_or_zero : Option Node → ℕ
freq_or_zero none = 0
freq_or_zero (some n) = n.freq

abbrev pub one_if_none : Option Node → ℕ
one_if_none none = 1
one_if_none (some n) = 0

pub sum_freq-set_node :
    (k : Bytes) (n : Node) (nodes : NodeMap)
    → sum_freq (set_node k n nodes) + freq_or_zero (find_node k nodes) ≡ sum_freq nodes + n.freq
unfolding sum_freq set_node find_node
sum_freq-set_node k n [] = omega arith
sum_freq-set_node k n ((i, m) ∷ nodes) = ground (arith, sum_freq-set_node k n nodes)

pub sum_freq-erase_node :
    (k : Bytes) (nodes : NodeMap)
    → sum_freq (erase_node k nodes) + freq_or_zero (find_node k nodes) ≡ sum_freq nodes
unfolding sum_freq erase_node find_node
sum_freq-erase_node k [] = omega arith
sum_freq-erase_node k ((i, m) ∷ nodes) = ground (arith, sum_freq-erase_node k nodes)

pub length-set_node :
    (k : Bytes) (n : Node) (nodes : NodeMap)
    → length (set_node k n nodes) ≡ length nodes + one_if_none (find_node k nodes)
unfolding set_node find_node
length-set_node k n [] = omega arith
length-set_node k n ((i, m) ∷ nodes) = ground (arith, length-set_node k n nodes)

pub length-erase_node :
    (k : Bytes) (nodes : NodeMap)
    → length (erase_node k nodes) + 1 ≡ length nodes + one_if_none (find_node k nodes)
unfolding erase_node find_node
length-erase_node k [] = omega arith
length-erase_node k ((i, m) ∷ nodes) = ground (arith, length-erase_node k nodes)

pub length-aged_nodes : (half : ℕ) (nodes : NodeMap) → length (aged_nodes half nodes) ≡ length nodes
unfolding aged_nodes
length-aged_nodes half [] = refl
length-aged_nodes half ((i, m) ∷ nodes) = ap suc (length-aged_nodes half nodes)

-- Every frequency is at least `m`.
abbrev pub Lowest : ℕ → NodeMap → Type 0
Lowest m nodes = (k : Bytes) (n : Node) → find_node k nodes ≡ some n → m ≤ n.freq

pub sum_freq-aged_nodes-le :
    (half : ℕ) (nodes : NodeMap)
    → Distinct nodes
    → Lowest 1 nodes
    → sum_freq (aged_nodes half nodes) ≤ sum_freq nodes
unfolding sum_freq aged_nodes find_node
sum_freq-aged_nodes-le half [] d low = omega arith
sum_freq-aged_nodes-le half ((i, m) ∷ nodes) (new, d) low =
    let own = low i m (rw (bytes_eq_refl i) refl) in
    let low' : Lowest 1 nodes = λ k n e. low k n (ground (arith, e, new, bytes_eq_iff i k)) in
    ground (arith, own, sum_freq-aged_nodes-le half nodes d low')

-- Some node has a frequency within the average.
pub pigeonhole :
    (m : ℕ) (nodes : NodeMap)
    → Distinct nodes
    → sum_freq nodes < suc m * length nodes
    → (k : Bytes) × (n : Node) × (find_node k nodes ≡ some n) × (n.freq ≤ m)
unfolding sum_freq find_node
pigeonhole m [] d h = absurd (omega (arith, h))
pigeonhole m ((i, n) ∷ nodes) (new, d) h = elim (Bool-cases (ltb m n.freq)) [
  | inl high ↦
      let more : sum_freq nodes < suc m * length nodes = grind (arith, h, high) in
      let (k, l, e, low) = pigeonhole m nodes d more in
      (k, l, ground (arith, e, new, bytes_eq_iff i k), low)
  | inr small ↦ (i, n, rw (bytes_eq_refl i) refl, ground arith)
]
