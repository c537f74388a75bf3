-- ===== src/Memory/Lfu/Ageing.antt =====
-- The ageing of all nodes, and the agreement of the node map with the frequency lists.
use ai_chat_server.Base.{
  ℕ, ◌+◌, ◌<◌, ◌≡◌, refl, ◌&&◌, Option, none, some, Bytes, [], ◌∷◌, arith, bytes_eq, bytes_eq_iff,
  bytes_eq_refl, ◌==◌,
}
use mathlib.Core.Option.{map}
use ai_chat_server.Memory.Lfu.{
  Node, NodeMap, FreqLists, find_node, keys_at, add_to_freq_list, aged, aged_nodes, age_lists,
}
use ai_chat_server.Memory.Lfu.Lists.{one, count, count-move}

-- How often a key is to stand in the list of frequency `g`: once in that of its node.
abbrev pub of_node : ℕ → Option Node → ℕ
of_node g none = 0
of_node g (some n) = one (n.freq == g)

-- No key has two nodes.
abbrev pub Distinct : NodeMap → Type 0
Distinct [] = Unit {0}
Distinct ((k, n) ∷ nodes) = (find_node k nodes ≡ none) × Distinct nodes

-- Beside the keys of `nodes`, the lists hold each key of `extra` as often as it says.
abbrev HoldBeside : (Bytes → ℕ → ℕ) → NodeMap → FreqLists → Type 0
HoldBeside extra nodes lists =
    (k : Bytes) (g : ℕ) → count k (keys_at g lists) ≡ extra k g + of_node g (find_node k nodes)

-- Every key stands once in the list of its node's frequency, and nowhere else.
abbrev pub Agree : NodeMap → FreqLists → Type 0
Agree nodes lists = (k : Bytes) (g : ℕ) → count k (keys_at g lists) ≡ of_node g (find_node k nodes)

pub find_node-aged_nodes :
    (half : ℕ) (k : Bytes) (nodes : NodeMap)
    → find_node k (aged_nodes half nodes) ≡ map (aged half) (find_node k nodes)
unfolding find_node aged_nodes
find_node-aged_nodes half k [] = refl
find_node-aged_nodes half k ((j, n) ∷ nodes) = ground (arith, find_node-aged_nodes half k nodes)

age_lists-HoldBeside :
    (half : ℕ) (nodes : NodeMap) (lists : FreqLists) (extra : Bytes → ℕ → ℕ)
    → Distinct nodes
    → HoldBeside extra nodes lists
    → (lists' : FreqLists) × (age_lists half nodes lists ≡ some lists')
      × HoldBeside extra (aged_nodes half nodes) lists'
unfolding age_lists aged_nodes find_node
age_lists-HoldBeside half [] lists extra d h = (lists, refl, h)
age_lists-HoldBeside half ((j, n) ∷ nodes) lists extra (new, d) h =
    let f' = (aged half n).freq in
    let own = bytes_eq_refl j in
    let here : 0 < count j (keys_at n.freq lists) = ground (arith, h j n.freq, own) in
    let (less, removed, moved) = count-move j n.freq f' lists here in
    let beside : HoldBeside (λ k g. extra k g + one (f' == g && bytes_eq j k)) nodes
        (add_to_freq_list j f' less) =
      λ k g. ground (arith, moved k g, h k g, new, bytes_eq_iff j k) in
    let (lists', e, held) =
      age_lists-HoldBeside half nodes (add_to_freq_list j f' less)
        (λ k g. extra k g + one (f' == g && bytes_eq j k)) d beside in
    (
      lists',
      rw (removed, age_lists) e,
      λ k g. ground (arith, held k g, new, bytes_eq_iff j k, find_node-aged_nodes half k nodes),
    )

-- Ageing finds every key in the list of its frequency, and moves it to that of its aged frequency.
pub age_lists-Agree :
    (half : ℕ) (nodes : NodeMap) (lists : FreqLists)
    → Distinct nodes
    → Agree nodes lists
    → (lists' : FreqLists) × (age_lists half nodes lists ≡ some lists')
      × Agree (aged_nodes half nodes) lists'
age_lists-Agree half nodes lists d h =
    let (lists', e, held) =
      age_lists-HoldBeside half nodes lists (λ k g. 0) d (λ k g. omega (arith, h k g)) in
    (lists', e, λ k g. omega (arith, held k g))
