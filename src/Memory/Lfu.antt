-- ===== src/Memory/Lfu.antt =====
-- include/memory/LFU.h at the one instance that the program makes, text keys and text values. A
-- node stands in nodeMap_ with its frequency and its value, and by its key in the list of its
-- frequency. `none` is a call on a list that is not there (a null pointer). The counters are `int`s,
-- which count accesses and are modelled as far as an int counts, for fewer than 2 ^ 31 accesses. The
-- lock is left out: each function is one call.
pub mod Lists
pub mod Ageing
pub mod Nodes
pub mod Least
pub mod Invariant
pub mod Hit
pub mod Miss
pub mod Calls
pub mod Counters
pub mod Runs
use ai_chat_server.Base.{
  ℕ, ◌+◌, ◌-◌, ◌/◌, min, Bool, true, false, ◌&&◌, Option, none, some, Bytes, List, [], ◌∷◌, ◌++◌,
  length, bytes_eq, if◌then◌else◌, ltb, ◌==◌,
}

pub record Node : Type 0 where
  pub freq : ℕ
  pub value : Bytes

-- nodeMap_ and freqToFreqList_, in some order: the maps are unordered.
abbrev pub NodeMap : Type 0
NodeMap = List (Bytes × Node)

abbrev pub FreqLists : Type 0
FreqLists = List (ℕ × List Bytes)

unfoldable pub find_node : Bytes → NodeMap → Option Node
find_node k [] = none
find_node k ((j, n) ∷ nodes) = if bytes_eq j k then some n else find_node k nodes

unfoldable pub set_node : Bytes → Node → NodeMap → NodeMap
set_node k n [] = (k, n) ∷ []
set_node k n ((j, m) ∷ nodes) = if bytes_eq j k then (j, n) ∷ nodes else (j, m) ∷ set_node k n nodes

unfoldable pub erase_node : Bytes → NodeMap → NodeMap
erase_node k [] = []
erase_node k ((j, m) ∷ nodes) = if bytes_eq j k then nodes else (j, m) ∷ erase_node k nodes

unfoldable pub find_list : ℕ → FreqLists → Option (List Bytes)
find_list f [] = none
find_list f ((g, keys) ∷ lists) = if g == f then some keys else find_list f lists

unfoldable pub set_list : ℕ → List Bytes → FreqLists → FreqLists
set_list f keys [] = (f, keys) ∷ []
set_list f keys ((g, old) ∷ lists) =
    if g == f then (g, keys) ∷ lists else (g, old) ∷ set_list f keys lists

-- The keys of a frequency; a list that is not there holds none.
abbrev pub keys_or_none : Option (List Bytes) → List Bytes
keys_or_none none = []
keys_or_none (some keys) = keys

unfoldable pub keys_at : ℕ → FreqLists → List Bytes
keys_at f lists = keys_or_none (find_list f lists)

abbrev pub has_none : List Bytes → Bool
has_none [] = true
has_none (k ∷ keys) = false

-- FreqList::removeNode
unfoldable pub remove_node : Bytes → List Bytes → List Bytes
remove_node k [] = []
remove_node k (j ∷ keys) = if bytes_eq j k then keys else j ∷ remove_node k keys

unfoldable pub remove_from_freq_list : Bytes → ℕ → FreqLists → Option FreqLists
remove_from_freq_list k f lists = elim (find_list f lists) [
  | none ↦ none
  | some keys ↦ some (set_list f (remove_node k keys) lists)
]

-- At the end of its list, which is made if there is none.
unfoldable pub add_to_freq_list : Bytes → ℕ → FreqLists → FreqLists
unfolding keys_at
add_to_freq_list k f lists = set_list f (keys_at f lists ++ (k ∷ [])) lists

pub record Cache : Type 0 where
  pub capacity : ℕ
  pub min_freq : ℕ
  pub max_average : ℕ
  pub cur_average : ℕ
  pub cur_total : ℕ
  pub nodes : NodeMap
  pub lists : FreqLists

-- INT8_MAX
abbrev pub no_freq : ℕ
no_freq = 127

abbrev pub new_cache : ℕ → ℕ → Cache
new_cache capacity max_average = record {
  capacity = capacity;
  min_freq = no_freq;
  max_average = max_average;
  cur_average = 0;
  cur_total = 0;
  nodes = [];
  lists = [];
}

-- The loop of updateMinFreq, with the least frequency so far.
unfoldable pub least_freq : FreqLists → ℕ → ℕ
least_freq [] least = least
least_freq ((f, []) ∷ lists) least = least_freq lists least
least_freq ((f, k ∷ keys) ∷ lists) least = least_freq lists (min least f)

unfoldable pub update_min_freq : Cache → Cache
unfolding least_freq
update_min_freq c =
    let least = least_freq c.lists no_freq in
    record c { min_freq = if least == no_freq then 1 else least }

-- A node's frequency after ageing: it falls by half the limit, to 1 at the lowest.
abbrev pub aged : ℕ → Node → Node
aged half n = record n { freq = if ltb (n.freq - half) 1 then 1 else n.freq - half }

unfoldable pub aged_nodes : ℕ → NodeMap → NodeMap
aged_nodes half [] = []
aged_nodes half ((k, n) ∷ nodes) = (k, aged half n) ∷ aged_nodes half nodes

-- The loop's moves between the lists.
unfoldable pub age_lists : ℕ → NodeMap → FreqLists → Option FreqLists
unfolding remove_from_freq_list add_to_freq_list
age_lists half [] lists = some lists
age_lists half ((k, n) ∷ nodes) lists = elim (remove_from_freq_list k n.freq lists) [
  | none ↦ none
  | some less ↦ age_lists half nodes (add_to_freq_list k (aged half n).freq less)
]

abbrev pub no_nodes : NodeMap → Bool
no_nodes [] = true
no_nodes (first ∷ others) = false

unfoldable pub handle_over_max_average_num : Cache → Option Cache
unfolding update_min_freq age_lists aged_nodes
handle_over_max_average_num c =
    let half = c.max_average / 2 in
    if no_nodes c.nodes then some c else elim (age_lists half c.nodes c.lists) [
      | none ↦ none
      | some lists ↦
          some (update_min_freq (record c { nodes = aged_nodes half c.nodes; lists = lists }))
    ]

unfoldable pub average : ℕ → NodeMap → ℕ
average total nodes = if no_nodes nodes then 0 else total / length nodes

unfoldable pub add_freq_num : Cache → Option Cache
unfolding average handle_over_max_average_num
add_freq_num c =
    let total = c.cur_total + 1 in
    let counted = record c { cur_total = total; cur_average = average total c.nodes } in
    if ltb c.max_average (average total c.nodes)
    then handle_over_max_average_num counted
    else some counted

unfoldable pub decrease_freq_num : ℕ → Cache → Cache
unfolding average
decrease_freq_num num c =
    let total = c.cur_total - num in
    record c { cur_total = total; cur_average = average total c.nodes }

-- A hit on the node `n` of key `k`.
unfoldable pub get_internal : Bytes → Node → Cache → Option Cache
unfolding remove_from_freq_list add_to_freq_list keys_at add_freq_num
get_internal k n c = elim (remove_from_freq_list k n.freq c.lists) [
  | none ↦ none
  | some less ↦
      let lists = add_to_freq_list k (n.freq + 1) less in
      add_freq_num (record c {
        nodes = set_node k (record n { freq = n.freq + 1 }) c.nodes;
        lists = lists;
        min_freq =
            if n.freq == c.min_freq && has_none (keys_at n.freq lists)
            then c.min_freq + 1
            else c.min_freq;
      })
]

-- kickOut. An empty list's first node is its end: it has the empty key and frequency 1, and
-- unlinking it does nothing.
unfoldable pub kick_out : Cache → Option Cache
unfolding remove_from_freq_list decrease_freq_num
kick_out c = elim (find_list c.min_freq c.lists) [
  | none ↦ none
  | some [] ↦ elim (find_list 1 c.lists) [
    | none ↦ none
    | some _ ↦ some (decrease_freq_num 1 (record c { nodes = erase_node [] c.nodes }))
  ]
  | some (k ∷ _) ↦ elim (find_node k c.nodes) [
    | none ↦ none
    | some n ↦ elim (remove_from_freq_list k n.freq c.lists) [
      | none ↦ none
      | some less ↦
          some (decrease_freq_num n.freq (record c { nodes = erase_node k c.nodes; lists = less }))
    ]
  ]
]

unfoldable pub make_room : Cache → Option Cache
unfolding kick_out
make_room c = if length c.nodes == c.capacity then kick_out c else some c

-- The new node, with frequency 1.
unfoldable pub insert_node : Bytes → Bytes → Cache → Option Cache
unfolding add_to_freq_list add_freq_num
insert_node k v c =
    elim (add_freq_num (record c {
      nodes = set_node k (record { freq = 1; value = v }) c.nodes;
      lists = add_to_freq_list k 1 c.lists;
    })) [ none ↦ none | some c' ↦ some (record c' { min_freq = min (c'.min_freq) 1 }) ]

unfoldable pub put_internal : Bytes → Bytes → Cache → Option Cache
unfolding make_room insert_node
put_internal k v c = elim (make_room c) [ none ↦ none | some c' ↦ insert_node k v c' ]

unfoldable pub put : Bytes → Bytes → Cache → Option Cache
unfolding get_internal put_internal
put k v c = if c.capacity == 0 then some c else elim (find_node k c.nodes) [
  | none ↦ put_internal k v c
  | some n ↦
      let written = record n { value = v } in
      get_internal k written (record c { nodes = set_node k written c.nodes })
]

-- get(key, value): the value, if there is one.
unfoldable pub get : Bytes → Cache → Option (Option Bytes × Cache)
unfolding get_internal
get k c = elim (find_node k c.nodes) [
  | none ↦ some (none, c)
  | some n ↦ elim (get_internal k n c) [ none ↦ none | some c' ↦ some (some n.value, c') ]
]

abbrev pub value_or_empty : Option Bytes → Bytes
value_or_empty none = []
value_or_empty (some v) = v

-- get(key): an empty value where there is none.
unfoldable pub get_value : Bytes → Cache → Option (Bytes × Cache)
unfolding get
get_value k c = elim (get k c) [ none ↦ none | some (v, c') ↦ some (value_or_empty v, c') ]

-- The counters stay.
unfoldable pub purge : Cache → Cache
purge c = record c { nodes = []; lists = [] }
