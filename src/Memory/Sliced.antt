-- ===== src/Memory/Sliced.antt =====
-- KHashLfuCache of include/memory/LFU.h: several LFU caches, each for the keys of some hashes. The
-- hash, std::hash in the source, and the number of threads of the machine are parameters. The
-- capacity of a slice is computed in a double there, exact below 2^53. none is a fault: a slice that
-- is not there, as where a machine reports no threads, or a fault of a slice. The
-- size of a slice is passed on as an int.
pub mod Slices
pub mod Counts
pub mod Bounded
pub mod Reads
use ai_chat_server.Base.{
  ℕ, zero, suc, ◌+◌, ◌-◌, ◌/◌, ◌%◌, ◌^◌, Option, none, some, Bytes, List, [], ◌∷◌, get_elem?,
  replicate, map, ltb, if◌then◌else◌,
}
use ai_chat_server.Base.Decimal.{int_to_size}
use ai_chat_server.Memory.Lfu
use ai_chat_server.Memory.Lfu.{Cache, new_cache, value_or_empty}

pub record HashCache : Type 0 where
  pub slice_num : ℕ
  pub slices : List Cache

-- ceil(capacity / n)
unfoldable pub slice_size : ℕ → ℕ → ℕ
slice_size capacity n = (capacity + (n - 1)) / n

abbrev pub slice_count : ℕ → ℕ → ℕ
slice_count threads asked = if ltb 0 asked then asked else threads

-- The size as the int capacity_ of a slice keeps it, which is compared as a size_t.
unfoldable pub slice_capacity : ℕ → ℕ → ℕ
unfolding slice_size
slice_capacity capacity n = int_to_size (slice_size capacity n % 2 ^ 32)

unfoldable pub new_hash_cache : ℕ → ℕ → ℕ → ℕ → HashCache
unfolding slice_capacity
new_hash_cache threads capacity asked max_average =
    let n = slice_count threads asked in
    record {
      slice_num = n;
      slices = replicate n (new_cache (slice_capacity capacity n) max_average);
    }

unfoldable pub set_elem : ℕ → Cache → List Cache → List Cache
set_elem i c [] = []
set_elem zero c (d ∷ ds) = c ∷ ds
set_elem (suc i) c (d ∷ ds) = d ∷ set_elem i c ds

abbrev with_slice : HashCache → ℕ → Option Cache → Option HashCache
with_slice h i none = none
with_slice h i (some c) = some (record h { slices = set_elem i c h.slices })

abbrev with_answer :
    HashCache → ℕ → Option (Option Bytes × Cache) → Option (Option Bytes × HashCache)
with_answer h i none = none
with_answer h i (some (v, c)) = some (v, record h { slices = set_elem i c h.slices })

abbrev answer_or_empty : Option (Option Bytes × HashCache) → Option (Bytes × HashCache)
answer_or_empty none = none
answer_or_empty (some (v, h)) = some (value_or_empty v, h)

module _ (hash : Bytes → ℕ) where
  abbrev pub slice_index : Bytes → HashCache → ℕ
  slice_index k h = hash k % h.slice_num

  unfoldable pub put : Bytes → Bytes → HashCache → Option HashCache
  unfolding set_elem
  put k v h = elim (get_elem? h.slices (slice_index k h)) [
    | none ↦ none
    | some c ↦ with_slice h (slice_index k h) (Lfu.put k v c)
  ]

  -- get(key, value): the value, if there is one.
  unfoldable pub get : Bytes → HashCache → Option (Option Bytes × HashCache)
  unfolding set_elem
  get k h = elim (get_elem? h.slices (slice_index k h)) [
    | none ↦ none
    | some c ↦ with_answer h (slice_index k h) (Lfu.get k c)
  ]

  -- get(key): an empty value where there is none.
  unfoldable pub get_value : Bytes → HashCache → Option (Bytes × HashCache)
  unfolding get
  get_value k h = answer_or_empty (get k h)

unfoldable pub purge : HashCache → HashCache
purge h = record h { slices = map Lfu.purge h.slices }
