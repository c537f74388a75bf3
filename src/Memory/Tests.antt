-- ===== src/Memory/Tests.antt =====
-- Runs of the cache, and its theorems at concrete caches.
use mathlib.Core.Path.{subst}
use ai_chat_server.Base.{
  ◌≡◌, ◌≢◌, ℕ, ◌^◌, ◌≤◌, ◌<◌, get_elem?, refl, none, some, Bytes, codes, List, [], ◌∷◌, length,
  arith, bytes_eq, if◌then◌else◌,
}
use ai_chat_server.Memory.Lfu.{
  Cache, new_cache, Node, find_node, find_list, keys_at, set_node, set_list, remove_node, put, get,
  get_internal, put_internal, make_room, insert_node, add_freq_num, average, remove_from_freq_list,
  add_to_freq_list,
}
use ai_chat_server.Memory.Lfu.Invariant.{IsValid, IsLimit, value_at}
use ai_chat_server.Memory.Lfu.Hit.{Follows}
use ai_chat_server.Memory.Lfu.Miss.{IsOldest}
use ai_chat_server.Memory.Lfu.Calls.{Stored, put_evicts}
use ai_chat_server.Memory.Sliced
use ai_chat_server.Memory.Sliced.{
  HashCache, slice_size, slice_capacity, new_hash_cache, slice_index,
}
use ai_chat_server.Memory.Sliced.Slices.{IsSliced}
use ai_chat_server.Memory.Sliced.Bounded
use ai_chat_server.Memory.Sliced.Bounded.{new_hash_cache-IsSliced}
use ai_chat_server.Memory.Sliced.Reads.{put-get}
use ai_chat_server.Memory.Lfu.Runs.{Call, puts, gets, calls, calls-new_cache, call}

abbrev ten-IsLimit : IsLimit 10
ten-IsLimit = record { not_low = omega arith; not_high = omega arith }

abbrev three_calls : List Call
three_calls = puts (codes "a") (codes "1") ∷ gets (codes "a") ∷ puts (codes "b") (codes "2") ∷ []

calls-new_cache_example :
    (c' : Cache) × (calls three_calls (new_cache 1 10) ≡ some c')
    × IsValid c'
    × (length c'.nodes ≤ 1)
    × (c'.cur_total ≤ length three_calls)
    × (c'.cur_total < 2 ^ 31)
calls-new_cache_example = calls-new_cache 1 10 three_calls ten-IsLimit (omega arith) (omega arith)

-- A cache of one key, used twice.
abbrev full_cache : Cache
full_cache = record {
  capacity = 1;
  min_freq = 2;
  max_average = 10;
  cur_average = 2;
  cur_total = 2;
  nodes = (codes "a", record { freq = 2; value = codes "1" }) ∷ [];
  lists = (1, []) ∷ (2, codes "a" ∷ []) ∷ [];
}

-- What a put and a get leave behind.
test_full :
    calls (puts (codes "a") (codes "1") ∷ gets (codes "a") ∷ []) (new_cache 1 10) ≡ some full_cache
unfolding calls put get get_internal put_internal make_room insert_node add_freq_num average
    find_node set_node find_list set_list remove_node remove_from_freq_list add_to_freq_list keys_at
    bytes_eq call
test_full = refl

full_cache-IsValid : IsValid full_cache
full_cache-IsValid =
    let (c', e, valid, _, _, _) =
      calls-new_cache 1 10 (puts (codes "a") (codes "1") ∷ gets (codes "a") ∷ []) ten-IsLimit
        (omega arith) (omega arith) in
    let same : c' ≡ full_cache = ground (arith, e, test_full) in subst IsValid same valid

put_evicts_example :
    (old : Bytes) × (n : Node) × IsOldest full_cache old n
    × (c' : Cache) × (put (codes "b") (codes "2") full_cache ≡ some c')
    × Follows full_cache c'
    × Stored
        (codes "b")
        (codes "2")
        (λ j. if bytes_eq old j then none else value_at j full_cache.nodes)
        c'
put_evicts_example =
    put_evicts (codes "b") (codes "2") full_cache ten-IsLimit full_cache-IsValid
      (unfold find_node bytes_eq in refl) refl (omega arith)

-- The hash of a key here: its length.
abbrev some_hash : Bytes → ℕ
some_hash k = length k

abbrev some_sliced_calls : List Bounded.Call
some_sliced_calls =
    Bounded.Call.puts (codes "a") (codes "1")
    ∷ Bounded.Call.puts (codes "bb") (codes "2")
    ∷ Bounded.Call.purges
    ∷ Bounded.Call.gets (codes "a")
    ∷ []

put-get_example :
    (h' h'' : HashCache) × (Sliced.put some_hash (codes "a") (codes "1") (new_hash_cache 4 5 2 10)
      ≡ some h')
    × IsSliced 2 (slice_capacity 5 2) 10 h'
    × (Sliced.get some_hash (codes "a") h' ≡ some (some (codes "1"), h''))
    × ((j : Bytes)
        → slice_index some_hash (codes "a") (new_hash_cache 4 5 2 10)
          ≢ slice_index some_hash j (new_hash_cache 4 5 2 10)
        → get_elem? h'.slices (slice_index some_hash j (new_hash_cache 4 5 2 10))
          ≡ get_elem?
              (new_hash_cache 4 5 2 10).slices
              (slice_index some_hash j (new_hash_cache 4 5 2 10)))
put-get_example =
    put-get some_hash 2 (slice_capacity 5 2) 10 (codes "a") (codes "1") (new_hash_cache 4 5 2 10)
      (omega arith) (unfold slice_capacity in omega arith) ten-IsLimit
      (new_hash_cache-IsSliced 4 5 2 10)

-- A slice of 2 ^ 32 keys has no room at all.
no_room : slice_capacity (2 ^ 32) 1 ≡ 0
unfolding slice_capacity slice_size
no_room = refl
