-- ===== src/Memory/Sliced/Bounded.antt =====
-- Calls on the sliced cache, and its size.
use ai_chat_server.Base.{
  refl, ◌∙◌, ℕ, zero, suc, ◌+◌, Option, none, some, Bytes, List, [], ◌∷◌, length, length-replicate,
  replicate,
}
use ai_chat_server.Memory.Lfu
use ai_chat_server.Memory.Lfu.{Cache, new_cache}
use ai_chat_server.Memory.Lfu.Invariant.{IsLimit}
use ai_chat_server.Memory.Lfu.Hit.{Follows}
use ai_chat_server.Memory.Lfu.Runs.{new_cache-IsValid}
use ai_chat_server.Memory.Sliced.{
  HashCache, slice_capacity, slice_count, new_hash_cache, put, get, purge,
}
use ai_chat_server.Memory.Sliced.Slices.{IsSlice, AllSlices, IsSliced}

pub data Call : Type 0 where
  puts : (k v : Bytes) → Call
  gets : (k : Bytes) → Call
  purges : Call

abbrev cache_of : Option (Option Bytes × HashCache) → Option HashCache
cache_of none = none
cache_of (some (_, h)) = some h

pub Follows-IsSlice :
    (size limit : ℕ) (c c' : Cache) → IsSlice size limit c → Follows c c' → IsSlice size limit c'
Follows-IsSlice size limit c c' h follows = record {
  valid = follows.valid;
  capacity = follows.capacity ∙ h.capacity;
  average_limit = follows.limit ∙ h.average_limit;
}

pub limit_of :
    (size limit : ℕ) (c : Cache) → IsLimit limit → IsSlice size limit c → IsLimit c.max_average
limit_of size limit c l h = rw (h.average_limit) l

-- How many keys the slices hold.
abbrev pub key_count : List Cache → ℕ
key_count [] = 0
key_count (c ∷ cs) = length c.nodes + key_count cs

replicate-AllSlices : (n size limit : ℕ) → AllSlices size limit (replicate n (new_cache size limit))
replicate-AllSlices zero size limit = tt
replicate-AllSlices (suc n) size limit = (
  record { valid = new_cache-IsValid size limit; capacity = refl; average_limit = refl },
  replicate-AllSlices n size limit,
)

pub new_hash_cache-IsSliced :
    (threads capacity asked limit : ℕ)
    → let n = slice_count threads asked in
      IsSliced n (slice_capacity capacity n) limit (new_hash_cache threads capacity asked limit)
unfolding new_hash_cache
new_hash_cache-IsSliced threads capacity asked limit =
    let n = slice_count threads asked in
    record {
      counted = refl;
      all = length-replicate n (new_cache (slice_capacity capacity n) limit);
      slices_valid = replicate-AllSlices n (slice_capacity capacity n) limit;
    }

module _ (hash : Bytes → ℕ) where
  unfoldable pub call : Call → HashCache → Option HashCache
  call (puts k v) h = put hash k v h
  call (gets k) h = cache_of (get hash k h)
  call purges h = some (purge h)

  unfoldable pub calls : List Call → HashCache → Option HashCache
  calls [] h = some h
  calls (o ∷ os) h = elim (call o h) [ none ↦ none | some h' ↦ calls os h' ]
