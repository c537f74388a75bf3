-- ===== src/Memory/Sliced/Reads.antt =====
-- A value put is read again.
use ai_chat_server.Base.{◌≡◌, ◌≢◌, refl, ℕ, ◌<◌, some, Bytes, length, get_elem?}
use ai_chat_server.Memory.Lfu.Invariant.{IsLimit}
use ai_chat_server.Memory.Lfu.Runs.{put_stores, get_lem}
use ai_chat_server.Memory.Sliced.{HashCache, set_elem, slice_index, put, get}
use ai_chat_server.Memory.Sliced.Slices.{
  IsSliced, key_there, slice_index-lt, set_elem-IsSliced, get_elem?-set_elem,
}
use ai_chat_server.Memory.Sliced.Bounded.{Follows-IsSlice, limit_of}

module _ (hash : Bytes → ℕ) where
  -- On a sliced cache in order, with some slices of some room and a limit from 2 to 125: a put
  -- is answered and keeps the order, the next get of the key finds the value, and the slices of all
  -- keys of other slices are as before.
  pub put-get :
      (n size limit : ℕ) (k v : Bytes) (h : HashCache)
      → 0 < n
      → 0 < size
      → IsLimit limit
      → IsSliced n size limit h
      → (h' h'' : HashCache) × (put hash k v h ≡ some h')
        × IsSliced n size limit h'
        × (get hash k h' ≡ some (some v, h''))
        × ((j : Bytes)
            → slice_index hash k h ≢ slice_index hash j h
            → get_elem? h'.slices (slice_index hash j h)
              ≡ get_elem? h.slices (slice_index hash j h))
  unfolding put get
  put-get n size limit k v h some_slice room l ordered =
      let i = slice_index hash k h in
      let (c, e, slice) = key_there hash n size limit k h some_slice ordered in
      let (c', e', follows, stored) =
        put_stores k v c (limit_of size limit c l slice) slice.valid (rw (slice.capacity) room) in
      let slice' = Follows-IsSlice size limit c c' slice follows in
      let h' = record h { slices = set_elem i c' h.slices } in
      let (c'', e'', _, _) = get_lem k c' (limit_of size limit c' l slice') slice'.valid in
      let lt : i < length h.slices = slice_index-lt hash n size limit k h some_slice ordered in
      let here : get_elem? h'.slices i ≡ some c' = (get_elem?-set_elem i i h.slices c' lt).0 in
      (
        h',
        record h' { slices = set_elem i c'' h'.slices },
        rw (e, put) (rw e' refl),
        set_elem-IsSliced n size limit i c' h ordered slice',
        rw (here, get) (rw (e'', stored) refl),
        λ j other. (get_elem?-set_elem i (slice_index hash j h) h.slices c' lt).1 other,
      )
