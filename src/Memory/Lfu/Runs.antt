-- ===== src/Memory/Lfu/Runs.antt =====
-- Calls on a cache, and sequences of them.
use ai_chat_server.Base.{
  ℕ, suc, ◌+◌, ◌^◌, ◌<◌, ◌≤◌, ◌≡◌, ◌≢◌, ◌⊎◌, refl, ◌∙◌, Option, none, some, Bytes, List, [], ◌∷◌,
  length, arith, bytes_eq, bytes_eq_iff, bytes_eq_refl, if◌then◌else◌, ltb, ◌==◌, Bool-cases,
  Option-cases, inl, inr,
}
use ai_chat_server.Memory.Lfu.{Cache, new_cache, find_node, find_list, keys_at, put, get}
use ai_chat_server.Memory.Lfu.Lists.{count}
use ai_chat_server.Memory.Lfu.Nodes.{sum_freq}
use ai_chat_server.Memory.Lfu.Invariant.{IsValid, IsLimit, value_at}
use ai_chat_server.Memory.Lfu.Hit.{Follows, get_internal-Follows}
use ai_chat_server.Memory.Lfu.Counters.{put-total, get-total}
use ai_chat_server.Memory.Lfu.Calls.{Stored, put_hit, put_room, put_evicts}

-- On a cache in order with a limit from 2 to 125 and some capacity, a put of a key that is there,
-- or of any key where there is room, is answered, leaves the cache in order, stores the value and
-- keeps the values of all other keys.
pub put_keeps :
    (k v : Bytes) (c : Cache)
    → IsLimit c.max_average
    → IsValid c
    → 0 < c.capacity
    → ((length c.nodes < c.capacity) ⊎ (find_node k c.nodes ≢ none))
    → (c' : Cache) × (put k v c ≡ some c') × Follows c c' × Stored k v (λ j. value_at j c.nodes) c'
put_keeps k v c limit valid room h = elim (Option-cases (find_node k c.nodes)) [
  | inl new ↦ elim h [
    | inl less ↦ put_room k v c limit valid new less
    | inr there ↦ absurd (there new)
  ]
  | inr (n, found) ↦ put_hit k v n c limit valid room found
]

-- On a cache in order with a limit from 2 to 125, a get is answered with the value of the key, if
-- it has one, leaves the cache in order and all values as they were.
pub get_lem :
    (k : Bytes) (c : Cache)
    → IsLimit c.max_average
    → IsValid c
    → (c' : Cache) × (get k c ≡ some (value_at k c.nodes, c'))
      × Follows c c'
      × ((j : Bytes) → value_at j c'.nodes ≡ value_at j c.nodes)
unfolding get
get_lem k c limit valid = elim (Option-cases (find_node k c.nodes)) [
  | inl absent ↦
      (c, rw (absent, get) refl, record { valid = valid; capacity = refl; limit = refl }, λ j. refl)
  | inr (n, found) ↦
      let (c', e, follows, values) = get_internal-Follows k n c limit valid found in
      (
        c',
        rw (found, get) (rw e refl),
        follows,
        λ j. values j ∙ ground (arith, found, bytes_eq_iff k j),
      )
]

pub data Call : Type 0 where
  puts : (k v : Bytes) → Call
  gets : (k : Bytes) → Call

-- The cache after a call.
abbrev cache_of : Option (Option Bytes × Cache) → Option Cache
cache_of none = none
cache_of (some (_, c)) = some c

unfoldable pub call : Call → Cache → Option Cache
call (puts k v) c = put k v c
call (gets k) c = cache_of (get k c)

unfoldable pub calls : List Call → Cache → Option Cache
calls [] c = some c
calls (o ∷ os) c = elim (call o c) [ none ↦ none | some c' ↦ calls os c' ]

pub put_total :
    (k v : Bytes) (c : Cache)
    → IsLimit c.max_average
    → IsValid c
    → (c' : Cache) × (put k v c ≡ some c') × Follows c c'
unfolding put
put_total k v c limit valid = elim (Bool-cases (c.capacity == 0)) [
  | inl empty ↦ (c, rw (empty, put) refl, record { valid = valid; capacity = refl; limit = refl })
  | inr some_room ↦
      let room : 0 < c.capacity = ground (arith, some_room) in
      elim (Option-cases (find_node k c.nodes)) [
        | inr (n, found) ↦
            let (c', e, follows, _) = put_hit k v n c limit valid room found in (c', e, follows)
        | inl new ↦ elim (Bool-cases (ltb (length c.nodes) c.capacity)) [
          | inl less ↦
              let (c', e, follows, _) = put_room k v c limit valid new (ground (arith, less)) in
              (c', e, follows)
          | inr full ↦
              let (_, _, _, c', e, follows, _) =
                put_evicts k v c limit valid new (ground (arith, full, valid.fits)) room in
              (c', e, follows)
        ]
      ]
]

call_total :
    (o : Call) (c : Cache)
    → IsLimit c.max_average
    → IsValid c
    → (c' : Cache) × (call o c ≡ some c') × Follows c c' × (c'.cur_total ≤ suc c.cur_total)
unfolding call
call_total (puts k v) c limit valid =
    let (c', e, follows) = put_total k v c limit valid in (c', e, follows, put-total k v c c' e)
call_total (gets k) c limit valid =
    let (c', e, follows, _) = get_lem k c limit valid in
    (c', rw e refl, follows, get-total k (value_at k c.nodes) c c' e)

calls_total :
    (os : List Call) (c : Cache)
    → IsLimit c.max_average
    → IsValid c
    → (c' : Cache) × (calls os c ≡ some c')
      × Follows c c'
      × (c'.cur_total ≤ length os + c.cur_total)
unfolding calls
calls_total [] c limit valid =
    (c, refl, record { valid = valid; capacity = refl; limit = refl }, omega arith)
calls_total (o ∷ os) c limit valid =
    let (mid, e, first, less) = call_total o c limit valid in
    let (c', e', rest, less') = calls_total os mid (rw first.limit limit) first.valid in
    (
      c',
      rw (e, calls) e',
      record {
        valid = rest.valid;
        capacity = rest.capacity ∙ first.capacity;
        limit = rest.limit ∙ first.limit;
      },
      omega (arith, less, less'),
    )

pub new_cache-IsValid : (capacity limit : ℕ) → IsValid (new_cache capacity limit)
unfolding keys_at count find_node sum_freq find_list
new_cache-IsValid capacity limit = record {
  sound = record {
    agree = λ k g. refl;
    distinct = tt;
    distinct_lists = tt;
    positive = λ k n e. absurd (cc);
    counted = omega arith;
    min_pos = omega arith;
  };
  fits = omega arith;
  least = λ h. absurd (omega (arith, h));
}

-- With a limit from 2 to 125 and a capacity below 2 ^ 31, no sequence of fewer than 2 ^ 31 puts and
-- gets on a new cache ever calls a list that is not there, and the cache never holds more keys than
-- its capacity; it stays in order, so the least frequency is that of some node; and curTotalNum_,
-- which no node's frequency passes, is at most the number of calls, so no counter overflows.
pub calls-new_cache :
    (capacity limit : ℕ) (os : List Call)
    → IsLimit limit
    → capacity < 2 ^ 31
    → length os < 2 ^ 31
    → (c' : Cache) × (calls os (new_cache capacity limit) ≡ some c')
      × IsValid c'
      × (length c'.nodes ≤ capacity)
      × (c'.cur_total ≤ length os)
      × (c'.cur_total < 2 ^ 31)
calls-new_cache capacity limit os h small few =
    let (c', e, follows, total) =
      calls_total os (new_cache capacity limit) h (new_cache-IsValid capacity limit) in
    (
      c',
      e,
      follows.valid,
      ground (arith, follows.valid.fits, follows.capacity),
      omega (arith, total),
      omega (arith, total, few),
    )

Stored-value_at :
    (k v : Bytes) (kept : Bytes → Option Bytes) (c' : Cache)
    → Stored k v kept c'
    → value_at k c'.nodes ≡ some v
Stored-value_at k v kept c' stored = stored k ∙ rw (bytes_eq_refl k) refl

-- A put is answered, and the value is there afterwards.
pub put_stores :
    (k v : Bytes) (c : Cache)
    → IsLimit c.max_average
    → IsValid c
    → 0 < c.capacity
    → (c' : Cache) × (put k v c ≡ some c') × Follows c c' × (value_at k c'.nodes ≡ some v)
put_stores k v c limit valid room = elim (Option-cases (find_node k c.nodes)) [
  | inr (n, found) ↦
      let (c', e, follows, stored) = put_hit k v n c limit valid room found in
      (c', e, follows, Stored-value_at k v (λ j. value_at j c.nodes) c' stored)
  | inl new ↦ elim (Bool-cases (ltb (length c.nodes) c.capacity)) [
    | inl less ↦
        let (c', e, follows, stored) = put_room k v c limit valid new (ground (arith, less)) in
        (c', e, follows, Stored-value_at k v (λ j. value_at j c.nodes) c' stored)
    | inr full ↦
        let (old, _, _, c', e, follows, stored) =
          put_evicts k v c limit valid new (ground (arith, full, valid.fits)) room in
        (
          c',
          e,
          follows,
          Stored-value_at k v (λ j. if bytes_eq old j then none else value_at j c.nodes) c' stored,
        )
  ]
]
