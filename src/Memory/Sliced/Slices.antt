-- ===== src/Memory/Sliced/Slices.antt =====
-- A call on one slice.
use ai_chat_server.Base.{
  ◌≡◌, ◌≢◌, refl, ap, ◌∙◌, ℕ, zero, suc, ◌<◌, some, Bytes, List, [], ◌∷◌, length, get_elem?, arith,
}
use ai_chat_server.Memory.Lfu
use ai_chat_server.Memory.Lfu.{Cache, find_node, keys_at, find_list}
use ai_chat_server.Memory.Lfu.Lists.{count}
use ai_chat_server.Memory.Lfu.Nodes.{sum_freq}
use ai_chat_server.Memory.Lfu.Invariant.{IsValid}
use ai_chat_server.Memory.Sliced.{HashCache, set_elem, slice_index}

-- A slice in order, of this capacity and limit.
pub record IsSlice (size limit : ℕ) (c : Cache) : Type 0 where
  pub valid : IsValid c
  pub capacity : c.capacity ≡ size
  pub average_limit : c.max_average ≡ limit

abbrev pub AllSlices : ℕ → ℕ → List Cache → Type 0
AllSlices size limit [] = Unit {0}
AllSlices size limit (c ∷ cs) = IsSlice size limit c × AllSlices size limit cs

-- A sliced cache with n slices in order.
pub record IsSliced (n size limit : ℕ) (h : HashCache) : Type 0 where
  pub counted : h.slice_num ≡ n
  pub all : length h.slices ≡ n
  pub slices_valid : AllSlices size limit h.slices

pub get_elem?-there :
    (i : ℕ) (cs : List Cache) → i < length cs → (c : Cache) × (get_elem? cs i ≡ some c)
get_elem?-there i [] h = absurd (omega arith)
get_elem?-there zero (c ∷ cs) h = (c, refl)
get_elem?-there (suc i) (c ∷ cs) h = get_elem?-there i cs (omega arith)

pub AllSlices-get_elem? :
    (size limit i : ℕ) (cs : List Cache) (c : Cache)
    → AllSlices size limit cs
    → get_elem? cs i ≡ some c
    → IsSlice size limit c
AllSlices-get_elem? size limit i [] c h e = absurd (ground (arith, e))
AllSlices-get_elem? size limit zero (d ∷ cs) c (first, h) e =
    let same : d ≡ c = ground (arith, e) in rw (← same) first
AllSlices-get_elem? size limit (suc i) (d ∷ cs) c (first, h) e =
    AllSlices-get_elem? size limit i cs c h e

AllSlices-set_elem :
    (size limit i : ℕ) (cs : List Cache) (c : Cache)
    → AllSlices size limit cs
    → IsSlice size limit c
    → AllSlices size limit (set_elem i c cs)
unfolding set_elem
AllSlices-set_elem size limit i [] c h new = tt
AllSlices-set_elem size limit zero (d ∷ cs) c (first, h) new = (new, h)
AllSlices-set_elem size limit (suc i) (d ∷ cs) c (first, h) new =
    (first, AllSlices-set_elem size limit i cs c h new)

length-set_elem : (i : ℕ) (cs : List Cache) (c : Cache) → length (set_elem i c cs) ≡ length cs
unfolding set_elem
length-set_elem i [] c = refl
length-set_elem zero (d ∷ cs) c = refl
length-set_elem (suc i) (d ∷ cs) c = ap suc (length-set_elem i cs c)

pub get_elem?-set_elem :
    (i j : ℕ) (cs : List Cache) (c : Cache)
    → i < length cs
    → (get_elem? (set_elem i c cs) i ≡ some c)
      × (i ≢ j → get_elem? (set_elem i c cs) j ≡ get_elem? cs j)
unfolding set_elem
get_elem?-set_elem i j [] c h = absurd (omega arith)
get_elem?-set_elem zero zero (d ∷ cs) c h = (refl, λ k. absurd (k refl))
get_elem?-set_elem zero (suc j) (d ∷ cs) c h = (refl, λ k. refl)
get_elem?-set_elem (suc i) zero (d ∷ cs) c h =
    ((get_elem?-set_elem i zero cs c (omega arith)).0, λ k. refl)
get_elem?-set_elem (suc i) (suc j) (d ∷ cs) c h =
    let (here, others) = get_elem?-set_elem i j cs c (omega arith) in
    (here, λ k. others (λ e. k (ap suc e)))

pub slice_index-lt :
    (hash : Bytes → ℕ) (n size limit : ℕ) (k : Bytes) (h : HashCache)
    → 0 < n
    → IsSliced n size limit h
    → slice_index hash k h < length h.slices
slice_index-lt hash n size limit k h some_slice ordered =
    ground (arith, some_slice, ordered.counted, ordered.all)

-- The slice of a key, which is there.
pub key_there :
    (hash : Bytes → ℕ) (n size limit : ℕ) (k : Bytes) (h : HashCache)
    → 0 < n
    → IsSliced n size limit h
    → (c : Cache) × (get_elem? h.slices (slice_index hash k h) ≡ some c) × IsSlice size limit c
key_there hash n size limit k h some_slice ordered =
    let (c, e) =
      get_elem?-there (slice_index hash k h) h.slices
        (slice_index-lt hash n size limit k h some_slice ordered) in
    (c, e, AllSlices-get_elem? size limit (slice_index hash k h) h.slices c ordered.slices_valid e)

pub set_elem-IsSliced :
    (n size limit i : ℕ) (c : Cache) (h : HashCache)
    → IsSliced n size limit h
    → IsSlice size limit c
    → IsSliced n size limit (record h { slices = set_elem i c h.slices })
set_elem-IsSliced n size limit i c h ordered new = record {
  counted = ordered.counted;
  all = length-set_elem i h.slices c ∙ ordered.all;
  slices_valid = AllSlices-set_elem size limit i h.slices c ordered.slices_valid new;
}

-- purge leaves a cache in order, although it keeps the counters.
pub purge-IsSlice :
    (size limit : ℕ) (c : Cache) → IsSlice size limit c → IsSlice size limit (Lfu.purge c)
unfolding Lfu.purge keys_at count find_node sum_freq find_list
purge-IsSlice size limit c h = record {
  valid = record {
    sound = record {
      agree = λ k g. refl;
      distinct = tt;
      distinct_lists = tt;
      positive = λ k n e. absurd (cc);
      counted = omega arith;
      min_pos = h.valid.sound.min_pos;
    };
    fits = omega arith;
    least = λ few. absurd (omega (arith, few));
  };
  capacity = h.capacity;
  average_limit = h.average_limit;
}
