-- ===== src/Memory/Sliced/Counts.antt =====
-- The accesses that the slices have counted.
use ai_chat_server.Base.{
  ◌≡◌, ℕ, zero, suc, ◌≤◌, some, List, [], ◌∷◌, get_elem?, replicate, map, arith,
}
use ai_chat_server.Memory.Lfu
use ai_chat_server.Memory.Lfu.{Cache, new_cache}
use ai_chat_server.Memory.Sliced.{set_elem}

-- No slice has counted more than m accesses.
abbrev pub Counted : ℕ → List Cache → Type 0
Counted m [] = Unit {0}
Counted m (c ∷ cs) = (c.cur_total ≤ m) × Counted m cs

Counted-later : (m : ℕ) (cs : List Cache) → Counted m cs → Counted (suc m) cs
Counted-later m [] h = tt
Counted-later m (c ∷ cs) (le, h) = (omega (arith, le), Counted-later m cs h)

pub Counted-get_elem? :
    (m i : ℕ) (cs : List Cache) (c : Cache)
    → Counted m cs
    → get_elem? cs i ≡ some c
    → c.cur_total ≤ m
Counted-get_elem? m i [] c h e = absurd (ground (arith, e))
Counted-get_elem? m zero (d ∷ cs) c (le, h) e =
    let same : d ≡ c = ground (arith, e) in rw (← same) le
Counted-get_elem? m (suc i) (d ∷ cs) c (le, h) e = Counted-get_elem? m i cs c h e

pub Counted-set_elem :
    (m i : ℕ) (c : Cache) (cs : List Cache)
    → Counted m cs
    → c.cur_total ≤ suc m
    → Counted (suc m) (set_elem i c cs)
unfolding set_elem
Counted-set_elem m i c [] h new = tt
Counted-set_elem m zero c (d ∷ cs) (le, h) new = (new, Counted-later m cs h)
Counted-set_elem m (suc i) c (d ∷ cs) (le, h) new =
    (omega (arith, le), Counted-set_elem m i c cs h new)

pub Counted-map-purge :
    (m : ℕ) (cs : List Cache) → Counted m cs → Counted (suc m) (map Lfu.purge cs)
unfolding Lfu.purge
Counted-map-purge m [] h = tt
Counted-map-purge m (c ∷ cs) (le, h) = (omega (arith, le), Counted-map-purge m cs h)

pub Counted-new : (n size limit : ℕ) → Counted 0 (replicate n (new_cache size limit))
Counted-new zero size limit = tt
Counted-new (suc n) size limit = (omega arith, Counted-new n size limit)
