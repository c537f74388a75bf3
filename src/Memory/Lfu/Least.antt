-- ===== src/Memory/Lfu/Least.antt =====
-- The least frequency that updateMinFreq finds.
use mathlib.Core.Path.{subst}
use ai_chat_server.Base.{
  ℕ, ◌<◌, ◌≤◌, min, ◌≡◌, ◌⊎◌, refl, false, Option, none, some, Bytes, List, [], ◌∷◌, ◌++◌, arith,
  bytes_eq_refl, ◌==◌, ==_refl, ltb, Bool-cases, inl, inr,
}
use ai_chat_server.Memory.Lfu.{
  NodeMap, FreqLists, find_list, set_list, keys_at, remove_node, remove_from_freq_list,
  add_to_freq_list, age_lists, aged, least_freq,
}
use ai_chat_server.Memory.Lfu.Lists.{count}

-- No frequency has two lists.
abbrev pub DistinctLists : FreqLists → Type 0
DistinctLists [] = Unit {0}
DistinctLists ((f, keys) ∷ lists) = (find_list f lists ≡ none) × DistinctLists lists

absent-set_list :
    (f g : ℕ) (keys : List Bytes) (lists : FreqLists)
    → find_list g lists ≡ none
    → (f == g) ≡ false
    → find_list g (set_list f keys lists) ≡ none
unfolding find_list set_list
absent-set_list f g keys [] h e = rw e refl
absent-set_list f g keys ((i, old) ∷ lists) h e = ground (arith, absent-set_list f g keys lists)

DistinctLists-set_list :
    (f : ℕ) (keys : List Bytes) (lists : FreqLists)
    → DistinctLists lists
    → DistinctLists (set_list f keys lists)
unfolding set_list find_list
DistinctLists-set_list f keys [] d = (refl, tt)
DistinctLists-set_list f keys ((i, old) ∷ lists) (new, d) = elim (Bool-cases (i == f)) [
  | inl same ↦ rw same (new, d)
  | inr other ↦
      rw other
        (absent-set_list f i keys lists new (ground arith), DistinctLists-set_list f keys lists d)
]

pub DistinctLists-add_to_freq_list :
    (k : Bytes) (f : ℕ) (lists : FreqLists)
    → DistinctLists lists
    → DistinctLists (add_to_freq_list k f lists)
unfolding add_to_freq_list
DistinctLists-add_to_freq_list k f lists d =
    DistinctLists-set_list f (keys_at f lists ++ (k ∷ [])) lists d

pub DistinctLists-remove_from_freq_list :
    (k : Bytes) (f : ℕ) (lists less : FreqLists)
    → DistinctLists lists
    → remove_from_freq_list k f lists ≡ some less
    → DistinctLists less
unfolding remove_from_freq_list
DistinctLists-remove_from_freq_list k f lists less d e = go (find_list f lists) e
  where
    go :
        (o : Option (List Bytes))
        → (elim o [ none ↦ none | some keys ↦ some (set_list f (remove_node k keys) lists) ])
          ≡ some less
        → DistinctLists less
    go none h = absurd (cc)
    go (some keys) h =
        let same : set_list f (remove_node k keys) lists ≡ less = cc in
        subst DistinctLists same (DistinctLists-set_list f (remove_node k keys) lists d)

pub DistinctLists-age_lists :
    (half : ℕ) (nodes : NodeMap) (lists lists' : FreqLists)
    → DistinctLists lists
    → age_lists half nodes lists ≡ some lists'
    → DistinctLists lists'
unfolding age_lists
DistinctLists-age_lists half [] lists lists' d e =
    let same : lists ≡ lists' = cc in subst DistinctLists same d
DistinctLists-age_lists half ((k, n) ∷ nodes) lists lists' d e =
    go (remove_from_freq_list k n.freq lists) refl e (λ less d'.
      DistinctLists-age_lists half nodes (add_to_freq_list k (aged half n).freq less) lists' d')
  where
    go :
        (o : Option FreqLists)
        → remove_from_freq_list k n.freq lists ≡ o
        → (elim o [
          | none ↦ none
          | some less ↦ age_lists half nodes (add_to_freq_list k (aged half n).freq less)
        ])
          ≡ some lists'
        → ((less : FreqLists)
            → DistinctLists (add_to_freq_list k (aged half n).freq less)
            → age_lists half nodes (add_to_freq_list k (aged half n).freq less) ≡ some lists'
            → DistinctLists lists')
        → DistinctLists lists'
    go none r h ih = absurd (cc)
    go (some less) r h ih =
        ih less
          (DistinctLists-add_to_freq_list k (aged half n).freq less
            (DistinctLists-remove_from_freq_list k n.freq lists less d r))
          h

-- It is not above the start, and not above the frequency of any list that holds a key.
least_freq-le-start : (lists : FreqLists) (m : ℕ) → least_freq lists m ≤ m
unfolding least_freq
least_freq-le-start [] m = omega arith
least_freq-le-start ((f, []) ∷ lists) m = least_freq-le-start lists m
least_freq-le-start ((f, k ∷ keys) ∷ lists) m = omega (arith, least_freq-le-start lists (min m f))

pub least_freq-le :
    (k : Bytes) (g m : ℕ) (lists : FreqLists)
    → 0 < count k (keys_at g lists)
    → least_freq lists m ≤ g
unfolding least_freq keys_at find_list count
least_freq-le k g m [] h = absurd (omega arith)
least_freq-le k g m ((f, []) ∷ lists) h = ground (arith, least_freq-le k g m lists)
least_freq-le k g m ((f, j ∷ keys) ∷ lists) h =
    ground (arith, least_freq-le k g (min m f) lists, least_freq-le-start lists (min m f))

-- A list behind a first one of another frequency.
deeper :
    (f : ℕ) (keys : List Bytes) (g : ℕ) (k : Bytes) (lists : FreqLists)
    → find_list f lists ≡ none
    → 0 < count k (keys_at g lists)
    → 0 < count k (keys_at g ((f, keys) ∷ lists))
unfolding keys_at find_list count
deeper f keys g k lists new h = elim (Bool-cases (f == g)) [
  | inl same ↦
      let e : f ≡ g = ground arith in
      let none_here = rw e at new in absurd (let bad = rw none_here at h in omega arith)
  | inr other ↦ rw other h
]

-- Unless it is the start, it is the frequency of a list that holds a key.
pub least_freq-attained :
    (m : ℕ) (lists : FreqLists)
    → DistinctLists lists
    → (least_freq lists m ≡ m) ⊎ ((k : Bytes) × (0 < count k (keys_at (least_freq lists m) lists)))
unfolding least_freq keys_at find_list count
least_freq-attained m [] d = inl refl
least_freq-attained m ((f, []) ∷ lists) (new, d) = elim (least_freq-attained m lists d) [
  | inl start ↦ inl start
  | inr (k, h) ↦ inr (k, deeper f [] (least_freq lists m) k lists new h)
]
least_freq-attained m ((f, j ∷ keys) ∷ lists) (new, d) =
    elim (least_freq-attained (min m f) lists d) [
      | inl start ↦ elim (Bool-cases (ltb f m)) [
        | inl here ↦
            let e : least_freq lists (min m f) ≡ f = ground arith in
            inr (j, rw e (rw (==_refl f) (ground (arith, bytes_eq_refl j))))
        | inr above ↦ inl (ground arith)
      ]
      | inr (k, h) ↦ inr (k, deeper f (j ∷ keys) (least_freq lists (min m f)) k lists new h)
    ]
