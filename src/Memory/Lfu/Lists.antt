-- ===== src/Memory/Lfu/Lists.antt =====
-- The frequency lists, by how often a key stands in the list of a frequency.
use ai_chat_server.Base.{
  ℕ, ◌+◌, ◌-◌, ◌<◌, ◌≡◌, refl, ap, ◌∙◌, Bool, true, false, ◌&&◌, some, Bytes, List, [], ◌∷◌, ◌++◌,
  arith, bytes_eq, bytes_eq_iff, if◌then◌else◌, ◌==◌, Option-cases, inl, inr,
}
use ai_chat_server.Memory.Lfu.{
  FreqLists, find_list, set_list, keys_at, remove_node, remove_from_freq_list, add_to_freq_list,
}

abbrev pub one : Bool → ℕ
one true = 1
one false = 0

unfoldable pub count : Bytes → List Bytes → ℕ
count k [] = 0
count k (j ∷ keys) = one (bytes_eq j k) + count k keys

count-append :
    (k j : Bytes) (keys : List Bytes)
    → count k (keys ++ (j ∷ [])) ≡ count k keys + one (bytes_eq j k)
unfolding count
count-append k j [] = omega arith
count-append k j (i ∷ keys) = omega (arith, count-append k j keys)

count-remove_node :
    (k j : Bytes) (keys : List Bytes)
    → count k (remove_node j keys) ≡ count k keys - one (bytes_eq j k)
unfolding count remove_node
count-remove_node k j [] = omega arith
count-remove_node k j (i ∷ keys) =
    ground (arith, bytes_eq_iff i j, bytes_eq_iff i k, bytes_eq_iff j k, count-remove_node k j keys)

find_list-set_list :
    (f g : ℕ) (keys : List Bytes) (lists : FreqLists)
    → find_list g (set_list f keys lists) ≡ (if f == g then some keys else find_list g lists)
unfolding find_list set_list
find_list-set_list f g keys [] = refl
find_list-set_list f g keys ((h, old) ∷ lists) = ground (arith, find_list-set_list f g keys lists)

keys_at-set_list :
    (f g : ℕ) (keys : List Bytes) (lists : FreqLists)
    → keys_at g (set_list f keys lists) ≡ (if f == g then keys else keys_at g lists)
unfolding keys_at
keys_at-set_list f g keys lists = ground (arith, find_list-set_list f g keys lists)

pub count-add_to_freq_list :
    (k j : Bytes) (f g : ℕ) (lists : FreqLists)
    → count k (keys_at g (add_to_freq_list j f lists))
      ≡ count k (keys_at g lists) + one (f == g && bytes_eq j k)
unfolding add_to_freq_list
count-add_to_freq_list k j f g lists = ground (
  arith,
  keys_at-set_list f g (keys_at f lists ++ (j ∷ [])) lists,
  count-append k j (keys_at f lists),
)

-- A key is taken from the list in which it stands.
pub count-remove_from_freq_list :
    (j : Bytes) (f : ℕ) (lists : FreqLists)
    → 0 < count j (keys_at f lists)
    → (less : FreqLists) × (remove_from_freq_list j f lists ≡ some less)
      × ((k : Bytes) (g : ℕ)
          → count k (keys_at g less) ≡ count k (keys_at g lists) - one (f == g && bytes_eq j k))
unfolding remove_from_freq_list
count-remove_from_freq_list j f lists h = elim (Option-cases (find_list f lists)) [
  | inl absent ↦ absurd (unfold keys_at count in (let bad = rw absent at h in omega arith))
  | inr (keys, e) ↦ (
    set_list f (remove_node j keys) lists,
    rw (e, remove_from_freq_list) refl,
    λ k g.
        let at : keys_at f lists ≡ keys = unfold keys_at in (rw e refl) in
        ground
          (arith, at, keys_at-set_list f g (remove_node j keys) lists, count-remove_node k j keys),
  )
]

-- A key moves from the list in which it stands to the end of another.
pub count-move :
    (j : Bytes) (f f' : ℕ) (lists : FreqLists)
    → 0 < count j (keys_at f lists)
    → (less : FreqLists) × (remove_from_freq_list j f lists ≡ some less)
      × ((k : Bytes) (g : ℕ)
          → count k (keys_at g (add_to_freq_list j f' less))
            ≡ (count k (keys_at g lists) - one (f == g && bytes_eq j k))
              + one (f' == g && bytes_eq j k))
count-move j f f' lists h =
    let (less, e, taken) = count-remove_from_freq_list j f lists h in
    (
      less,
      e,
      λ k g.
          count-add_to_freq_list k j f' g less
          ∙ ap (λ m. m + one (f' == g && bytes_eq j k)) (taken k g),
    )
