-- ===== src/Memory/Pool/Slots.antt =====
-- Where the slots of a pool lie.
use ai_chat_server.Base.{
  ◌≡◌, refl, sym, ℕ, ◌+◌, ◌-◌, ◌*◌, ◌/◌, ◌%◌, ◌^◌, ◌≤◌, ◌<◌, ◌⊎◌, inl, inr, List, [], ◌∷◌, ◌==◌,
  leb, arith, Bool-cases, if-true, if-false,
}
use mathlib.Core.Path.{subst}
use native.Mathlib.Nat.{mod-lt}
use ai_chat_server.Memory.Pool.{
  MemoryPool, new_pool, slot_bytes, pad_pointer, allocate_new_block, take_slot, allocate_from,
  allocate, deallocate,
}

-- The slot lies in one of the blocks, behind the pointer at its start.
abbrev pub Inside : ℕ → ℕ → List ℕ → ℕ → Type 0
Inside block_size slot_size [] slot = ⊥
Inside block_size slot_size (b ∷ bs) slot =
    ((b + slot_bytes ≤ slot) × (slot + slot_size ≤ b + block_size))
    ⊎ Inside block_size slot_size bs slot

abbrev pub AllInside : ℕ → ℕ → List ℕ → List ℕ → Type 0
AllInside block_size slot_size bs [] = Unit {0}
AllInside block_size slot_size bs (s ∷ ss) =
    Inside block_size slot_size bs s × AllInside block_size slot_size bs ss

-- The next slot is in the first block as long as it is before the mark.
abbrev HasRoom : ℕ → ℕ → ℕ → ℕ → List ℕ → Type 0
HasRoom block_size slot_size cur last [] = last ≤ cur
HasRoom block_size slot_size cur last (b ∷ bs) =
    (b + slot_bytes ≤ cur) × (last ≡ b + block_size - slot_size + 1)

pub record IsValid (pool : MemoryPool) : Type 0 where
  -- A slot is a number of eight bytes, and two of them fit beside the pointer.
  pub sized : 1 ≤ pool.slot_size
  pub fits : 2 * pool.slot_size + slot_bytes ≤ pool.block_size
  pub room : HasRoom pool.block_size pool.slot_size pool.cur_slot pool.last_slot pool.blocks
  pub free : AllInside pool.block_size pool.slot_size pool.blocks pool.free_list

pad_pointer-lt : (p s : ℕ) → 1 ≤ s → pad_pointer p s < s
unfolding pad_pointer
pad_pointer-lt p s h = mod-lt ((2 ^ 64 + s - p) % 2 ^ 64) h

HasRoom-Inside :
    (size s cur last : ℕ) (bs : List ℕ)
    → s ≤ size
    → HasRoom size s cur last bs
    → cur < last
    → Inside size s bs cur
HasRoom-Inside size s cur last [] h r l = absurd (omega arith)
HasRoom-Inside size s cur last (b ∷ bs) h (behind, e) l = inl (behind, omega arith)

HasRoom-advance :
    (size s cur last k : ℕ) (bs : List ℕ)
    → HasRoom size s cur last bs
    → HasRoom size s (cur + k) last bs
HasRoom-advance size s cur last k [] r = omega arith
HasRoom-advance size s cur last k (b ∷ bs) (behind, e) = (omega arith, e)

AllInside-more :
    (size s b : ℕ) (bs slots : List ℕ) → AllInside size s bs slots → AllInside size s (b ∷ bs) slots
AllInside-more size s b bs [] h = h
AllInside-more size s b bs (x ∷ xs) (i, h) = (inr i, AllInside-more size s b bs xs h)

-- A slot that is handed out, by a pool that is in order and stays so.
abbrev pub Given : ℕ × MemoryPool → Type 0
Given (slot, pool) = IsValid pool × Inside pool.block_size pool.slot_size pool.blocks slot

take_slot-Given :
    (pool : MemoryPool) → IsValid pool → pool.cur_slot < pool.last_slot → Given (take_slot pool)
take_slot-Given pool v h = (
  record {
    sized = v.sized;
    fits = v.fits;
    room =
        HasRoom-advance pool.block_size pool.slot_size pool.cur_slot pool.last_slot
          (pool.slot_size / slot_bytes * slot_bytes) pool.blocks v.room;
    free = v.free;
  },
  HasRoom-Inside pool.block_size pool.slot_size pool.cur_slot pool.last_slot pool.blocks
      (omega (arith, v.fits)) v.room h,
)

allocate_new_block-IsValid :
    (b : ℕ) (pool : MemoryPool)
    → IsValid pool
    → IsValid (allocate_new_block b pool)
      × ((allocate_new_block b pool).cur_slot < (allocate_new_block b pool).last_slot)
unfolding allocate_new_block
allocate_new_block-IsValid b pool v = (
  record { sized = v.sized; fits = v.fits; room = (omega arith, refl); free = tt },
  omega (arith, v.sized, v.fits, pad_pointer-lt (b + slot_bytes) pool.slot_size v.sized),
)

allocate_from-Given :
    (b : ℕ) (slots : List ℕ) (pool : MemoryPool)
    → pool.free_list ≡ slots
    → IsValid pool
    → Given (allocate_from b slots pool)
allocate_from-Given b [] pool e v = elim (Bool-cases (leb pool.last_slot pool.cur_slot)) [
  | inl full ↦
      let (v', h) = allocate_new_block-IsValid b pool v in
      subst (λ p. Given (take_slot p))
        (sym (if-true (leb pool.last_slot pool.cur_slot) (allocate_new_block b pool) pool full))
        (take_slot-Given (allocate_new_block b pool) v' h)
  | inr room ↦
      subst (λ p. Given (take_slot p))
        (sym (if-false (leb pool.last_slot pool.cur_slot) (allocate_new_block b pool) pool room))
        (take_slot-Given pool v (ground arith))
]
allocate_from-Given b (slot ∷ slots) pool e v =
    let (here, rest) = subst (AllInside pool.block_size pool.slot_size pool.blocks) e v.free in
    (record { sized = v.sized; fits = v.fits; room = v.room; free = rest }, here)

-- Only slots of the pool's own blocks are given back.
pub data Reached (block_size slot_size : ℕ) : MemoryPool → Type 0 where
  begins : Reached block_size slot_size (new_pool block_size slot_size)
  allocates :
      (b : ℕ) (pool : MemoryPool)
      → Reached block_size slot_size pool
      → Reached block_size slot_size (allocate b pool).1
  frees :
      (slot : ℕ) (pool : MemoryPool)
      → Reached block_size slot_size pool
      → Inside pool.block_size pool.slot_size pool.blocks slot
      → Reached block_size slot_size (deallocate slot pool)

allocate-Given : (b : ℕ) (pool : MemoryPool) → IsValid pool → Given (allocate b pool)
unfolding allocate
allocate-Given b pool v = allocate_from-Given b pool.free_list pool refl v

Reached-IsValid :
    (block_size slot_size : ℕ) (pool : MemoryPool)
    → 1 ≤ slot_size
    → 2 * slot_size + slot_bytes ≤ block_size
    → Reached block_size slot_size pool
    → IsValid pool
unfolding new_pool deallocate
Reached-IsValid block_size slot_size _ h k begins = record {
  sized = h;
  fits = k;
  room = omega arith;
  free = tt;
}
Reached-IsValid block_size slot_size _ h k (allocates b pool r) =
    (allocate-Given b pool (Reached-IsValid block_size slot_size pool h k r)).0
Reached-IsValid block_size slot_size _ h k (frees slot pool r i) =
    let v = Reached-IsValid block_size slot_size pool h k r in
    elim (Bool-cases (slot == 0)) [
      | inl nothing ↦
          subst IsValid
            (sym (
              if-true (slot == 0) pool (record pool { free_list = slot ∷ pool.free_list }) nothing))
            v
      | inr some_slot ↦
          subst IsValid
            (sym (
              if-false (slot == 0) pool (record pool { free_list = slot ∷ pool.free_list })
                some_slot))
            (record { sized = v.sized; fits = v.fits; room = v.room; free = (i, v.free) })
    ]

-- Whatever has been allocated and given back: if two slots fit into a block beside its pointer, the
-- next slot handed out lies in a block of the pool, behind the pointer at its start.
pub Reached-Given :
    (block_size slot_size b : ℕ) (pool : MemoryPool)
    → 1 ≤ slot_size
    → 2 * slot_size + slot_bytes ≤ block_size
    → Reached block_size slot_size pool
    → Given (allocate b pool)
Reached-Given block_size slot_size b pool h k r =
    allocate-Given b pool (Reached-IsValid block_size slot_size pool h k r)
