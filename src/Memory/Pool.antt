-- ===== src/Memory/Pool.antt =====
-- include/memory/memoryPool.h and memory/memoryPool.cc: pools of slots. Addresses are numbers;
-- operator new is an argument, the address that the i-th block gets. The locks are taken one after
-- the other, as one thread does.
pub mod Slots
mod Tests
use ai_chat_server.Base.{
  ℕ, suc, ◌+◌, ◌-◌, ◌*◌, ◌/◌, ◌%◌, ◌^◌, Bool, true, false, Option, none, some, List, [], ◌∷◌, ◌==◌,
  leb, ltb, if◌then◌else◌,
}

-- sizeof(Slot), which is also sizeof(Slot*).
abbrev pub slot_bytes : ℕ
slot_bytes = 8

abbrev pub max_slot_size : ℕ
max_slot_size = 512

-- A pool: the blocks, the next slot that was never used and the mark of the last one, and the slots
-- given back, the last one first.
pub record MemoryPool : Type 0 where
  pub block_size : ℕ
  pub slot_size : ℕ
  pub blocks : List ℕ
  pub cur_slot : ℕ
  pub free_list : List ℕ
  pub last_slot : ℕ

-- The constructor, and init.
unfoldable pub new_pool : ℕ → ℕ → MemoryPool
new_pool block_size size = record {
  block_size = block_size;
  slot_size = size;
  blocks = [];
  cur_slot = 0;
  free_list = [];
  last_slot = 0;
}

-- (align - p) % align on 64-bit numbers.
unfoldable pub pad_pointer : ℕ → ℕ → ℕ
pad_pointer p align = ((2 ^ 64 + align - p) % 2 ^ 64) % align

unfoldable pub allocate_new_block : ℕ → MemoryPool → MemoryPool
unfolding pad_pointer
allocate_new_block new_block pool =
    let body = new_block + slot_bytes in
    record pool {
      blocks = new_block ∷ pool.blocks;
      cur_slot = body + pad_pointer body pool.slot_size;
      last_slot = new_block + pool.block_size - pool.slot_size + 1;
      free_list = [];
    }

-- curSlot_ += SlotSize_ / sizeof(Slot), in slots of eight bytes.
abbrev pub take_slot : MemoryPool → ℕ × MemoryPool
take_slot pool = (
  pool.cur_slot,
  record pool { cur_slot = pool.cur_slot + pool.slot_size / slot_bytes * slot_bytes },
)

abbrev pub allocate_from : ℕ → List ℕ → MemoryPool → ℕ × MemoryPool
allocate_from new_block [] pool =
    take_slot (if leb pool.last_slot pool.cur_slot then allocate_new_block new_block pool else pool)
allocate_from new_block (slot ∷ slots) pool = (slot, record pool { free_list = slots })

-- allocate; `new_block` is the block that operator new would give.
unfoldable pub allocate : ℕ → MemoryPool → ℕ × MemoryPool
unfolding allocate_new_block
allocate new_block pool = allocate_from new_block pool.free_list pool

unfoldable pub deallocate : ℕ → MemoryPool → MemoryPool
deallocate ptr pool = if ptr == 0 then pool else record pool { free_list = ptr ∷ pool.free_list }

-- The pool for a size: none is operator new itself.
unfoldable pub pool_index : ℕ → Option ℕ
pool_index size = if ltb max_slot_size size then none else some ((size + 7) / slot_bytes - 1)

-- initMemoryPool
abbrev pub index_slot_size : ℕ → ℕ
index_slot_size i = (i + 1) * 8
