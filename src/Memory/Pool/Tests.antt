-- ===== src/Memory/Pool/Tests.antt =====
-- A pool of slots of 24 bytes.
use ai_chat_server.Base.{◌≡◌, refl, ◌%◌, arith}
use ai_chat_server.Memory.Pool.{MemoryPool, new_pool, pad_pointer, allocate_new_block, allocate}
use ai_chat_server.Memory.Pool.Slots.{Given, begins, allocates, Reached-Given}

abbrev first_taken : MemoryPool
first_taken = (allocate 4096 (new_pool 4096 24)).1

Reached-Given_example : Given (allocate 8192 first_taken)
Reached-Given_example =
    Reached-Given 4096 24 8192 first_taken (omega arith) (omega arith)
      (allocates 4096 (new_pool 4096 24) begins)

second_slot : (allocate 8192 first_taken).0 ≡ 4144
unfolding allocate allocate_new_block pad_pointer new_pool
second_slot = refl

-- The padding is that of 2 ^ 64 - p, so the slots do not start at a multiple of 24.
not_aligned : (allocate 4096 (new_pool 4096 24)).0 % 24 ≡ 16
unfolding allocate allocate_new_block pad_pointer new_pool
not_aligned = refl
