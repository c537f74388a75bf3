-- ===== src/Memory.antt =====
-- The memory part: include/memory.
pub mod Lfu
pub mod Sliced
pub mod Pool
mod Tests
