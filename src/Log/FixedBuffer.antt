-- ===== src/Log/FixedBuffer.antt =====
-- include/logging/FixedBuffer.h: a buffer of a fixed size, as the bytes that it holds.
use ai_chat_server.Base.{ℕ, ◌-◌, Bytes, [], ◌++◌, length, ltb, if◌then◌else◌}

abbrev pub small_buffer_size : ℕ
small_buffer_size = 4000

abbrev pub large_buffer_size : ℕ
large_buffer_size = 4000000

abbrev pub avail : ℕ → Bytes → ℕ
avail size b = size - length b

-- What does not fit, with a byte to spare, is dropped.
unfoldable pub append : ℕ → Bytes → Bytes → Bytes
append size xs b = if ltb (length xs) (avail size b) then b ++ xs else b

abbrev pub reset : Bytes → Bytes
reset b = []
