-- ===== src/Base/Decimal/Tests.antt =====
-- A decimal text read back.
use ai_chat_server.Base.{◌≡◌, arith}
use ai_chat_server.Base.Decimal.{to_decimal, atoi_size}
use ai_chat_server.Base.Decimal.Laws.{atoi_size-to_decimal}

test_round_trip : atoi_size (to_decimal 1024) ≡ 1024
test_round_trip = atoi_size-to_decimal 1024 (ground arith)
