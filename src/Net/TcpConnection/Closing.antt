-- ===== src/Net/TcpConnection/Closing.antt =====
-- When the writing side is shut.
use ai_chat_server.Base.{◌≡◌, refl, ℕ, Bool, true, false, [], append-nil, ◌⊎◌}
use ai_chat_server.Net.Buffer.{new, initial_size, content}
use ai_chat_server.Net.Buffer.Invariant.{IsValid, new-IsValid}
use ai_chat_server.Net.Buffer.Content.{content-new}
use ai_chat_server.Net.TcpConnection.{TcpConnection, new_connection, connect_established}
use ai_chat_server.Net.TcpConnection.Stream.{stream}
use ai_chat_server.Net.TcpConnection.Watched.{Watched}

-- The writing side of `c` is shut only where that of `a` was, or the channel is not writing.
abbrev Shuts : TcpConnection → TcpConnection → Type 0
Shuts a c = c.fin ≡ true → (a.fin ≡ true) ⊎ (c.writing ≡ false)

abbrev pub opened : Bool → Bool → ℕ → TcpConnection
opened write_complete high_water mark =
    connect_established (new_connection write_complete high_water mark)

pub opened-Watched :
    (write_complete high_water : Bool) (mark : ℕ) → Watched (opened write_complete high_water mark)
unfolding connect_established new_connection new
opened-Watched write_complete high_water mark up = refl

pub opened-IsValid :
    (write_complete high_water : Bool) (mark : ℕ)
    → IsValid (opened write_complete high_water mark).output
unfolding connect_established new_connection
opened-IsValid write_complete high_water mark = new-IsValid initial_size

pub opened-stream :
    (write_complete high_water : Bool) (mark : ℕ)
    → stream (opened write_complete high_water mark) ≡ []
unfolding connect_established new_connection
opened-stream write_complete high_water mark = content-new initial_size

pub all_taken : (c : TcpConnection) → content c.output ≡ [] → c.wire ≡ stream c
all_taken c h = simp (h, append-nil)
