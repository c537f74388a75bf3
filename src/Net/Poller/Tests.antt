-- ===== src/Net/Poller/Tests.antt =====
-- A channel that comes and goes.
use ai_chat_server.Base.{◌≡◌, some, List, [], ◌∷◌}
use ai_chat_server.Net.Channel.{no_revents, enable_reading, enable_writing, disable_all}
use ai_chat_server.Net.Poller.{new_poller}
use ai_chat_server.Net.Poller.Settles.{Matches}
use ai_chat_server.Net.Poller.Registered.{Op, changing, removing, polling, run, run-Matches}

abbrev sample_run : List Op
sample_run =
    changing enable_reading 5
    ∷ changing enable_writing 6
    ∷ polling (some ((5, no_revents) ∷ []))
    ∷ changing disable_all 5
    ∷ removing 5
    ∷ changing enable_reading 5
    ∷ []

run-Matches_example :
    ((run sample_run new_poller).failed_calls ≡ []) × Matches (run sample_run new_poller) 5
run-Matches_example = run-Matches sample_run 5
