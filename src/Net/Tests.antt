-- ===== src/Net/Tests.antt =====
-- Runs of the buffer, and its theorems at concrete buffers.
use ai_chat_server.Base.{◌≡◌, List, [], ◌∷◌, codes}
use ai_chat_server.Net.Buffer.{new, content, received}
use ai_chat_server.Net.Buffer.Invariant.{IsValid}
use ai_chat_server.Net.Buffer.Queue.{
  Op, run, spec_run, spec_step, retrieves, appends, reads, run-new-refines,
}

abbrev calls : List Op
calls =
    appends (codes "hello world")
    ∷ retrieves 6
    ∷ reads (received (codes "!"))
    ∷ appends (codes "??")
    ∷ []

run-new-refines_example :
    IsValid (run calls (new 4)) × (content (run calls (new 4)) ≡ spec_run calls [])
run-new-refines_example = run-new-refines 4 calls

test_run : content (run calls (new 4)) ≡ codes "world!??"
test_run = unfold spec_run spec_step in (run-new-refines 4 calls).1
