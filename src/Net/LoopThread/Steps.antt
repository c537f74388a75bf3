-- ===== src/Net/LoopThread/Steps.antt =====
-- The steps of the three threads, in any order.
use ai_chat_server.Base.{◌≡◌, true}
use ai_chat_server.Net.LoopThread.{
  absent, constructed, readied, published, looping, left, cleared, gone, calm, waiting, unused,
  seen, joining, EventLoopThread, start_loop, take_loop, call_back, publish, enter_loop, test_quit,
  clear_loop, end_thread, quit_loop, destroy, destroyer_quits, join, alive,
}

pub data Step : EventLoopThread → EventLoopThread → Type 0 where
  starts : (s : EventLoopThread) → s.worker ≡ absent → s.starter ≡ calm → Step s (start_loop s)
  looks : (s : EventLoopThread) → s.starter ≡ waiting → Step s (take_loop s)
  calls_back : (s : EventLoopThread) → s.worker ≡ constructed → Step s (call_back s)
  publishes : (s : EventLoopThread) → s.worker ≡ readied → Step s (publish s)
  enters : (s : EventLoopThread) → s.worker ≡ published → Step s (enter_loop s)
  tests : (s : EventLoopThread) → s.worker ≡ looping → Step s (test_quit s)
  clears : (s : EventLoopThread) → s.worker ≡ left → Step s (clear_loop s)
  ends : (s : EventLoopThread) → s.worker ≡ cleared → Step s (end_thread s)
  quits : (s : EventLoopThread) → alive s.worker ≡ true → Step s (quit_loop s)
  destroys : (s : EventLoopThread) → s.destroyer ≡ unused → Step s (destroy s)
  destroyer_quits_it : (s : EventLoopThread) → s.destroyer ≡ seen → Step s (destroyer_quits s)
  joins : (s : EventLoopThread) → s.destroyer ≡ joining → s.worker ≡ gone → Step s (join s)

pub data Steps : EventLoopThread → EventLoopThread → Type 0 where
  stop : (s : EventLoopThread) → Steps s s
  go_on : {s t u : EventLoopThread} → Step s t → Steps t u → Steps s u
