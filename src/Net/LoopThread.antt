-- ===== src/Net/LoopThread.antt =====
-- include/net/EventLoopThread.h and src/net/EventLoopThread.cc: the hand-over of a loop from the
-- thread that it runs in to the one that starts it. Each function is what happens in one go: under
-- the lock, or an atomic access. The condition variable only wakes startLoop to look again.
pub mod Steps
pub mod Started
mod Tests
use ai_chat_server.Base.{Bool, true, false, if◌then◌else◌}

-- Where threadFunc stands: the thread is not there; the loop is constructed; the callback has been
-- called; loop_ is set; loop() runs; it has returned; loop_ is cleared; the loop is destroyed.
pub data Worker : Type 0 where
  absent constructed readied published looping left cleared gone : Worker

-- Where startLoop stands: not called; waiting for loop_; returned with the address that it saw.
pub data Starter : Type 0 where
  calm waiting returned : Starter

-- Where the destructor stands: not called; it has seen loop_ set; it joins the thread; done.
pub data Destroyer : Type 0 where
  unused seen joining done : Destroyer

pub record EventLoopThread : Type 0 where
  -- loop_ is not null.
  pub loop_set : Bool
  pub exiting : Bool
  pub worker : Worker
  pub starter : Starter
  pub destroyer : Destroyer
  -- quit_ of the loop, and whether quit has ever been called.
  pub quitting : Bool
  pub told : Bool

unfoldable pub new_loop_thread : EventLoopThread
new_loop_thread = record {
  loop_set = false;
  exiting = false;
  worker = absent;
  starter = calm;
  destroyer = unused;
  quitting = false;
  told = false;
}

-- startLoop: the thread is started, and constructs its loop.
unfoldable pub start_loop : EventLoopThread → EventLoopThread
start_loop s = record s { worker = constructed; starter = waiting }

-- startLoop, under the lock: it waits on while loop_ is null.
unfoldable pub take_loop : EventLoopThread → EventLoopThread
take_loop s = if s.loop_set then record s { starter = returned } else s

unfoldable pub call_back : EventLoopThread → EventLoopThread
call_back s = record s { worker = readied }

unfoldable pub publish : EventLoopThread → EventLoopThread
publish s = record s { worker = published; loop_set = true }

-- loop() clears quit_ first, and returns when it finds it set.
unfoldable pub enter_loop : EventLoopThread → EventLoopThread
enter_loop s = record s { worker = looping; quitting = false }

unfoldable pub test_quit : EventLoopThread → EventLoopThread
test_quit s = if s.quitting then record s { worker = left } else s

unfoldable pub clear_loop : EventLoopThread → EventLoopThread
clear_loop s = record s { worker = cleared; loop_set = false }

unfoldable pub end_thread : EventLoopThread → EventLoopThread
end_thread s = record s { worker = gone }

-- quit of the loop, by whoever has it.
unfoldable pub quit_loop : EventLoopThread → EventLoopThread
quit_loop s = record s { quitting = true; told = true }

-- The destructor: what it sees of loop_, its quit, and its join.
unfoldable pub destroy : EventLoopThread → EventLoopThread
destroy s = record s { exiting = true; destroyer = if s.loop_set then seen else done }

unfoldable pub destroyer_quits : EventLoopThread → EventLoopThread
unfolding quit_loop
destroyer_quits s = record (quit_loop s) { destroyer = joining }

unfoldable pub join : EventLoopThread → EventLoopThread
join s = record s { destroyer = done }

-- The loop is constructed and not destroyed.
abbrev pub alive : Worker → Bool
alive absent = false
alive gone = false
alive _ = true
