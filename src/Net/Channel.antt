-- ===== src/Net/Channel.antt =====
-- include/net/Channel.h and src/net/Channel.cc: a file descriptor's events and callbacks. An int of
-- event flags is a record of its bits.
use ai_chat_server.Base.{Bool, true, false, not, ◌&&◌, ◌||◌, List, [], ◌∷◌, ◌++◌, if◌then◌else◌}

-- kReadEvent (EPOLLIN | EPOLLPRI) and kWriteEvent (EPOLLOUT)
pub record Events : Type 0 where
  pub read_event : Bool
  pub write_event : Bool

abbrev pub none_event : Events
none_event = record { read_event = false; write_event = false }

-- EPOLLIN, EPOLLPRI, EPOLLOUT, EPOLLERR, EPOLLHUP
pub record Revents : Type 0 where
  pub epoll_in : Bool
  pub epoll_pri : Bool
  pub epoll_out : Bool
  pub epoll_err : Bool
  pub epoll_hup : Bool

-- kNew, kAdded, kDeleted
pub data Index : Type 0 where
  fresh added deleted : Index

pub record Channel : Type 0 where
  pub events : Events
  pub revents : Revents
  pub index : Index
  -- Whether the channel is tied to an object, and which callbacks are set.
  pub tied : Bool
  pub has_read : Bool
  pub has_write : Bool
  pub has_close : Bool
  pub has_error : Bool

abbrev pub no_revents : Revents
no_revents = record {
  epoll_in = false;
  epoll_pri = false;
  epoll_out = false;
  epoll_err = false;
  epoll_hup = false;
}

unfoldable pub new_channel : Channel
new_channel = record {
  events = none_event;
  revents = no_revents;
  index = fresh;
  tied = false;
  has_read = false;
  has_write = false;
  has_close = false;
  has_error = false;
}

abbrev pub is_none_event : Channel → Bool
is_none_event c = not c.events.read_event && not c.events.write_event

-- enableReading and the others, without their update().
pub data Change : Type 0 where
  enable_reading disable_reading enable_writing disable_writing disable_all : Change

unfoldable pub change_events : Change → Events → Events
change_events enable_reading e = record e { read_event = true }
change_events disable_reading e = record e { read_event = false }
change_events enable_writing e = record e { write_event = true }
change_events disable_writing e = record e { write_event = false }
change_events disable_all e = none_event

pub data Callback : Type 0 where
  close_callback error_callback read_callback write_callback : Callback

abbrev when : Bool → Callback → List Callback
when b k = if b then k ∷ [] else []

-- The callbacks made, in order.
unfoldable pub handle_event_with_guard : Channel → List Callback
handle_event_with_guard c =
    let r = c.revents in
    when ((r.epoll_hup && not r.epoll_in) && c.has_close) close_callback
    ++ (when (r.epoll_err && c.has_error) error_callback
        ++ (when ((r.epoll_in || r.epoll_pri) && c.has_read) read_callback
            ++ when (r.epoll_out && c.has_write) write_callback))

-- `alive` tells whether the object that the channel is tied to is still there.
unfoldable pub handle_event : Bool → Channel → List Callback
unfolding handle_event_with_guard
handle_event alive c = if c.tied && not alive then [] else handle_event_with_guard c
