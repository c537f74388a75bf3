-- ===== src/Net/Poller.antt =====
-- include/net/Poller.h, include/net/EPollPoller.h, src/net/Poller.cc and src/net/EPollPoller.cc: the
-- channels of a loop and what epoll has been told of them. There is one channel for a descriptor; the
-- kernel's interest list is a function of the descriptor.
pub mod Settles
pub mod Registered
mod Tests
use ai_chat_server.Base.{
  ℕ, suc, ◌*◌, Bool, true, false, not, ◌&&◌, Option, none, some, List, [], ◌∷◌, ◌++◌, length, ◌==◌,
  if◌then◌else◌,
}
use ai_chat_server.Net.Channel.{
  Events, Revents, Index, fresh, added, deleted, Channel, new_channel, is_none_event, Change,
  change_events,
}

pub data Operation : Type 0 where
  ctl_add ctl_mod ctl_del : Operation

pub record EPollPoller : Type 0 where
  pub channel_of : ℕ → Channel
  -- Whether `channels_` has the descriptor.
  pub has_channel : ℕ → Bool
  -- The kernel's side: what it watches of a descriptor.
  pub registered : ℕ → Option Events
  -- The calls of epoll_ctl that failed.
  pub failed_calls : List (Operation × ℕ)
  -- events_.size()
  pub event_list_size : ℕ

unfoldable pub new_poller : EPollPoller
new_poller = record {
  channel_of = λ fd. new_channel;
  has_channel = λ fd. false;
  registered = λ fd. none;
  failed_calls = [];
  event_list_size = 16;
}

abbrev pub at_fd {ℓ} : {A : Type ℓ} → ℕ → A → (ℕ → A) → ℕ → A
at_fd fd a f k = if k == fd then a else f k

-- epoll_ctl: adding what is watched fails, as does changing or deleting what is not.
unfoldable pub epoll_ctl : Operation → Events → Option Events → Option (Option Events)
epoll_ctl ctl_add e none = some (some e)
epoll_ctl ctl_add e (some _) = none
epoll_ctl ctl_mod e none = none
epoll_ctl ctl_mod e (some _) = some (some e)
epoll_ctl ctl_del e none = none
epoll_ctl ctl_del e (some _) = some none

abbrev pub after_ctl : Operation → ℕ → Option (Option Events) → EPollPoller → EPollPoller
after_ctl operation fd none p = record p { failed_calls = p.failed_calls ++ ((operation, fd) ∷ []) }
after_ctl operation fd (some e) p = record p { registered = at_fd fd e p.registered }

unfoldable pub update : Operation → ℕ → EPollPoller → EPollPoller
unfolding epoll_ctl
update operation fd p =
    after_ctl operation fd (epoll_ctl operation (p.channel_of fd).events (p.registered fd)) p

abbrev pub set_index : Index → ℕ → EPollPoller → EPollPoller
set_index i fd p = record p {
  channel_of = at_fd fd (record (p.channel_of fd) { index = i }) p.channel_of;
}

-- updateChannel, by the channel's index.
abbrev pub update_by : Index → ℕ → EPollPoller → EPollPoller
update_by fresh fd p =
    update ctl_add fd (set_index added fd (record p { has_channel = at_fd fd true p.has_channel }))
update_by deleted fd p = update ctl_add fd (set_index added fd p)
update_by added fd p =
    if is_none_event (p.channel_of fd)
    then set_index deleted fd (update ctl_del fd p)
    else update ctl_mod fd p

unfoldable pub update_channel : ℕ → EPollPoller → EPollPoller
unfolding update
update_channel fd p = update_by (p.channel_of fd).index fd p

abbrev pub remove_by : Index → ℕ → EPollPoller → EPollPoller
remove_by fresh fd p = p
remove_by deleted fd p = p
remove_by added fd p = update ctl_del fd p

unfoldable pub remove_channel : ℕ → EPollPoller → EPollPoller
unfolding update
remove_channel fd p =
    let erased = record p { has_channel = at_fd fd false p.has_channel } in
    set_index fresh fd (remove_by (p.channel_of fd).index fd erased)

-- enableReading and the others, with their update().
unfoldable pub change_channel : Change → ℕ → EPollPoller → EPollPoller
unfolding update_channel
change_channel k fd p =
    let c = p.channel_of fd in
    update_channel fd (record p {
      channel_of = at_fd fd (record c { events = change_events k c.events }) p.channel_of;
    })

-- fillActiveChannels: each channel gets its events and is reported.
unfoldable pub fill_active_channels : List (ℕ × Revents) → EPollPoller → List ℕ × EPollPoller
fill_active_channels [] p = ([], p)
fill_active_channels ((fd, r) ∷ es) p =
    let c = p.channel_of fd in
    let (active, q) =
      fill_active_channels es
        (record p { channel_of = at_fd fd (record c { revents = r }) p.channel_of }) in
    (fd ∷ active, q)

-- poll: an error of epoll_wait, a time-out, or the events; a full list is doubled.
unfoldable pub poll : Option (List (ℕ × Revents)) → EPollPoller → List ℕ × EPollPoller
unfolding fill_active_channels
poll none p = ([], p)
poll (some es) p =
    let (active, q) = fill_active_channels es p in
    (
      active,
      if length es == p.event_list_size && not (length es == 0)
          then record q { event_list_size = p.event_list_size * 2 }
          else q,
    )
