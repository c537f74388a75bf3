-- ===== src/Net/Poller/Settles.antt =====
-- What a call for one descriptor does.
use ai_chat_server.Base.{
  ◌≡◌, refl, sym, ap, ◌∙◌, ℕ, Bool, true, false, Option, none, some, ◌==◌, ==_refl, Bool-cases, inl,
  inr,
}
use mathlib.Core.Path.{subst}
use ai_chat_server.Net.Channel.{
  Events, Index, fresh, added, deleted, is_none_event, Change, change_events,
}
use ai_chat_server.Net.Poller.{
  EPollPoller, ctl_add, ctl_mod, ctl_del, at_fd, epoll_ctl, update, set_index, update_by,
  update_channel, remove_by, remove_channel, change_channel,
}

-- What the kernel should watch for a channel.
abbrev pub watched : Index → Events → Option Events
watched fresh e = none
watched added e = some e
watched deleted e = none

abbrev pub in_map : Index → Bool
in_map fresh = false
in_map _ = true

-- The kernel watches exactly the channels that are added, for the events they want, and the map has
-- those that have been added and not removed.
pub record Matches (p : EPollPoller) (fd : ℕ) : Type 0 where
  pub kernel : p.registered fd ≡ watched (p.channel_of fd).index (p.channel_of fd).events
  pub map_ : p.has_channel fd ≡ in_map (p.channel_of fd).index

at_fd-same {ℓ} : {A : Type ℓ} (fd : ℕ) (a : A) (f : ℕ → A) → at_fd fd a f fd ≡ a
at_fd-same fd a f = rw (==_refl fd) refl

at_fd-other {ℓ} :
    {A : Type ℓ} (fd k : ℕ) (a : A) (f : ℕ → A) → (k == fd) ≡ false → at_fd fd a f k ≡ f k
at_fd-other fd k a f h = rw h refl

-- What an operation on a descriptor comes to: no call of epoll_ctl has failed, the descriptor is in
-- order, and the others are as they were.
pub record Settles (fd : ℕ) (p q : EPollPoller) : Type 0 where
  pub failures : q.failed_calls ≡ p.failed_calls
  pub here : Matches q fd
  pub channels : (k : ℕ) → (k == fd) ≡ false → q.channel_of k ≡ p.channel_of k
  pub map_ : (k : ℕ) → (k == fd) ≡ false → q.has_channel k ≡ p.has_channel k
  pub kernel : (k : ℕ) → (k == fd) ≡ false → q.registered k ≡ p.registered k

update-add :
    (fd : ℕ) (p : EPollPoller)
    → p.registered fd ≡ none
    → update ctl_add fd p
      ≡ record p { registered = at_fd fd (some (p.channel_of fd).events) p.registered }
unfolding update epoll_ctl
update-add fd p h = rw h refl

update-mod :
    (fd : ℕ) (e : Events) (p : EPollPoller)
    → p.registered fd ≡ some e
    → update ctl_mod fd p
      ≡ record p { registered = at_fd fd (some (p.channel_of fd).events) p.registered }
unfolding update epoll_ctl
update-mod fd e p h = rw h refl

update-del :
    (fd : ℕ) (e : Events) (p : EPollPoller)
    → p.registered fd ≡ some e
    → update ctl_del fd p ≡ record p { registered = at_fd fd none p.registered }
unfolding update epoll_ctl
update-del fd e p h = rw h refl

update_by-Settles :
    (i : Index) (fd : ℕ) (e : Events) (p : EPollPoller)
    → (p.channel_of fd).index ≡ i
    → p.registered fd ≡ watched i e
    → p.has_channel fd ≡ in_map i
    → Settles fd p (update_by i fd p)
update_by-Settles fresh fd e p c h m =
    let before = set_index added fd (record p { has_channel = at_fd fd true p.has_channel }) in
    subst (λ q. Settles fd p q) (sym (update-add fd before h))
      (record {
        failures = refl;
        here = record { kernel = rw (==_refl fd) refl; map_ = rw (==_refl fd) refl };
        channels = λ k o. rw o refl;
        map_ = λ k o. rw o refl;
        kernel = λ k o. rw o refl;
      })
update_by-Settles deleted fd e p c h m =
    subst (λ q. Settles fd p q) (sym (update-add fd (set_index added fd p) h))
      (record {
        failures = refl;
        here = record { kernel = rw (==_refl fd) refl; map_ = rw (==_refl fd) m };
        channels = λ k o. rw o refl;
        map_ = λ k o. refl;
        kernel = λ k o. rw o refl;
      })
update_by-Settles added fd e p c h m = elim (Bool-cases (is_none_event (p.channel_of fd))) [
  | inl silent ↦ rw silent (
      subst (λ q. Settles fd p (set_index deleted fd q)) (sym (update-del fd e p h))
        (record {
          failures = refl;
          here = record { kernel = rw (==_refl fd) refl; map_ = rw (==_refl fd) m };
          channels = λ k o. rw o refl;
          map_ = λ k o. refl;
          kernel = λ k o. rw o refl;
        }))
  | inr wanted ↦ rw wanted (
      subst (λ q. Settles fd p q) (sym (update-mod fd e p h))
        (record {
          failures = refl;
          here = record {
            kernel =
                at_fd-same fd (some (p.channel_of fd).events) p.registered
                ∙ ap (λ i. watched i (p.channel_of fd).events) (sym c);
            map_ = m ∙ ap in_map (sym c);
          };
          channels = λ k o. refl;
          map_ = λ k o. refl;
          kernel = λ k o. rw o refl;
        }))
]

pub change_channel-Settles :
    (k : Change) (fd : ℕ) (p : EPollPoller) → Matches p fd → Settles fd p (change_channel k fd p)
unfolding change_channel update_channel
change_channel-Settles k fd p m =
    let c = p.channel_of fd in
    let changed = record p {
      channel_of = at_fd fd (record c { events = change_events k c.events }) p.channel_of;
    } in
    let settled =
      update_by-Settles (changed.channel_of fd).index fd c.events changed refl
        (rw (==_refl fd) m.kernel) (rw (==_refl fd) m.map_) in
    record {
      failures = settled.failures;
      here = settled.here;
      channels = λ j o.
          settled.channels j o
          ∙ at_fd-other fd j (record c { events = change_events k c.events }) p.channel_of o;
      map_ = settled.map_;
      kernel = settled.kernel;
    }

remove_by-Settles :
    (i : Index) (fd : ℕ) (e : Events) (p : EPollPoller)
    → p.registered fd ≡ watched i e
    → p.has_channel fd ≡ false
    → Settles fd p (set_index fresh fd (remove_by i fd p))
remove_by-Settles fresh fd e p h m = record {
  failures = refl;
  here = record { kernel = rw (==_refl fd) h; map_ = rw (==_refl fd) m };
  channels = λ k o. rw o refl;
  map_ = λ k o. refl;
  kernel = λ k o. refl;
}
remove_by-Settles deleted fd e p h m = record {
  failures = refl;
  here = record { kernel = rw (==_refl fd) h; map_ = rw (==_refl fd) m };
  channels = λ k o. rw o refl;
  map_ = λ k o. refl;
  kernel = λ k o. refl;
}
remove_by-Settles added fd e p h m =
    subst (λ q. Settles fd p (set_index fresh fd q)) (sym (update-del fd e p h))
      (record {
        failures = refl;
        here = record { kernel = rw (==_refl fd) refl; map_ = rw (==_refl fd) m };
        channels = λ k o. rw o refl;
        map_ = λ k o. refl;
        kernel = λ k o. rw o refl;
      })

pub remove_channel-Settles :
    (fd : ℕ) (p : EPollPoller) → Matches p fd → Settles fd p (remove_channel fd p)
unfolding remove_channel
remove_channel-Settles fd p m =
    let erased = record p { has_channel = at_fd fd false p.has_channel } in
    let settled =
      remove_by-Settles (p.channel_of fd).index fd (p.channel_of fd).events erased m.kernel
        (at_fd-same fd false p.has_channel) in
    record {
      failures = settled.failures;
      here = settled.here;
      channels = settled.channels;
      map_ = λ j o. settled.map_ j o ∙ at_fd-other fd j false p.has_channel o;
      kernel = settled.kernel;
    }
