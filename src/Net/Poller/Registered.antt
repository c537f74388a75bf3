-- ===== src/Net/Poller/Registered.antt =====
-- What the kernel watches, against the channels.
use ai_chat_server.Base.{
  ◌≡◌, refl, sym, ap, ◌∙◌, ℕ, ◌*◌, Bool, true, false, not, ◌&&◌, Option, none, some, List, [], ◌∷◌,
  ◌==◌, ==_iff, ==_refl, if◌then◌else◌, Bool-cases, inl, inr, length,
}
use mathlib.Core.Path.{subst}
use ai_chat_server.Net.Channel.{Revents, new_channel, Change}
use ai_chat_server.Net.Poller.{
  EPollPoller, new_poller, at_fd, remove_channel, change_channel, fill_active_channels, poll,
}
use ai_chat_server.Net.Poller.Settles.{
  watched, in_map, Matches, Settles, change_channel-Settles, remove_channel-Settles,
}

pub data Op : Type 0 where
  changing : (k : Change) (fd : ℕ) → Op
  removing : (fd : ℕ) → Op
  polling : (answer : Option (List (ℕ × Revents))) → Op

unfoldable pub step : Op → EPollPoller → EPollPoller
step (changing k fd) p = change_channel k fd p
step (removing fd) p = remove_channel fd p
step (polling answer) p = (poll answer p).1

unfoldable pub run : List Op → EPollPoller → EPollPoller
run [] p = p
run (o ∷ os) p = run os (step o p)

abbrev pub AllMatch : EPollPoller → Type 0
AllMatch p = (fd : ℕ) → Matches p fd

Settles-AllMatch : (fd : ℕ) (p q : EPollPoller) → Settles fd p q → AllMatch p → AllMatch q
Settles-AllMatch fd p q s all k = elim (Bool-cases (k == fd)) [
  | inl same ↦ subst (Matches q) (sym ((==_iff k fd).0 same)) s.here
  | inr other ↦ record {
    kernel =
        s.kernel k other
        ∙ (all k).kernel
        ∙ ap (λ c. watched c.index c.events) (sym (s.channels k other));
    map_ = s.map_ k other ∙ (all k).map_ ∙ ap (λ c. in_map c.index) (sym (s.channels k other));
  }
]

-- Reported events change neither the interest nor the index of a channel.
abbrev Same : EPollPoller → EPollPoller → Type 0
Same p q = (q.failed_calls ≡ p.failed_calls) × (AllMatch p → AllMatch q)

fill-Same : (es : List (ℕ × Revents)) (p : EPollPoller) → Same p (fill_active_channels es p).1
unfolding fill_active_channels
fill-Same [] p = (refl, λ all. all)
fill-Same ((fd, r) ∷ es) p =
    let c = p.channel_of fd in
    let told = record p { channel_of = at_fd fd (record c { revents = r }) p.channel_of } in
    let (f, keep) = fill-Same es told in
    (
      f,
      λ all. keep (
          Settles-AllMatch fd p told
            (record {
              failures = refl;
              here = record {
                kernel = rw (==_refl fd) (all fd).kernel;
                map_ = rw (==_refl fd) (all fd).map_;
              };
              channels = λ k o. rw o refl;
              map_ = λ k o. refl;
              kernel = λ k o. refl;
            })
            all),
    )

Same-if : (b : Bool) (p x y : EPollPoller) → Same p x → Same p y → Same p (if b then x else y)
Same-if true p x y h k = h
Same-if false p x y h k = k

step-Same :
    (o : Op) (p : EPollPoller)
    → AllMatch p
    → ((step o p).failed_calls ≡ p.failed_calls) × AllMatch (step o p)
unfolding step poll
step-Same (changing k fd) p all =
    let s = change_channel-Settles k fd p (all fd) in
    (s.failures, Settles-AllMatch fd p (change_channel k fd p) s all)
step-Same (removing fd) p all =
    let s = remove_channel-Settles fd p (all fd) in
    (s.failures, Settles-AllMatch fd p (remove_channel fd p) s all)
step-Same (polling none) p all = (refl, all)
step-Same (polling (some es)) p all =
    let (f, keep) = fill-Same es p in
    let q = (fill_active_channels es p).1 in
    let (f', keep') =
      Same-if (length es == p.event_list_size && not (length es == 0)) p
        (record q { event_list_size = p.event_list_size * 2 }) q
        (f, λ all k. record { kernel = (keep all k).kernel; map_ = (keep all k).map_ }) (f, keep) in
    (f', keep' all)

run-Same :
    (os : List Op) (p : EPollPoller)
    → AllMatch p
    → ((run os p).failed_calls ≡ p.failed_calls) × AllMatch (run os p)
unfolding run
run-Same [] p all = (refl, all)
run-Same (o ∷ os) p all =
    let (f, m) = step-Same o p all in let (f', m') = run-Same os (step o p) m in (f' ∙ f, m')

-- However channels are changed, removed and polled: no call of epoll_ctl fails, the kernel watches
-- exactly the channels whose index says that they are added, for the events they want, and the map
-- holds those added or deleted and not removed.
pub run-Matches :
    (os : List Op) (fd : ℕ)
    → ((run os new_poller).failed_calls ≡ []) × Matches (run os new_poller) fd
unfolding new_poller new_channel
run-Matches os fd =
    let (f, all) = run-Same os new_poller (λ k. record { kernel = refl; map_ = refl }) in
    (f, all fd)
