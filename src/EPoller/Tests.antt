-- ===== src/EPoller/Tests.antt =====
-- A poller at concrete channels, and its theorems there.
use anoii.Prelude.{
  aborted, ℕ, ◌<◌, ◌≤◌, arith, ◌≡◌, refl, Bool, true, false, none, some, [], ◌∷◌, if◌then◌else◌, ok,
  err, out_of_bounds, ◌>>=◌,
}
use anoii.UPoll.{PolledChannel}
use anoii.Http.Response.{codes}
use anoii.EPoller.Polls.{
  fails, answers, first_size, poll_all, NoFewer, poll_all-Shrinks, epoll, upoll, poller_factory,
}
use anoii.EPoller.{
  EPoller, set, ctl_mod, ctl_del, remove_channel, has_channel, set_events, fill_actived_channels,
}
use anoii.EPoller.Registry.{IsRegistry, IsRegistry-single}
use anoii.EPoller.Updates.{set_events-IsRegistry}
use anoii.EPoller.Removal.{remove_channel-IsRegistry}

-- A channel at the address 70 that the poller has.
abbrev reader : PolledChannel
reader = record { fd = 7; index = some 1; events = 0 }

abbrev one_channel : EPoller
one_channel = record {
  fd_channels = set 7 (some 70) (λ fd. none);
  channels = set 70 (some reader) (λ ch. none);
  calls = [];
}

active_test : fill_actived_channels ((70, 1) ∷ []) one_channel ≡ ok ((70, 1) ∷ [])
unfolding fill_actived_channels
active_test = refl

unknown_test : fill_actived_channels ((80, 1) ∷ []) one_channel ≡ err out_of_bounds
unfolding fill_actived_channels
unknown_test = refl

removed_test : (do r ← remove_channel 70 one_channel; has_channel 70 r.0) ≡ ok false
unfolding remove_channel has_channel
removed_test = refl

one_channel-IsRegistry : IsRegistry one_channel
one_channel-IsRegistry = IsRegistry-single 70 reader [] refl

set_events-IsRegistry_example :
    (p' : EPoller) × (set_events 70 3 one_channel ≡ ok p')
    × IsRegistry p'
    × (has_channel 70 p' ≡ ok true)
    × (p'.calls ≡ record { operation = ctl_mod; fd = 7; events = 3 } ∷ [])
set_events-IsRegistry_example = set_events-IsRegistry 3 one_channel-IsRegistry refl

remove_channel-IsRegistry_example :
    (p' : EPoller) × (had : Bool) × (remove_channel 70 one_channel ≡ ok (p', had))
    × IsRegistry p'
    × (has_channel 70 p' ≡ ok false)
    × (has_channel 70 one_channel ≡ ok had)
    × (p'.calls ≡ (if had then record { operation = ctl_del; fd = 7; events = 0 } ∷ [] else []))
remove_channel-IsRegistry_example = remove_channel-IsRegistry one_channel-IsRegistry refl refl

poll_all-Shrinks_example :
    (left : ℕ) × (poll_all (answers ((70, 1) ∷ []) ∷ fails ∷ []) first_size one_channel
      ≡ ok (left, (70, 1) ∷ []))
    × (0 < left)
    × (left ≤ 16)
    × NoFewer left (answers ((70, 1) ∷ []) ∷ fails ∷ [])
poll_all-Shrinks_example =
    poll_all-Shrinks one_channel (answers ((70, 1) ∷ []) ∷ fails ∷ []) first_size (omega arith)
      (omega arith, ((reader, refl, refl), tt), tt)

factory_test :
    (poller_factory (codes "default") none ≡ ok epoll)
    × (poller_factory (codes "default") (some (codes "poll")) ≡ ok upoll)
    × (poller_factory (codes "select") none ≡ err aborted)
unfolding poller_factory
factory_test = (refl, refl, refl)
