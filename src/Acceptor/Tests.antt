-- ===== src/Acceptor/Tests.antt =====
-- An acceptor at concrete answers of the kernel, and its theorems there.
use anoii.Prelude.{ℕ, ◌≡◌, inr, refl, none, some, [], ◌∷◌, arith, ok, err, assertion, aborted}
use anoii.Socket.{failed, gives}
use anoii.Acceptor.{
  Acceptor, Setup, init_acceptor, Arrival, accept_handler, emfile, destruct_acceptor,
}
use anoii.Acceptor.Descriptors.{Holds, ready, Accepts, accept_handler-Accepts}
use anoii.Acceptor.Stale.{stale_channel}
use anoii.UPoll.{PolledChannel}
use anoii.EPoller.{EPoller, set, set_events}
use anoii.EPoller.Registry.{IsRegistry-single}

abbrev listening : Acceptor
listening = record { fd = 4; idle_fd = some 3; opened = 4 ∷ 3 ∷ []; handed = []; strays = [] }

listening-Holds : Holds listening
listening-Holds = ready (omega arith)

abbrev works : Setup
works = record {
  idle = gives 3;
  socket = gives 4;
  reuse_port = gives 0;
  reuse_addr = gives 0;
  bind = gives 0;
  listen = gives 0;
  flags = gives 2;
  stored = gives 0;
}

init_test :
    (init_acceptor works ≡ ok listening)
    × (init_acceptor (record works { bind = failed 98 }) ≡ err aborted)
unfolding init_acceptor
init_test = (refl, refl)

-- A connection comes when the process has no descriptor left.
abbrev crowded : Arrival
crowded = record {
  first = failed emfile;
  second = gives 3;
  reopened = gives 3;
  flags = gives 2;
  stored = gives 0;
}

crowded_test :
    (accept_handler crowded listening ≡ ok listening)
    × ((accept_handler (record crowded { first = gives 9 }) listening)
        ≡ ok (record listening { handed = 9 ∷ [] }))
unfolding accept_handler
crowded_test = (refl, refl)

accept_handler-Accepts_example : Accepts crowded [] listening (accept_handler crowded listening)
accept_handler-Accepts_example =
    accept_handler-Accepts crowded listening-Holds (omega arith) (λ full. inr refl)

abbrev listener : PolledChannel
listener = record { fd = 4; index = some 1; events = 3 }

abbrev one_listener : EPoller
one_listener = record {
  fd_channels = set 4 (some 70) (λ fd. none);
  channels = set 70 (some listener) (λ ch. none);
  calls = [];
}

stale_channel_example :
    (a' : Acceptor) × (p' : EPoller) × (destruct_acceptor 70 listening one_listener ≡ ok (a', p'))
    × (a'.opened ≡ [])
    × (a'.strays ≡ [])
    × ((dh events : ℕ) (d : PolledChannel)
        → d.fd ≡ 4
        → d.index ≡ none
        → set_events dh events (record p' { channels = set dh (some d) p'.channels })
          ≡ err assertion)
stale_channel_example =
    stale_channel listening-Holds refl (IsRegistry-single 70 listener [] refl) refl refl
