-- ===== src/EPoller/Polls.antt =====
-- `EPoller::PollUntil` of src/epoller.cc, poll after poll: how many events it takes from `epoll_wait`.
use anoii.Prelude.{
  take-all, ℕ, zero, suc, ◌≤◌, ◌<◌, ◌≡◌, inl, inr, refl, ap, ◌∙◌, true, Bool-cases, Option, none,
  some, List, [], ◌∷◌, ◌++◌, arith, ltb, ◌==◌, if◌then◌else◌, length, take, Result, ok, err,
  aborted, ◌>>=◌,
}
use anoii.Buffer.{same_bytes}
use anoii.Http.Utils.{Bytes}
use anoii.Http.Response.{codes}
use anoii.UPoll.{PolledChannel}
use anoii.EPoller.{EPoller, fill_actived_channels}

-- What `epoll_wait` answers to a list of `size` places: an error, or the events of that many of them,
-- each with the address of its channel.
pub data WaitAnswer : Type 0 where
  fails : WaitAnswer
  answers : List (ℕ × ℕ) → WaitAnswer

-- The list of events has `size` places, 16 at first.
abbrev pub first_size : ℕ
first_size = 16

-- `resize`.
abbrev pub next_size : ℕ → ℕ → ℕ
next_size zero size = size
next_size (suc n) size = if ltb (suc n) size then suc n else size

-- `std::min(num_events, size)` events are taken.
unfoldable pub poll_until : WaitAnswer → ℕ → EPoller → Result (ℕ × List (ℕ × ℕ))
unfolding fill_actived_channels
poll_until fails size p = ok (size, [])
poll_until (answers events) size p = do
  active ← fill_actived_channels (take size events) p
  ok (next_size (length events) size, active)

-- The places behind polls that answered these numbers of events.
abbrev pub sizes : List ℕ → ℕ → ℕ
sizes [] size = size
sizes (n ∷ ns) size = sizes ns (next_size n size)

-- Poll after poll.
unfoldable pub poll_all : List WaitAnswer → ℕ → EPoller → Result (ℕ × List (ℕ × ℕ))
unfolding poll_until
poll_all [] size p = ok (size, [])
poll_all (a ∷ polls) size p = do
  now ← poll_until a size p
  rest ← poll_all polls now.0 p
  ok (rest.0, now.1 ++ rest.1)

abbrev pub events_of : WaitAnswer → List (ℕ × ℕ)
events_of fails = []
events_of (answers events) = events

abbrev pub all_events : List WaitAnswer → List (ℕ × ℕ)
all_events [] = []
all_events (a ∷ polls) = events_of a ++ all_events polls

-- The events are of channels that the poller has.
abbrev pub AreWatched : EPoller → List (ℕ × ℕ) → Type 0
AreWatched p [] = Unit {0}
AreWatched p ((ch, events) ∷ es) =
    ((c : PolledChannel) × (p.channels ch ≡ some c) × (p.fd_channels c.fd ≡ some ch))
    × AreWatched p es

-- `epoll_wait` answers no more events than there are places.
abbrev pub Fits : EPoller → List WaitAnswer → ℕ → Type 0
Fits p [] size = Unit {0}
Fits p (fails ∷ polls) size = Fits p polls size
Fits p (answers events ∷ polls) size =
    (length events ≤ size) × AreWatched p events × Fits p polls (next_size (length events) size)

-- No answer with events had fewer than `size` of them.
abbrev pub NoFewer : ℕ → List WaitAnswer → Type 0
NoFewer size [] = Unit {0}
NoFewer size (fails ∷ polls) = NoFewer size polls
NoFewer size (answers events ∷ polls) =
    (0 < length events → size ≤ length events) × NoFewer size polls

fill-all : (p : EPoller) (es : List (ℕ × ℕ)) → AreWatched p es → fill_actived_channels es p ≡ ok es
unfolding fill_actived_channels
fill-all p [] w = refl
fill-all p ((ch, events) ∷ es) ((c, there, mine), w) =
    let own : (ch == ch) ≡ true = ground arith in simp (there, mine, own, fill-all p es w)

next_size-bounds :
    (n size : ℕ)
    → 0 < size
    → n ≤ size
    → (0 < next_size n size) × (next_size n size ≤ size) × (0 < n → next_size n size ≤ n)
next_size-bounds zero size h l = (h, omega arith, λ k. omega (arith, k))
next_size-bounds (suc n) size h l = elim (Bool-cases (ltb (suc n) size)) [
  | inl less ↦ rw less (omega arith, ground (arith, less), λ k. omega arith)
  | inr same ↦ rw same (h, omega arith, λ k. ground (arith, same))
]

poll_until-takes :
    (p : EPoller) (events : List (ℕ × ℕ)) (size : ℕ)
    → length events ≤ size
    → AreWatched p events
    → poll_until (answers events) size p ≡ ok (next_size (length events) size, events)
unfolding poll_until
poll_until-takes p events size l w =
    ap (λ es. fill_actived_channels es p >>= λ x. ok (next_size (length events) size, x))
      (take-all size events l)
    ∙ ap (λ r. r >>= λ x. ok (next_size (length events) size, x)) (fill-all p events w)

-- Polls whose answers fit in the list of events, all of channels that the poller has, make the
-- channels of all events active, in order, and fail no assertion. The list keeps a place, never
-- grows, and has no more places than any answer with events had of them: once a poll has had one
-- event, each later one takes one event at most.
pub poll_all-Shrinks :
    (p : EPoller) (polls : List WaitAnswer) (size : ℕ)
    → 0 < size
    → Fits p polls size
    → (left : ℕ) × (poll_all polls size p ≡ ok (left, all_events polls))
      × (0 < left)
      × (left ≤ size)
      × NoFewer left polls
unfolding poll_all
poll_all-Shrinks p [] size h f = (size, refl, h, omega arith, tt)
poll_all-Shrinks p (fails ∷ polls) size h f =
    let (left, polled, some_left, less, fewer) = poll_all-Shrinks p polls size h f in
    (left, ap (λ r. r >>= λ rest. ok (rest.0, [] ++ rest.1)) polled, some_left, less, fewer)
poll_all-Shrinks p (answers events ∷ polls) size h (l, w, f) =
    let (positive, bound, least) = next_size-bounds (length events) size h l in
    let (left, polled, some_left, less, fewer) =
      poll_all-Shrinks p polls (next_size (length events) size) positive f in
    (
      left,
      ap (λ r. r >>= λ now. poll_all polls now.0 p >>= λ rest. ok (rest.0, now.1 ++ rest.1))
            (poll_until-takes p events size l w)
          ∙ ap (λ r. r >>= λ rest. ok (rest.0, events ++ rest.1)) polled,
      some_left,
      omega (arith, less, bound),
      ((λ k. omega (arith, less, least k)), fewer),
    )

-- What `PollerFactory` makes.
pub data PollerKind : Type 0 where
  epoll upoll : PollerKind

-- By a name.
by_name : Bytes → Result PollerKind
unfolding same_bytes
by_name poll =
    if same_bytes poll (codes "epoll")
    then ok epoll
    else if same_bytes poll (codes "poll")
    then ok upoll
    else err aborted

-- The name in ANOII_POLL, if there is one, counts only for "default".
by_environment : Option Bytes → Result PollerKind
unfolding by_name
by_environment none = ok epoll
by_environment (some poll) = by_name poll

unfoldable pub poller_factory : Bytes → Option Bytes → Result PollerKind
unfolding by_environment
poller_factory poll anoii_poll =
    if same_bytes poll (codes "default") then by_environment anoii_poll else by_name poll
