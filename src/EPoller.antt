-- ===== src/EPoller.antt =====
-- src/epoller.cc: the poller over `epoll`. A `Channel*` is an address, and `channels` is what the
-- addresses hold; `fd_channels` is the map from descriptors to addresses. `calls` are the calls of
-- `epoll_ctl`, whose failure is only logged. An index of -1 is `none`.
use anoii.Prelude.{
  ℕ, zero, suc, ◌+◌, ◌-◌, ◌*◌, ◌≤◌, ◌<◌, ◌≡◌, ◌≢◌, ◌↔◌, ◌⊎◌, inl, inr, refl, sym, ap, ◌∙◌, Bool,
  true, false, not, ◌&&◌, ◌||◌, Bool-cases, Option-cases, Option, none, some, List, [], ◌∷◌, ◌++◌,
  arith, ltb, leb, ◌==◌, if◌then◌else◌, length, take, drop, length-append, length-take, length-drop,
  Result, ok, err, Fault, assertion, out_of_bounds, thrown, aborted, assert, ◌>>=◌, ◌>>◌,
  bind-eq-ok,
}
use anoii.UPoll.{PolledChannel, need}
pub mod Registry
pub mod Updates
pub mod Removal
pub mod Polls
mod Tests

pub data Operation : Type 0 where
  ctl_add ctl_mod ctl_del : Operation

pub record EpollCtl : Type 0 where
  pub operation : Operation
  pub fd : ℕ
  pub events : ℕ

pub record EPoller : Type 0 where
  pub fd_channels : ℕ → Option ℕ
  pub channels : ℕ → Option PolledChannel
  pub calls : List EpollCtl

-- A map with another value, or none, at a key.
abbrev pub set : {V : Type 0} → ℕ → Option V → (ℕ → Option V) → ℕ → Option V
set k v m j = if j == k then v else m j

abbrev is_one : Option ℕ → Bool
is_one none = false
is_one (some i) = i == 1

abbrev epoll_update : Operation → PolledChannel → ℕ → EPoller → EPoller
epoll_update op c events p = record p {
  calls = p.calls ++ record { operation = op; fd = c.fd; events = events } ∷ [];
}

-- The channel is the one at the address `ch`.
unfoldable pub update_channel : ℕ → EPoller → Result EPoller
update_channel ch p = do
  c ← need out_of_bounds (p.channels ch)
  elim c.index [
    | none ↦ elim (p.fd_channels c.fd) [
      | some other ↦ err assertion
      | none ↦ ok (record (epoll_update ctl_add c c.events p) {
        channels = set ch (some (record c { index = some 1 })) p.channels;
        fd_channels = set c.fd (some ch) p.fd_channels;
      })
    ]
    | some i ↦ do
      known ← need assertion (p.fd_channels c.fd)
      assert (i == 1)
      assert (ch == known)
      ok (epoll_update ctl_mod c c.events p)
  ]

unfoldable pub remove_channel : ℕ → EPoller → Result (EPoller × Bool)
remove_channel ch p = do
  c ← need out_of_bounds (p.channels ch)
  elim (p.fd_channels c.fd) [
    | none ↦ ok (p, false)
    | some known ↦ do
      assert (known == ch)
      assert (c.events == 0)
      assert (is_one c.index)
      ok (
        record (epoll_update ctl_del c 0 p) {
          channels = set ch (some (record c { index = none })) p.channels;
          fd_channels = set c.fd none p.fd_channels;
        },
        true,
      )
  ]

-- A channel of that index, and what the map has at its descriptor.
unfoldable pub present : ℕ → Option ℕ → Option ℕ → Result Bool
present ch none none = ok false
present ch (some i) none = err assertion
present ch index (some known) = do assert (is_one index); assert (ch == known); ok true

unfoldable pub has_channel : ℕ → EPoller → Result Bool
unfolding present
has_channel ch p = do
  c ← need out_of_bounds (p.channels ch)
  present ch c.index (p.fd_channels c.fd)

-- `FillActivedChannels`: the addresses, as they came in `data.ptr`, with the events that came.
unfoldable pub fill_actived_channels : List (ℕ × ℕ) → EPoller → Result (List (ℕ × ℕ))
fill_actived_channels [] p = ok []
fill_actived_channels ((ch, events) ∷ es) p = do
  c ← need out_of_bounds (p.channels ch)
  known ← need assertion (p.fd_channels c.fd)
  assert (known == ch)
  rest ← fill_actived_channels es p
  ok ((ch, events) ∷ rest)

-- `events_` of a channel is changed, and then `Update` is called.
unfoldable pub set_events : ℕ → ℕ → EPoller → Result EPoller
unfolding update_channel
set_events ch events p = do
  c ← need out_of_bounds (p.channels ch)
  update_channel ch
      (record p { channels = set ch (some (record c { events = events })) p.channels })
