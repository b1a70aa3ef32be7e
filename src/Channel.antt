-- ===== src/Channel.antt =====
-- src/include/channel.h and src/channel.cc: the events that a descriptor waits for, and the dispatch
-- of those that came.
use anoii.Prelude.{
  ℕ, zero, suc, ◌+◌, ◌-◌, ◌*◌, ◌≤◌, ◌<◌, ◌≡◌, ◌≢◌, ◌↔◌, ◌⊎◌, inl, inr, refl, sym, ap, ◌∙◌, Bool,
  true, false, not, ◌&&◌, ◌||◌, Bool-cases, Option-cases, Option, none, some, List, [], ◌∷◌, ◌++◌,
  arith, ltb, leb, ◌==◌, if◌then◌else◌, length, take, drop, length-append, length-take, length-drop,
  Result, ok, err, Fault, assertion, out_of_bounds, thrown, aborted, assert, ◌>>=◌, ◌>>◌,
  bind-eq-ok,
}
mod Dispatch

-- `events_`, flag by flag; `kReadEvent` is POLLIN and POLLPRI, `kWriteEvent` is POLLOUT.
pub record Events : Type 0 where
  pub pollin : Bool
  pub pollpri : Bool
  pub pollout : Bool

abbrev pub no_event : Events
no_event = record { pollin = false; pollpri = false; pollout = false }

-- `registered` tells that the poller has the channel: `index_in_poller_` is then not -1.
pub record Channel : Type 0 where
  pub events : Events
  pub registered : Bool
  pub is_handling_events : Bool

-- `Update`: both pollers add a channel that they do not have.
abbrev pub update : Channel → Channel
update ch = record ch { registered = true }

abbrev pub enable_read : Channel → Channel
enable_read ch = update (record ch { events = record ch.events { pollin = true; pollpri = true } })

abbrev pub disable_read : Channel → Channel
disable_read ch =
    update (record ch { events = record ch.events { pollin = false; pollpri = false } })

abbrev pub enable_write : Channel → Channel
enable_write ch = update (record ch { events = record ch.events { pollout = true } })

abbrev pub disable_write : Channel → Channel
disable_write ch = update (record ch { events = record ch.events { pollout = false } })

abbrev pub disable_all : Channel → Channel
disable_all ch = update (record ch { events = no_event })

abbrev pub has_events : Channel → Bool
has_events ch = ch.events.pollin || (ch.events.pollpri || ch.events.pollout)

-- `RemoveChannel` of either poller.
abbrev pub remove_channel : Channel → Result Channel
remove_channel ch =
    if ch.registered
    then (do assert (not (has_events ch)); ok (record ch { registered = false }))
    else ok ch

-- `~Channel`.
abbrev pub destroy_channel : Channel → Result (Unit {0})
destroy_channel ch = assert (not (has_events ch)) >> assert (not ch.is_handling_events)

-- `revents_`, flag by flag.
pub record Received : Type 0 where
  pub pollin : Bool
  pub pollpri : Bool
  pub pollout : Bool
  pub pollerr : Bool
  pub pollhup : Bool
  pub pollnval : Bool
  pub pollrdnorm : Bool
  pub pollrdband : Bool
  pub pollwrnorm : Bool
  pub pollwrband : Bool

abbrev pub quiet : Received
quiet = record {
  pollin = false;
  pollpri = false;
  pollout = false;
  pollerr = false;
  pollhup = false;
  pollnval = false;
  pollrdnorm = false;
  pollrdband = false;
  pollwrnorm = false;
  pollwrband = false;
}

-- The callbacks, on the state `S` of the object that owns the channel. `none` is one that is not set.
pub record Callbacks (S : Type 0) : Type 0 where
  pub read_cb : Option (S → Result S)
  pub write_cb : Option (S → Result S)
  pub error_cb : Option (S → Result S)
  pub close_cb : Option (S → Result S)

abbrev pub readable : Received → Bool
readable r = r.pollin || (r.pollpri || (r.pollrdnorm || r.pollrdband))

abbrev pub writable : Received → Bool
writable r = r.pollout || (r.pollwrnorm || r.pollwrband)

abbrev pub failing : Received → Bool
failing r = r.pollerr || r.pollnval

-- `if (revents_ & flags) { if (cb_) cb_(); }`
abbrev pub call_if : {S : Type 0} → Bool → Option (S → Result S) → S → Result S
call_if false cb s = ok s
call_if true none s = ok s
call_if true (some cb) s = cb s

-- `Handle`. `set` stores `is_handling_events_` in the owner's state.
unfoldable pub handle : {S : Type 0} → (Bool → S → S) → Callbacks S → Received → S → Result S
handle set cbs revents s = do
  s ← call_if (readable revents) cbs.read_cb (set true s)
  s ← call_if (writable revents) cbs.write_cb s
  s ← call_if (failing revents) cbs.error_cb s
  s ← call_if revents.pollhup cbs.close_cb s
  ok (set false s)
