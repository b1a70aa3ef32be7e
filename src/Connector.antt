-- ===== src/Connector.antt =====
-- src/connector.cc and src/include/connector.h: connecting, with retries. What the kernel answers is
-- an argument. `opened` are the sockets that are open and not handed on, `registered` is the
-- descriptor under which the poller has the channel.
use anoii.Prelude.{
  mem, ℕ, zero, suc, ◌+◌, ◌-◌, ◌*◌, ◌≤◌, ◌<◌, ◌≡◌, ◌≢◌, ◌↔◌, ◌⊎◌, inl, inr, refl, sym, ap, ◌∙◌,
  Bool, true, false, not, ◌&&◌, ◌||◌, Bool-cases, Option-cases, Option, none, some, List, [], ◌∷◌,
  ◌++◌, arith, ltb, leb, ◌==◌, if◌then◌else◌, length, take, drop, length-append, length-take,
  length-drop, Result, ok, err, Fault, assertion, out_of_bounds, thrown, aborted, assert, ◌>>=◌,
  ◌>>◌, bind-eq-ok,
}
pub mod Backoff
pub mod Sockets
mod Tests

pub data State : Type 0 where
  connecting disconnected connected : State

pub record Connector : Type 0 where
  pub fd : Option ℕ
  pub retry_ms : ℕ
  pub state : State
  -- Whether the retry timer is set.
  pub timer : Bool
  pub registered : Option ℕ
  pub opened : List ℕ
  pub handed : List ℕ
  -- How many calls of `Channel::Reset` on its channel are queued in the loop.
  pub resets : ℕ

abbrev pub fresh_connector : Connector
fresh_connector = record {
  fd = none;
  retry_ms = 500;
  state = connecting;
  timer = false;
  registered = none;
  opened = [];
  handed = [];
  resets = 0;
}

unfoldable pub remove_fd : ℕ → List ℕ → List ℕ
remove_fd fd [] = []
remove_fd fd (x ∷ xs) = if x == fd then xs else x ∷ remove_fd fd xs

-- `::close(fd_); fd_ = -1;`
unfoldable pub close_fd : Connector → Connector
unfolding remove_fd
close_fd c = elim c.fd [
  | none ↦ c
  | some fd ↦ record c { fd = none; opened = remove_fd fd c.opened }
]

-- `UpdateChannel` of the poller: a channel that it has must have kept its descriptor.
unfoldable pub update_channel : ℕ → Connector → Result Connector
update_channel fd c = elim c.registered [
  | none ↦ ok (record c { registered = some fd })
  | some known ↦ do assert (known == fd); ok c
]

unfoldable pub start_connecting : Connector → Result Connector
unfolding update_channel
start_connecting c = elim c.fd [
  | none ↦ err assertion
  | some fd ↦ update_channel fd (record c { state = connecting })
]

abbrev pub next_delay : ℕ → ℕ
next_delay ms = if ltb (30 * 1000) (ms * 2) then 30 * 1000 else ms * 2

unfoldable pub retry : Connector → Connector
retry c = record c {
  timer = if c.retry_ms == 500 then true else c.timer;
  retry_ms = next_delay c.retry_ms;
}

-- EAFNOSUPPORT, EBADF, ENOTSOCK, EPROTOTYPE, ENOENT, ENOTDIR, EACCES, EINVAL, ELOOP, ENAMETOOLONG,
-- ENOBUFS, EOPNOTSUPP and EIO.
abbrev pub hopeless_errors : List ℕ
hopeless_errors = 97 ∷ 9 ∷ 88 ∷ 91 ∷ 2 ∷ 20 ∷ 13 ∷ 22 ∷ 40 ∷ 36 ∷ 105 ∷ 95 ∷ 5 ∷ []

-- ENETDOWN, EADDRINUSE, EHOSTUNREACH, EADDRNOTAVAIL, ECONNREFUSED, ENETUNREACH, ETIMEDOUT and
-- ECONNRESET.
abbrev pub passing_errors : List ℕ
passing_errors = 100 ∷ 98 ∷ 113 ∷ 99 ∷ 111 ∷ 101 ∷ 110 ∷ 104 ∷ []

-- EISCONN, EALREADY, EINPROGRESS, EINTR, EAGAIN and none.
abbrev pub pending_errors : List ℕ
pending_errors = 106 ∷ 114 ∷ 115 ∷ 4 ∷ 11 ∷ 0 ∷ []

pub data Attempt : Type 0 where
  hopeless passing pending unexpected : Attempt

unfoldable pub classify : ℕ → Attempt
classify e =
    if mem e hopeless_errors
    then hopeless
    else if mem e passing_errors
    then passing
    else if mem e pending_errors
    then pending
    else unexpected

-- Behind `connect`, by the class of its error.
unfoldable pub after_connect : Attempt → Connector → Result Connector
unfolding close_fd retry start_connecting
after_connect hopeless c = ok (close_fd c)
after_connect passing c = ok (retry (close_fd c))
after_connect pending c = start_connecting c
after_connect unexpected c = ok (close_fd c)

-- `sock` is the new socket, `e` the error of `connect`, 0 for none. The descriptor that `fd_` held is
-- overwritten.
unfoldable pub connect_once : ℕ → ℕ → Connector → Result Connector
unfolding after_connect classify
connect_once sock e c =
    after_connect (classify e) (record c { fd = some sock; opened = sock ∷ c.opened })

-- `DisableAll` updates the poller, `RemoveChannel` takes the channel out of it, and `Channel::Reset`
-- is queued.
unfoldable pub remove_and_reset_channel : Connector → Connector
remove_and_reset_channel c = record c { registered = none; resets = suc c.resets }

-- `Channel::Reset`, outside of the dispatch to the channel. Its events are 0 unless the poller has it.
abbrev pub reset_if : Option ℕ → Connector → Result Connector
reset_if none c = ok (record c { resets = c.resets - 1 })
reset_if (some fd) c = err assertion

unfoldable pub reset_channel : Connector → Result Connector
reset_channel c = reset_if c.registered c

-- The queued functors are called.
unfoldable pub reset_times : ℕ → Connector → Result Connector
unfolding reset_channel
reset_times zero c = ok c
reset_times (suc n) c = do c ← reset_channel c; reset_times n c

-- A channel with an index is one that the poller has.
abbrev pub remove_if_watched : Option ℕ → Connector → Connector
remove_if_watched none c = c
remove_if_watched (some fd) c = remove_and_reset_channel c

unfoldable pub stop_in_loop : Connector → Connector
unfolding close_fd remove_and_reset_channel
stop_in_loop c = record (remove_if_watched c.registered (close_fd c)) { timer = false }

unfoldable pub handle_error : Connector → Connector
unfolding close_fd remove_and_reset_channel
handle_error c = elim c.state [
  | connecting ↦ remove_and_reset_channel (close_fd c)
  | disconnected ↦ c
  | connected ↦ c
]

-- `new_conn_cb_(fd_, addr_); fd_ = -1;`
abbrev hand_on : Connector → Connector
hand_on c = elim c.fd [
  | none ↦ c
  | some fd ↦ record c { fd = none; opened = remove_fd fd c.opened; handed = c.handed ++ fd ∷ [] }
]

-- `failed` tells that the socket has an error or is connected to itself.
unfoldable pub handle_write : Bool → Connector → Result Connector
unfolding close_fd remove_and_reset_channel retry remove_fd
handle_write failed c = elim c.state [
  | connecting ↦ ok (
      if failed
      then retry (close_fd (remove_and_reset_channel c))
      else hand_on (remove_and_reset_channel (record c { state = connected; timer = false })))
  | disconnected ↦ ok c
  | connected ↦ err assertion
]
