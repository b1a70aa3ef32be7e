-- ===== src/Acceptor.antt =====
-- src/acceptor.cc: the listening socket, and a spare descriptor for when the process has no other
-- left. What the kernel answers is an argument. `opened` are the descriptors that the acceptor has
-- open, `handed` those that it passed on, and `strays` the numbers that it closed without having them
-- open, which may be a descriptor of another part of the program.
pub mod Descriptors
pub mod Strays
pub mod Stale
mod Tests
use anoii.Prelude.{
  mem, ℕ, zero, suc, ◌+◌, ◌-◌, ◌*◌, ◌≤◌, ◌<◌, ◌≡◌, ◌≢◌, ◌↔◌, ◌⊎◌, inl, inr, refl, sym, ap, ◌∙◌,
  Bool, true, false, not, ◌&&◌, ◌||◌, Bool-cases, Option-cases, Option, none, some, List, [], ◌∷◌,
  ◌++◌, arith, ltb, leb, ◌==◌, if◌then◌else◌, length, take, drop, length-append, length-take,
  length-drop, Result, ok, err, Fault, assertion, out_of_bounds, thrown, aborted, assert, ◌>>=◌,
  ◌>>◌, bind-eq-ok,
}
use anoii.Connector.{remove_fd}
use anoii.EPoller.{EPoller, set_events}
use anoii.Socket.{Answer, failed, gives, fatal_if, is_failed, set_close_exec_non_block}

pub record Acceptor : Type 0 where
  pub fd : ℕ
  -- `none` is -1.
  pub idle_fd : Option ℕ
  pub opened : List ℕ
  pub handed : List ℕ
  pub strays : List ℕ

-- `::close`. Closing -1 fails, and the code does not look.
unfoldable pub close : Option ℕ → Acceptor → Acceptor
unfolding remove_fd
close none a = a
close (some fd) a =
    if mem fd a.opened
    then record a { opened = remove_fd fd a.opened }
    else record a { strays = a.strays ++ fd ∷ [] }

-- What the kernel answers to the calls of the constructor.
pub record Setup : Type 0 where
  pub idle : Answer
  pub socket : Answer
  pub reuse_port : Answer
  pub reuse_addr : Answer
  pub bind : Answer
  pub listen : Answer
  pub flags : Answer
  pub stored : Answer

abbrev need : Answer → Result ℕ
need (failed e) = err aborted
need (gives fd) = ok fd

-- The constructor, up to the registration of the channel.
unfoldable pub init_acceptor : Setup → Result Acceptor
unfolding set_close_exec_non_block
init_acceptor s = do
  idle ← need s.idle
  fd ← need s.socket
  fatal_if (is_failed s.reuse_port)
  fatal_if (is_failed s.reuse_addr)
  fatal_if (is_failed s.bind)
  fatal_if (is_failed s.listen)
  _ ← set_close_exec_non_block s.flags s.stored
  ok (record { fd = fd; idle_fd = some idle; opened = fd ∷ idle ∷ []; handed = []; strays = [] })

-- The answers during one `AcceptHandler`: those of the two calls of `accept`, of `open` of the
-- spare descriptor, and of `fcntl`.
pub record Arrival : Type 0 where
  pub first : Answer
  pub second : Answer
  pub reopened : Answer
  pub flags : Answer
  pub stored : Answer

abbrev pub emfile : ℕ
emfile = 24

-- `new_conn_cb_(fd, &addr)`.
abbrev pub pass_on : ℕ → Acceptor → Acceptor
pass_on fd a = record a { handed = a.handed ++ fd ∷ [] }

-- The spare descriptor is opened again; `fd` was accepted in its place, and is closed.
reopen : ℕ → Answer → Acceptor → Acceptor
unfolding close
reopen fd (failed e) a = record (close (some fd) (record a { opened = fd ∷ a.opened })) {
  idle_fd = none;
}
reopen fd (gives idle) a =
    let b = close (some fd) (record a { opened = fd ∷ a.opened }) in
    record b { idle_fd = some idle; opened = b.opened ++ idle ∷ [] }

-- With no descriptor left, the spare one makes room for the connection, which is then closed.
turn_away : Answer → Answer → Acceptor → Acceptor
unfolding close reopen
turn_away (failed e) reopened a = close a.idle_fd a
turn_away (gives fd) reopened a = reopen fd reopened (close a.idle_fd a)

on_accept : Answer → Arrival → Acceptor → Result Acceptor
unfolding turn_away set_close_exec_non_block
on_accept (gives fd) r a = do _ ← set_close_exec_non_block r.flags r.stored; ok (pass_on fd a)
on_accept (failed e) r a = ok (if e == emfile then turn_away r.second r.reopened a else a)

unfoldable pub accept_handler : Arrival → Acceptor → Result Acceptor
unfolding on_accept
accept_handler r a = on_accept r.first r a

unfoldable pub destruct : Acceptor → Acceptor
unfolding close
destruct a = close a.idle_fd (close (some a.fd) a)

-- The destructor, in the poller that has the channel of the acceptor at `ch`.
unfoldable pub destruct_acceptor : ℕ → Acceptor → EPoller → Result (Acceptor × EPoller)
unfolding set_events destruct
destruct_acceptor ch a p = do p ← set_events ch 0 p; ok (destruct a, p)
