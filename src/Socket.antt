-- ===== src/Socket.antt =====
-- src/socket.cc: the options of a descriptor. What the kernel answers to a call is an argument, and
-- so is what it stored.
use anoii.Prelude.{
  ℕ, zero, suc, ◌+◌, ◌-◌, ◌*◌, ◌≤◌, ◌<◌, ◌≡◌, ◌≢◌, ◌↔◌, ◌⊎◌, inl, inr, refl, sym, ap, ◌∙◌, Bool,
  true, false, not, ◌&&◌, ◌||◌, Bool-cases, Option-cases, Option, none, some, List, [], ◌∷◌, ◌++◌,
  arith, ltb, leb, ◌==◌, if◌then◌else◌, length, take, drop, length-append, length-take, length-drop,
  Result, ok, err, Fault, assertion, out_of_bounds, thrown, aborted, assert, ◌>>=◌, ◌>>◌,
  bind-eq-ok, bit_or,
}
mod Tests

-- An error number, or the value that the call gives.
pub data Answer : Type 0 where
  failed : ℕ → Answer
  gives : ℕ → Answer

-- `FatalIf(v, …)`, which aborts.
abbrev pub fatal_if : Bool → Result (Unit {0})
fatal_if true = err aborted
fatal_if false = ok tt

abbrev pub is_failed : Answer → Bool
is_failed (failed e) = true
is_failed (gives n) = false

-- `getsockopt` of SO_ERROR.
unfoldable pub get_sock_error : Answer → ℕ
get_sock_error (failed e) = e
get_sock_error (gives optval) = optval

-- TCP_NODELAY of a socket.
pub record SocketOptions : Type 0 where
  pub tcp_nodelay : ℕ
  pub so_keepalive : ℕ

-- `setsockopt` of TCP_NODELAY stores the value unless it fails, and returns 0 unless it fails.
abbrev set_nodelay : ℕ → Answer → SocketOptions → SocketOptions
set_nodelay optval (failed e) o = o
set_nodelay optval (gives n) o = record o { tcp_nodelay = optval }

-- The options behind the call: the guard is `err == 0`.
unfoldable pub set_tcp_no_delay : Answer → SocketOptions → Result SocketOptions
set_tcp_no_delay answer o = do
  let o' = set_nodelay 0 answer o
  fatal_if (not (is_failed answer))
  ok o'

-- This one names TCP_NODELAY too.
unfoldable pub set_tcp_keey_alive : Answer → SocketOptions → Result SocketOptions
set_tcp_keey_alive answer o = do
  let o' = set_nodelay 1 answer o
  fatal_if (not (is_failed answer))
  ok o'

abbrev pub o_nonblock : ℕ
o_nonblock = 0x800

abbrev pub o_cloexec : ℕ
o_cloexec = 0x80000

-- `flags` answers F_GETFL, `stored` answers F_SETFL; the result is what F_SETFL was asked to store.
unfoldable pub set_close_exec_non_block : Answer → Answer → Result ℕ
set_close_exec_non_block (failed e) stored = err aborted
set_close_exec_non_block (gives flags) stored = do
  fatal_if (is_failed stored)
  ok (bit_or flags (bit_or o_nonblock o_cloexec))
