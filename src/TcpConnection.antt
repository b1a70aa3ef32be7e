-- ===== src/TcpConnection.antt =====
-- src/tcp_connection.cc and src/include/tcp_connection.h: one connection, on the loop's own thread.
-- What the kernel and the user's callbacks do is an argument or is noted in the state: `written` holds
-- the bytes that `write` took, `shut` tells that `shutdown(fd_, SHUT_WR)` was called, and
-- `calls` the callbacks that were called or queued, the last one first.
pub mod Sound
pub mod Holding
pub mod Sending
pub mod Closing
pub mod Writing
pub mod Flushing
pub mod Events
pub mod Reach
pub mod Destroying
pub mod Staying
mod Tests
use anoii.Prelude.{
  ℕ, zero, suc, ◌+◌, ◌-◌, ◌*◌, ◌≤◌, ◌<◌, ◌≡◌, ◌≢◌, ◌↔◌, ◌⊎◌, inl, inr, refl, sym, ap, ◌∙◌, Bool,
  true, false, not, ◌&&◌, ◌||◌, Bool-cases, Option-cases, Option, none, some, List, [], ◌∷◌, ◌++◌,
  arith, ltb, leb, ◌==◌, if◌then◌else◌, length, take, drop, length-append, length-take, length-drop,
  Result, ok, err, Fault, assertion, out_of_bounds, thrown, aborted, assert, ◌>>=◌, ◌>>◌,
  bind-eq-ok,
}
use anoii.Buffer
use anoii.Buffer.{Buffer, Reading, errno, count, contents, init, append, pop, read_fd, is_empty}
use anoii.Channel.{
  destroy_channel, Channel, Received, Callbacks, no_event, enable_read, enable_write, disable_write,
  disable_all, remove_channel, handle,
}

pub data ConnState : Type 0 where
  connecting established half_shutdown disconnected : ConnState

pub data Call : Type 0 where
  conn_cb : ConnState → Call
  readable_cb close_cb watermark_cb write_cb_queued wake_up : Call

pub record TcpConnection : Type 0 where
  pub state : ConnState
  pub channel : Channel
  pub input : Buffer
  pub output : Buffer
  pub watermark : ℕ
  pub written : List ℕ
  pub shut : Bool
  pub calls : List Call

-- What `write` of `size` bytes answers: an error number, or how many bytes it took.
pub data Written : Type 0 where
  refused : ℕ → Written
  took : ℕ → Written

-- EAGAIN, which EWOULDBLOCK is too.
abbrev pub eagain : ℕ
eagain = 11

abbrev call : Call → TcpConnection → TcpConnection
call c conn = record conn { calls = c ∷ conn.calls }

-- The constructor. Setting the readable callback enables reading.
unfoldable pub init_connection : Result TcpConnection
unfolding init
init_connection = do
  input ← init 1024 0
  output ← init 1024 8
  ok (record {
    state = connecting;
    channel =
        enable_read (record { events = no_event; registered = false; is_handling_events = false });
    input = input;
    output = output;
    watermark = 1024 * 1024 * 1024;
    written = [];
    shut = false;
    calls = [];
  })

unfoldable pub on_established : TcpConnection → Result TcpConnection
on_established conn = elim conn.state [
  | connecting ↦ ok (call (conn_cb established) (record conn { state = established }))
  | established ↦ err assertion
  | half_shutdown ↦ err assertion
  | disconnected ↦ err assertion
]

close : TcpConnection → Result TcpConnection
close conn = do
  channel ← remove_channel (disable_all conn.channel)
  let conn = record conn { channel = channel; state = disconnected }
  ok (call close_cb (call (conn_cb disconnected) conn))

unfoldable pub handle_close : TcpConnection → Result TcpConnection
unfolding close
handle_close conn = elim conn.state [
  | disconnected ↦ ok conn
  | connecting ↦ err assertion
  | established ↦ close conn
  | half_shutdown ↦ close conn
]

-- Only logs.
abbrev pub handle_error : TcpConnection → Result TcpConnection
handle_error conn = ok conn

after_read : Buffer.Received → TcpConnection → Result TcpConnection
unfolding handle_close
after_read (errno e) conn = handle_error conn
after_read (count zero) conn = handle_close conn
after_read (count (suc n)) conn = ok (call readable_cb conn)

-- The callback finds the bytes in the input buffer.
unfoldable pub handle_read : ℕ → Reading → TcpConnection → Result TcpConnection
unfolding read_fd after_read
handle_read spare reading conn = do
  r ← read_fd spare reading conn.input
  after_read r.1 (record conn { input = r.0 })

unfoldable pub shutdown_unsafe : TcpConnection → TcpConnection
shutdown_unsafe conn = if conn.channel.events.pollout then conn else record conn { shut = true }

unfoldable pub shutdown : TcpConnection → TcpConnection
unfolding shutdown_unsafe
shutdown conn = elim conn.state [
  | established ↦ shutdown_unsafe (record conn { state = half_shutdown })
  | connecting ↦ conn
  | half_shutdown ↦ conn
  | disconnected ↦ conn
]

-- Behind the write that emptied the output buffer.
drained : TcpConnection → TcpConnection
unfolding shutdown_unsafe
drained conn =
    let conn = call write_cb_queued (record conn { channel = disable_write conn.channel }) in
    elim conn.state [
      | half_shutdown ↦ shutdown_unsafe conn
      | connecting ↦ conn
      | established ↦ conn
      | disconnected ↦ conn
    ]

-- `result` is what the kernel answers to the write of all that the output buffer holds.
after_write : Written → TcpConnection → Result TcpConnection
unfolding drained
after_write (refused e) conn = ok conn
after_write (took n) conn =
    if leb n (conn.output.tail - conn.output.head)
    then (do
      output ← pop n conn.output
      let conn = record conn {
        output = output;
        written = conn.written ++ take n (contents conn.output);
      }
      ok (if is_empty output then drained conn else conn))
    else ok conn

unfoldable pub handle_write : Written → TcpConnection → Result TcpConnection
unfolding after_write
handle_write result conn = do assert conn.channel.is_handling_events; after_write result conn

abandon : TcpConnection → TcpConnection
abandon conn = elim conn.state [
  | established ↦ record conn { state = disconnected; channel = disable_all conn.channel }
  | connecting ↦ conn
  | half_shutdown ↦ conn
  | disconnected ↦ conn
]

unfoldable pub destroy_connection : TcpConnection → Result TcpConnection
unfolding abandon
destroy_connection conn =
    let conn = abandon conn in
    do channel ← remove_channel conn.channel; ok (record conn { channel = channel })

-- `~TcpConnection`, and `~Channel` behind it.
unfoldable pub destruct : TcpConnection → Result (Unit {0})
destruct conn = elim conn.state [
  | disconnected ↦ destroy_channel conn.channel
  | connecting ↦ err assertion
  | established ↦ err assertion
  | half_shutdown ↦ err assertion
]

-- Appending to the output buffer what is to be written later; `spare` is what `resize` adds.
hold : ℕ → List ℕ → TcpConnection → Result TcpConnection
hold spare bytes conn = do
  output ← append spare bytes conn.output
  ok (record conn { output = output; channel = enable_write conn.channel })

check_watermark : TcpConnection → TcpConnection
check_watermark conn =
    if leb conn.watermark (conn.output.tail - conn.output.head)
    then call watermark_cb conn
    else conn

-- Behind a write of `data` that took `n` bytes.
pub send_rest : ℕ → ℕ → List ℕ → TcpConnection → Result TcpConnection
unfolding hold check_watermark
send_rest spare n bytes conn =
    let conn = record conn { written = conn.written ++ take n bytes } in
    if ltb n (length bytes)
    then (do conn ← hold spare (drop n bytes) conn; ok (check_watermark conn))
    else ok (check_watermark (call wake_up (call write_cb_queued conn)))

send_now : ℕ → Written → List ℕ → TcpConnection → Result TcpConnection
unfolding send_rest
send_now spare (refused e) bytes conn =
    if e == eagain then send_rest spare 0 bytes conn else ok conn
send_now spare (took n) bytes conn = send_rest spare n bytes conn

-- `result` is what the kernel answers to the write of `data`, if there is one.
unfoldable pub send_unsafe : ℕ → Written → List ℕ → TcpConnection → Result TcpConnection
unfolding hold check_watermark send_now
send_unsafe spare result bytes conn =
    if conn.channel.events.pollout
    then (do output ← append spare bytes conn.output; ok (record conn { output = output }))
    else if is_empty conn.output
    then send_now spare result bytes conn
    else (do conn ← hold spare bytes conn; ok (check_watermark conn))

-- On the loop's thread `RunInLoop` calls at once.
unfoldable pub send : ℕ → Written → List ℕ → TcpConnection → Result TcpConnection
unfolding send_unsafe
send spare result bytes conn = elim conn.state [
  | established ↦ send_unsafe spare result bytes conn
  | connecting ↦ ok conn
  | half_shutdown ↦ ok conn
  | disconnected ↦ ok conn
]

-- The callbacks that the constructor gives to the channel, with the kernel's answers.
abbrev set_handling : Bool → TcpConnection → TcpConnection
set_handling b conn = record conn { channel = record conn.channel { is_handling_events = b } }

abbrev callbacks : ℕ → Reading → Written → Callbacks TcpConnection
callbacks spare reading result = record {
  read_cb = some (handle_read spare reading);
  write_cb = some (handle_write result);
  error_cb = some handle_error;
  close_cb = some handle_close;
}

unfoldable pub handle_events :
    ℕ → Reading → Written → Received → TcpConnection → Result TcpConnection
unfolding handle handle_read handle_write handle_close
handle_events spare reading result revents conn =
    handle set_handling (callbacks spare reading result) revents conn
