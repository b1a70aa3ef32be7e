-- ===== src/TcpClient.antt =====
-- src/tcp_client.cc and src/include/tcp_client.h: a client is a connector, and the connection that
-- the last attempt led to. The client is on the thread of its loop, and no one but the client keeps a
-- pointer to the connection. What the kernel answers is an argument.
pub mod Attempts
pub mod Held
pub mod Connecting
pub mod Calls
pub mod Lifetime
mod Tests
use anoii.Prelude.{
  ℕ, zero, suc, ◌+◌, ◌-◌, ◌*◌, ◌≤◌, ◌<◌, ◌≡◌, ◌≢◌, ◌↔◌, ◌⊎◌, inl, inr, refl, sym, ap, ◌∙◌, Bool,
  true, false, not, ◌&&◌, ◌||◌, Bool-cases, Option-cases, Option, none, some, List, [], ◌∷◌, ◌++◌,
  arith, ltb, leb, ◌==◌, if◌then◌else◌, length, take, drop, length-append, length-take, length-drop,
  Result, ok, err, Fault, assertion, out_of_bounds, thrown, aborted, assert, ◌>>=◌, ◌>>◌,
  bind-eq-ok,
}
use anoii.Buffer.{Reading}
use anoii.Channel
use anoii.Channel.{call_if}
use anoii.Connector
use anoii.Connector.{fresh_connector, connect_once, stop_in_loop, reset_times}
use anoii.TcpConnection.{
  TcpConnection, ConnState, connecting, established, half_shutdown, disconnected, Written,
  init_connection, on_established, handle_events, send, shutdown, destruct,
}
use anoii.TcpServer.{Arrived}

pub record TcpClient : Type 0 where
  pub connector : Connector.Connector
  pub retry : Bool
  pub conn : Option TcpConnection

-- What the kernel answers to an attempt: the new socket, and the error of `connect`.
pub record Attempt : Type 0 where
  pub sock : ℕ
  pub error : ℕ

-- A new connector, which starts at once; the one before stops in its destructor.
unfoldable pub start : Attempt → TcpClient → Result TcpClient
unfolding connect_once
start a client = do
  connector ← connect_once a.sock a.error fresh_connector
  ok (record client { connector = connector })

unfoldable pub init_client : Attempt → Result TcpClient
unfolding start
init_client a = start a (record { connector = fresh_connector; retry = false; conn = none })

-- The last pointer to a connection goes.
unfoldable pub release : Option TcpConnection → Result (Unit {0})
unfolding destruct
release none = ok tt
release (some conn) = destruct conn

-- `NewConnection`: the connection before is destroyed when the new one takes its place.
unfoldable pub new_connection : TcpClient → Result TcpClient
unfolding release init_connection on_established
new_connection client = do
  conn ← init_connection
  _ ← release client.conn
  conn ← on_established conn
  ok (record client { conn = some conn })

-- `HandleWrite` of the connector, which calls `NewConnection` when it hands its socket on.
unfoldable pub connector_write : Bool → TcpClient → Result TcpClient
unfolding new_connection
connector_write is_failed client = do
  connector ← Connector.handle_write is_failed client.connector
  let client' = record client { connector = connector }
  if ltb (length client.connector.handed) (length connector.handed)
      then new_connection client'
      else ok client'

abbrev pub connector_error : TcpClient → Result TcpClient
connector_error client = ok (record client { connector = Connector.handle_error client.connector })

-- The dispatch to the channel of the connector.
unfoldable pub connector_events : Bool → Bool → Bool → TcpClient → Result TcpClient
unfolding connector_write
connector_events writable failing is_failed client = do
  client ← call_if writable (some (connector_write is_failed)) client
  call_if failing (some connector_error) client

-- The destructor of a connector stops it. A queued `Channel::Reset` would be called on a channel that
-- is gone.
unfoldable pub drop_connector : Connector.Connector → Result (Unit {0})
unfolding stop_in_loop
drop_connector c = if (stop_in_loop c).resets == 0 then ok tt else err out_of_bounds

unfoldable pub handle_close : Attempt → TcpClient → Result TcpClient
unfolding start drop_connector
handle_close a client =
    if client.retry then (do _ ← drop_connector client.connector; start a client) else ok client

-- `HandleClose` of the connection calls the close callback when it stores kDisconnected.
unfoldable pub keep_or_close : ConnState → Attempt → TcpClient → Result TcpClient
unfolding handle_close
keep_or_close disconnected a client = handle_close a client
keep_or_close connecting a client = ok client
keep_or_close established a client = ok client
keep_or_close half_shutdown a client = ok client

unfoldable pub dispatch_conn : TcpConnection → Arrived → Attempt → TcpClient → Result TcpClient
unfolding handle_events keep_or_close
dispatch_conn conn e a client = do
  conn ← handle_events e.spare e.reading e.result e.revents conn
  keep_or_close conn.state a (record client { conn = some conn })

-- A closed connection is out of the poller.
unfoldable pub if_open :
    ConnState → TcpConnection → Arrived → Attempt → TcpClient → Result TcpClient
unfolding dispatch_conn
if_open disconnected conn e a client = ok client
if_open connecting conn e a client = dispatch_conn conn e a client
if_open established conn e a client = dispatch_conn conn e a client
if_open half_shutdown conn e a client = dispatch_conn conn e a client

unfoldable pub conn_events : Option TcpConnection → Arrived → Attempt → TcpClient → Result TcpClient
unfolding if_open
conn_events none e a client = ok client
conn_events (some conn) e a client = if_open conn.state conn e a client

unfoldable pub change :
    Option TcpConnection → (TcpConnection → Result TcpConnection) → TcpClient → Result TcpClient
change none f client = ok client
change (some conn) f client = do conn ← f conn; ok (record client { conn = some conn })

-- What happens to a client on the thread of its loop: `resets` are the queued functors of its
-- connector, which the loop calls at the end of a round. A timer that is cancelled does not fire.
pub data Act : Type 0 where
  set_retry : Bool → Act
  connects : (writable failing is_failed : Bool) → Act
  times_out : Attempt → Act
  arrives : Arrived → Attempt → Act
  sends : (spare : ℕ) (result : Written) (bytes : List ℕ) → Act
  shuts : Act
  resets : Act

retry_timer : Bool → Attempt → TcpClient → Result TcpClient
retry_timer false a client = ok client
retry_timer true a client = do
  connector ← connect_once a.sock a.error client.connector
  ok (record client { connector = connector })

-- The channel of the connector has events only while the poller has it.
watched : Option ℕ → Bool → Bool → Bool → TcpClient → Result TcpClient
watched none writable failing is_failed client = ok client
watched (some fd) writable failing is_failed client =
    connector_events writable failing is_failed client

unfoldable pub act : Act → TcpClient → Result TcpClient
unfolding retry_timer watched connector_events conn_events change reset_times
act (set_retry retry) client = ok (record client { retry = retry })
act (connects writable failing is_failed) client =
    watched client.connector.registered writable failing is_failed client
act (times_out a) client = retry_timer client.connector.timer a client
act (arrives e a) client = conn_events client.conn e a client
act (sends spare result bytes) client = change client.conn (send spare result bytes) client
act shuts client = change client.conn (λ conn. ok (shutdown conn)) client
act resets client = do
  connector ← reset_times client.connector.resets client.connector
  ok (record client { connector = connector })

unfoldable pub run : List Act → TcpClient → Result TcpClient
unfolding act
run [] client = ok client
run (a ∷ acts) client = do client ← act a client; run acts client

-- `~TcpClient`: the connection goes first, and then the connector, which stops.
unfoldable pub destruct_client : TcpClient → Result Connector.Connector
unfolding release stop_in_loop
destruct_client client = do _ ← release client.conn; ok (stop_in_loop client.connector)
