-- ===== src/TcpServer.antt =====
-- src/tcp_server.cc and src/include/tcp_server.h: the connections of a server, by their ids. The
-- server is on the thread of its loop; `pedding` are the connections whose `DestroyConnection` is
-- queued in the loop, which the functor keeps alive. The ids do not come to wrap around.
pub mod Tables
pub mod Destruction
pub mod Lifetime
mod Tests
use anoii.Prelude.{
  ℕ, zero, suc, ◌+◌, ◌-◌, ◌*◌, ◌≤◌, ◌<◌, ◌≡◌, ◌≢◌, ◌↔◌, ◌⊎◌, inl, inr, refl, sym, ap, ◌∙◌, Bool,
  true, false, not, ◌&&◌, ◌||◌, Bool-cases, Option-cases, Option, none, some, List, [], ◌∷◌, ◌++◌,
  arith, ltb, leb, ◌==◌, if◌then◌else◌, length, take, drop, length-append, length-take, length-drop,
  Result, ok, err, Fault, assertion, out_of_bounds, thrown, aborted, assert, ◌>>=◌, ◌>>◌,
  bind-eq-ok,
}
use anoii.Buffer.{Reading}
use anoii.Channel
use anoii.UPoll.{find, put, erase}
use anoii.TcpConnection.{
  destruct, TcpConnection, ConnState, connecting, established, half_shutdown, disconnected, Written,
  init_connection, on_established, handle_events, destroy_connection, send, shutdown,
}

pub record TcpServer : Type 0 where
  pub id_conn : List (ℕ × TcpConnection)
  pub pedding : List TcpConnection
  pub next_id : ℕ

abbrev pub no_connections : TcpServer
no_connections = record { id_conn = []; pedding = []; next_id = 0 }

unfoldable pub new_connection : TcpServer → Result TcpServer
unfolding init_connection on_established
new_connection srv = do
  conn ← init_connection
  conn ← on_established conn
  ok (record srv { id_conn = put srv.next_id conn srv.id_conn; next_id = suc srv.next_id })

unfoldable pub remove_connection : ℕ → TcpConnection → TcpServer → TcpServer
remove_connection id conn srv = record srv {
  id_conn = erase id srv.id_conn;
  pedding = srv.pedding ++ conn ∷ [];
}

-- `HandleClose` calls the close callback, which is `RemoveConnection`, when it stores kDisconnected.
unfoldable pub keep_or_remove : ConnState → ℕ → TcpConnection → TcpServer → TcpServer
unfolding remove_connection
keep_or_remove disconnected id conn srv = remove_connection id conn srv
keep_or_remove connecting id conn srv = record srv { id_conn = put id conn srv.id_conn }
keep_or_remove established id conn srv = record srv { id_conn = put id conn srv.id_conn }
keep_or_remove half_shutdown id conn srv = record srv { id_conn = put id conn srv.id_conn }

-- What came for a connection.
pub record Arrived : Type 0 where
  pub spare : ℕ
  pub reading : Reading
  pub result : Written
  pub revents : Channel.Received

unfoldable pub dispatch_at : Option TcpConnection → ℕ → Arrived → TcpServer → Result TcpServer
unfolding handle_events keep_or_remove
dispatch_at none id a srv = ok srv
dispatch_at (some conn) id a srv = do
  conn ← handle_events a.spare a.reading a.result a.revents conn
  ok (keep_or_remove conn.state id conn srv)

unfoldable pub dispatch : ℕ → Arrived → TcpServer → Result TcpServer
unfolding dispatch_at
dispatch id a srv = dispatch_at (find id srv.id_conn) id a srv

unfoldable pub destroy_all : List TcpConnection → Result (Unit {0})
unfolding destroy_connection destruct
destroy_all [] = ok tt
destroy_all (conn ∷ conns) = do conn ← destroy_connection conn; _ ← destruct conn; destroy_all conns

abbrev pub conns_of : List (ℕ × TcpConnection) → List TcpConnection
conns_of [] = []
conns_of ((id, conn) ∷ es) = conn ∷ conns_of es

-- The destructor, on the thread of the loop, as far as its connections go; no one else holds them.
unfoldable pub destruct_server : TcpServer → Result (Unit {0})
unfolding destroy_all
destruct_server srv = destroy_all (conns_of srv.id_conn)

-- The queued functors of a round.
unfoldable pub run_pedding : TcpServer → Result TcpServer
unfolding destroy_all
run_pedding srv = do _ ← destroy_all srv.pedding; ok (record srv { pedding = [] })

-- A call of the user on a connection: one that is not in the map is no concern of the server.
unfoldable pub change_at :
    Option TcpConnection → ℕ → (TcpConnection → Result TcpConnection) → TcpServer → Result TcpServer
change_at none id f srv = ok srv
change_at (some conn) id f srv = do
  conn ← f conn
  ok (record srv { id_conn = put id conn srv.id_conn })

-- What happens to a server on the thread of its loop.
pub data Act : Type 0 where
  accept functors : Act
  events : ℕ → Arrived → Act
  sends : ℕ → ℕ → Written → List ℕ → Act
  shuts : ℕ → Act

unfoldable pub act : Act → TcpServer → Result TcpServer
unfolding new_connection dispatch run_pedding change_at
act accept srv = new_connection srv
act functors srv = run_pedding srv
act (events id a) srv = dispatch id a srv
act (sends id spare result bytes) srv =
    change_at (find id srv.id_conn) id (send spare result bytes) srv
act (shuts id) srv = change_at (find id srv.id_conn) id (λ conn. ok (shutdown conn)) srv

unfoldable pub serve : List Act → TcpServer → Result TcpServer
unfolding act
serve [] srv = ok srv
serve (a ∷ acts) srv = do srv ← act a srv; serve acts srv
