-- ===== src/TcpClient/Calls.antt =====
-- Events and calls of the user on the connection of a client of src/tcp_client.cc.
use anoii.Prelude.{ℕ, ◌≡◌, ◌≢◌, inl, inr, refl, sym, ap, ◌∙◌, Option, none, some, List, ok, ◌>>=◌}
use mathlib.Core.Path.{subst}
use anoii.TcpConnection.{
  TcpConnection, ConnState, connecting, established, half_shutdown, disconnected, Written, send,
  shutdown,
}
use anoii.TcpConnection.Sound.{
  After, returns, overflows, which, is_connecting, is_established, is_half_shutdown,
  is_disconnected,
}
use anoii.TcpConnection.Events.{returned, overflowed, handle_events-Dispatched}
use anoii.TcpConnection.Sending.{Fits, send-Survives}
use anoii.TcpConnection.Staying.{send-Stays, shutdown_alive}
use anoii.TcpConnection.Closing.{shutdown-After}
use anoii.TcpServer.{Arrived}
use anoii.TcpClient.{TcpClient, Attempt, keep_or_close, dispatch_conn, if_open, conn_events, change}
use anoii.TcpClient.Held.{Held, Open, IsClient, Steps, with_conn}
use anoii.TcpClient.Connecting.{Steps-eq, unchanged, handle_close-Steps}

-- Behind the dispatch to an open connection.
keep_or_close-Steps :
    (client : TcpClient) (d : TcpConnection) (a : Attempt) (t : ConnState)
    → d.state ≡ t
    → IsClient (with_conn client d)
    → client.connector.registered ≡ none
    → client.connector.resets ≡ 0
    → Steps (keep_or_close t a (with_conn client d))
unfolding keep_or_close
keep_or_close-Steps client d a connecting e c out q = unchanged c
keep_or_close-Steps client d a established e c out q = unchanged c
keep_or_close-Steps client d a half_shutdown e c out q = unchanged c
keep_or_close-Steps client d a disconnected e c out q = handle_close-Steps a c (λ o. o e) out q

dispatch_conn-Steps :
    {client : TcpClient} {k : TcpConnection} (e : Arrived) (a : Attempt)
    → IsClient client
    → client.conn ≡ some k
    → k.state ≢ disconnected
    → client.connector.resets ≡ 0
    → Steps (dispatch_conn k e a client)
unfolding dispatch_conn
dispatch_conn-Steps {client} {k} e a c there alive q =
    let (sound, past, unused) = subst Held there c.held in
    let settled = c.settled (subst Open (sym there) alive) in
    elim (handle_events-Dispatched e.spare e.reading e.result e.revents sound past) [
      | overflowed r ↦ inr (rw r refl)
      | returned d r sound' same past' idle ↦
          Steps-eq (ap (λ q. q >>= λ x. keep_or_close x.state a (with_conn client x)) r) (
            keep_or_close-Steps client d a d.state refl
              (record {
                tidy = c.tidy;
                held = (sound', past', λ h. idle);
                settled = λ o. settled;
                unreset = c.unreset;
              })
              settled.unwatched q)
    ]

if_open-Steps :
    {client : TcpClient} {k : TcpConnection} (e : Arrived) (a : Attempt) (t : ConnState)
    → k.state ≡ t
    → IsClient client
    → client.conn ≡ some k
    → client.connector.resets ≡ 0
    → Steps (if_open t k e a client)
unfolding if_open
if_open-Steps e a disconnected h c there q = unchanged c
if_open-Steps e a connecting h c there q = absurd ((subst Held there c.held).1 h)
if_open-Steps e a established h c there q = dispatch_conn-Steps e a c there (λ d. cc (sym h ∙ d)) q
if_open-Steps e a half_shutdown h c there q =
    dispatch_conn-Steps e a c there (λ d. cc (sym h ∙ d)) q

pub conn_events-Steps :
    {client : TcpClient} (e : Arrived) (a : Attempt) (conn : Option TcpConnection)
    → client.conn ≡ conn
    → IsClient client
    → client.connector.resets ≡ 0
    → Steps (conn_events conn e a client)
unfolding conn_events
conn_events-Steps e a none there c q = unchanged c
conn_events-Steps e a (some k) there c q = if_open-Steps e a k.state refl c there q

-- A call of the user on the connection.
changed-Steps :
    {client : TcpClient} {k d : TcpConnection} {bytes : List ℕ}
    → IsClient client
    → client.conn ≡ some k
    → After bytes k d
    → (d.state ≡ disconnected → k.state ≡ disconnected)
    → IsClient (with_conn client d)
changed-Steps {client} {k} {d} c there a closed =
    let (sound, past, unused) = subst Held there c.held in
    record {
      tidy = c.tidy;
      held = (a.sound, a.connected past, λ h. a.handling ∙ unused (closed h));
      settled = λ o. c.settled (subst Open (sym there) (λ h. o (a.gone h)));
      unreset = c.unreset;
    }

pub send-Steps :
    {client : TcpClient} (spare : ℕ) (result : Written) (bytes : List ℕ)
    (conn : Option TcpConnection)
    → client.conn ≡ conn
    → Fits result bytes
    → IsClient client
    → Steps (change conn (send spare result bytes) client)
unfolding change
send-Steps spare result bytes none there fits c = unchanged c
send-Steps {client} spare result bytes (some k) there fits c =
    let (sound, past, unused) = subst Held there c.held in
    elim (send-Survives spare result bytes sound fits) [
      | overflows r ↦ inr (rw r refl)
      | returns d r a ↦ inl (
        with_conn client d,
        rw r refl,
        changed-Steps c there a (λ h. sym (send-Stays spare result bytes k d r) ∙ h),
      )
    ]

pub shutdown-Steps :
    {client : TcpClient} (conn : Option TcpConnection)
    → client.conn ≡ conn
    → IsClient client
    → Steps (change conn (λ k. ok (shutdown k)) client)
unfolding change
shutdown-Steps none there c = unchanged c
shutdown-Steps {client} (some k) there c =
    let (sound, past, unused) = subst Held there c.held in
    inl (
      with_conn client (shutdown k),
      refl,
      changed-Steps c there (shutdown-After sound) (closed_before k),
    )
  where
    closed_before : (k : TcpConnection) → (shutdown k).state ≡ disconnected → k.state ≡ disconnected
    closed_before k h = elim (which k.state) [
      | is_disconnected e ↦ e
      | is_connecting e ↦ absurd (shutdown_alive k (λ d. cc (sym e ∙ d)) h)
      | is_established e ↦ absurd (shutdown_alive k (λ d. cc (sym e ∙ d)) h)
      | is_half_shutdown e ↦ absurd (shutdown_alive k (λ d. cc (sym e ∙ d)) h)
    ]
