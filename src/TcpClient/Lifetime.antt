-- ===== src/TcpClient/Lifetime.antt =====
-- The life of a client of src/tcp_client.cc.
use anoii.Prelude.{
  ℕ, suc, ◌-◌, arith, ◌≡◌, inl, inr, refl, sym, ap, ◌∙◌, Bool, true, false, Option, none, some,
  List, [], ◌∷◌, ok, err, assertion, ◌>>=◌, ◌>>◌,
}
use anoii.Connector
use anoii.Connector.Sockets.{
  Tidy, idle, trying, connect_once-Tidily, connect_once-resets, queued, reset_times-ok,
  stop_in_loop-Tidy,
}
use anoii.Connector.{reset_times}
use anoii.TcpConnection.Sending.{Fits}
use anoii.TcpClient.Held.{Open, release_asserts, release-returns}
use anoii.TcpClient.{
  init_client, TcpClient, Attempt, resets, start, Act, set_retry, connects, times_out, arrives,
  sends, shuts, retry_timer, watched, act, run, destruct_client,
}
use anoii.TcpClient.Attempts.{fresh_connector-Tidy}
use anoii.TcpClient.Held.{IsClient, Steps}
use anoii.TcpClient.Connecting.{Steps-eq, unchanged, connector_events-Steps, attempt-Steps}
use anoii.TcpClient.Calls.{conn_events-Steps, send-Steps, shutdown-Steps}

resets-Tidy : {c : Connector.Connector} (n : ℕ) → Tidy c → Tidy (record c { resets = n })
resets-Tidy n (idle d) = idle d
resets-Tidy n (trying fd d) = trying fd d

retry_timer-Steps :
    {client : TcpClient} (a : Attempt) (timer : Bool)
    → client.connector.timer ≡ timer
    → client.connector.fd ≡ none
    → client.connector.resets ≡ 0
    → IsClient client
    → Steps (retry_timer timer a client)
unfolding retry_timer
retry_timer-Steps a false set free q c = unchanged c
retry_timer-Steps {client} a true set free q c =
    let (d, e, tidy) = connect_once-Tidily a.sock a.error c.tidy free in
    attempt-Steps c (λ o. cc (sym (c.settled o).untimed ∙ set)) e tidy
      (connect_once-resets a.sock a.error client.connector e ∙ q)

watched-Steps :
    {client : TcpClient} (writable failing is_failed : Bool) (fd : Option ℕ)
    → client.connector.registered ≡ fd
    → IsClient client
    → Steps (watched fd writable failing is_failed client)
unfolding watched
watched-Steps writable failing is_failed none there c = unchanged c
watched-Steps writable failing is_failed (some fd) there c =
    connector_events-Steps writable failing is_failed c there

-- The kernel takes no more of a write than there is; the retry timer does not fire while an attempt is
-- pending; and where a reset is queued neither the retry timer fires nor an event comes for the
-- connection before the loop has called it.
abbrev pub IsPossible : Act → TcpClient → Type 0
IsPossible (set_retry retry) client = Unit {0}
IsPossible (connects writable failing is_failed) client = Unit {0}
IsPossible (times_out a) client = (client.connector.fd ≡ none) × (client.connector.resets ≡ 0)
IsPossible (arrives e a) client = client.connector.resets ≡ 0
IsPossible (sends spare result bytes) client = Fits result bytes
IsPossible shuts client = Unit {0}
IsPossible resets client = Unit {0}

abbrev pub ArePossible : List Act → TcpClient → Type 0
ArePossible [] client = Unit {0}
ArePossible (a ∷ acts) client =
    IsPossible a client × ((next : TcpClient) → act a client ≡ ok next → ArePossible acts next)

resets-Steps :
    {client : TcpClient} (watched : Option ℕ)
    → client.connector.registered ≡ watched
    → IsClient client
    → Steps (act resets client)
unfolding act
resets-Steps {client} none out c =
    let k = client.connector in
    inl (
      record client { connector = record k { resets = k.resets - k.resets } },
      ap (λ q. q >>= λ d. ok (record client { connector = d })) (reset_times-ok k.resets k out),
      record {
        tidy = resets-Tidy (k.resets - k.resets) c.tidy;
        held = c.held;
        settled = λ o.
            let s = c.settled o in
            record { unwatched = s.unwatched; untimed = s.untimed; closed = s.closed };
        unreset = λ fd there. omega arith;
      },
    )
resets-Steps {client} (some fd) there c =
    let none_queued = c.unreset fd there in
    Steps-eq
      (ap (λ n. reset_times n client.connector >>= λ d. ok (record client { connector = d }))
        none_queued)
      (unfold reset_times in unchanged c)

act-Steps :
    {client : TcpClient} (a : Act) → IsPossible a client → IsClient client → Steps (act a client)
unfolding act
act-Steps {client} (set_retry retry) p c = inl (
  record client { retry = retry },
  refl,
  record { tidy = c.tidy; held = c.held; settled = c.settled; unreset = c.unreset },
)
act-Steps {client} (connects writable failing is_failed) p c =
    watched-Steps writable failing is_failed client.connector.registered refl c
act-Steps {client} (times_out a) p c = retry_timer-Steps a client.connector.timer refl p.0 p.1 c
act-Steps {client} (arrives e a) p c = conn_events-Steps e a client.conn refl c p
act-Steps {client} (sends spare result bytes) p c =
    send-Steps spare result bytes client.conn refl p c
act-Steps {client} shuts p c = shutdown-Steps client.conn refl c
act-Steps {client} resets p c = resets-Steps client.connector.registered refl c

-- Whatever comes for the connector and for the connection of a client, whatever its user sends, and
-- however often the connection closes and is made again: no assertion fails, those of the queued
-- resets and of the destructors of the connections that were replaced included, and no reset is left
-- for the channel of a connector that was replaced, unless a size leaves `int`; while a connection is
-- open no attempt is pending and no timer is set. The kernel takes no more of a write than there is,
-- the retry timer does not fire while an attempt is pending, and while a reset of the connector's
-- channel is queued neither that timer fires nor an event comes for the connection.
pub run-Steps :
    {client : TcpClient} (acts : List Act)
    → ArePossible acts client
    → IsClient client
    → Steps (run acts client)
unfolding run
run-Steps [] p c = unchanged c
run-Steps {client} (a ∷ acts) p c = elim (act-Steps a p.0 c) [
  | inr stops ↦ inr (rw stops refl)
  | inl (next, e, k) ↦ Steps-eq (ap (λ q. q >>= run acts) e) (run-Steps acts (p.1 next e) k)
]

-- A client is made with an attempt, whatever `connect` answers to it.
pub init_client-IsClient :
    (a : Attempt) → (client : TcpClient) × (init_client a ≡ ok client) × IsClient client
unfolding init_client start
init_client-IsClient a =
    let (d, e, tidy) = connect_once-Tidily a.sock a.error fresh_connector-Tidy refl in
    (
      record { connector = d; retry = false; conn = none },
      rw e refl,
      record {
        tidy = tidy;
        held = tt;
        settled = λ o. absurd o;
        unreset = λ fd there. connect_once-resets a.sock a.error Connector.fresh_connector e;
      },
    )

-- The destructor of a client whose connection is closed or was never made closes the socket of a
-- pending attempt, takes its channel out of the poller and cancels the timer; while an attempt is
-- pending it leaves one call of `Channel::Reset` queued, for the channel that is gone with the
-- client, and otherwise it queues none. The destructor of a client whose connection is open fails the
-- assertion of the connection's destructor.
pub destruct_client-lem :
    {client : TcpClient}
    → IsClient client
    → (¬ Open client.conn
        → (c : Connector.Connector) × (destruct_client client ≡ ok c)
          × (c.opened ≡ [])
          × (c.timer ≡ false)
          × (c.registered ≡ none)
          × ((fd : ℕ) → client.connector.registered ≡ some fd → c.resets ≡ 1)
          × (client.connector.registered ≡ none → c.resets ≡ client.connector.resets))
      × (Open client.conn → destruct_client client ≡ err assertion)
unfolding destruct_client
destruct_client-lem {client} c =
    let stopped = stop_in_loop-Tidy c.tidy in
    (
      (λ shut. (
        Connector.stop_in_loop client.connector,
        ap (λ q. q >> ok (Connector.stop_in_loop client.connector))
            (release-returns client.conn c.held shut),
        stopped.2,
        stopped.3,
        stopped.4,
        λ fd there.
            stopped.5
            ∙ ap (λ o. queued o client.connector.resets) there
            ∙ ap suc (c.unreset fd there),
        λ out. stopped.5 ∙ ap (λ o. queued o client.connector.resets) out,
      )),
      λ o.
          ap (λ q. q >> ok (Connector.stop_in_loop client.connector))
            (release_asserts client.conn c.held o),
    )
