-- ===== src/TcpClient/Connecting.antt =====
-- The events of the connector of a client of src/tcp_client.cc.
use anoii.Prelude.{
  none, ℕ, ◌≡◌, inl, inr, refl, sym, ap, ◌∙◌, Bool, true, false, some, arith, ltb, if◌then◌else◌,
  length, Result, ok, ◌>>=◌, ◌>>◌,
}
use mathlib.Core.Path.{subst}
use anoii.Channel.{call_if}
use anoii.Connector
use anoii.Connector.Sockets.{
  Tidy, connect_once-Tidily, connect_once-resets, queued, stop_in_loop-Tidy,
}
use anoii.TcpClient.{
  TcpClient, Attempt, start, new_connection, connector_write, connector_error, connector_events,
  handle_close, drop_connector,
}
use anoii.TcpClient.Attempts.{
  missed, made, handle_write-Wrote, handle_error-Settled, handle_error-unreset,
  fresh_connector-Tidy,
}
use anoii.TcpClient.Held.{Open, IsClient, Steps, new_connection-Steps}

connector_error-Steps : {client : TcpClient} → IsClient client → Steps (connector_error client)
connector_error-Steps {client} c = inl (
  record client { connector = Connector.handle_error client.connector },
  refl,
  record {
    tidy = (stop_in_loop-Tidy c.tidy).1;
    held = c.held;
    settled = λ o. handle_error-Settled c.tidy (c.settled o);
    unreset = λ fd there. handle_error-unreset c.tidy fd there;
  },
)

pub Steps-eq : {r r' : Result TcpClient} → r ≡ r' → Steps r' → Steps r
Steps-eq e s = subst Steps (sym e) s

connector_write-step :
    (is_failed : Bool) (client : TcpClient) (d : Connector.Connector) {b : Bool}
    → Connector.handle_write is_failed client.connector ≡ ok d
    → ltb (length client.connector.handed) (length d.handed) ≡ b
    → connector_write is_failed client ≡ (
        if b
        then new_connection (record client { connector = d })
        else ok (record client { connector = d }))
unfolding connector_write
connector_write-step is_failed client d {b} e t =
    ap
      (λ q. q >>= λ (x : Connector.Connector).
        if ltb (length client.connector.handed) (length x.handed)
        then new_connection (record client { connector = x })
        else ok (record client { connector = x }))
      e
    ∙ ap
        (λ q.
          if q
          then new_connection (record client { connector = d })
          else ok (record client { connector = d }))
        t

connector_write-Steps :
    {client : TcpClient} {fd : ℕ} (is_failed : Bool)
    → IsClient client
    → client.connector.registered ≡ some fd
    → Steps (connector_write is_failed client)
connector_write-Steps {client} is_failed c there =
    let shut : ¬ Open client.conn = λ o. cc (sym (c.settled o).unwatched ∙ there) in
    elim (handle_write-Wrote is_failed c.tidy there) [
      | missed d e tidy out same ↦
          let few : ltb (length client.connector.handed) (length d.handed) ≡ false =
            ground (arith, ap (λ l. length l) same) in
          inl (
            record client { connector = d },
            connector_write-step is_failed client d e few,
            record {
              tidy = tidy;
              held = c.held;
              settled = λ o. absurd (shut o);
              unreset = λ fd h. cc (sym out ∙ h);
            },
          )
      | made d e tidy settled more ↦
          let many : ltb (length client.connector.handed) (length d.handed) ≡ true = ground arith in
          Steps-eq (connector_write-step is_failed client d e many)
            (new_connection-Steps (record client { connector = d }) tidy settled c.held shut)
    ]

Steps-bind :
    {r : Result TcpClient} (f : TcpClient → Result TcpClient)
    → Steps r
    → ((client : TcpClient) → IsClient client → Steps (f client))
    → Steps (r >>= f)
Steps-bind f (inr stops) next = inr (rw stops refl)
Steps-bind {r} f (inl (client, e, c)) next = Steps-eq (ap (λ q. q >>= f) e) (next client c)

pub unchanged : {client : TcpClient} → IsClient client → Steps (ok client)
unchanged {client} c = inl (client, refl, c)

pub connector_events-Steps :
    {client : TcpClient} {fd : ℕ} (writable failing is_failed : Bool)
    → IsClient client
    → client.connector.registered ≡ some fd
    → Steps (connector_events writable failing is_failed client)
unfolding connector_events
connector_events-Steps {client} {fd} writable failing is_failed c there =
    Steps-bind (λ x. call_if failing (some connector_error) x) (first writable)
      (λ x k. second failing k)
  where
    first : (b : Bool) → Steps (call_if b (some (connector_write is_failed)) client)
    first true = connector_write-Steps is_failed c there
    first false = unchanged c

    second : {x : TcpClient} (b : Bool) → IsClient x → Steps (call_if b (some connector_error) x)
    second true k = connector_error-Steps k
    second false k = unchanged k

pub attempt-Steps :
    {client : TcpClient} {d : Connector.Connector} {r : Result Connector.Connector}
    → IsClient client
    → ¬ Open client.conn
    → r ≡ ok d
    → Tidy d
    → d.resets ≡ 0
    → Steps (r >>= λ x. ok (record client { connector = x }))
attempt-Steps {client} {d} c shut e tidy none_queued = inl (
  record client { connector = d },
  rw e refl,
  record {
    tidy = tidy;
    held = c.held;
    settled = λ o. absurd (shut o);
    unreset = λ fd h. none_queued;
  },
)

drop_connector-ok :
    (c : Connector.Connector)
    → Tidy c
    → c.registered ≡ none
    → c.resets ≡ 0
    → drop_connector c ≡ ok tt
unfolding drop_connector
drop_connector-ok c tidy out none_queued =
    let (_, _, _, _, _, q) = stop_in_loop-Tidy tidy in
    let zero_left : (Connector.stop_in_loop c).resets ≡ 0 =
      q ∙ ap (λ o. queued o c.resets) out ∙ none_queued in
    rw zero_left refl

pub handle_close-Steps :
    {client : TcpClient} (a : Attempt)
    → IsClient client
    → ¬ Open client.conn
    → client.connector.registered ≡ none
    → client.connector.resets ≡ 0
    → Steps (handle_close a client)
unfolding handle_close start
handle_close-Steps {client} a c shut out none_queued = go client.retry
  where
    go :
        (b : Bool)
        → Steps (if b then (do _ ← drop_connector client.connector; start a client) else ok client)
    go false = unchanged c
    go true =
        let (d, e, tidy) = connect_once-Tidily a.sock a.error fresh_connector-Tidy refl in
        Steps-eq
          (ap (λ q. q >> start a client)
            (drop_connector-ok client.connector c.tidy out none_queued))
          (attempt-Steps c shut e tidy
            (connect_once-resets a.sock a.error Connector.fresh_connector e))
