-- ===== src/TcpClient/Held.antt =====
-- What a client of src/tcp_client.cc is between two calls, and `NewConnection`.
use anoii.Prelude.{
  int_overflow, ℕ, ◌≡◌, ◌≢◌, ◌⊎◌, inl, inr, refl, sym, ap, ◌∙◌, false, Option, none, some, Result,
  ok, err, assertion, ◌>>=◌, ◌>>◌,
}
use anoii.Connector.Sockets.{Tidy}
use anoii.TcpConnection.{
  TcpConnection, connecting, disconnected, init_connection, on_established, destruct,
}
use anoii.TcpConnection.Sound.{
  Sound, returns, overflows, which, is_connecting, is_established, is_half_shutdown,
  is_disconnected,
}
use anoii.TcpConnection.Events.{on_established-Survives, init_connection-Sound}
use anoii.TcpConnection.Reach.{init_connection-connecting, on_established-established}
use anoii.TcpConnection.Destroying.{destruct-returns}
use anoii.TcpClient.{TcpClient, release, new_connection}
use anoii.TcpClient.Attempts.{Settled}

-- The connection, if there is one, has left its constructor; a closed one is out of its dispatch.
abbrev pub Held : Option TcpConnection → Type 0
Held none = Unit {0}
Held (some k) =
    Sound k
    × (k.state ≢ connecting)
    × (k.state ≡ disconnected → k.channel.is_handling_events ≡ false)

abbrev pub Open : Option TcpConnection → Type 0
Open none = ⊥
Open (some k) = k.state ≢ disconnected

-- A client between two calls.
pub record IsClient (client : TcpClient) : Type 0 where
  pub tidy : Tidy client.connector
  pub held : Held client.conn
  pub settled : Open client.conn → Settled client.connector
  -- No reset is queued for a channel that the poller has.
  pub unreset : (fd : ℕ) → client.connector.registered ≡ some fd → client.connector.resets ≡ 0

abbrev pub Steps : Result TcpClient → Type 0
Steps r = ((client : TcpClient) × (r ≡ ok client) × IsClient client) ⊎ (r ≡ err int_overflow)

pub release-returns : (conn : Option TcpConnection) → Held conn → ¬ Open conn → release conn ≡ ok tt
unfolding release
release-returns none h shut = refl
release-returns (some k) h shut = elim (which k.state) [
  | is_disconnected e ↦ destruct-returns k e (h.0.quiet e) (h.2 e)
  | is_connecting e ↦ absurd (h.1 e)
  | is_established e ↦ absurd (shut (λ d. cc (sym e ∙ d)))
  | is_half_shutdown e ↦ absurd (shut (λ d. cc (sym e ∙ d)))
]

pub release_asserts :
    (conn : Option TcpConnection) → Held conn → Open conn → release conn ≡ err assertion
unfolding release destruct
release_asserts none h o = absurd o
release_asserts (some k) h o = elim (which k.state) [
  | is_disconnected e ↦ absurd (o e)
  | is_connecting e ↦ rw e refl
  | is_established e ↦ rw e refl
  | is_half_shutdown e ↦ rw e refl
]

abbrev pub with_conn : TcpClient → TcpConnection → TcpClient
with_conn client d = record client { conn = some d }

new_connection-step :
    (client : TcpClient) (c : TcpConnection) (r : Result TcpConnection)
    → init_connection ≡ ok c
    → release client.conn ≡ ok tt
    → on_established c ≡ r
    → new_connection client ≡ (r >>= λ d. ok (with_conn client d))
unfolding new_connection
new_connection-step client c r built freed there =
    ap (λ q. q >>= λ x. release client.conn >> (on_established x >>= λ d. ok (with_conn client d)))
      built
    ∙ ap (λ q. q >> (on_established c >>= λ d. ok (with_conn client d))) freed
    ∙ ap (λ q. q >>= λ d. ok (with_conn client d)) there

pub new_connection-Steps :
    (client : TcpClient)
    → Tidy client.connector
    → Settled client.connector
    → Held client.conn
    → ¬ Open client.conn
    → Steps (new_connection client)
new_connection-Steps client tidy settled held shut =
    let (c, e, sound, none_yet) = init_connection-Sound in
    let at_start = init_connection-connecting c e in
    let freed = release-returns client.conn held shut in
    elim (on_established-Survives sound at_start) [
      | returns d h a ↦
          let there = on_established-established c d at_start h in
          inl (
            with_conn client d,
            new_connection-step client c (ok d) e freed h,
            record {
              tidy = tidy;
              held = (a.sound, (λ k. cc (sym there ∙ k)), (λ k. cc (sym there ∙ k)));
              settled = λ o. settled;
              unreset = λ fd there. cc (sym settled.unwatched ∙ there);
            },
          )
      | overflows h ↦ inr (new_connection-step client c (err int_overflow) e freed h)
    ]
