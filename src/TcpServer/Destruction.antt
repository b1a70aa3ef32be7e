-- ===== src/TcpServer/Destruction.antt =====
-- `TcpServer::~TcpServer` of src/tcp_server.cc.
use anoii.Prelude.{
  ℕ, ◌≡◌, ◌≢◌, inl, inr, refl, sym, ap, ◌∙◌, Bool, true, false, ◌&&◌, Bool-cases, List, [], ◌∷◌,
  Result, ok, err, assertion, ◌>>=◌,
}
use anoii.TcpConnection.{
  TcpConnection, ConnState, connecting, established, half_shutdown, disconnected,
  destroy_connection, destruct,
}
use anoii.TcpConnection.Destroying.{destroys-established, destroys-half_shutdown}
use anoii.TcpServer.{TcpServer, conns_of, destroy_all, destruct_server}
use anoii.TcpServer.Tables.{AllLive, IsServing}

abbrev pub is_established : ConnState → Bool
is_established established = true
is_established connecting = false
is_established half_shutdown = false
is_established disconnected = false

abbrev pub all_established : List (ℕ × TcpConnection) → Bool
all_established [] = true
all_established (e ∷ es) = is_established e.1.state && all_established es

-- No callback of a connection is running.
abbrev pub AllUnused : List (ℕ × TcpConnection) → Type 0
AllUnused [] = Unit {0}
AllUnused (e ∷ es) = (e.1.channel.is_handling_events ≡ false) × AllUnused es

not_established :
    (st : ConnState)
    → st ≢ connecting
    → st ≢ disconnected
    → is_established st ≡ false
    → st ≡ half_shutdown
not_established connecting past alive e = absurd (past refl)
not_established established past alive e = absurd (cc e)
not_established half_shutdown past alive e = refl
not_established disconnected past alive e = absurd (alive refl)

established_if : (st : ConnState) → is_established st ≡ true → st ≡ established
established_if connecting e = absurd (cc e)
established_if established e = refl
established_if half_shutdown e = absurd (cc e)
established_if disconnected e = absurd (cc e)

-- The outcome of the destructor, by the states of the connections.
abbrev pub verdict : Bool → Result (Unit {0})
verdict true = ok tt
verdict false = err assertion

abbrev freeing : List TcpConnection → TcpConnection → Result (Unit {0})
freeing conns conn = do conn ← destroy_connection conn; _ ← destruct conn; destroy_all conns

freeing-bad :
    (conns : List TcpConnection) (r : Result TcpConnection)
    → (r >>= λ d. destruct d) ≡ err assertion
    → (r >>= λ d. destruct d >>= λ u. destroy_all conns) ≡ err assertion
freeing-bad conns (err f) h = cc h
freeing-bad conns (ok d) h = ap (λ x. x >>= λ u. destroy_all conns) h

destroy_all-verdict :
    (n : ℕ) (es : List (ℕ × TcpConnection))
    → AllLive n es
    → AllUnused es
    → destroy_all (conns_of es) ≡ verdict (all_established es)
unfolding destroy_all
destroy_all-verdict n [] a u = refl
destroy_all-verdict n (e ∷ es) a u = elim (Bool-cases (is_established e.1.state)) [
  | inl good ↦
      let (d, gone, freed) = destroys-established e.1 (established_if e.1.state good) u.0 in
      ap (λ r. r >>= λ x. destruct x >>= λ y. destroy_all (conns_of es)) gone
      ∙ ap (λ r. r >>= λ y. destroy_all (conns_of es)) freed
      ∙ destroy_all-verdict n es a.1 u.1
      ∙ sym (ap (λ b. verdict (b && all_established es)) good)
  | inr bad ↦
      freeing-bad (conns_of es) (destroy_connection e.1)
        (destroys-half_shutdown e.1 (not_established e.1.state a.0.past a.0.alive bad))
      ∙ sym (ap (λ b. verdict (b && all_established es)) bad)
]

-- The destructor of a server, on the thread of its loop, while no callback of its connections runs:
-- it frees every connection if all of them are established, and fails an assertion if one is half
-- shut, that of the poller, as it still waits for events, or that of the destructor of the
-- connection.
pub destruct_server-verdict :
    (srv : TcpServer)
    → IsServing srv
    → AllUnused srv.id_conn
    → destruct_server srv ≡ verdict (all_established srv.id_conn)
unfolding destruct_server
destruct_server-verdict srv s u = destroy_all-verdict srv.next_id srv.id_conn s.live u
