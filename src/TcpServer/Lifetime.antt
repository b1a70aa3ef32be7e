-- ===== src/TcpServer/Lifetime.antt =====
-- The connections of a server of src/tcp_server.cc, from acceptance to destruction.
use anoii.Prelude.{
  false, int_overflow, ℕ, suc, ◌<◌, ◌≡◌, ◌≢◌, ◌⊎◌, inl, inr, refl, sym, ap, ◌∙◌, Option, none, some,
  List, [], ◌∷◌, arith, Result, ok, err, ◌>>=◌,
}
use anoii.UPoll.{find, put}
use anoii.TcpConnection.{
  Written, send, shutdown, TcpConnection, ConnState, connecting, established, half_shutdown,
  disconnected, init_connection, on_established,
}
use anoii.TcpConnection.Sound.{Sound, returns, overflows}
use anoii.TcpConnection.Events.{
  returned, overflowed, handle_events-Dispatched, on_established-Survives, init_connection-Sound,
}
use anoii.TcpConnection.Reach.{init_connection-connecting, on_established-established}
use anoii.TcpConnection.Sending.{Fits, send-Survives}
use anoii.TcpConnection.Staying.{send-Stays, shutdown_alive}
use anoii.TcpConnection.Closing.{shutdown-After}
use anoii.TcpServer.{
  change_at, sends, shuts, TcpServer, new_connection, remove_connection, keep_or_remove, Arrived,
  dispatch_at, dispatch, destroy_all, run_pedding, Act, accept, functors, events, act, serve,
}
use anoii.TcpConnection.Destroying.{destroy_connection-returns}
use anoii.TcpServer.Tables.{
  Live, AllGone, IsServing, AllLive-later, AllLive-put, AllLive-erase, AllLive-find, AllGone-append,
}

-- What a step of the server leaves.
abbrev pub Serves : Result TcpServer → Type 0
Serves r = ((srv : TcpServer) × (r ≡ ok srv) × IsServing srv) ⊎ (r ≡ err int_overflow)

abbrev registered : TcpConnection → TcpServer → TcpServer
registered c srv = record srv { id_conn = put srv.next_id c srv.id_conn; next_id = suc srv.next_id }

new_connection-step :
    (srv : TcpServer) (c : TcpConnection) (r : Result TcpConnection)
    → init_connection ≡ ok c
    → on_established c ≡ r
    → new_connection srv ≡ (r >>= λ d. ok (registered d srv))
unfolding new_connection
new_connection-step srv c r e h =
    ap (λ q. q >>= λ x. on_established x >>= λ d. ok (registered d srv)) e
    ∙ ap (λ q. q >>= λ d. ok (registered d srv)) h

new_connection-Serves : {srv : TcpServer} → IsServing srv → Serves (new_connection srv)
new_connection-Serves {srv} s =
    let (c, e, sound, none_yet) = init_connection-Sound in
    let at_start = init_connection-connecting c e in
    elim (on_established-Survives sound at_start) [
      | returns d h a ↦
          let there = on_established-established c d at_start h in
          inl (
            registered d srv,
            new_connection-step srv c (ok d) e h,
            record {
              live =
                  AllLive-put srv.next_id d srv.id_conn
                    (record {
                      known = omega arith;
                      sound = a.sound;
                      past = λ k. cc (sym there ∙ k);
                      alive = λ k. cc (sym there ∙ k);
                    })
                    (AllLive-later srv.next_id srv.id_conn s.live);
              gone = s.gone;
            },
          )
      | overflows h ↦ inr (new_connection-step srv c (err int_overflow) e h)
    ]

keep_or_remove-IsServing :
    {srv : TcpServer} (id : ℕ) (c : TcpConnection)
    → IsServing srv
    → id < srv.next_id
    → Sound c
    → c.state ≢ connecting
    → c.channel.is_handling_events ≡ false
    → IsServing (keep_or_remove c.state id c srv)
unfolding keep_or_remove remove_connection
keep_or_remove-IsServing {srv} id c s known sound past unused = go c.state refl
  where
    go : (t : ConnState) → c.state ≡ t → IsServing (keep_or_remove t id c srv)
    go connecting e = absurd (past e)
    go established e = record {
      live =
          AllLive-put id c srv.id_conn
            (record { known = known; sound = sound; past = past; alive = λ h. cc (sym e ∙ h) })
            s.live;
      gone = s.gone;
    }
    go half_shutdown e = record {
      live =
          AllLive-put id c srv.id_conn
            (record { known = known; sound = sound; past = past; alive = λ h. cc (sym e ∙ h) })
            s.live;
      gone = s.gone;
    }
    go disconnected e = record {
      live = AllLive-erase srv.next_id id srv.id_conn s.live;
      gone = AllGone-append srv.pedding c s.gone sound e unused;
    }

dispatch_at-Serves :
    {srv : TcpServer} (id : ℕ) (a : Arrived) (found : Option TcpConnection)
    → find id srv.id_conn ≡ found
    → IsServing srv
    → Serves (dispatch_at found id a srv)
unfolding dispatch_at
dispatch_at-Serves {srv} id a none e s = inl (srv, refl, s)
dispatch_at-Serves {srv} id a (some c) e s =
    let l = AllLive-find id srv.id_conn s.live e in
    elim (handle_events-Dispatched a.spare a.reading a.result a.revents l.sound l.past) [
      | returned d r sound same past idle ↦ inl (
        keep_or_remove d.state id d srv,
        rw r refl,
        keep_or_remove-IsServing id d s l.known sound past idle,
      )
      | overflowed r ↦ inr (rw r refl)
    ]

destroy_all-returns : (cs : List TcpConnection) → AllGone cs → destroy_all cs ≡ ok tt
unfolding destroy_all
destroy_all-returns [] a = refl
destroy_all-returns (c ∷ cs) a =
    let (d, e, freed) = destroy_connection-returns c a.0.0 a.0.1 a.0.2 in
    rw (e, freed) (destroy_all-returns cs a.1)

-- A call of the user that leaves a live connection alive.
data Alive (n id : ℕ) (r : Result TcpConnection) : Type 0 where
  lives : (d : TcpConnection) → r ≡ ok d → Live n (id, d) → Alive n id r
  over : r ≡ err int_overflow → Alive n id r

change_at-Serves :
    {srv : TcpServer} (id : ℕ) (f : TcpConnection → Result TcpConnection)
    (found : Option TcpConnection)
    → find id srv.id_conn ≡ found
    → ((c : TcpConnection) → Live srv.next_id (id, c) → Alive srv.next_id id (f c))
    → IsServing srv
    → Serves (change_at found id f srv)
unfolding change_at
change_at-Serves {srv} id f none e keeps s = inl (srv, refl, s)
change_at-Serves {srv} id f (some c) e keeps s =
    elim (keeps c (AllLive-find id srv.id_conn s.live e)) [
      | lives d r l ↦ inl (
        record srv { id_conn = put id d srv.id_conn },
        rw r refl,
        record { live = AllLive-put id d srv.id_conn l s.live; gone = s.gone },
      )
      | over r ↦ inr (rw r refl)
    ]

send-Alive :
    {n id : ℕ} (spare : ℕ) (result : Written) (bytes : List ℕ) (c : TcpConnection)
    → Fits result bytes
    → Live n (id, c)
    → Alive n id (send spare result bytes c)
send-Alive spare result bytes c fits l = elim (send-Survives spare result bytes l.sound fits) [
  | returns d r a ↦ lives d r (record {
    known = l.known;
    sound = a.sound;
    past = a.connected l.past;
    alive = λ h. l.alive (sym (send-Stays spare result bytes c d r) ∙ h);
  })
  | overflows r ↦ over r
]

shutdown-Alive : {n id : ℕ} (c : TcpConnection) → Live n (id, c) → Alive n id (ok (shutdown c))
shutdown-Alive c l =
    let a = shutdown-After l.sound in
    lives (shutdown c) refl (record {
      known = l.known;
      sound = a.sound;
      past = a.connected l.past;
      alive = shutdown_alive c l.alive;
    })

-- The kernel takes no more of a write than there is.
abbrev pub IsPossible : Act → Type 0
IsPossible (sends id spare result bytes) = Fits result bytes
IsPossible (events id a) = Unit {0}
IsPossible (shuts id) = Unit {0}
IsPossible accept = Unit {0}
IsPossible functors = Unit {0}

abbrev pub ArePossible : List Act → Type 0
ArePossible [] = Unit {0}
ArePossible (a ∷ acts) = IsPossible a × ArePossible acts

act-Serves : {srv : TcpServer} (a : Act) → IsPossible a → IsServing srv → Serves (act a srv)
unfolding act dispatch run_pedding
act-Serves accept p s = new_connection-Serves s
act-Serves {srv} functors p s = inl (
  record srv { pedding = [] },
  rw (destroy_all-returns srv.pedding s.gone) refl,
  record { live = s.live; gone = tt },
)
act-Serves {srv} (events id a) p s = dispatch_at-Serves id a (find id srv.id_conn) refl s
act-Serves {srv} (sends id spare result bytes) p s =
    change_at-Serves id (send spare result bytes) (find id srv.id_conn) refl
      (λ c l. send-Alive spare result bytes c p l) s
act-Serves {srv} (shuts id) p s =
    change_at-Serves id (λ conn. ok (shutdown conn)) (find id srv.id_conn) refl
      (λ c l. shutdown-Alive c l) s

-- Whatever a server accepts, whatever events and answers of the kernel come for its connections,
-- whatever the user sends on them and whichever of them the user shuts down, and whenever the queued
-- functors run, in any order: no assertion fails and nothing is read out of bounds, unless a size
-- leaves `int`. Each connection in the map keeps the invariant, is past connecting and not
-- disconnected, under an id that was given out; one that closes waits, disconnected, for its
-- destruction, destructors included. The kernel takes no more of a write than there is.
pub serve-Serves :
    {srv : TcpServer} (acts : List Act) → ArePossible acts → IsServing srv → Serves (serve acts srv)
unfolding serve
serve-Serves {srv} [] p s = inl (srv, refl, s)
serve-Serves {srv} (a ∷ acts) p s = elim (act-Serves a p.0 s) [
  | inr stops ↦ inr (rw stops refl)
  | inl (srv', e, s') ↦ elim (serve-Serves acts p.1 s') [
    | inr stops ↦ inr (rw (e, stops) refl)
    | inl (last, e', k) ↦ inl (last, rw (e, e') refl, k)
  ]
]
