-- ===== src/TcpServer/Tests.antt =====
-- A server at concrete events, and its theorem there.
use anoii.Prelude.{ap, sym, inl, inr, arith, ℕ, ◌≡◌, refl, true, [], ◌∷◌, length, Result, ok, err}
use anoii.Buffer.{delivered}
use anoii.Channel.{quiet}
use anoii.TcpConnection.{took}
use anoii.TcpServer.{
  TcpServer, no_connections, Arrived, accept, functors, events, sends, shuts, serve,
}
use mathlib.Core.Path.{subst}
use anoii.TcpServer.{destruct_server}
use anoii.TcpServer.Tables.{IsServing}
use anoii.TcpServer.Destruction.{destruct_server-verdict}
use anoii.TcpServer.Lifetime.{Serves, serve-Serves}

-- The peer closes, and the hang-up comes too.
abbrev hang_up : Arrived
hang_up = record {
  spare = 0;
  reading = delivered [];
  result = took 0;
  revents = record quiet { pollin = true; pollhup = true };
}

-- How many connections there are, and how many wait for their destruction.
abbrev counts : Result TcpServer → Result (ℕ × ℕ)
counts (err f) = err f
counts (ok srv) = ok (length srv.id_conn, length srv.pedding)

closed_test :
    (counts (serve (accept ∷ accept ∷ events 0 hang_up ∷ []) no_connections) ≡ ok (1, 1))
    × (counts (serve (accept ∷ events 0 hang_up ∷ functors ∷ []) no_connections) ≡ ok (0, 0))
unfolding serve
closed_test = (refl, refl)

serve-Serves_example : Serves (
    serve
      (accept ∷ sends 0 3 (took 1) (7 ∷ 8 ∷ []) ∷ shuts 0 ∷ events 0 hang_up ∷ functors ∷ [])
      no_connections)
serve-Serves_example =
    serve-Serves
      (accept ∷ sends 0 3 (took 1) (7 ∷ 8 ∷ []) ∷ shuts 0 ∷ events 0 hang_up ∷ functors ∷ [])
      (tt, (omega arith, (tt, (tt, (tt, tt))))) (record { live = tt; gone = tt })

abbrev result_of : Result TcpServer → TcpServer
result_of (ok srv) = srv
result_of (err f) = no_connections

-- A server with one connection.
abbrev one_conn : TcpServer
one_conn = result_of (serve (accept ∷ []) no_connections)

one_conn-IsServing : IsServing one_conn
unfolding serve
one_conn-IsServing =
    elim (serve-Serves {srv = no_connections} (accept ∷ []) (tt, tt)
      (record { live = tt; gone = tt })) [
        | inl (srv, e, s) ↦ subst IsServing (sym (ap result_of e)) s
        | inr e ↦ absurd (cc e)
      ]

destruct_server-verdict_example : destruct_server one_conn ≡ ok tt
unfolding serve
destruct_server-verdict_example = destruct_server-verdict one_conn one_conn-IsServing (refl, tt)
