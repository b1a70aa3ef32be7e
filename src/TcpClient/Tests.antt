-- ===== src/TcpClient/Tests.antt =====
-- A client at concrete events, and its theorems there.
use anoii.Prelude.{
  ℕ, ◌≡◌, refl, true, false, none, some, List, [], ◌∷◌, arith, Result, ok, err, assertion,
}
use anoii.Buffer.{delivered}
use anoii.Channel.{quiet}
use anoii.Connector
use anoii.TcpConnection.{took}
use anoii.TcpServer.{Arrived}
use anoii.TcpClient.{
  TcpClient, Attempt, resets, init_client, set_retry, connects, arrives, sends, run,
  destruct_client,
}
use anoii.TcpClient.Held.{IsClient, Open, Steps}
use anoii.TcpClient.Lifetime.{run-Steps, destruct_client-lem}

-- `connect` goes on in the background.
abbrev first : Attempt
first = record { sock = 5; error = 115 }

abbrev second : Attempt
second = record { sock = 6; error = 115 }

abbrev hang_up : Arrived
hang_up = record {
  spare = 0;
  reading = delivered [];
  result = took 0;
  revents = record quiet { pollhup = true };
}

abbrev waiting : TcpClient
waiting = record {
  connector = record Connector.fresh_connector {
    fd = some 5;
    registered = some 5;
    opened = 5 ∷ [];
  };
  retry = false;
  conn = none;
}

started_test : init_client first ≡ ok waiting
unfolding init_client
started_test = refl

abbrev sockets : Result TcpClient → Result (List ℕ × List ℕ)
sockets (err f) = err f
sockets (ok client) = ok (client.connector.opened, client.connector.handed)

-- The connection is made, closed by the peer, and tried again.
again_test :
    (sockets (run (connects true false false ∷ []) waiting) ≡ ok ([], 5 ∷ []))
    × (sockets (
          run
            (set_retry true ∷ connects true false false ∷ resets ∷ arrives hang_up second ∷ [])
            waiting)
        ≡ ok (6 ∷ [], []))
unfolding run Connector.handle_write
again_test = (refl, refl)

waiting-IsClient : IsClient waiting
waiting-IsClient = record {
  tidy = Connector.Sockets.trying 5 (omega arith);
  held = tt;
  settled = λ o. absurd o;
  unreset = λ fd there. refl;
}

run-Steps_example : Steps (
    run
      (set_retry true ∷ connects true false false ∷ resets ∷ sends 0 (took 1) (7 ∷ []) ∷ [])
      waiting)
run-Steps_example =
    run-Steps (set_retry true ∷ connects true false false ∷ resets ∷ sends 0 (took 1) (7 ∷ []) ∷ [])
      (tt, λ a e. (tt, λ b f. (tt, λ c g. (omega arith, λ d h. tt)))) waiting-IsClient

destruct_client-lem_example :
    (¬ Open waiting.conn
      → (c : Connector.Connector) × (destruct_client waiting ≡ ok c)
        × (c.opened ≡ [])
        × (c.timer ≡ false)
        × (c.registered ≡ none)
        × ((fd : ℕ) → waiting.connector.registered ≡ some fd → c.resets ≡ 1)
        × (waiting.connector.registered ≡ none → c.resets ≡ 0))
    × (Open waiting.conn → destruct_client waiting ≡ err assertion)
destruct_client-lem_example = destruct_client-lem waiting-IsClient
