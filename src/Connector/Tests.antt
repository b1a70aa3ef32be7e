-- ===== src/Connector/Tests.antt =====
-- Attempts at concrete answers, and the theorems at them.
use anoii.Prelude.{◌≡◌, refl, true, some, [], ◌∷◌, arith, Result, ok, ◌>>=◌}
use anoii.Connector.{Connector, fresh_connector, classify, pending, connect_once}
use anoii.Connector.Backoff.{delay}
use anoii.Connector.Sockets.{Tidy, idle, trying, Tidily, connect_once-Tidily}

-- The first attempt is refused, the second one is pending when the timer fires again.
abbrev second_attempt : Result Connector
second_attempt = do c ← connect_once 5 111 fresh_connector; connect_once 6 115 c

abbrev pending_attempt : Connector
pending_attempt = record fresh_connector {
  fd = some 6;
  retry_ms = 1000;
  timer = true;
  registered = some 6;
  opened = 6 ∷ [];
}

attempts_test : second_attempt ≡ ok pending_attempt
unfolding connect_once classify
attempts_test = refl

delays_test : (delay 3 ≡ 4000) × (delay 6 ≡ 30000)
delays_test = (refl, refl)

in_progress : classify 115 ≡ pending
unfolding classify
in_progress = refl

fresh-Tidy : Tidy fresh_connector
fresh-Tidy = idle (omega arith, omega arith)

pending-Tidy : Tidy pending_attempt
pending-Tidy = trying 6 (omega arith, omega arith)

connect_once-Tidily_example : Tidily (connect_once 5 111 fresh_connector)
connect_once-Tidily_example = connect_once-Tidily 5 111 fresh-Tidy refl
