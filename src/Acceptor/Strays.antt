-- ===== src/Acceptor/Strays.antt =====
-- Descriptors that an acceptor of src/acceptor.cc closes without having them open.
use anoii.Prelude.{mem, ℕ, ◌≡◌, ◌≢◌, ap, ◌∙◌, true, false, some, List, [], ◌∷◌, arith, ◌==◌, ok}
use anoii.Connector.{remove_fd}
use anoii.Socket.{Answer, failed, gives}
use anoii.Acceptor.{
  Acceptor, close, Arrival, emfile, reopen, turn_away, on_accept, accept_handler, destruct,
}
use anoii.Acceptor.Descriptors.{closed_new, closed_spare, bare_of}

reopen-strays : (x : ℕ) (again : Answer) (a : Acceptor) → (reopen x again a).strays ≡ a.strays
unfolding reopen
reopen-strays x (failed e) a = ap (λ (b : Acceptor). b.strays) (closed_new x a)
reopen-strays x (gives i) a = ap (λ (b : Acceptor). b.strays) (closed_new x a)

closed_lost :
    (fd idle : ℕ) (handed : List ℕ)
    → fd ≢ idle
    → close (some idle) (bare_of fd (some idle) handed)
      ≡ record (bare_of fd (some idle) handed) { strays = idle ∷ [] }
unfolding close
closed_lost fd idle handed apart = let turned : (idle == fd) ≡ false = ground arith in simp turned

turn_away_strays :
    (fd idle : ℕ) (handed : List ℕ) (second again : Answer)
    → fd ≢ idle
    → (turn_away second again (bare_of fd (some idle) handed)).strays ≡ idle ∷ []
unfolding turn_away
turn_away_strays fd idle handed (failed e) again apart =
    ap (λ (b : Acceptor). b.strays) (closed_lost fd idle handed apart)
turn_away_strays fd idle handed (gives x) again apart =
    reopen-strays x again (close (some idle) (bare_of fd (some idle) handed))
    ∙ ap (λ (b : Acceptor). b.strays) (closed_lost fd idle handed apart)

destruct_strays :
    (fd idle : ℕ) (handed : List ℕ)
    → fd ≢ idle
    → (destruct (bare_of fd (some idle) handed)).strays ≡ idle ∷ []
unfolding destruct close remove_fd
destruct_strays fd idle handed apart = let own : (fd == fd) ≡ true = ground arith in simp own

-- Where not even the spare descriptor makes room for a connection, it stays closed while `idle_fd_`
-- keeps its number: the destructor closes that number again, and so does the next call that finds
-- the process without descriptors, whatever the number has become in between.
accept_handler_strays :
    (fd idle e : ℕ) (handed : List ℕ) (r : Arrival)
    → fd ≢ idle
    → r.first ≡ failed emfile
    → r.second ≡ failed e
    → (a : Acceptor) × (accept_handler r (record {
      fd = fd;
      idle_fd = some idle;
      opened = fd ∷ idle ∷ [];
      handed = handed;
      strays = [];
    })
        ≡ ok a)
      × (mem idle a.opened ≡ false)
      × ((destruct a).strays ≡ idle ∷ [])
      × ((next : Arrival)
          → next.first ≡ failed emfile
          → (b : Acceptor) × (accept_handler next a ≡ ok b) × (mem idle b.strays ≡ true))
unfolding accept_handler on_accept turn_away
accept_handler_strays fd idle e handed r apart full again = (
  bare_of fd (some idle) handed,
  simp (full, again) (ap ok (closed_spare fd idle handed apart)),
  let turned : (idle == fd) ≡ false = ground arith in simp turned,
  destruct_strays fd idle handed apart,
  λ next f. (
    turn_away next.second next.reopened (bare_of fd (some idle) handed),
    simp f,
    let own : (idle == idle) ≡ true = ground arith in
        ap (mem idle) (turn_away_strays fd idle handed next.second next.reopened apart) ∙ simp own,
  ),
)
