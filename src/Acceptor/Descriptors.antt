-- ===== src/Acceptor/Descriptors.antt =====
-- Which descriptors an acceptor of src/acceptor.cc has open.
use anoii.Prelude.{
  ℕ, ◌≡◌, ◌≢◌, ◌⊎◌, if◌then◌else◌, inl, inr, refl, sym, ap, ◌∙◌, true, false, Bool-cases, Option,
  none, some, List, [], ◌∷◌, ◌++◌, arith, ◌==◌, Result, ok, err, aborted,
}
use mathlib.Core.List.{append-nil}
use anoii.Connector.{remove_fd}
use anoii.Socket.{Answer, failed, gives, is_failed, set_close_exec_non_block}
use anoii.Acceptor.{
  Acceptor, close, Arrival, emfile, pass_on, reopen, turn_away, on_accept, accept_handler, destruct,
}

-- What an acceptor is between two calls: its socket and its spare descriptor are open and nothing
-- else, and it has closed nothing that was not its own.
pub data Holds : Acceptor → Type 0 where
  ready :
      {fd idle : ℕ} {handed : List ℕ}
      → fd ≢ idle
      → Holds (record {
        fd = fd;
        idle_fd = some idle;
        opened = fd ∷ idle ∷ [];
        handed = handed;
        strays = [];
      })
  bare :
      {fd : ℕ} {handed : List ℕ}
      → Holds (record { fd = fd; idle_fd = none; opened = fd ∷ []; handed = handed; strays = [] })

-- The kernel gives no number that is open.
abbrev pub NewFd : ℕ → Answer → Type 0
NewFd k (failed e) = Unit {0}
NewFd k (gives fd) = fd ≢ k

abbrev pub handed_of : Answer → List ℕ
handed_of (failed e) = []
handed_of (gives fd) = fd ∷ []

-- A connection is there, and its flags cannot be read or stored.
abbrev pub Unflagged : Arrival → Type 0
Unflagged r =
    (is_failed r.first ≡ false) × ((is_failed r.flags ≡ true) ⊎ (is_failed r.stored ≡ true))

-- The spare descriptor behind a call: that of the new `open`, if a connection was turned away.
abbrev pub spare_of : Answer → Option ℕ
spare_of (failed e) = none
spare_of (gives idle) = some idle

abbrev pub turned : Answer → Answer → Option ℕ → Option ℕ
turned (failed e) again before = before
turned (gives fd) again before = spare_of again

abbrev pub spare_behind : Answer → Arrival → Option ℕ → Option ℕ
spare_behind (gives fd) r before = before
spare_behind (failed e) r before = if e == emfile then turned r.second r.reopened before else before

-- How a call of `AcceptHandler` ends well: `passed` is what it hands on.
pub data Accepts (arrival : Arrival) (passed : List ℕ) (a : Acceptor) (r : Result Acceptor)
    : Type 0 where
  accepts :
      (b : Acceptor)
      → r ≡ ok b
      → Holds b
      → b.fd ≡ a.fd
      → b.handed ≡ a.handed ++ passed
      → b.idle_fd ≡ spare_behind arrival.first arrival a.idle_fd
      → ¬ Unflagged arrival
      → Accepts arrival passed a r
  aborts : r ≡ err aborted → Unflagged arrival → Accepts arrival passed a r

pub closed_new : (x : ℕ) (a : Acceptor) → close (some x) (record a { opened = x ∷ a.opened }) ≡ a
unfolding close remove_fd
closed_new x a = let own : (x == x) ≡ true = ground arith in simp own

abbrev pub bare_of : ℕ → Option ℕ → List ℕ → Acceptor
bare_of fd idle handed = record {
  fd = fd;
  idle_fd = idle;
  opened = fd ∷ [];
  handed = handed;
  strays = [];
}

pub closed_spare :
    (fd idle : ℕ) (handed : List ℕ)
    → fd ≢ idle
    → close (some idle) (record {
      fd = fd;
      idle_fd = some idle;
      opened = fd ∷ idle ∷ [];
      handed = handed;
      strays = [];
    })
      ≡ bare_of fd (some idle) handed
unfolding close remove_fd
closed_spare fd idle handed apart =
    let differs : (fd == idle) ≡ false = ground arith in
    let own : (idle == idle) ≡ true = ground arith in
    let turned : (idle == fd) ≡ false = ground arith in simp (differs, own, turned)

reopen-Holds :
    {fd : ℕ} (idle : Option ℕ) (handed : List ℕ) (x : ℕ) (again : Answer)
    → NewFd fd again
    → (b : Acceptor) × (reopen x again (bare_of fd idle handed) ≡ b)
      × Holds b
      × (b.fd ≡ fd)
      × (b.handed ≡ handed)
      × (b.idle_fd ≡ spare_of again)
unfolding reopen
reopen-Holds {fd} idle handed x (failed e) n = (
  bare_of fd none handed,
  ap (λ (b : Acceptor). record b { idle_fd = none }) (closed_new x (bare_of fd idle handed)),
  bare,
  refl,
  refl,
  refl,
)
reopen-Holds {fd} idle handed x (gives i) n = (
  _,
  ap (λ (b : Acceptor). record b { idle_fd = some i; opened = b.opened ++ i ∷ [] })
      (closed_new x (bare_of fd idle handed)),
  ready (λ e. n (sym e)),
  refl,
  refl,
  refl,
)

turn_away-Holds :
    {a : Acceptor} (second again : Answer)
    → Holds a
    → NewFd a.fd again
    → (a.idle_fd ≡ none) ⊎ (is_failed second ≡ false)
    → (b : Acceptor) × (turn_away second again a ≡ b)
      × Holds b
      × (b.fd ≡ a.fd)
      × (b.handed ≡ a.handed)
      × (b.idle_fd ≡ turned second again a.idle_fd)
unfolding turn_away
turn_away-Holds (failed e) again (ready apart) n k = absurd (ground (arith, k))
turn_away-Holds (failed e) again bare n k = (_, unfold close in refl, bare, refl, refl, refl)
turn_away-Holds (gives x) again (ready {fd} {idle} {handed} apart) n k =
    let (b, e, kept, same, passed, spare) = reopen-Holds (some idle) handed x again n in
    (b, ap (reopen x again) (closed_spare fd idle handed apart) ∙ e, kept, same, passed, spare)
turn_away-Holds (gives x) again (bare {fd} {handed}) n k =
    let (b, e, kept, same, passed, spare) = reopen-Holds {fd = fd} none handed x again n in
    (b, unfold close in e, kept, same, passed, spare)

flags-stored :
    (flags stored : Answer)
    → ((v : ℕ) × (set_close_exec_non_block flags stored ≡ ok v)
        × ¬ ((is_failed flags ≡ true) ⊎ (is_failed stored ≡ true)))
      ⊎ ((set_close_exec_non_block flags stored ≡ err aborted)
          × ((is_failed flags ≡ true) ⊎ (is_failed stored ≡ true)))
unfolding set_close_exec_non_block
flags-stored (failed e) stored = inr (refl, inl refl)
flags-stored (gives n) (failed e) = inr (refl, inr refl)
flags-stored (gives n) (gives m) = inl (_, refl, λ bad. elim bad [ inl e ↦ cc e | inr e ↦ cc e ])

passed-Holds : {a : Acceptor} (fd : ℕ) → Holds a → Holds (pass_on fd a)
passed-Holds fd (ready apart) = ready apart
passed-Holds fd bare = bare

-- `AcceptHandler` of an acceptor that has its socket and, if it could be opened, its spare
-- descriptor, where the kernel gives no number that is open, and where the connection that the
-- spare one makes room for is accepted: the new descriptor is handed on and nothing else is. Where
-- the process has no descriptor left, the spare one is closed, a connection is accepted in its place
-- and closed, and the spare one is what `open` gives then; otherwise it stays. What is open is again
-- the socket and, if it could be opened, the spare descriptor, and no foreign descriptor was closed.
-- It aborts exactly where there is a connection whose flags `fcntl` fails to read or to store.
pub accept_handler-Accepts :
    {a : Acceptor} (r : Arrival)
    → Holds a
    → NewFd a.fd r.reopened
    → (r.first ≡ failed emfile → (a.idle_fd ≡ none) ⊎ (is_failed r.second ≡ false))
    → Accepts r (handed_of r.first) a (accept_handler r a)
unfolding accept_handler on_accept
accept_handler-Accepts {a} r h n k = go r.first refl
  where
    there : {e : ℕ} → r.first ≡ failed e → ¬ Unflagged r
    there same u = cc (sym (ap is_failed same) ∙ u.0)

    go : (first : Answer) → r.first ≡ first → Accepts r (handed_of first) a (on_accept first r a)
    go (gives fd) e = elim (flags-stored r.flags r.stored) [
      | inr (stops, why) ↦ aborts (rw stops refl) (ap is_failed e, why)
      | inl (v, goes, fine) ↦
          accepts (pass_on fd a) (rw goes refl) (passed-Holds fd h) refl refl
            (ap (λ f. spare_behind f r a.idle_fd) (sym e)) (λ u. fine u.1)
    ]
    go (failed e) same = elim (Bool-cases (e == emfile)) [
      | inr other ↦
          accepts a (rw other refl) h refl (sym (append-nil a.handed))
            (sym (
              ap (λ f. spare_behind f r a.idle_fd) same
              ∙ ap (λ t. if t then turned r.second r.reopened a.idle_fd else a.idle_fd) other))
            (there same)
      | inl full ↦
          let key : e ≡ emfile = ground arith in
          let (b, ends, kept, fd, handed, spare) =
            turn_away-Holds r.second r.reopened h n (k (same ∙ ap failed key)) in
          accepts b (rw (full, ends) refl) kept fd (handed ∙ sym (append-nil a.handed))
            (spare
              ∙ sym (
                  ap (λ f. spare_behind f r a.idle_fd) same
                  ∙ ap (λ t. if t then turned r.second r.reopened a.idle_fd else a.idle_fd) full))
            (there same)
    ]

-- The destructor closes what the acceptor has open, and nothing else.
pub destruct_closes :
    {a : Acceptor} → Holds a → ((destruct a).opened ≡ []) × ((destruct a).strays ≡ [])
unfolding destruct close remove_fd
destruct_closes (ready {fd} {idle} apart) =
    let own : (fd == fd) ≡ true = ground arith in
    let own_idle : (idle == idle) ≡ true = ground arith in
    (simp (own, own_idle), simp (own, own_idle))
destruct_closes (bare {fd}) = let own : (fd == fd) ≡ true = ground arith in (simp own, simp own)
