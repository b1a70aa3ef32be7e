-- ===== src/TcpClient/Attempts.antt =====
-- The connector of a client of src/tcp_client.cc: how its write event and its errors leave it.
use anoii.Prelude.{
  suc, ℕ, ◌<◌, ◌≡◌, refl, Bool, true, false, none, some, [], ◌∷◌, ◌++◌, arith, ◌==◌, if◌then◌else◌,
  length, length-append, Result, ok,
}
use anoii.Connector.{
  next_delay, retry, Connector, connecting, disconnected, connected, handle_write, handle_error,
  fresh_connector, close_fd, remove_and_reset_channel,
}
use anoii.Connector.Sockets.{Tidy, idle, trying, resting, removed, next_delay-Delay}

-- A connector that waits for nothing.
pub record Settled (c : Connector) : Type 0 where
  pub unwatched : c.registered ≡ none
  pub untimed : c.timer ≡ false
  pub closed : c.fd ≡ none

-- The write event of a pending attempt: another attempt is to come, or the socket was handed on.
pub data Wrote (c : Connector) (r : Result Connector) : Type 0 where
  missed :
      (d : Connector) → r ≡ ok d → Tidy d → d.registered ≡ none → d.handed ≡ c.handed → Wrote c r
  made :
      (d : Connector)
      → r ≡ ok d
      → Tidy d
      → Settled d
      → length c.handed < length d.handed
      → Wrote c r

pub handle_write-Wrote :
    {c : Connector} {fd : ℕ} (is_failed : Bool)
    → Tidy c
    → c.registered ≡ some fd
    → Wrote c (handle_write is_failed c)
unfolding handle_write remove_and_reset_channel close_fd retry
handle_write-Wrote is_failed (idle d) h = cc h
handle_write-Wrote true (trying {ms} {timer} {handed} {resets} fd d) h =
    missed
      (resting (next_delay ms) connecting (if ms == 500 then true else timer) handed (suc resets))
      (rw (removed fd) refl) (idle (next_delay-Delay ms d)) refl refl
handle_write-Wrote false (trying {ms} {timer} {handed} {resets} fd d) h =
    made (resting ms connected false (handed ++ fd ∷ []) (suc resets)) (rw (removed fd) refl)
      (idle d) (record { unwatched = refl; untimed = refl; closed = refl })
      (omega (arith, length-append handed (fd ∷ [])))

-- An error that comes behind leaves a connector that waits for nothing.
pub handle_error-unreset :
    {c : Connector}
    → Tidy c
    → (fd : ℕ) → (handle_error c).registered ≡ some fd
    → (handle_error c).resets ≡ 0
unfolding handle_error remove_and_reset_channel close_fd
handle_error-unreset (idle {state = connecting} d) fd h = cc h
handle_error-unreset (idle {state = disconnected} d) fd h = cc h
handle_error-unreset (idle {state = connected} d) fd h = cc h
handle_error-unreset (trying k d) fd h = cc h

pub handle_error-Settled : {c : Connector} → Tidy c → Settled c → Settled (handle_error c)
unfolding handle_error remove_and_reset_channel close_fd
handle_error-Settled (idle {state = connecting} d) s = record {
  unwatched = refl;
  untimed = s.untimed;
  closed = refl;
}
handle_error-Settled (idle {state = disconnected} d) s = s
handle_error-Settled (idle {state = connected} d) s = s
handle_error-Settled (trying fd d) s = cc s.unwatched

pub fresh_connector-Tidy : Tidy fresh_connector
fresh_connector-Tidy = idle (omega arith)
