-- ===== src/Connector/Sockets.antt =====
-- Which sockets a `Connector` of src/connector.cc holds.
use anoii.Prelude.{
  ap, suc, Option-cases, Option, ℕ, ◌≤◌, ◌≡◌, ◌≢◌, inl, inr, ◌-◌, Option-cases, ◌>>=◌, ap, zero,
  suc, ◌∙◌, refl, Bool, true, false, none, some, List, [], ◌∷◌, ◌++◌, arith, ◌==◌, if◌then◌else◌,
  Result, ok, err, assertion,
}
use anoii.Connector.{
  reset_channel, reset_times, next_delay, next_delay, Connector, State, connecting, disconnected,
  connected, remove_fd, close_fd, start_connecting, update_channel, retry, Attempt, hopeless,
  passing, pending, unexpected, classify, after_connect, connect_once, remove_and_reset_channel,
  stop_in_loop, reset_if, handle_error, handle_write,
}

abbrev pub Delay : ℕ → Type 0
Delay ms = (500 ≤ ms) × (ms ≤ 30000)

abbrev pub resting : ℕ → State → Bool → List ℕ → ℕ → Connector
resting ms state timer handed resets = record {
  fd = none;
  retry_ms = ms;
  state = state;
  timer = timer;
  registered = none;
  opened = [];
  handed = handed;
  resets = resets;
}

-- What a connector is between two calls: without a socket and out of the poller, or with the one
-- socket that it opened, under which the poller has the channel.
pub data Tidy : Connector → Type 0 where
  idle :
      {ms : ℕ} {state : State} {timer : Bool} {handed : List ℕ} {resets : ℕ}
      → Delay ms
      → Tidy (record {
        fd = none;
        retry_ms = ms;
        state = state;
        timer = timer;
        registered = none;
        opened = [];
        handed = handed;
        resets = resets;
      })
  trying :
      {ms : ℕ} {timer : Bool} {handed : List ℕ} {resets : ℕ} (fd : ℕ)
      → Delay ms
      → Tidy (record {
        fd = some fd;
        retry_ms = ms;
        state = connecting;
        timer = timer;
        registered = some fd;
        opened = fd ∷ [];
        handed = handed;
        resets = resets;
      })

pub next_delay-Delay : (ms : ℕ) → Delay ms → Delay (next_delay ms)
next_delay-Delay ms (low, high) = (ground arith, ground arith)

pub removed : (fd : ℕ) → remove_fd fd (fd ∷ []) ≡ []
unfolding remove_fd
removed fd = ground arith

-- A call that ends tidily.
abbrev pub Tidily : Result Connector → Type 0
Tidily r = (c : Connector) × (r ≡ ok c) × Tidy c

after_connect-Tidily :
    (a : Attempt) (sock ms : ℕ) (state : State) (timer : Bool) (handed : List ℕ) (resets : ℕ)
    → Delay ms
    → Tidily (
        after_connect a (record {
          fd = some sock;
          retry_ms = ms;
          state = state;
          timer = timer;
          registered = none;
          opened = sock ∷ [];
          handed = handed;
          resets = resets;
        }))
unfolding after_connect close_fd retry start_connecting update_channel
after_connect-Tidily hopeless sock ms state timer handed resets d =
    (resting ms state timer handed resets, rw (removed sock) refl, idle d)
after_connect-Tidily passing sock ms state timer handed resets d = (
  resting (next_delay ms) state (if ms == 500 then true else timer) handed resets,
  rw (removed sock) refl,
  idle (next_delay-Delay ms d),
)
after_connect-Tidily pending sock ms state timer handed resets d = (_, refl, trying sock d)
after_connect-Tidily unexpected sock ms state timer handed resets d =
    (resting ms state timer handed resets, rw (removed sock) refl, idle d)

-- An attempt of a connector that has no socket leaks nothing, whatever `connect` answers: it ends
-- with the new socket closed, or held and watched by the poller.
pub connect_once-Tidily :
    {c : Connector} (sock e : ℕ) → Tidy c → c.fd ≡ none → Tidily (connect_once sock e c)
unfolding connect_once
connect_once-Tidily sock e (idle {ms} {state} {timer} {handed} {resets} d) h =
    after_connect-Tidily (classify e) sock ms state timer handed resets d
connect_once-Tidily sock e (trying fd d) h = cc h

-- The retry timer may fire while an attempt is pending. The new socket then takes the place of
-- the pending one, which is never closed, and the poller's assertion fails, since it has the channel
-- under the old descriptor.
connect_once_clashes :
    (c : Connector) (old sock e : ℕ)
    → c.registered ≡ some old
    → old ≢ sock
    → classify e ≡ pending
    → connect_once sock e c ≡ err assertion
unfolding connect_once after_connect start_connecting update_channel
connect_once_clashes c old sock e h other waits =
    let differs : (old == sock) ≡ false = ground arith in simp (waits, h, differs)

-- The events of a pending attempt: the socket is handed on if it connected, and closed otherwise, with
-- another attempt to come.
handle_write-Tidily :
    {c : Connector} (failed : Bool) → Tidy c → c.state ≡ connecting → Tidily (handle_write failed c)
unfolding handle_write remove_and_reset_channel close_fd retry
handle_write-Tidily failed (idle {state = disconnected} d) h = cc h
handle_write-Tidily failed (idle {state = connected} d) h = cc h
handle_write-Tidily true (idle {ms} {state = connecting} {timer} {handed} {resets} d) h = (
  resting (next_delay ms) connecting (if ms == 500 then true else timer) handed (suc resets),
  refl,
  idle (next_delay-Delay ms d),
)
handle_write-Tidily false (idle {ms} {state = connecting} {timer} {handed} {resets} d) h =
    (resting ms connected false handed (suc resets), refl, idle d)
handle_write-Tidily true (trying {ms} {timer} {handed} {resets} fd d) h = (
  resting (next_delay ms) connecting (if ms == 500 then true else timer) handed (suc resets),
  rw (removed fd) refl,
  idle (next_delay-Delay ms d),
)
handle_write-Tidily false (trying {ms} {timer} {handed} {resets} fd d) h =
    (resting ms connected false (handed ++ fd ∷ []) (suc resets), rw (removed fd) refl, idle d)

abbrev pub queued : Option ℕ → ℕ → ℕ
queued none n = n
queued (some fd) n = suc n

-- `HandleError` and `Stop` at any time leave nothing open and nothing in the poller. Where `Stop` takes
-- the channel out of it, `Channel::Reset` is queued.
pub stop_in_loop-Tidy :
    {c : Connector}
    → Tidy c
    → Tidy (stop_in_loop c)
      × Tidy (handle_error c)
      × ((stop_in_loop c).opened ≡ [])
      × ((stop_in_loop c).timer ≡ false)
      × ((stop_in_loop c).registered ≡ none)
      × ((stop_in_loop c).resets ≡ queued c.registered c.resets)
unfolding stop_in_loop handle_error remove_and_reset_channel close_fd
stop_in_loop-Tidy (idle {state = connecting} d) = (idle d, idle d, refl, refl, refl, refl)
stop_in_loop-Tidy (idle {state = disconnected} d) = (idle d, idle d, refl, refl, refl, refl)
stop_in_loop-Tidy (idle {state = connected} d) = (idle d, idle d, refl, refl, refl, refl)
stop_in_loop-Tidy (trying fd d) =
    (rw (removed fd) (idle d), rw (removed fd) (idle d), removed fd, refl, refl, refl)

-- An attempt queues no reset.
pub connect_once-resets :
    (sock e : ℕ) (c : Connector) {d : Connector}
    → connect_once sock e c ≡ ok d
    → d.resets ≡ c.resets
unfolding connect_once after_connect close_fd retry start_connecting update_channel
connect_once-resets sock e c {d} h = go (classify e) h
  where
    go :
        (a : Attempt)
        → after_connect a (record c { fd = some sock; opened = sock ∷ c.opened }) ≡ ok d
        → d.resets ≡ c.resets
    go hopeless h = cc h
    go passing h = cc h
    go unexpected h = cc h
    go pending h = elim (Option-cases c.registered) [
      | inl e ↦ ground (arith, h, e)
      | inr (fd, e) ↦ ground (arith, h, e)
    ]

-- Queued resets do nothing to a channel that the poller does not have.
pub reset_times-ok :
    (n : ℕ) (c : Connector)
    → c.registered ≡ none
    → reset_times n c ≡ ok (record c { resets = c.resets - n })
unfolding reset_times reset_channel
reset_times-ok zero c h = ground arith
reset_times-ok (suc n) c h =
    let called : reset_channel c ≡ ok (record c { resets = c.resets - 1 }) =
      ap (λ o. reset_if o c) h in
    let left : c.resets - 1 - n ≡ c.resets - suc n = omega arith in
    ap (λ r. r >>= reset_times n) called
    ∙ reset_times-ok n (record c { resets = c.resets - 1 }) h
    ∙ ap (λ k. ok (record c { resets = k })) left
