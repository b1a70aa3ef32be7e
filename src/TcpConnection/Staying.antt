-- ===== src/TcpConnection/Staying.antt =====
-- The state of a connection of src/tcp_connection.cc behind `Send` and `Shutdown`.
use anoii.Prelude.{
  ℕ, ◌-◌, ◌≡◌, ◌≢◌, inl, inr, refl, sym, ap, ◌∙◌, true, false, Bool-cases, List, ◌∷◌, ◌++◌, ltb,
  leb, ◌==◌, length, take, drop, Result, ok, err, ◌>>=◌,
}
use anoii.Buffer.{append, is_empty}
use anoii.TcpConnection.{
  watermark_cb, wake_up, write_cb_queued, TcpConnection, ConnState, half_shutdown, disconnected,
  Written, refused, took, eagain, hold, check_watermark, send_rest, send_now, send_unsafe, send,
  shutdown, shutdown_unsafe,
}
use anoii.TcpConnection.Sound.{
  which, is_connecting, is_established, is_half_shutdown, is_disconnected,
}
use anoii.TcpConnection.Reach.{ok-injective}

-- A result that, if there is one, has this state.
abbrev pub Stays : ConnState → Result TcpConnection → Type 0
Stays s r = (d : TcpConnection) → r ≡ ok d → d.state ≡ s

Stays-bind :
    {V : Type 0} (s : ConnState) (r : Result V) (f : V → TcpConnection)
    → ((v : V) → r ≡ ok v → (f v).state ≡ s)
    → Stays s (do v ← r; ok (f v))
Stays-bind s (err e) f h d g = cc g
Stays-bind s (ok v) f h d g = sym (ap (λ x. x.state) (ok-injective g)) ∙ h v refl

high_lem :
    (c : TcpConnection)
    → leb c.watermark (c.output.tail - c.output.head) ≡ true
    → check_watermark c ≡ record c { calls = watermark_cb ∷ c.calls }
unfolding check_watermark
high_lem c e = simp e

low_lem :
    (c : TcpConnection)
    → leb c.watermark (c.output.tail - c.output.head) ≡ false
    → check_watermark c ≡ c
unfolding check_watermark
low_lem c e = simp e

check_watermark-state : (c : TcpConnection) → (check_watermark c).state ≡ c.state
unfolding check_watermark
check_watermark-state c = elim (Bool-cases (leb c.watermark (c.output.tail - c.output.head))) [
  | inl high ↦ ap (λ x. x.state) (high_lem c high)
  | inr low ↦ ap (λ x. x.state) (low_lem c low)
]

hold-Stays : (spare : ℕ) (bytes : List ℕ) (c : TcpConnection) → Stays c.state (hold spare bytes c)
unfolding hold
hold-Stays spare bytes c = Stays-bind c.state (append spare bytes c.output) _ (λ v e. refl)

hold_checked-Stays :
    (spare : ℕ) (bytes : List ℕ) (c : TcpConnection)
    → Stays c.state (do d ← hold spare bytes c; ok (check_watermark d))
hold_checked-Stays spare bytes c =
    Stays-bind c.state (hold spare bytes c) check_watermark
      (λ d e. check_watermark-state d ∙ hold-Stays spare bytes c d e)

Stays-eq : {s : ConnState} {r r' : Result TcpConnection} → r ≡ r' → Stays s r' → Stays s r
Stays-eq e h d g = h d (sym e ∙ g)

send_rest-Stays :
    (spare n : ℕ) (bytes : List ℕ) (c : TcpConnection) → Stays c.state (send_rest spare n bytes c)
unfolding send_rest
send_rest-Stays spare n bytes c = elim (Bool-cases (ltb n (length bytes))) [
  | inl part ↦
      rw part
        (hold_checked-Stays spare (drop n bytes) (record c { written = c.written ++ take n bytes }))
  | inr whole ↦ rw whole (λ d g.
      sym (ap (λ x. x.state) (ok-injective g))
      ∙ check_watermark-state (record c {
        written = c.written ++ take n bytes;
        calls = wake_up ∷ write_cb_queued ∷ c.calls;
      }))
]

send_now-Stays :
    (spare : ℕ) (result : Written) (bytes : List ℕ) (c : TcpConnection)
    → Stays c.state (send_now spare result bytes c)
unfolding send_now
send_now-Stays spare (took n) bytes c = send_rest-Stays spare n bytes c
send_now-Stays spare (refused e) bytes c = elim (Bool-cases (e == eagain)) [
  | inl full ↦ rw full (send_rest-Stays spare 0 bytes c)
  | inr hard ↦ rw hard (λ d g. sym (ap (λ x. x.state) (ok-injective g)))
]

send_unsafe-Stays :
    (spare : ℕ) (result : Written) (bytes : List ℕ) (c : TcpConnection)
    → Stays c.state (send_unsafe spare result bytes c)
unfolding send_unsafe
send_unsafe-Stays spare result bytes c = elim (Bool-cases c.channel.events.pollout) [
  | inl waits ↦
      Stays-eq {r' = do output ← append spare bytes c.output; ok (record c { output = output })}
        (simp waits)
        (Stays-bind c.state (append spare bytes c.output) (λ output. record c { output = output })
          (λ v e. refl))
  | inr idle ↦ elim (Bool-cases (is_empty c.output)) [
    | inl none_left ↦
        Stays-eq {r' = send_now spare result bytes c} (simp (idle, none_left))
          (send_now-Stays spare result bytes c)
    | inr left ↦
        Stays-eq {r' = do d ← hold spare bytes c; ok (check_watermark d)} (simp (idle, left))
          (hold_checked-Stays spare bytes c)
  ]
]

kept_state : (c : TcpConnection) → Stays c.state (ok c)
kept_state c d g = sym (ap (λ x. x.state) (ok-injective g))

pub send-Stays :
    (spare : ℕ) (result : Written) (bytes : List ℕ) (c : TcpConnection)
    → Stays c.state (send spare result bytes c)
unfolding send
send-Stays spare result bytes c = elim (which c.state) [
  | is_connecting e ↦ Stays-eq {r' = ok c} (rw e refl) (kept_state c)
  | is_half_shutdown e ↦ Stays-eq {r' = ok c} (rw e refl) (kept_state c)
  | is_disconnected e ↦ Stays-eq {r' = ok c} (rw e refl) (kept_state c)
  | is_established e ↦
      Stays-eq {r' = send_unsafe spare result bytes c} (rw e refl)
        (send_unsafe-Stays spare result bytes c)
]

shutdown_unsafe-state : (c : TcpConnection) → (shutdown_unsafe c).state ≡ c.state
unfolding shutdown_unsafe
shutdown_unsafe-state c = elim (Bool-cases c.channel.events.pollout) [
  | inl waits ↦ let same : shutdown_unsafe c ≡ c = simp waits in ap (λ x. x.state) same
  | inr idle ↦
      let done : shutdown_unsafe c ≡ record c { shut = true } = simp idle in ap (λ x. x.state) done
]

shutdown_other :
    {c : TcpConnection}
    → c.state ≢ disconnected
    → shutdown c ≡ c
    → (shutdown c).state ≢ disconnected
shutdown_other alive e h = alive (sym (ap (λ x. x.state) e) ∙ h)

pub shutdown_alive :
    (c : TcpConnection) → c.state ≢ disconnected → (shutdown c).state ≢ disconnected
unfolding shutdown
shutdown_alive c alive = elim (which c.state) [
  | is_connecting e ↦ let same : shutdown c ≡ c = rw e refl in shutdown_other alive same
  | is_half_shutdown e ↦ let same : shutdown c ≡ c = rw e refl in shutdown_other alive same
  | is_disconnected e ↦ absurd (alive e)
  | is_established e ↦ λ h.
      let half = record c { state = half_shutdown } in
      let eq : shutdown c ≡ shutdown_unsafe half = rw e refl in
      cc (sym (shutdown_unsafe-state half) ∙ sym (ap (λ x. x.state) eq) ∙ h)
]
