-- ===== src/TcpConnection/Reach.antt =====
-- All that a connection of src/tcp_connection.cc goes through, from its constructor on.
use anoii.Prelude.{
  ◌∷◌, ℕ, ◌≡◌, ◌≢◌, inl, inr, refl, sym, ap, ◌∙◌, Bool, false, Bool-cases, List, [], ◌++◌, Result,
  ok, err, assertion, ◌>>=◌, bind-eq-ok,
}
use mathlib.Core.List.{append-nil}
use mathlib.Core.Path.{subst}
use anoii.Buffer.{init, Reading}
use anoii.Channel.{disable_all, Channel, has_events, Received, remove_channel}
use anoii.TcpConnection.{
  established, conn_cb, TcpConnection, connecting, disconnected, Written, handle_events, abandon,
  destroy_connection, on_established, init_connection, send, shutdown,
}
use anoii.TcpConnection.Sound.{
  Sound, After, Survives, returns, overflows, which, is_connecting, is_established,
  is_half_shutdown, is_disconnected, stream,
}
use anoii.TcpConnection.Sending.{Fits, accepted, send-Survives}
use anoii.TcpConnection.Events.{
  Dispatched, returned, overflowed, handle_events-Dispatched, on_established-Survives,
  init_connection-Sound,
}
use anoii.TcpConnection.Closing.{shutdown-After}

-- `Reach bytes c`: a connection that has accepted `bytes` may be `c`.
pub data Reach : List ℕ → TcpConnection → Type 0 where
  made : {c : TcpConnection} → init_connection ≡ ok c → Reach [] c
  connected :
      {bytes : List ℕ} {c d : TcpConnection}
      → Reach bytes c
      → on_established c ≡ ok d
      → Reach bytes d
  dispatched :
      {bytes : List ℕ} {c d : TcpConnection} (spare : ℕ) (reading : Reading) (result : Written)
      (revents : Received)
      → Reach bytes c
      → c.state ≢ connecting
      → handle_events spare reading result revents c ≡ ok d
      → Reach bytes d
  sent :
      {bytes : List ℕ} {c d : TcpConnection} (spare : ℕ) (result : Written) (more : List ℕ)
      → Reach bytes c
      → Fits result more
      → send spare result more c ≡ ok d
      → Reach (bytes ++ accepted result more c) d
  half_closed : {bytes : List ℕ} {c : TcpConnection} → Reach bytes c → Reach bytes (shutdown c)
  destroyed :
      {bytes : List ℕ} {c d : TcpConnection}
      → Reach bytes c
      → destroy_connection c ≡ ok d
      → Reach bytes d

pub ok-injective : {A : Type 0} {a b : A} → ◌≡◌ {A = Result A} (ok a) (ok b) → a ≡ b
ok-injective e = cc e

pub init_connection-connecting : (c : TcpConnection) → init_connection ≡ ok c → c.state ≡ connecting
unfolding init_connection init
init_connection-connecting c e = sym (ap (λ x. x.state) (ok-injective e))

pub on_established-established :
    (c d : TcpConnection) → c.state ≡ connecting → on_established c ≡ ok d → d.state ≡ established
unfolding on_established
on_established-established c d e h =
    let stepped : on_established c
        ≡ ok (record c { state = established; calls = conn_cb established ∷ c.calls }) =
      rw e refl in
    sym (ap (λ x. x.state) (ok-injective (sym stepped ∙ h)))

After-eq-ok :
    {xs : List ℕ} {c d : TcpConnection} {r : Result TcpConnection}
    → Survives xs c r
    → r ≡ ok d
    → After xs c d
After-eq-ok {xs} {c} (returns f e a) h = subst (After xs c) (ok-injective (sym e ∙ h)) a
After-eq-ok (overflows e) h = cc (sym e ∙ h)

remove_channel-eq-ok :
    (ch ch' : Channel)
    → remove_channel ch ≡ ok ch'
    → (r : Bool) × (ch' ≡ record ch { registered = r })
remove_channel-eq-ok ch ch' e = elim (Bool-cases ch.registered) [
  | inr out ↦
      let same : remove_channel ch ≡ ok ch = simp out in
      (ch.registered, ok-injective (sym e ∙ same))
  | inl there ↦ elim (Bool-cases (has_events ch)) [
    | inl busy ↦
        let refused : remove_channel ch ≡ err assertion = simp (there, busy) in cc (sym refused ∙ e)
    | inr idle ↦
        let gone : remove_channel ch ≡ ok (record ch { registered = false }) = simp (there, idle) in
        (false, ok-injective (sym e ∙ gone))
  ]
]

removed-Sound :
    {c : TcpConnection} (r : Bool)
    → Sound c
    → Sound (record c { channel = record c.channel { registered = r } })
removed-Sound r s = record {
  input_valid = s.input_valid;
  output_valid = s.output_valid;
  interest = s.interest;
  quiet = s.quiet;
  drained = s.drained;
  sealed = s.sealed;
  closed_once = s.closed_once;
  not_closed = s.not_closed;
}

pub bind-eq-err :
    {A B : Type 0} {step : Result A} (next : A → Result B)
    → step ≡ err assertion
    → (step >>= next) ≡ err assertion
bind-eq-err next e = rw e refl

abbrev gone : TcpConnection → TcpConnection
gone c = record c { state = disconnected; channel = disable_all c.channel }

gone-Sound : {c : TcpConnection} → Sound c → Sound (gone c)
gone-Sound s = record {
  input_valid = s.input_valid;
  output_valid = s.output_valid;
  interest = λ n. absurd (n refl);
  quiet = λ e. refl;
  drained = s.drained;
  sealed = λ e. inr refl;
  closed_once = s.closed_once;
  not_closed = λ n. absurd (n refl);
}

abandon-Sound : {c : TcpConnection} → Sound c → Sound (abandon c) × (stream (abandon c) ≡ stream c)
unfolding abandon
abandon-Sound {c} s = elim (which c.state) [
  | is_connecting e ↦ same (rw e refl)
  | is_half_shutdown e ↦ same (rw e refl)
  | is_disconnected e ↦ same (rw e refl)
  | is_established e ↦
      let eq : abandon c ≡ gone c = rw e refl in (subst Sound (sym eq) (gone-Sound s), ap stream eq)
]
  where
    -- In any other state nothing happens.
    same : abandon c ≡ c → Sound (abandon c) × (stream (abandon c) ≡ stream c)
    same e = (subst Sound (sym e) s, ap stream e)

destroy_connection-Sound :
    {c d : TcpConnection} → Sound c → destroy_connection c ≡ ok d → Sound d × (stream d ≡ stream c)
unfolding destroy_connection
destroy_connection-Sound {c} {d} s e =
    let a = abandon-Sound s in
    let (ch, removed, result) = bind-eq-ok (remove_channel (abandon c).channel) _ e in
    let (r, same) = remove_channel-eq-ok (abandon c).channel ch removed in
    let whole : d ≡ record (abandon c) { channel = record (abandon c).channel { registered = r } } =
      sym (ok-injective result) ∙ ap (λ x. record (abandon c) { channel = x }) same in
    (subst Sound (sym whole) (removed-Sound r a.0), ap stream whole ∙ a.1)

on_established-Sound :
    {c d : TcpConnection} → Sound c → on_established c ≡ ok d → Sound d × (stream d ≡ stream c)
unfolding on_established
on_established-Sound {c} {d} s e = elim (which c.state) [
  | is_connecting h ↦
      let a = After-eq-ok (on_established-Survives s h) e in (a.sound, a.streamed ∙ append-nil _)
  | is_established h ↦ let stop : on_established c ≡ err assertion = rw h refl in cc (sym stop ∙ e)
  | is_half_shutdown h ↦
      let stop : on_established c ≡ err assertion = rw h refl in cc (sym stop ∙ e)
  | is_disconnected h ↦ let stop : on_established c ≡ err assertion = rw h refl in cc (sym stop ∙ e)
]

Dispatched-eq-ok :
    {c d : TcpConnection} {r : Result TcpConnection}
    → Dispatched c r
    → r ≡ ok d
    → Sound d × (stream d ≡ stream c)
Dispatched-eq-ok {c} (returned f e s h known idle) g =
    subst (λ x. Sound x × (stream x ≡ stream c)) (ok-injective (sym e ∙ g)) (s, h)
Dispatched-eq-ok (overflowed e) g = cc (sym e ∙ g)

-- Every connection that the constructor, `OnEstablished`, the dispatch of events, `Send`, `Shutdown`
-- and `DestroyConnection` can lead to, in any order and with any answers of the kernel, is sound: it
-- waits to write exactly if bytes are left, it shuts its write side only behind the last byte, a
-- disconnected one waits for nothing, and its close callback came at most once; and what the kernel
-- took, followed by what waits, is what `Send` accepted, in order.
pub Reach-Sound :
    {bytes : List ℕ} {c : TcpConnection} → Reach bytes c → Sound c × (stream c ≡ bytes)
Reach-Sound (made {c} e) =
    let (c0, e0, s, none_yet) = init_connection-Sound in
    subst (λ x. Sound x × (stream x ≡ [])) (ok-injective (sym e0 ∙ e)) (s, none_yet)
Reach-Sound (connected r e) =
    let (s, h) = Reach-Sound r in let (t, k) = on_established-Sound s e in (t, k ∙ h)
Reach-Sound (dispatched spare reading result revents r known e) =
    let (s, h) = Reach-Sound r in
    let (t, k) =
      Dispatched-eq-ok (handle_events-Dispatched spare reading result revents s known) e in
    (t, k ∙ h)
Reach-Sound (sent {c} spare result more r fits e) =
    let (s, h) = Reach-Sound r in
    let a = After-eq-ok (send-Survives spare result more s fits) e in
    (a.sound, a.streamed ∙ ap (λ l. l ++ accepted result more c) h)
Reach-Sound (half_closed r) =
    let (s, h) = Reach-Sound r in
    let a = shutdown-After s in (a.sound, a.streamed ∙ append-nil _ ∙ h)
Reach-Sound (destroyed r e) =
    let (s, h) = Reach-Sound r in let (t, k) = destroy_connection-Sound s e in (t, k ∙ h)
