-- ===== src/TcpConnection/Sound.antt =====
-- The invariant of a connection of src/tcp_connection.cc, and the form of a step that keeps it.
use anoii.Prelude.{
  int_overflow, ℕ, suc, ◌≤◌, ◌<◌, ◌≡◌, ◌≢◌, ◌⊎◌, refl, sym, ap, ◌∙◌, true, false, not, List, [],
  ◌∷◌, ◌++◌, arith, length, Result, ok, err,
}
use mathlib.Core.List.{append-nil, append_assoc}
use mathlib.Core.Path.{subst}
use anoii.Buffer.{Buffer, contents, is_empty}
use anoii.Buffer.Inv.{IsValid, length-contents, Holds}
use anoii.Channel.{has_events}
use anoii.TcpConnection.{
  TcpConnection, ConnState, connecting, established, half_shutdown, disconnected, Call, close_cb,
}

-- How many of the calls are `close_cb_`.
abbrev pub closings : List Call → ℕ
closings [] = 0
closings (close_cb ∷ calls) = suc (closings calls)
closings (c ∷ calls) = closings calls

pub record Sound (c : TcpConnection) : Type 0 where
  pub input_valid : IsValid c.input
  pub output_valid : IsValid c.output
  -- While the connection lives, it waits to write exactly if bytes are left.
  pub interest : c.state ≢ disconnected → is_empty c.output ≡ not c.channel.events.pollout
  pub quiet : c.state ≡ disconnected → has_events c.channel ≡ false
  -- The write side is shut only behind the last byte.
  pub drained : c.shut ≡ true → is_empty c.output ≡ true
  pub sealed : c.shut ≡ true → (c.state ≡ half_shutdown) ⊎ (c.state ≡ disconnected)
  pub closed_once : closings c.calls ≤ 1
  pub not_closed : c.state ≢ disconnected → closings c.calls ≡ 0

-- What the kernel took and what waits behind it.
abbrev pub stream : TcpConnection → List ℕ
stream c = c.written ++ contents c.output

-- A step that lets `bytes` into the stream.
pub record After (bytes : List ℕ) (c c' : TcpConnection) : Type 0 where
  pub sound : Sound c'
  pub streamed : stream c' ≡ stream c ++ bytes
  pub connected : c.state ≢ connecting → c'.state ≢ connecting
  pub gone : c.state ≡ disconnected → c'.state ≡ disconnected
  pub handling : c'.channel.is_handling_events ≡ c.channel.is_handling_events

-- No assertion fails and nothing is read out of bounds; a size may leave `int`.
pub data Survives (bytes : List ℕ) (c : TcpConnection) (r : Result TcpConnection) : Type 0 where
  returns : (c' : TcpConnection) → r ≡ ok c' → After bytes c c' → Survives bytes c r
  overflows : r ≡ err int_overflow → Survives bytes c r

pub data Which (s : ConnState) : Type 0 where
  is_connecting : s ≡ connecting → Which s
  is_established : s ≡ established → Which s
  is_half_shutdown : s ≡ half_shutdown → Which s
  is_disconnected : s ≡ disconnected → Which s

pub which : (s : ConnState) → Which s
which connecting = is_connecting refl
which established = is_established refl
which half_shutdown = is_half_shutdown refl
which disconnected = is_disconnected refl

pub After-refl : {c : TcpConnection} → Sound c → After [] c c
After-refl s = record {
  sound = s;
  streamed = sym (append-nil _);
  connected = λ h. h;
  gone = λ h. h;
  handling = refl;
}

pub no_bytes : {bytes : List ℕ} → length bytes ≡ 0 → bytes ≡ []
no_bytes {bytes = []} e = refl
no_bytes {bytes = x ∷ xs} e = absurd (omega (arith, e))

pub is_empty-contents : {b : Buffer} → IsValid b → is_empty b ≡ true → contents b ≡ []
unfolding is_empty
is_empty-contents {b} v e = no_bytes (length-contents v ∙ ground arith)

pub is_empty-Holds :
    {b b' : Buffer} {bytes : List ℕ} → Holds bytes b b' → 0 < length bytes → is_empty b' ≡ false
unfolding is_empty
is_empty-Holds {b} {b'} h some_bytes = ground (arith, length-contents h.valid, ap length h.holds)

pub After-trans :
    {xs ys : List ℕ} {c d f : TcpConnection} → After xs c d → After ys d f → After (xs ++ ys) c f
After-trans {xs} {ys} {c} a b = record {
  sound = b.sound;
  streamed = b.streamed ∙ ap (λ l. l ++ ys) a.streamed ∙ append_assoc (stream c) xs ys;
  connected = λ h. b.connected (a.connected h);
  gone = λ h. b.gone (a.gone h);
  handling = b.handling ∙ a.handling;
}

pub reaches : {xs : List ℕ} {c d f : TcpConnection} → f ≡ d → After xs c d → After xs c f
reaches {xs} {c} e a = subst (After xs c) (sym e) a

pub survives :
    {xs ys : List ℕ} {c : TcpConnection} {r r' : Result TcpConnection}
    → xs ≡ ys
    → r ≡ r'
    → Survives ys c r'
    → Survives xs c r
survives {ys} {c} {r} e h k = subst (λ l. Survives l c r) (sym e) (subst (Survives ys c) (sym h) k)

-- A callback that is no close callback.
pub called-After :
    {c : TcpConnection} (call : Call)
    → closings (call ∷ c.calls) ≡ closings c.calls
    → Sound c
    → After [] c (record c { calls = call ∷ c.calls })
called-After {c} call e s = record {
  sound = record {
    input_valid = s.input_valid;
    output_valid = s.output_valid;
    interest = s.interest;
    quiet = s.quiet;
    drained = s.drained;
    sealed = s.sealed;
    closed_once = omega (arith, e, s.closed_once);
    not_closed = λ n. e ∙ s.not_closed n;
  };
  streamed = sym (append-nil _);
  connected = λ n. n;
  gone = λ n. n;
  handling = refl;
}
