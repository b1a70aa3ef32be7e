-- ===== src/TcpConnection/Closing.antt =====
-- How a connection of src/tcp_connection.cc ends: `HandleClose` and `Shutdown`.
use anoii.Prelude.{
  ◌≡◌, ◌≢◌, inl, inr, refl, sym, ap, ◌∙◌, true, false, not, Bool-cases, [], ◌∷◌, arith, ok,
}
use mathlib.Core.List.{append-nil}
use anoii.Channel.{no_event}
use anoii.TcpConnection.{
  conn_cb, TcpConnection, ConnState, connecting, established, half_shutdown, disconnected, close_cb,
  close, handle_close, shutdown, shutdown_unsafe,
}
use anoii.TcpConnection.Sound.{
  Sound, After, After-refl, Survives, returns, which, is_connecting, is_established,
  is_half_shutdown, is_disconnected, After-trans, reaches,
}

abbrev closed : TcpConnection → TcpConnection
closed c = record c {
  state = disconnected;
  channel = record c.channel { events = no_event; registered = false };
  calls = close_cb ∷ conn_cb disconnected ∷ c.calls;
}

close-lem : (c : TcpConnection) → close c ≡ ok (closed c)
unfolding close
close-lem c = refl

closed-After : {c : TcpConnection} → Sound c → c.state ≢ disconnected → After [] c (closed c)
closed-After {c} s alive = record {
  sound = record {
    input_valid = s.input_valid;
    output_valid = s.output_valid;
    interest = λ n. absurd (n refl);
    quiet = λ e. refl;
    drained = s.drained;
    sealed = λ e. inr refl;
    closed_once = omega (arith, s.not_closed alive);
    not_closed = λ n. absurd (n refl);
  };
  streamed = sym (append-nil _);
  connected = λ h e. cc e;
  gone = λ e. refl;
  handling = refl;
}

alive_of : {s t : ConnState} → s ≡ t → t ≢ disconnected → s ≢ disconnected
alive_of e n h = n (sym e ∙ h)

-- `HandleClose` of a connection that is past connecting never fails an assertion, whatever closes
-- it, and calls the close callback at most once over its life: on a connection that is already
-- disconnected it does nothing.
pub handle_close-Survives :
    {c : TcpConnection} → Sound c → c.state ≢ connecting → Survives [] c (handle_close c)
unfolding handle_close
handle_close-Survives {c} s known = elim (which c.state) [
  | is_connecting e ↦ absurd (known e)
  | is_established e ↦
      returns (closed c) (rw (e, close-lem c) refl) (closed-After s (alive_of e (λ h. cc h)))
  | is_half_shutdown e ↦
      returns (closed c) (rw (e, close-lem c) refl) (closed-After s (alive_of e (λ h. cc h)))
  | is_disconnected e ↦ returns c (rw e refl) (After-refl s)
]

abbrev half : TcpConnection → TcpConnection
half c = record c { state = half_shutdown }

half-After : {c : TcpConnection} → Sound c → c.state ≡ established → After [] c (half c)
half-After {c} s e = record {
  sound = record {
    input_valid = s.input_valid;
    output_valid = s.output_valid;
    interest = λ n. s.interest (alive_of e (λ h. cc h));
    quiet = λ h. cc h;
    drained = s.drained;
    sealed = λ h. inl refl;
    closed_once = s.closed_once;
    not_closed = λ n. s.not_closed (alive_of e (λ h. cc h));
  };
  streamed = sym (append-nil _);
  connected = λ h e. cc e;
  gone = λ h. cc (sym e ∙ h);
  handling = refl;
}

pub shutdown_unsafe-After :
    {c : TcpConnection} → Sound c → c.state ≡ half_shutdown → After [] c (shutdown_unsafe c)
unfolding shutdown_unsafe
shutdown_unsafe-After {c} s e = elim (Bool-cases c.channel.events.pollout) [
  | inl waits ↦ reaches (rw waits refl) (After-refl s)
  | inr idle ↦ reaches {d = record c { shut = true }} (rw idle refl) record {
    sound = record {
      input_valid = s.input_valid;
      output_valid = s.output_valid;
      interest = s.interest;
      quiet = s.quiet;
      drained = λ h. s.interest (alive_of e (λ h. cc h)) ∙ ap not idle;
      sealed = λ h. inl e;
      closed_once = s.closed_once;
      not_closed = s.not_closed;
    };
    streamed = sym (append-nil _);
    connected = λ h. h;
    gone = λ h. h;
    handling = refl;
  }
]

shutdown_established :
    (c : TcpConnection) → c.state ≡ established → shutdown c ≡ shutdown_unsafe (half c)
unfolding shutdown
shutdown_established c e = rw e refl

-- `Shutdown` lets no byte into the stream and keeps the invariant: the write side is shut at once
-- only if no byte waits, and otherwise stays open until the last byte is written.
pub shutdown-After : {c : TcpConnection} → Sound c → After [] c (shutdown c)
unfolding shutdown
shutdown-After {c} s = elim (which c.state) [
  | is_connecting e ↦ reaches (rw e refl) (After-refl s)
  | is_half_shutdown e ↦ reaches (rw e refl) (After-refl s)
  | is_disconnected e ↦ reaches (rw e refl) (After-refl s)
  | is_established e ↦
      let a = half-After s e in
      reaches (shutdown_established c e) (After-trans a (shutdown_unsafe-After a.sound refl))
]
