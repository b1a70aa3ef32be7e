-- ===== src/TcpConnection/Events.antt =====
-- The dispatch of events to a connection of src/tcp_connection.cc, and its first states.
use anoii.Prelude.{
  replicate, length-replicate, int_overflow, ℕ, zero, suc, ◌≤◌, ◌≡◌, ◌≢◌, inl, inr, refl, sym, ◌∙◌,
  Bool, true, false, some, [], ◌∷◌, arith, length, Result, ok, err, ◌>>=◌,
}
use mathlib.Core.List.{append-nil}
use mathlib.Core.Path.{subst}
use anoii.Buffer.{Buffer, is_empty, Reading, failed, delivered, count, init}
use anoii.Buffer.Inv.{IsValid}
use anoii.Buffer.Fill.{read_fd-Reads}
use anoii.Channel.{Received, handle, call_if, readable, writable, failing}
use anoii.TcpConnection.{
  TcpConnection, connecting, established, readable_cb, conn_cb, Written, handle_read, handle_events,
  after_read, set_handling, on_established, init_connection,
}
use anoii.TcpConnection.Sound.{
  Sound, After, After-refl, After-trans, survives, called-After, Survives, returns, overflows,
  stream,
}
use anoii.TcpConnection.Writing.{handle_write-Survives}
use anoii.TcpConnection.Closing.{handle_close-Survives}

-- The input buffer is no part of the stream.
input-After :
    {c : TcpConnection} (b : Buffer) → Sound c → IsValid b → After [] c (record c { input = b })
input-After b s v = record {
  sound = record {
    input_valid = v;
    output_valid = s.output_valid;
    interest = s.interest;
    quiet = s.quiet;
    drained = s.drained;
    sealed = s.sealed;
    closed_once = s.closed_once;
    not_closed = s.not_closed;
  };
  streamed = sym (append-nil _);
  connected = λ e. e;
  gone = λ e. e;
  handling = refl;
}

Survives-after :
    {c d : TcpConnection} {r : Result TcpConnection}
    → After [] c d
    → Survives [] d r
    → Survives [] c r
Survives-after a (overflows e) = overflows e
Survives-after a (returns f e b) = returns f e (After-trans a b)

after_read-Survives :
    {c : TcpConnection} (n : ℕ)
    → Sound c
    → c.state ≢ connecting
    → Survives [] c (after_read (count n) c)
unfolding after_read
after_read-Survives zero s known = handle_close-Survives s known
after_read-Survives (suc n) s known = returns _ refl (called-After readable_cb refl s)

handle_read-Survives :
    {c : TcpConnection} (spare : ℕ) (reading : Reading)
    → Sound c
    → c.state ≢ connecting
    → Survives [] c (handle_read spare reading c)
unfolding handle_read
handle_read-Survives {c} spare (failed e) s known = returns c refl (After-refl s)
handle_read-Survives {c} spare (delivered bytes) s known =
    elim (read_fd-Reads spare (delivered bytes) s.input_valid) [
      | inl (b, e, h) ↦
          let a = input-After b s h.valid in
          survives refl (rw e refl)
            (Survives-after a (after_read-Survives (length bytes) a.sound known))
      | inr over ↦ overflows (rw over refl)
    ]

call_if-Survives :
    {c : TcpConnection} (flag : Bool) (cb : TcpConnection → Result TcpConnection)
    → Sound c
    → Survives [] c (cb c)
    → Survives [] c (call_if flag (some cb) c)
call_if-Survives {c} false cb s k = returns c refl (After-refl s)
call_if-Survives true cb s k = k

flagged-Sound : {c : TcpConnection} (b : Bool) → Sound c → Sound (set_handling b c)
flagged-Sound b s = record {
  input_valid = s.input_valid;
  output_valid = s.output_valid;
  interest = s.interest;
  quiet = s.quiet;
  drained = s.drained;
  sealed = s.sealed;
  closed_once = s.closed_once;
  not_closed = s.not_closed;
}

-- What the dispatch leaves: everything but the flag that it sets and clears.
pub data Dispatched (c : TcpConnection) (r : Result TcpConnection) : Type 0 where
  returned :
      (c' : TcpConnection)
      → r ≡ ok c'
      → Sound c'
      → stream c' ≡ stream c
      → c'.state ≢ connecting
      → c'.channel.is_handling_events ≡ false
      → Dispatched c r
  overflowed : r ≡ err int_overflow → Dispatched c r

Dispatched-bind :
    {c d : TcpConnection} {r : Result TcpConnection} (f : TcpConnection → Result TcpConnection)
    → Survives [] d r
    → ((e : TcpConnection) → After [] d e → Dispatched c (f e))
    → Dispatched c (r >>= f)
Dispatched-bind f (overflows e) next = overflowed (rw e refl)
Dispatched-bind {c} f (returns d e a) next = subst (Dispatched c) (sym (rw e refl)) (next d a)

-- `Channel::Handle` on a connection past connecting, whatever flags poll reports and whatever the
-- kernel answers to the read and the write: the callbacks run in the order read, write, error,
-- close on what the one before left, and together keep the invariant, lose no byte of the stream and
-- fail no assertion, also where the read closes the connection and the other events follow, unless a
-- size leaves `int`.
pub handle_events-Dispatched :
    {c : TcpConnection} (spare : ℕ) (reading : Reading) (result : Written) (revents : Received)
    → Sound c
    → c.state ≢ connecting
    → Dispatched c (handle_events spare reading result revents c)
unfolding handle_events handle
handle_events-Dispatched {c} spare reading result revents s known =
    let s0 = flagged-Sound true s in
    Dispatched-bind _
      (call_if-Survives (readable revents) _ s0 (handle_read-Survives spare reading s0 known))
      (λ c1 a1.
        let k1 = a1.connected known in
        Dispatched-bind _
          (call_if-Survives (writable revents) _ a1.sound
            (handle_write-Survives result a1.sound a1.handling))
          (λ c2 a2.
            let k2 = a2.connected k1 in
            Dispatched-bind _
              (call_if-Survives (failing revents) _ a2.sound
                (returns c2 refl (After-refl a2.sound)))
              (λ c3 a3.
                let k3 = a3.connected k2 in
                Dispatched-bind _
                  (call_if-Survives revents.pollhup _ a3.sound (handle_close-Survives a3.sound k3))
                  (λ c4 a4.
                    let all = After-trans (After-trans (After-trans a1 a2) a3) a4 in
                    returned (set_handling false c4) refl (flagged-Sound false a4.sound)
                      (all.streamed ∙ append-nil _) (a4.connected k3) refl))))

pub on_established-Survives :
    {c : TcpConnection} → Sound c → c.state ≡ connecting → Survives [] c (on_established c)
unfolding on_established
on_established-Survives {c} s e =
    returns (record c { state = established; calls = conn_cb established ∷ c.calls }) (rw e refl)
      record {
        sound = record {
          input_valid = s.input_valid;
          output_valid = s.output_valid;
          interest = λ n. s.interest (λ h. cc (sym e ∙ h));
          quiet = λ h. cc h;
          drained = s.drained;
          sealed = λ h. elim (s.sealed h) [ inl k ↦ cc (sym e ∙ k) | inr k ↦ cc (sym e ∙ k) ];
          closed_once = s.closed_once;
          not_closed = λ n. s.not_closed (λ h. cc (sym e ∙ h));
        };
        streamed = sym (append-nil _);
        connected = λ n h. cc h;
        gone = λ h. cc (sym e ∙ h);
        handling = refl;
      }

fresh-IsValid :
    (n k : ℕ)
    → k ≤ n
    → IsValid (record { head = k; tail = k; prepend_size = k; cells = replicate n 0 })
fresh-IsValid n k h = record {
  ordered = omega arith;
  in_cells = omega (arith, length-replicate {A = ℕ} n 0);
  reserved = omega (arith, length-replicate {A = ℕ} n 0);
}

pub init_connection-Sound :
    (c : TcpConnection) × (init_connection ≡ ok c) × Sound c × (stream c ≡ [])
unfolding init_connection init is_empty
init_connection-Sound = (
  _,
  refl,
  record {
    input_valid = fresh-IsValid 1024 0 (omega arith);
    output_valid = fresh-IsValid 1024 8 (omega arith);
    interest = λ n. refl;
    quiet = λ h. cc h;
    drained = λ h. refl;
    sealed = λ h. cc h;
    closed_once = omega arith;
    not_closed = λ n. refl;
  },
  refl,
)
