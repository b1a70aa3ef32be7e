-- ===== src/TcpConnection/Writing.antt =====
-- `TcpConnection::HandleWrite` of src/tcp_connection.cc.
use anoii.Prelude.{
  ℕ, ◌+◌, ◌-◌, ◌≡◌, ◌≢◌, inl, inr, refl, sym, ap, ◌∙◌, Bool, true, false, not, ◌||◌, Bool-cases, [],
  ◌∷◌, ◌++◌, arith, leb, take, drop, take-append-drop,
}
use mathlib.Core.List.{append-nil, append_assoc}
use anoii.Buffer.{contents, is_empty, pop}
use anoii.Buffer.Refine.{pop-Holds}
use anoii.Channel.{Channel, has_events, disable_write}
use anoii.TcpConnection.{
  TcpConnection, disconnected, write_cb_queued, Written, refused, took, drained, after_write,
  handle_write, shutdown_unsafe,
}
use anoii.TcpConnection.Sound.{
  Sound, After, After-refl, After-trans, reaches, survives, called-After, Survives, returns, which,
  is_connecting, is_established, is_half_shutdown, is_disconnected,
}
use anoii.TcpConnection.Closing.{shutdown_unsafe-After}

-- `n` bytes are written and popped, and the write interest becomes `ch`.
abbrev pub advanced : ℕ → Channel → TcpConnection → TcpConnection
advanced n ch c = record c {
  channel = ch;
  output = record c.output { head = c.output.head + n };
  written = c.written ++ take n (contents c.output);
}

or_less : (a b c : Bool) → (a || (b || c)) ≡ false → (a || (b || false)) ≡ false
or_less true b c e = cc e
or_less false true c e = cc e
or_less false false c e = refl

quiet-disable_write : (ch : Channel) → has_events ch ≡ false → has_events (disable_write ch) ≡ false
quiet-disable_write ch e = or_less ch.events.pollin ch.events.pollpri ch.events.pollout e

advanced-After :
    {c : TcpConnection} (n : ℕ) (ch : Channel)
    → Sound c
    → leb n (c.output.tail - c.output.head) ≡ true
    → (c.state ≢ disconnected
        → is_empty (record c.output { head = c.output.head + n }) ≡ not ch.events.pollout)
    → (has_events c.channel ≡ false → has_events ch ≡ false)
    → ch.is_handling_events ≡ c.channel.is_handling_events
    → After [] c (advanced n ch c)
unfolding is_empty
advanced-After {c} n ch s fits interest quiet same =
    let h = pop-Holds n s.output_valid fits in
    record {
      sound = record {
        input_valid = s.input_valid;
        output_valid = h.valid;
        interest = interest;
        quiet = λ e. quiet (s.quiet e);
        drained = λ e. let d = s.drained e in ground arith;
        sealed = s.sealed;
        closed_once = s.closed_once;
        not_closed = s.not_closed;
      };
      streamed =
          ap (λ l. (c.written ++ take n (contents c.output)) ++ l) h.holds
          ∙ append_assoc c.written (take n (contents c.output)) (drop n (contents c.output))
          ∙ ap (λ l. c.written ++ l) (take-append-drop n (contents c.output))
          ∙ sym (append-nil _);
      connected = λ e. e;
      gone = λ e. e;
      handling = same;
    }

still :
    {c : TcpConnection} (n : ℕ)
    → Sound c
    → leb n (c.output.tail - c.output.head) ≡ true
    → is_empty (record c.output { head = c.output.head + n }) ≡ false
    → c.state ≢ disconnected
    → is_empty (record c.output { head = c.output.head + n }) ≡ not c.channel.events.pollout
unfolding is_empty
still {c} n s fits left alive =
    let before : is_empty c.output ≡ false = ground (arith, s.output_valid.ordered) in
    left ∙ sym before ∙ s.interest alive

abbrev pub emptied : ℕ → TcpConnection → TcpConnection
emptied n c = record (advanced n (disable_write c.channel) c) { calls = write_cb_queued ∷ c.calls }

emptied-After :
    {c : TcpConnection} (n : ℕ)
    → Sound c
    → leb n (c.output.tail - c.output.head) ≡ true
    → is_empty (record c.output { head = c.output.head + n }) ≡ true
    → After [] c (emptied n c)
emptied-After {c} n s fits empty =
    let a =
      advanced-After n (disable_write c.channel) s fits (λ e. empty) (quiet-disable_write c.channel)
        refl in
    After-trans a (called-After write_cb_queued refl a.sound)

-- The switch behind the last byte.
drained-After :
    {c : TcpConnection} (n : ℕ)
    → Sound c
    → leb n (c.output.tail - c.output.head) ≡ true
    → is_empty (record c.output { head = c.output.head + n }) ≡ true
    → After [] c (drained (advanced n c.channel c))
unfolding drained
drained-After {c} n s fits empty =
    let a = emptied-After n s fits empty in
    elim (which c.state) [
      | is_connecting e ↦ reaches (rw e refl) a
      | is_established e ↦ reaches (rw e refl) a
      | is_disconnected e ↦ reaches (rw e refl) a
      | is_half_shutdown e ↦
          reaches {d = shutdown_unsafe (emptied n c)} (rw e refl)
            (After-trans a (shutdown_unsafe-After a.sound e))
    ]

-- `HandleWrite` within the dispatch of events keeps the invariant and the stream.
pub handle_write-Survives :
    {c : TcpConnection} (result : Written)
    → Sound c
    → c.channel.is_handling_events ≡ true
    → Survives [] c (handle_write result c)
unfolding handle_write after_write pop
handle_write-Survives {c} (refused e) s h =
    survives refl (rw h refl) (returns c refl (After-refl s))
handle_write-Survives {c} (took n) s h = elim (Bool-cases (leb n (c.output.tail - c.output.head))) [
  | inr more ↦ survives refl (rw (h, more) refl) (returns c refl (After-refl s))
  | inl fits ↦ elim (Bool-cases (is_empty (record c.output { head = c.output.head + n }))) [
    | inl empty ↦
        returns (drained (advanced n c.channel c)) (simp (h, fits, empty))
          (drained-After n s fits empty)
    | inr left ↦
        returns (advanced n c.channel c) (simp (h, fits, left))
          (advanced-After n c.channel s fits (still n s fits left) (λ e. e) refl)
  ]
]
