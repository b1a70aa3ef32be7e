-- ===== src/TcpConnection/Holding.antt =====
-- What `TcpConnection::SendUnsafe` of src/tcp_connection.cc keeps for later.
use anoii.Prelude.{
  take-append-drop, take-all, ℕ, ◌+◌, ◌-◌, ◌≤◌, ◌<◌, ◌≡◌, ◌≢◌, inl, inr, refl, sym, ap, ◌∙◌, Bool,
  true, false, not, Bool-cases, List, [], ◌∷◌, ◌++◌, arith, ltb, leb, length, take, drop,
  length-append, length-drop, Result, ok, ◌>>=◌,
}
use mathlib.Core.List.{append-nil, append_assoc}
use mathlib.Core.Path.{subst}
use anoii.Buffer.{Buffer, contents, is_empty, append}
use anoii.Buffer.Inv.{IsValid, length-contents, append-Yields}
use anoii.TcpConnection.{
  wake_up, write_cb_queued, TcpConnection, ConnState, established, disconnected, hold,
  check_watermark, send_rest, watermark_cb,
}
use anoii.TcpConnection.Sound.{
  Sound, After, After-refl, Survives, returns, overflows, closings, is_empty-contents,
  is_empty-Holds, After-trans, reaches, survives, called-After,
}

-- The output buffer of a living connection is replaced, and so is its interest in writing.
abbrev refilled : Buffer → Bool → TcpConnection → TcpConnection
refilled b out c = record c {
  output = b;
  channel = record c.channel {
    events = record c.channel.events { pollout = out };
    registered = true;
  };
}

-- What is sent only while the connection is established, whose write side is then open.
open_of : {c : TcpConnection} → Sound c → c.state ≡ established → c.shut ≡ false
open_of {c} s e = elim (Bool-cases c.shut) [
  | inr o ↦ o
  | inl t ↦ elim (s.sealed t) [ inl h ↦ cc (sym e ∙ h) | inr h ↦ cc (sym e ∙ h) ]
]

-- A connection that is established, and whose output changed to a buffer with its interest in step.
Sound-established :
    {c c' : TcpConnection}
    → Sound c
    → c.state ≡ established
    → c'.state ≡ established
    → c'.input ≡ c.input
    → c'.shut ≡ c.shut
    → closings c'.calls ≡ closings c.calls
    → IsValid c'.output
    → is_empty c'.output ≡ not c'.channel.events.pollout
    → Sound c'
Sound-established {c} {c'} s e e' i sh cl v interest = record {
  input_valid = subst IsValid (sym i) s.input_valid;
  output_valid = v;
  interest = λ n. interest;
  quiet = λ h. cc (sym e' ∙ h);
  drained = λ h. cc (sym (open_of s e) ∙ sym sh ∙ h);
  sealed = λ h. cc (sym (open_of s e) ∙ sym sh ∙ h);
  closed_once = omega (arith, cl, s.closed_once);
  not_closed = λ n. cl ∙ s.not_closed (λ h. cc (sym e ∙ h));
}

-- What waits afterwards: all of it, behind what waited.
abbrev pub appended : Buffer → TcpConnection → TcpConnection
appended b c = record c { output = b }

waiting :
    {c : TcpConnection}
    → Sound c
    → c.state ≢ disconnected
    → c.channel.events.pollout ≡ true
    → 0 < length (contents c.output)
unfolding is_empty
waiting {c} s n waits =
    let some_left : is_empty c.output ≡ false = s.interest n ∙ ap not waits in
    ground (arith, length-contents s.output_valid)

pub not_gone : {t : ConnState} → t ≡ established → t ≢ disconnected
not_gone e h = cc (sym e ∙ h)

-- Appending while bytes are waiting.
pub append-Survives :
    {c : TcpConnection} (spare : ℕ) (bytes : List ℕ)
    → Sound c
    → c.state ≡ established
    → c.channel.events.pollout ≡ true
    → Survives bytes c (do output ← append spare bytes c.output; ok (appended output c))
append-Survives {c} spare bytes s e waits = elim (append-Yields spare bytes s.output_valid) [
  | inr over ↦ overflows (rw over refl)
  | inl (b, grown, h) ↦ returns (appended b c) (rw grown refl) record {
    sound = Sound-established s e e refl refl refl h.valid (
        is_empty-Holds h
          (omega (arith, length-append (contents c.output) bytes, waiting s (not_gone e) waits))
        ∙ ap not (sym waits));
    streamed =
        ap (λ l. c.written ++ l) h.holds ∙ sym (append_assoc c.written (contents c.output) bytes);
    connected = λ n. n;
    gone = λ n. n;
    handling = refl;
  }
]

hold-Survives :
    {c : TcpConnection} (spare : ℕ) (bytes : List ℕ)
    → Sound c
    → c.state ≡ established
    → 0 < length (contents c.output) + length bytes
    → Survives bytes c (hold spare bytes c)
unfolding hold
hold-Survives {c} spare bytes s e some_bytes = elim (append-Yields spare bytes s.output_valid) [
  | inr over ↦ overflows (rw over refl)
  | inl (b, grown, h) ↦ returns (refilled b true c) (rw grown refl) record {
    sound =
        Sound-established s e e refl refl refl h.valid
          (is_empty-Holds h (omega (arith, length-append (contents c.output) bytes, some_bytes)));
    streamed =
        ap (λ l. c.written ++ l) h.holds ∙ sym (append_assoc c.written (contents c.output) bytes);
    connected = λ n. n;
    gone = λ n. n;
    handling = refl;
  }
]

check_watermark-After : {c : TcpConnection} → Sound c → After [] c (check_watermark c)
unfolding check_watermark
check_watermark-After {c} s = elim (Bool-cases (leb c.watermark (c.output.tail - c.output.head))) [
  | inr low ↦ reaches (rw low refl) (After-refl s)
  | inl high ↦
      reaches {d = record c { calls = watermark_cb ∷ c.calls }} (rw high refl)
        (called-After watermark_cb refl s)
]

-- A step behind one that survived.
Survives-then :
    {xs : List ℕ} {c : TcpConnection} {r : Result TcpConnection} (f : TcpConnection → TcpConnection)
    → ((d : TcpConnection) → Sound d → After [] d (f d))
    → Survives xs c r
    → Survives xs c (do d ← r; ok (f d))
Survives-then f step (overflows e) = overflows (rw e refl)
Survives-then {xs} {c} f step (returns d e a) =
    returns (f d) (rw e refl)
      (subst (λ l. After l c (f d)) (append-nil xs) (After-trans a (step d a.sound)))

-- The kernel's share of a write, with nothing waiting before it.
taken-After :
    {c : TcpConnection} (xs : List ℕ)
    → Sound c
    → is_empty c.output ≡ true
    → After xs c (record c { written = c.written ++ xs })
taken-After {c} xs s empty =
    let none_left = is_empty-contents s.output_valid empty in
    record {
      sound = record {
        input_valid = s.input_valid;
        output_valid = s.output_valid;
        interest = s.interest;
        quiet = s.quiet;
        drained = s.drained;
        sealed = s.sealed;
        closed_once = s.closed_once;
        not_closed = s.not_closed;
      };
      streamed = rw none_left (append-nil _ ∙ ap (λ l. l ++ xs) (sym (append-nil c.written)));
      connected = λ n. n;
      gone = λ n. n;
      handling = refl;
    }

Survives-after :
    {xs ys : List ℕ} {c d : TcpConnection} {r : Result TcpConnection}
    → After xs c d
    → Survives ys d r
    → Survives (xs ++ ys) c r
Survives-after a (overflows e) = overflows e
Survives-after a (returns f e b) = returns f e (After-trans a b)

-- The bytes that the kernel did not take wait.
part-Survives :
    {c : TcpConnection} (spare n : ℕ) (bytes : List ℕ)
    → Sound c
    → c.state ≡ established
    → is_empty c.output ≡ true
    → n < length bytes
    → Survives bytes c (do
      d ← hold spare (drop n bytes) (record c { written = c.written ++ take n bytes })
      ok (check_watermark d))
part-Survives {c} spare n bytes s e empty part =
    let a = taken-After (take n bytes) s empty in
    let rest =
      Survives-then check_watermark (λ d s. check_watermark-After s)
        (hold-Survives spare (drop n bytes) a.sound e (omega (arith, part, length-drop n bytes))) in
    survives (sym (take-append-drop n bytes)) refl (Survives-after a rest)

abbrev whole_sent : List ℕ → TcpConnection → TcpConnection
whole_sent bytes c = record c {
  written = c.written ++ bytes;
  calls = wake_up ∷ write_cb_queued ∷ c.calls;
}

pub send_rest-Survives :
    {c : TcpConnection} (spare n : ℕ) (bytes : List ℕ)
    → Sound c
    → c.state ≡ established
    → is_empty c.output ≡ true
    → n ≤ length bytes
    → Survives bytes c (send_rest spare n bytes c)
unfolding send_rest
send_rest-Survives {c} spare n bytes s e empty fits = elim (Bool-cases (ltb n (length bytes))) [
  | inl part ↦
      let p : n < length bytes = ground arith in rw part (part-Survives spare n bytes s e empty p)
  | inr whole ↦
      let all : take n bytes ≡ bytes = take-all n bytes (ground arith) in
      let a = taken-After bytes s empty in
      let b = called-After write_cb_queued refl a.sound in
      let d = called-After wake_up refl b.sound in
      let w = check_watermark-After d.sound in
      returns (check_watermark (whole_sent bytes c)) (rw (whole, all) refl) (
        subst (λ l. After l c (check_watermark (whole_sent bytes c)))
          (append-nil _ ∙ append-nil _ ∙ append-nil bytes)
          (After-trans (After-trans (After-trans a b) d) w))
]
