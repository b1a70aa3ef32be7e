-- ===== src/TcpConnection/Flushing.antt =====
-- What `TcpConnection::HandleWrite` of src/tcp_connection.cc does with the answer of the kernel.
use anoii.Prelude.{
  ℕ, ◌+◌, ◌-◌, ◌≤◌, ◌<◌, ◌≡◌, inl, inr, refl, ap, Bool, true, false, not, ◌&&◌, ◌||◌, Bool-cases,
  [], ◌++◌, arith, leb, length, take, drop, ok,
}
use mathlib.Core.Path.{subst}
use anoii.Buffer.{Buffer, contents, is_empty, pop}
use anoii.Buffer.Inv.{length-contents}
use anoii.Buffer.Refine.{pop-Holds}
use anoii.TcpConnection.{
  TcpConnection, ConnState, connecting, established, half_shutdown, disconnected, Written, refused,
  took, drained, after_write, handle_write, shutdown_unsafe,
}
use anoii.TcpConnection.Sound.{
  Sound, Survives, which, is_connecting, is_established, is_half_shutdown, is_disconnected,
}
use anoii.TcpConnection.Writing.{handle_write-Survives, advanced, emptied}

abbrev pub is_half_shut : ConnState → Bool
is_half_shut half_shutdown = true
is_half_shut connecting = false
is_half_shut established = false
is_half_shut disconnected = false

-- What a write that took `n` bytes of those that wait leaves.
pub record Wrote (n : ℕ) (c d : TcpConnection) : Type 0 where
  pub written : d.written ≡ c.written ++ take n (contents c.output)
  pub left : contents d.output ≡ drop n (contents c.output)
  pub interest : d.channel.events.pollout ≡ (c.channel.events.pollout && not (is_empty d.output))
  pub shut : d.shut ≡ (c.shut || (is_half_shut c.state && is_empty d.output))
  pub state : d.state ≡ c.state

-- The kernel may refuse; more than what waits is taken for an error.
abbrev pub Flushed : Written → TcpConnection → TcpConnection → Type 0
Flushed (refused e) c d = d ≡ c
Flushed (took n) c d =
    (n ≤ length (contents c.output) → Wrote n c d) × (length (contents c.output) < n → d ≡ c)

or_false : (b : Bool) → b ≡ (b || false)
or_false true = refl
or_false false = refl

or_true : (b : Bool) → true ≡ (b || true)
or_true true = refl
or_true false = refl

and_true : (b : Bool) → b ≡ (b && true)
and_true true = refl
and_true false = refl

and_false : (b : Bool) → false ≡ (b && false)
and_false true = refl
and_false false = refl

abbrev rest_of : ℕ → TcpConnection → Buffer
rest_of n c = record c.output { head = c.output.head + n }

popped :
    {c : TcpConnection} (n : ℕ)
    → Sound c
    → leb n (c.output.tail - c.output.head) ≡ true
    → contents (rest_of n c) ≡ drop n (contents c.output)
popped n s fits = (pop-Holds n s.output_valid fits).holds

ends : (waits empty : Bool) → empty ≡ true → false ≡ (waits && not empty)
ends waits empty e = rw e (and_false waits)

goes_on : (waits empty : Bool) → empty ≡ false → waits ≡ (waits && not empty)
goes_on waits empty e = rw e (and_true waits)

not_half : (shut half empty : Bool) → half ≡ false → shut ≡ (shut || (half && empty))
not_half shut half empty e = rw e (or_false shut)

not_yet : (shut half empty : Bool) → empty ≡ false → shut ≡ (shut || (half && empty))
not_yet shut true empty e = rw e (or_false shut)
not_yet shut false empty e = or_false shut

at_last : (shut half empty : Bool) → half ≡ true → empty ≡ true → true ≡ (shut || (half && empty))
at_last shut half empty h e = rw (h, e) (or_true shut)

emptied-Wrote :
    {c : TcpConnection} (n : ℕ)
    → contents (rest_of n c) ≡ drop n (contents c.output)
    → is_empty (rest_of n c) ≡ true
    → is_half_shut c.state ≡ false
    → Wrote n c (emptied n c)
emptied-Wrote {c} n kept empty half = record {
  written = refl;
  left = kept;
  interest = ends c.channel.events.pollout (is_empty (rest_of n c)) empty;
  shut = not_half c.shut (is_half_shut c.state) (is_empty (rest_of n c)) half;
  state = refl;
}

closed-Wrote :
    {c : TcpConnection} (n : ℕ)
    → contents (rest_of n c) ≡ drop n (contents c.output)
    → is_empty (rest_of n c) ≡ true
    → is_half_shut c.state ≡ true
    → Wrote n c (record (emptied n c) { shut = true })
closed-Wrote {c} n kept empty half = record {
  written = refl;
  left = kept;
  interest = ends c.channel.events.pollout (is_empty (rest_of n c)) empty;
  shut = at_last c.shut (is_half_shut c.state) (is_empty (rest_of n c)) half empty;
  state = refl;
}

drained-Wrote :
    {c : TcpConnection} (n : ℕ)
    → contents (rest_of n c) ≡ drop n (contents c.output)
    → is_empty (rest_of n c) ≡ true
    → Wrote n c (drained (advanced n c.channel c))
unfolding drained shutdown_unsafe
drained-Wrote {c} n kept empty = elim (which c.state) [
  | is_connecting e ↦ subst (Wrote n c) (rw e refl) (emptied-Wrote n kept empty (ap is_half_shut e))
  | is_established e ↦
      subst (Wrote n c) (rw e refl) (emptied-Wrote n kept empty (ap is_half_shut e))
  | is_disconnected e ↦
      subst (Wrote n c) (rw e refl) (emptied-Wrote n kept empty (ap is_half_shut e))
  | is_half_shutdown e ↦
      subst (Wrote n c) (rw e refl) (closed-Wrote n kept empty (ap is_half_shut e))
]

took-Flushed :
    {c : TcpConnection} (n : ℕ)
    → Sound c
    → c.channel.is_handling_events ≡ true
    → (d : TcpConnection) × (handle_write (took n) c ≡ ok d) × Flushed (took n) c d
unfolding handle_write after_write pop
took-Flushed {c} n s h = elim (Bool-cases (leb n (c.output.tail - c.output.head))) [
  | inr more ↦ (
    c,
    rw (h, more) refl,
    (λ l. absurd (ground (arith, length-contents s.output_valid)), λ l. refl),
  )
  | inl fits ↦ elim (Bool-cases (is_empty (rest_of n c))) [
    | inl empty ↦ (
      drained (advanced n c.channel c),
      simp (h, fits, empty),
      (
        λ l. drained-Wrote n (popped n s fits) empty,
        λ l. absurd (ground (arith, length-contents s.output_valid)),
      ),
    )
    | inr left ↦ (
      advanced n c.channel c,
      simp (h, fits, left),
      (
        λ l. record {
          written = refl;
          left = popped n s fits;
          interest = goes_on c.channel.events.pollout (is_empty (rest_of n c)) left;
          shut = not_yet c.shut (is_half_shut c.state) (is_empty (rest_of n c)) left;
          state = refl;
        },
        λ l. absurd (ground (arith, length-contents s.output_valid)),
      ),
    )
  ]
]

-- `HandleWrite` within the dispatch of events, with any answer of the kernel: the bytes that it took
-- leave the front of the output buffer and are written, and the others wait in order; the interest in
-- writing ends exactly with the last byte, and exactly then the write side of a half shut connection
-- is shut; where the kernel refuses, nothing changes. It keeps the invariant, loses no byte of the
-- stream and fails no assertion.
pub handle_write-Flushed :
    {c : TcpConnection} (result : Written)
    → Sound c
    → c.channel.is_handling_events ≡ true
    → Survives [] c (handle_write result c)
      × (d : TcpConnection) × (handle_write result c ≡ ok d)
      × Flushed result c d
unfolding handle_write after_write
handle_write-Flushed {c} (refused e) s h =
    (handle_write-Survives (refused e) s h, c, rw h refl, refl)
handle_write-Flushed {c} (took n) s h =
    let (d, e, f) = took-Flushed n s h in (handle_write-Survives (took n) s h, d, e, f)
