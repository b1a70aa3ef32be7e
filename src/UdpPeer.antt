-- ===== src/UdpPeer.antt =====
-- src/udp_peer.cc: receiving and sending datagrams. The kernel's answers are arguments.
use anoii.Prelude.{
  mem, pos, negsuc, ℤ, ℕ, zero, suc, ◌+◌, ◌-◌, ◌*◌, ◌≤◌, ◌<◌, ◌≡◌, ◌≢◌, ◌↔◌, ◌⊎◌, inl, inr, refl,
  sym, ap, ◌∙◌, Bool, true, false, not, ◌&&◌, ◌||◌, Bool-cases, Option-cases, Option, none, some,
  List, [], ◌∷◌, ◌++◌, arith, ltb, leb, ◌==◌, if◌then◌else◌, length, take, drop, length-append,
  length-take, length-drop, Result, ok, err, Fault, assertion, out_of_bounds, thrown, aborted,
  assert, ◌>>=◌, ◌>>◌, bind-eq-ok,
}
mod Tests
pub mod Receive

-- What is known of a peer: the size of its buffer, whether the buffer grows with the datagrams, and
-- whether its address is known.
pub record UdpPeer : Type 0 where
  pub buffer_size : ℕ
  pub auto_buffer_size : Bool
  pub binded_addr : Bool

-- The buffer has one byte more than asked for.
unfoldable pub init_peer : Bool → ℕ → UdpPeer
init_peer binded buffer_size = record {
  buffer_size = if buffer_size == 0 then 1473 else buffer_size + 1;
  auto_buffer_size = buffer_size == 0;
  binded_addr = binded;
}

-- What waits in the socket: a datagram of some length, or an error that `recvfrom` answers with -1.
pub data Waiting : Type 0 where
  datagram : ℕ → Waiting
  failure : ℕ → Waiting

-- How `OnMessage` ends: the callback gets this many bytes, the call gives up, or the process ends.
pub data Outcome : Type 0 where
  delivered : ℕ → Outcome
  ignored fatal : Outcome

-- The errno numbers of Linux that the switch names.
pub data Verdict : Type 0 where
  dies returns again : Verdict

-- EBADF, ENOBUFS and ENOMEM.
abbrev fatal_errors : List ℕ
fatal_errors = 9 ∷ 105 ∷ 12 ∷ []

-- The switch is on `size`, the value that `recvfrom` returned and not `errno`.
unfoldable pub receive_verdict : Bool → ℤ → Verdict
receive_verdict auto (negsuc n) = returns
receive_verdict auto (pos size) =
    if mem size fatal_errors
    then dies
    else if size == 4
    then (if auto then again else returns)
    else returns

abbrev grow : ℕ → ℕ
grow size = if leb (65527 + 1) (size * 2) then 65527 + 1 else size * 2

-- `ssize_t` that `recvfrom` returns: a datagram is cut to the buffer.
abbrev received : ℕ → Waiting → ℤ
received size (failure e) = negsuc 0
received size (datagram n) = pos (if leb n size then n else size)

abbrev settle :
    (UdpPeer → Option (Outcome × UdpPeer)) → Verdict → UdpPeer → Option (Outcome × UdpPeer)
settle again_with dies p = some (fatal, p)
settle again_with returns p = some (ignored, p)
settle again_with again p = again_with p

-- One round of the loop with what `recvfrom` returned.
one_round : (UdpPeer → Option (Outcome × UdpPeer)) → ℤ → UdpPeer → Option (Outcome × UdpPeer)
unfolding receive_verdict
one_round again_with (negsuc n) p =
    settle again_with (receive_verdict p.auto_buffer_size (negsuc n)) p
one_round again_with (pos zero) p =
    settle again_with (receive_verdict p.auto_buffer_size (pos zero)) p
one_round again_with (pos (suc n)) p =
    let fits = ltb (suc n) p.buffer_size in
    let larger = again_with (record p { buffer_size = grow p.buffer_size }) in
    if not p.auto_buffer_size
    then (if fits then some (delivered (suc n), p) else some (ignored, p))
    else if fits
    then some (delivered (suc n), p)
    else larger

-- `OnMessage`, with fuel; peeking leaves the datagram in the socket, so every round sees it. `none`
-- means that the fuel ran out.
unfoldable pub on_message : ℕ → Waiting → UdpPeer → Option (Outcome × UdpPeer)
unfolding one_round
on_message zero w p = none
on_message (suc fuel) w p =
    let next = on_message fuel w in
    if p.binded_addr then one_round next (received p.buffer_size w) p else some (fatal, p)

-- What `sendto` answers: a count, or an error number.
pub data Sent : Type 0 where
  count : ℕ → Sent
  errno : ℕ → Sent

pub data SendEnd : Type 0 where
  sent_all sent_part died gave_up : SendEnd

-- EAFNOSUPPORT, ENOTSOCK, EBADF, ENOBUFS and ENOMEM.
abbrev fatal_send_errors : List ℕ
fatal_send_errors = 97 ∷ 88 ∷ 9 ∷ 105 ∷ 12 ∷ []

-- EINTR is the only error that is tried again.
unfoldable pub send_verdict : ℕ → Verdict
send_verdict e = if mem e fatal_send_errors then dies else if e == 4 then again else returns

send_step :
    Result (Option (SendEnd × UdpPeer)) → Verdict → UdpPeer → Result (Option (SendEnd × UdpPeer))
send_step rest dies p = ok (some (died, p))
send_step rest again p = rest
send_step rest returns p = ok (some (gave_up, p))

-- `SendTo`; `none` means that it still waits for the next answer. An answer of 0 leaves `errno` as
-- the number `stale`.
unfoldable pub send_to : ℕ → ℕ → List Sent → UdpPeer → Result (Option (SendEnd × UdpPeer))
unfolding send_verdict send_step
send_to stale zero answers p = err assertion
send_to stale (suc size) [] p = ok none
send_to stale (suc size) (errno e ∷ answers) p =
    let rest = send_to stale (suc size) answers p in send_step rest (send_verdict e) p
send_to stale (suc size) (count zero ∷ answers) p =
    let rest = send_to stale (suc size) answers p in send_step rest (send_verdict stale) p
send_to stale (suc size) (count (suc n) ∷ answers) p =
    if n == size
    then ok (some (sent_all, record p { binded_addr = true }))
    else ok (some (sent_part, p))
