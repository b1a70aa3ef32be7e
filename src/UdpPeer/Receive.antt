-- ===== src/UdpPeer/Receive.antt =====
-- `UdpPeer::OnMessage` of src/udp_peer.cc.
use anoii.Prelude.{
  pos, pos, ℕ, zero, suc, ◌+◌, ◌*◌, ◌≤◌, ◌<◌, ◌≡◌, ◌⊎◌, inl, inr, refl, ap, ◌∙◌, true, false,
  Bool-cases, Option, some, arith, ltb, leb,
}
use anoii.UdpPeer.{
  received, UdpPeer, Waiting, datagram, failure, Outcome, delivered, ignored, on_message,
  receive_verdict, one_round, grow, received,
}

-- A size after `k` doublings.
abbrev pub doubled : ℕ → ℕ → ℕ
doubled zero size = size
doubled (suc k) size = doubled k (size * 2)

doubled-grows : (k size : ℕ) → size ≤ doubled k size
doubled-grows zero size = omega arith
doubled-grows (suc k) size = omega (arith, doubled-grows k (size * 2))

received-fits : (n size : ℕ) → n < size → received size (datagram n) ≡ pos n
received-fits n size h = ground arith

received-full : (n size : ℕ) → size ≤ n → received size (datagram n) ≡ pos size
received-full n size h = elim (Bool-cases (leb n size)) [ inl e ↦ ground arith | inr e ↦ rw e refl ]

abbrev larger : UdpPeer → UdpPeer
larger p = record p { buffer_size = grow p.buffer_size }

one_round-fits :
    (next : UdpPeer → Option (Outcome × UdpPeer)) (n : ℕ) (p : UdpPeer)
    → p.auto_buffer_size ≡ true
    → suc n < p.buffer_size
    → one_round next (pos (suc n)) p ≡ some (delivered (suc n), p)
unfolding one_round
one_round-fits next n p auto h =
    let fits : ltb (suc n) p.buffer_size ≡ true = ground arith in simp (auto, fits)

one_round-full :
    (next : UdpPeer → Option (Outcome × UdpPeer)) (n : ℕ) (p : UdpPeer)
    → p.auto_buffer_size ≡ true
    → p.buffer_size ≤ n
    → 0 < n
    → one_round next (pos n) p ≡ next (larger p)
unfolding one_round
one_round-full next zero p auto h some_bytes = absurd (omega arith)
one_round-full next (suc n) p auto h some_bytes =
    let full : ltb (suc n) p.buffer_size ≡ false = ground arith in simp (auto, full)

on_message_round :
    (k : ℕ) (w : Waiting) (p : UdpPeer)
    → p.binded_addr ≡ true
    → on_message (suc k) w p ≡ one_round (on_message k w) (received p.buffer_size w) p
unfolding on_message
on_message_round k w p bound = simp bound

on_message-fits :
    (k n : ℕ) (p : UdpPeer)
    → p.binded_addr ≡ true
    → p.auto_buffer_size ≡ true
    → suc n < p.buffer_size
    → on_message (suc k) (datagram (suc n)) p ≡ some (delivered (suc n), p)
on_message-fits k n p bound auto h =
    on_message_round k (datagram (suc n)) p bound
    ∙ ap (λ r. one_round (on_message k (datagram (suc n))) r p)
        (received-fits (suc n) p.buffer_size h)
    ∙ one_round-fits (on_message k (datagram (suc n))) n p auto h

on_message-full :
    (k n : ℕ) (p : UdpPeer)
    → p.binded_addr ≡ true
    → p.auto_buffer_size ≡ true
    → 0 < p.buffer_size
    → p.buffer_size ≤ suc n
    → on_message (suc k) (datagram (suc n)) p ≡ on_message k (datagram (suc n)) (larger p)
on_message-full k n p bound auto some_room h =
    on_message_round k (datagram (suc n)) p bound
    ∙ ap (λ r. one_round (on_message k (datagram (suc n))) r p)
        (received-full (suc n) p.buffer_size h)
    ∙ one_round-full (on_message k (datagram (suc n))) p.buffer_size p auto (omega arith) some_room

grow-cases : (size : ℕ) → ((65528 ≤ size * 2) × (grow size ≡ 65528)) ⊎ (grow size ≡ size * 2)
grow-cases size = elim (Bool-cases (leb (65527 + 1) (size * 2))) [
  | inl large ↦ inl (ground arith, ground arith)
  | inr small ↦ inr (ground arith)
]

-- A datagram that is not empty and no longer than UDP allows is delivered whole to a bound peer whose
-- buffer grows, once the buffer has been doubled often enough: with as many rounds as doublings that
-- lead beyond its length, and one more.
pub on_message-delivers :
    (k n : ℕ) (p : UdpPeer)
    → p.binded_addr ≡ true
    → p.auto_buffer_size ≡ true
    → 0 < p.buffer_size
    → suc n < 65528
    → suc n < doubled k p.buffer_size
    → (size : ℕ) × (suc n < size)
      × (on_message (suc k) (datagram (suc n)) p
          ≡ some (delivered (suc n), record p { buffer_size = size }))
on_message-delivers zero n p bound auto some_room short grows =
    (p.buffer_size, grows, on_message-fits 0 n p bound auto grows)
on_message-delivers (suc k) n p bound auto some_room short grows =
    elim (Bool-cases (ltb (suc n) p.buffer_size)) [
      | inl fits ↦
          (p.buffer_size, ground arith, on_message-fits (suc k) n p bound auto (ground arith))
      | inr full ↦
          let again = on_message-full (suc k) n p bound auto some_room (ground arith) in
          elim (grow-cases p.buffer_size) [
            | inl (large, e) ↦ (
              grow p.buffer_size,
              omega (arith, e),
              again ∙ on_message-fits k n (larger p) bound auto (omega (arith, e)),
            )
            | inr e ↦
                let reach : suc n < doubled k (grow p.buffer_size) = rw e grows in
                let (size, h, r) =
                  on_message-delivers k n (larger p) bound auto (omega (arith, e)) short reach in
                (size, h, again ∙ r)
          ]
    ]

-- An error of `recvfrom`, whatever its number, ends the call without a callback, and is neither
-- tried again nor fatal: the switch compares the returned -1 with the numbers of errors.
on_message-failure :
    (fuel e : ℕ) (p : UdpPeer)
    → p.binded_addr ≡ true
    → on_message (suc fuel) (failure e) p ≡ some (ignored, p)
unfolding one_round receive_verdict
on_message-failure fuel e p bound = on_message_round fuel (failure e) p bound
