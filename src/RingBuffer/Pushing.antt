-- ===== src/RingBuffer/Pushing.antt =====
-- The pushes of src/ring_buffer.cc.
use anoii.Prelude.{
  ℕ, suc, ◌+◌, ◌-◌, ◌≡◌, ◌≢◌, inl, inr, false, Bool-cases, [], ◌∷◌, arith, leb, length, err,
  assertion,
}
use anoii.RingBuffer.{RingBuffer, ring_size, make_room, resize, put_back, put_all, push_back}

-- A push of one byte at the back needs that the ring has exactly room for one more: with more room the
-- guard asks `resize` to shrink, and with less it does not ask to grow, so that an assertion fails.
push_back_asserts :
    (spare byte : ℕ) (b : RingBuffer)
    → ring_size b + 2 ≢ length b.cells
    → push_back spare (byte ∷ []) b ≡ err assertion
unfolding push_back make_room resize put_all put_back
push_back_asserts spare byte b other =
    elim (Bool-cases (leb (ring_size b + 1 + 1) (length b.cells))) [
      | inl fits ↦
          let shrinks : leb (length b.cells) (suc (ring_size b + 1)) ≡ false = ground arith in
          simp (fits, shrinks)
      | inr full ↦
          let small : leb 2 (length b.cells - ring_size b) ≡ false = ground arith in
          simp (full, small)
    ]
