-- ===== src/RingBuffer/Tests.antt =====
-- A ring at concrete bytes.
use anoii.Prelude.{◌≡◌, refl, [], ◌∷◌, ok, err, out_of_bounds}
use anoii.RingBuffer.{
  RingBuffer, new_ring, ring_size, push_back, push_front, pop_front, element, resize,
}

abbrev wrapped : RingBuffer
wrapped = record { head = 2; tail = 0; cells = 0 ∷ 0 ∷ 7 ∷ [] }

-- One byte in a ring of three cells, of which the last one stays free. Growing a ring whose tail is at
-- the start adds the new cells to its contents, and an element is read off the wrong cell.
ring_test :
    (push_back 0 (7 ∷ []) (new_ring 1) ≡ ok (record { head = 0; tail = 1; cells = 7 ∷ 0 ∷ [] }))
    × (push_front 0 (7 ∷ []) (new_ring 1) ≡ ok (record { head = 1; tail = 0; cells = 0 ∷ 7 ∷ [] }))
    × (resize 0 4 wrapped ≡ ok (record wrapped { cells = 0 ∷ 0 ∷ 7 ∷ 0 ∷ 0 ∷ [] }))
    × (ring_size wrapped ≡ 1)
    × (element 0 wrapped ≡ err out_of_bounds)
    × (ring_size (pop_front 1 wrapped) ≡ 0)
unfolding push_back push_front resize pop_front element
ring_test = (refl, refl, refl, refl, refl, refl)
