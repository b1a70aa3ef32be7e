-- ===== src/UdpPeer/Tests.antt =====
-- Runs of a UDP peer, and its theorems at concrete datagrams.
use anoii.Prelude.{ℕ, ◌<◌, ◌≡◌, refl, true, false, some, [], ◌∷◌, arith, ok}
use anoii.UdpPeer.{
  UdpPeer, init_peer, datagram, delivered, ignored, on_message, send_to, count, errno, sent_all,
  sent_part, died,
}
use anoii.UdpPeer.Receive.{on_message-delivers}

abbrev bound_peer : UdpPeer
bound_peer = record { buffer_size = 1473; auto_buffer_size = true; binded_addr = true }

-- An empty datagram is never taken off the socket, and a fixed buffer has room for what was asked.
receive_test :
    (on_message 3 (datagram 2000) bound_peer
      ≡ some (delivered 2000, record bound_peer { buffer_size = 2946 }))
    × (on_message 3 (datagram 0) bound_peer ≡ some (ignored, bound_peer))
    × (on_message 3 (datagram 8) (init_peer true 8) ≡ some (delivered 8, init_peer true 8))
    × (on_message 3 (datagram 9) (init_peer true 8) ≡ some (ignored, init_peer true 8))
unfolding on_message init_peer
receive_test = (refl, refl, refl, refl)

send_test :
    (send_to 0 5 (errno 4 ∷ count 5 ∷ []) (init_peer false 8)
      ≡ ok (some (sent_all, init_peer true 8)))
    × (send_to 0 5 (errno 12 ∷ []) (init_peer false 8) ≡ ok (some (died, init_peer false 8)))
    × (send_to 0 5 (count 2 ∷ []) (init_peer false 8) ≡ ok (some (sent_part, init_peer false 8)))
unfolding send_to init_peer
send_test = (refl, refl, refl)

on_message-delivers_example :
    (size : ℕ) × (60000 < size)
    × (on_message 7 (datagram 60000) bound_peer
        ≡ some (delivered 60000, record bound_peer { buffer_size = size }))
on_message-delivers_example =
    on_message-delivers 6 59999 bound_peer refl refl (omega arith) (omega arith) (omega arith)
