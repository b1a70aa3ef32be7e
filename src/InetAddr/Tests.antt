-- ===== src/InetAddr/Tests.antt =====
-- Addresses at concrete values.
use anoii.Prelude.{pos, ℕ, ◌≡◌, refl, true, false, Option, none, some, List, [], ◌∷◌, ok, ◌>>=◌}
use anoii.Http.Utils.{Bytes}
use anoii.Http.Response.{codes}
use anoii.Socket.{failed}
use anoii.InetAddr.{of_port, of_ip, get_addr, hash, equal_addr, socket_addr, default_addr, af_inet}

-- Of one text `inet_pton` knows the address.
abbrev pton : Bytes → Option (List ℕ)
pton ip = elim (ip) [ [] ↦ none | c ∷ cs ↦ some (10 ∷ 0 ∷ 0 ∷ 1 ∷ []) ]

abbrev ntop : List ℕ → Option Bytes
ntop a = some (codes "10.0.0.1")

address_test :
    (do a ← of_ip pton (codes "10.0.0.1") 8889; get_addr ntop a) ≡ ok (codes "10.0.0.1:8889")
unfolding of_ip get_addr
address_test = refl

-- The loopback address is stored in the order of the machine: 1.0.0.127.
loopback_test : (of_port 80 true).s_addr ≡ 1 ∷ 0 ∷ 0 ∷ 127 ∷ []
unfolding of_port
loopback_test = refl

failed_test : equal_addr default_addr (socket_addr (failed 9) (of_port 80 false)) ≡ true
unfolding equal_addr default_addr socket_addr
failed_test = refl

hash_test :
    hash (record { sin_family = af_inet; sin_port = 0 ∷ 80 ∷ []; s_addr = 10 ∷ 0 ∷ 0 ∷ 0 ∷ [] })
    ≡ ok (pos 655440)
unfolding hash
hash_test = refl
