-- ===== src/InetAddr/Ports.antt =====
-- The bytes of src/inet_addr.cc and src/include/inet_addr.h: ports and the hash of an address.
use anoii.Prelude.{
  int_overflow, ℕ, ◌≤◌, ◌<◌, ◌≡◌, ◌↔◌, ◌⊎◌, ap, ◌∙◌, Bool, Option, none, some, List, [], ◌∷◌, arith,
  Result, ok, err, assertion, ◌>>=◌,
}
use anoii.Http.Utils.{Bytes}
use anoii.InetAddr.{
  InetAddr, bytes_of, value_of, swap_bytes, of_port, of_ip, get_port, hash, times_0x10000, af_inet,
}

port-swapped : (p : ℕ) → p < 0x10000 → swap_bytes (value_of (bytes_of 2 (swap_bytes p))) ≡ p
unfolding value_of bytes_of
port-swapped p h = omega arith

-- A port of 16 bits comes back from an address that was made of it, by either constructor.
get_port_lem :
    (pton : Bytes → Option (List ℕ)) (ip : Bytes) (port : ℕ) (loopback_only : Bool)
    → port < 0x10000
    → (get_port (of_port port loopback_only) ≡ port)
      × ((a : InetAddr) → of_ip pton ip port ≡ ok a → get_port a ≡ port)
unfolding get_port of_port of_ip
get_port_lem pton ip port loopback_only h = (port-swapped port h, λ a e. go (pton ip) a e)
  where
    go :
        (found : Option (List ℕ)) (a : InetAddr)
        → (elim found as (λ x. Result InetAddr) [
          | none ↦ err assertion
          | some address ↦ ok (record {
            sin_family = af_inet;
            sin_port = bytes_of 2 (swap_bytes port);
            s_addr = address;
          })
        ])
          ≡ ok a
        → get_port a ≡ port
    go none a e = cc e
    go (some address) a e =
        let made : InetAddr = record {
          sin_family = af_inet;
          sin_port = bytes_of 2 (swap_bytes port);
          s_addr = address;
        } in
        let same : a ≡ made = ground (arith, e) in ap get_port same ∙ port-swapped port h

times_0x10000-overflows :
    (w : ℕ) → (times_0x10000 w ≡ err int_overflow) ↔ ((0x8000 ≤ w) × (w < 0xffff8000))
unfolding times_0x10000
times_0x10000-overflows w = ground arith

-- Which numbers of 32 bits fit, by their bytes.
word-fits :
    (a b c d : ℕ)
    → (a < 256) × (b < 256) × (c < 256) × (d < 256)
    → ((0x8000 ≤ value_of (a ∷ b ∷ c ∷ d ∷ [])) × (value_of (a ∷ b ∷ c ∷ d ∷ []) < 0xffff8000))
      ↔ ¬ (((b < 128) × (c ≡ 0) × (d ≡ 0)) ⊎ ((128 ≤ b) × (c ≡ 255) × (d ≡ 255)))
unfolding value_of
word-fits a b c d h = ground arith

bind-overflows :
    {V W : Type 0} (r : Result V) (f : V → W)
    → ((r >>= λ v. ok (f v)) ≡ err int_overflow) ↔ (r ≡ err int_overflow)
bind-overflows (ok v) f = ((λ e. cc e), λ e. cc e)
bind-overflows (err x) f = ((λ e. ground (arith, e)), λ e. ground (arith, e))

-- The hash of an address takes a product that fits in `int` for those alone that end in 0.0 behind a
-- byte below 128, or in 255.255 behind another; for every other address it overflows.
hash-overflows :
    (p q a b c d : ℕ)
    → (p < 256) × (q < 256) × (a < 256) × (b < 256) × (c < 256) × (d < 256)
    → (hash (record { sin_family = af_inet; sin_port = p ∷ q ∷ []; s_addr = a ∷ b ∷ c ∷ d ∷ [] })
        ≡ err int_overflow)
      ↔ ¬ (((b < 128) × (c ≡ 0) × (d ≡ 0)) ⊎ ((128 ≤ b) × (c ≡ 255) × (d ≡ 255)))
unfolding hash
hash-overflows p q a b c d h =
    let byte : (a < 256) × (b < 256) × (c < 256) × (d < 256) = (h.2, h.3, h.4, h.5) in
    let step = bind-overflows (times_0x10000 (value_of (a ∷ b ∷ c ∷ d ∷ []))) _ in
    let word = times_0x10000-overflows (value_of (a ∷ b ∷ c ∷ d ∷ [])) in
    let fits = word-fits a b c d byte in
    ((λ e. fits.0 (word.0 (step.0 e))), λ n. step.1 (word.1 (fits.1 n)))
