-- ===== src/InetAddr.antt =====
-- src/inet_addr.cc and src/include/inet_addr.h: an IPv4 address and a port. The fields of
-- `sockaddr_in` are lists of the bytes in memory, on a machine that stores the low byte first.
-- `inet_pton` and `inet_ntop` are arguments.
pub mod Ports
mod Tests
use anoii.Prelude.{
  int_overflow, ◌^◌, negsuc, pos, ◌/◌, ℤ, ◌%◌, ℕ, zero, suc, ◌+◌, ◌-◌, ◌*◌, ◌≤◌, ◌<◌, ◌≡◌, ◌≢◌, ◌↔◌,
  ◌⊎◌, inl, inr, refl, sym, ap, ◌∙◌, Bool, true, false, not, ◌&&◌, ◌||◌, Bool-cases, Option-cases,
  Option, none, some, List, [], ◌∷◌, ◌++◌, arith, ltb, leb, ◌==◌, if◌then◌else◌, length, take, drop,
  length-append, length-take, length-drop, Result, ok, err, Fault, assertion, out_of_bounds, thrown,
  aborted, assert, ◌>>=◌, ◌>>◌, bind-eq-ok,
}
use anoii.Http.Utils.{Bytes}
use anoii.Http.Response.{decimal}
use anoii.Buffer.{same_bytes}
use anoii.Socket.{Answer, failed, gives}

pub record InetAddr : Type 0 where
  pub sin_family : ℕ
  pub sin_port : List ℕ
  pub s_addr : List ℕ

abbrev pub af_inet : ℕ
af_inet = 2

-- The bytes of a number of `n` bytes in memory.
unfoldable pub bytes_of : ℕ → ℕ → List ℕ
bytes_of zero x = []
bytes_of (suc n) x = x % 256 ∷ bytes_of n (x / 256)

unfoldable pub value_of : List ℕ → ℕ
value_of [] = 0
value_of (x ∷ xs) = x + 256 * value_of xs

-- `htons` and `ntohs`.
abbrev pub swap_bytes : ℕ → ℕ
swap_bytes p = p % 256 * 256 + p / 256

-- 127.0.0.1, as a number.
abbrev pub inaddr_loopback : ℕ
inaddr_loopback = 0x7f000001

-- The constructor of a port. The address is stored without `htonl`.
unfoldable pub of_port : ℕ → Bool → InetAddr
unfolding bytes_of
of_port port loopback_only = record {
  sin_family = af_inet;
  sin_port = bytes_of 2 (swap_bytes port);
  s_addr = bytes_of 4 (if loopback_only then inaddr_loopback else 0);
}

unfoldable pub default_addr : InetAddr
unfolding of_port
default_addr = of_port 0 false

-- The constructor of a text and a port. `pton` is `inet_pton`: the four bytes of an address, or none.
unfoldable pub of_ip : (Bytes → Option (List ℕ)) → Bytes → ℕ → Result InetAddr
unfolding bytes_of
of_ip pton ip port = elim (pton ip) [
  | none ↦ err assertion
  | some address ↦
      ok
        (record { sin_family = af_inet; sin_port = bytes_of 2 (swap_bytes port); s_addr = address })
]

unfoldable pub get_port : InetAddr → ℕ
unfolding value_of
get_port a = swap_bytes (value_of a.sin_port)

-- `ntop` is `inet_ntop`: the text of four bytes.
unfoldable pub get_ip : (List ℕ → Option Bytes) → InetAddr → Result Bytes
get_ip ntop a = elim (ntop a.s_addr) [ none ↦ err assertion | some text ↦ ok text ]

unfoldable pub get_addr : (List ℕ → Option Bytes) → InetAddr → Result Bytes
unfolding get_ip get_port decimal
get_addr ntop a = do ip ← get_ip ntop a; ok (ip ++ b':' ∷ decimal (get_port a))

abbrev pub get_addr_bytes : InetAddr → Result (List ℕ)
get_addr_bytes a = assert (a.sin_family == af_inet) >> ok a.s_addr

-- `operator==`: `memcmp` of the two structures, whose padding is zero.
unfoldable pub equal_addr : InetAddr → InetAddr → Bool
unfolding same_bytes bytes_of
equal_addr rhs a =
    same_bytes (bytes_of 2 rhs.sin_family) (bytes_of 2 a.sin_family)
    && (same_bytes rhs.sin_port a.sin_port && same_bytes rhs.s_addr a.s_addr)

-- A product of a number of 32 bits in two's complement with 0x10000, which is an `int` too.
unfoldable pub times_0x10000 : ℕ → Result ℤ
times_0x10000 word =
    if ltb word 0x8000
    then ok (pos (word * 0x10000))
    else if leb 0xffff8000 word
    then ok (negsuc ((2 ^ 32 - word) * 0x10000 - 1))
    else err int_overflow

abbrev add_ℕ : ℤ → ℕ → ℤ
add_ℕ (pos n) k = pos (n + k)
add_ℕ (negsuc n) k = if leb (suc n) k then pos (k - suc n) else negsuc (n - k)

-- `std::hash<InetAddr>`, up to the hash of the number.
unfoldable pub hash : InetAddr → Result ℤ
unfolding times_0x10000 value_of get_port
hash a = do
  bytes ← get_addr_bytes a
  val ← times_0x10000 (value_of bytes)
  ok (add_ℕ val (get_port a))

-- `GetLocalAddr` and `GetPeerAddr` of src/socket.cc: `addr` is what `getsockname` or `getpeername`
-- stored, unless it failed.
unfoldable pub socket_addr : Answer → InetAddr → InetAddr
unfolding default_addr
socket_addr (failed e) addr = default_addr
socket_addr (gives n) addr = addr
