-- ===== src/Http/Number.antt =====
-- `std::stoi` on the length of a body, as contrib/http/http_request.cc calls it.
use anoii.Prelude.{
  ℕ, zero, suc, ◌+◌, ◌-◌, ◌*◌, Bool, true, false, ◌&&◌, [], ◌∷◌, ltb, leb, ◌==◌, if◌then◌else◌,
  Result, ok, err, thrown, int_bound, ℤ, pos, negsuc,
}
use anoii.Http.Utils.{Bytes, isspace}

-- The value of a number's decimal digits, from the left, up to the first other byte.
abbrev is_digit : ℕ → Bool
is_digit c = leb b'0' c && leb c b'9'

digits : ℕ → Bytes → ℕ
digits n [] = n
digits n (c ∷ cs) = let longer = digits (n * 10 + (c - b'0')) cs in if is_digit c then longer else n

in_int : Bool → ℕ → Result ℤ
in_int true zero = ok (pos 0)
in_int true (suc n) = if leb (suc n) int_bound then ok (negsuc n) else err thrown
in_int false n = if ltb n int_bound then ok (pos n) else err thrown

number : Bool → Bytes → Result ℤ
unfolding digits in_int
number negative [] = err thrown
number negative (c ∷ cs) = if is_digit c then in_int negative (digits 0 (c ∷ cs)) else err thrown

signed : Bytes → Result ℤ
unfolding number
signed [] = err thrown
signed (c ∷ cs) =
    if isspace c
    then signed cs
    else if c == b'-'
    then number true cs
    else if c == b'+'
    then number false cs
    else number false (c ∷ cs)

-- `std::stoi`, which throws on what begins with no number and on a number outside `int`.
unfoldable pub stoi : Bytes → Result ℤ
unfolding signed isspace
stoi = signed
