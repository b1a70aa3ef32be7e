-- ===== src/Http/Utils.antt =====
-- contrib/http/http_utils.cc, and the searches of `std::string_view` that the parser calls.
-- A byte is a number below 256. `char` is signed, as on x86: the bytes from 128 on are its negative
-- values. The classifications of <cctype> are those of the "C" locale.
pub mod Percent
pub mod Strip
mod Tests
use mathlib.Core.List.{reverse}
use anoii.Prelude.{
  mem, ℕ, ◌+◌, ◌-◌, ◌*◌, ◌≡◌, Bool, true, false, not, ◌&&◌, ◌||◌, Option, none, some, List, [], ◌∷◌,
  ◌++◌, map, ltb, leb, ◌==◌, if◌then◌else◌, Result, ok, err, out_of_bounds, ◌>>=◌,
}

abbrev pub Bytes : Type 0
Bytes = List ℕ

unfoldable pub isspace : ℕ → Bool
isspace c = c == b' ' || (leb 9 c && leb c 13)

-- `::tolower` of one byte, and of each byte of a string.
unfoldable pub lower : ℕ → ℕ
lower c = if leb b'A' c && leb c b'Z' then c + 32 else c

unfoldable pub tolower : Bytes → Bytes
unfolding lower
tolower = map lower

-- `while (isspace(sv.front())) sv.remove_prefix(1)`: `front()` of an empty view reads outside it.
strip_front : Bytes → Result Bytes
unfolding isspace
strip_front [] = err out_of_bounds
strip_front (c ∷ cs) = if isspace c then strip_front cs else ok (c ∷ cs)

-- The same at the other end.
strip_back : Bytes → Result Bytes
unfolding strip_front
strip_back cs = do r ← strip_front (reverse cs); ok (reverse r)

unfoldable pub strip : Bytes → Result Bytes
unfolding strip_front strip_back
strip sv = do front ← strip_front sv; strip_back front

-- The characters of the literal `"!#$%&'*+-.^_`|~"`, its closing zero byte included.
abbrev tchar_literal : Bytes
tchar_literal =
    b'!' ∷ b'#' ∷ b'$' ∷ b'%' ∷ b'&' ∷ 39 ∷ b'*' ∷ b'+' ∷ b'-' ∷ b'.' ∷ b'^' ∷ b'_' ∷ b'`' ∷ b'|'
    ∷ b'~' ∷ 0 ∷ []

-- `GetTcharBitset`, at one index below 128.
unfoldable pub is_tchar : ℕ → Bool
is_tchar c =
    mem c tchar_literal
    || (leb b'a' c && leb c b'z')
    || (leb b'A' c && leb c b'Z')
    || (leb b'0' c && leb c b'9')

-- `tchars[static_cast<unsigned>(c)]` of a byte from 128 on is far outside the bitset.
unfoldable pub is_token : Bytes → Result Bool
unfolding is_tchar
is_token [] = ok true
is_token (c ∷ cs) =
    if leb 128 c then err out_of_bounds else if is_tchar c then is_token cs else ok false

-- `none` is -1.
unfoldable pub parse_hex_digit : ℕ → Option ℕ
unfolding lower
parse_hex_digit c =
    if leb b'0' (lower c) && leb (lower c) b'9'
    then some (lower c - b'0')
    else if leb b'a' (lower c) && leb (lower c) b'f'
    then some (lower c - b'a' + 10)
    else none

-- `static_cast<char>(h * 16 + l)` if both digits are there.
unfoldable pub hex_pair : Option ℕ → Option ℕ → Option ℕ
hex_pair none l = none
hex_pair (some h) none = none
hex_pair (some h) (some l) = some (h * 16 + l)

-- `decoded.push_back(ch)` before what the rest of the loop decodes.
push_decoded : ℕ → Result (Option Bytes) → Result (Option Bytes)
push_decoded c (err f) = err f
push_decoded c (ok none) = ok none
push_decoded c (ok (some cs)) = ok (some (c ∷ cs))

-- The two characters behind a `%`. The guard asks for one of them only: with just one the code
-- reads one byte behind the view.
escape : Option ℕ → Result (Option Bytes) → Result (Option Bytes)
escape none rest = ok none
escape (some c) rest = push_decoded c rest

-- `none` is the empty `optional`.
unfoldable pub parse_percent_encoding : Bytes → Result (Option Bytes)
unfolding escape push_decoded hex_pair parse_hex_digit
parse_percent_encoding [] = ok (some [])
parse_percent_encoding (c ∷ []) = if c == b'%' then ok none else push_decoded c (ok (some []))
parse_percent_encoding (c ∷ h ∷ []) =
    let rest = parse_percent_encoding (h ∷ []) in
    if c == b'%' then err out_of_bounds else push_decoded c rest
parse_percent_encoding (c ∷ h ∷ l ∷ cs) =
    let behind = parse_percent_encoding cs in
    let rest = parse_percent_encoding (h ∷ l ∷ cs) in
    if c == b'%'
    then escape (hex_pair (parse_hex_digit h) (parse_hex_digit l)) behind
    else push_decoded c rest
