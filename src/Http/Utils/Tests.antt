-- ===== src/Http/Utils/Tests.antt =====
-- Runs of the HTTP helpers, and their theorems at concrete texts.
use Prim.Native.Char.{code}
use Prim.Native.String.{String}
use anoii.Prelude.{◌↔◌, ◌≡◌, refl, [], ◌∷◌, true, false, none, some, ok, err, out_of_bounds}
use anoii.Http.Utils.{
  Bytes, isspace, strip, strip_front, strip_back, is_token, is_tchar, parse_percent_encoding,
  parse_hex_digit,
}
use anoii.Http.Utils.Percent.{Encodes, parse_percent_encoding_iff}

-- Every literal below is ASCII.
abbrev codes : String → Bytes
codes String.[] = []
codes (String.◌∷◌ c s) = code c ∷ codes s

strip_test : strip (codes "  127.0.0.1:8888 \t") ≡ ok (codes "127.0.0.1:8888")
unfolding strip strip_front strip_back isspace
strip_test = refl

-- The value of `Host:` with nothing behind it.
strip_empty_test : strip [] ≡ err out_of_bounds
unfolding strip strip_front
strip_empty_test = refl

token_test :
    (is_token (codes "content-length") ≡ ok true)
    × (is_token (codes "a b") ≡ ok false)
    × (is_token (0 ∷ []) ≡ ok true)
    × (is_token [] ≡ ok true)
    × (is_token (228 ∷ []) ≡ err out_of_bounds)
unfolding is_token is_tchar
token_test = (refl, refl, refl, refl, refl)

-- contrib/http/test.cc
percent_test :
    (parse_percent_encoding (codes "%E4%bd=%e5") ≡ ok (some (228 ∷ 189 ∷ b'=' ∷ 229 ∷ [])))
    × (parse_percent_encoding (codes "%E%B%A0") ≡ ok none)
    × (parse_percent_encoding (codes "%4") ≡ err out_of_bounds)
unfolding parse_percent_encoding
percent_test = (refl, refl, refl)

digit_e : parse_hex_digit b'E' ≡ some 14
unfolding parse_hex_digit
digit_e = refl

digit_4 : parse_hex_digit b'4' ≡ some 4
unfolding parse_hex_digit
digit_4 = refl

parse_percent_encoding_iff_example :
    (parse_percent_encoding (codes "a%2F") ≡ ok (some (codes "a/")))
    ↔ Encodes (codes "a%2F") (codes "a/")
parse_percent_encoding_iff_example = parse_percent_encoding_iff (codes "a%2F") (codes "a/")
