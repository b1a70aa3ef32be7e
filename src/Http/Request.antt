-- ===== src/Http/Request.antt =====
-- contrib/http/http_request.h and http_request.cc: the request and its parser. An index into the
-- buffer is an `int` or `ssize_t`; `none` is its value -1 where a search finds nothing.
pub mod Target
pub mod Start
pub mod Overruns
pub mod Process
pub mod Lines
mod Tests
use mathlib.Core.Option
use anoii.Prelude.{
  ℕ, zero, suc, ◌+◌, ◌-◌, ◌*◌, ◌≡◌, Bool, true, false, not, ◌&&◌, ◌||◌, Option, none, some, List,
  [], ◌∷◌, ◌++◌, ltb, leb, ◌==◌, if◌then◌else◌, length, take, drop, Result, ok, err, out_of_bounds,
  thrown, int_bound, ℤ, pos, negsuc, leb_ℤ, assert, ◌>>=◌, ◌>>◌,
}
use anoii.Buffer.{Buffer, contents, first_of, start_with, pop, memmem, same_bytes}
use anoii.Http.Query.{
  Fields, find_field, assign, emplace, split_at, argument, after_argument, query_loop, relative,
  clean_router,
}
use anoii.Http.Number.{stoi}
use anoii.Http.Utils.{Bytes, isspace, strip, tolower, is_token, parse_percent_encoding}

pub data RequestType : Type 0 where
  unknow get post : RequestType

pub data HttpParseState : Type 0 where
  expect_start_line expect_header_line expect_body request_is_bad done : HttpParseState

pub record HttpRequest : Type 0 where
  pub headers : Fields
  pub arguments : Fields
  pub state : HttpParseState
  pub type : RequestType
  pub router : Bytes

abbrev pub fresh : HttpRequest
fresh = record {
  headers = [];
  arguments = [];
  state = expect_start_line;
  type = unknow;
  router = [];
}

query_of : Option Bytes → HttpRequest → Result (HttpRequest × Bool)
unfolding query_loop
query_of none req = ok (req, true)
query_of (some query) req = do
  r ← query_loop (length query) query req.arguments
  ok (record req { arguments = r.0 }, r.1)

unfoldable pub parse_target : Bytes → HttpRequest → Result (HttpRequest × Bool)
unfolding query_of
parse_target target req =
    let (path, query) = split_at b'?' target in
    elim (clean_router path) [
      | none ↦ ok (req, false)
      | some router ↦ query_of query (record req { router = router })
    ]

-- How one round of the loop ends: with another one, or with a return.
pub data Turn : Type 0 where
  go_on : HttpRequest → Buffer → Turn
  leave : HttpRequest → Buffer → Turn

abbrev pub crlf : Bytes
crlf = 13 ∷ 10 ∷ []

abbrev pub space : Bytes
space = b' ' ∷ []

abbrev bad : HttpRequest → Buffer → Result Turn
bad req buf = ok (leave (record req { state = request_is_bad }) buf)

-- Behind the target, which ends at `t`: the version, up to the line's end at `i`.
version_part : ℕ → ℕ → HttpRequest → Buffer → Result Turn
version_part t i req buf = do
  buf ← pop (t + 1) buf
  let rest = i - (t + 1)
  assert (same_bytes (take 2 (drop rest (contents buf))) crlf)
  buf ← pop (rest + 2) buf
  ok (go_on (record req { state = expect_header_line }) buf)

-- With no space behind the target its index is -1, which passes both the guard and the assertion
-- on the byte before: the target is then a view of 2^64 - 1 bytes.
target_part : ℕ → HttpRequest → Buffer → Result Turn
unfolding version_part
target_part i req buf = elim (first_of space buf) [
  | none ↦ err out_of_bounds
  | some t ↦ if leb i t then bad req buf else do
    r ← parse_target (take t (contents buf)) req
    if r.1 then version_part t i r.0 buf else bad r.0 buf
]

-- Behind the method's `n` bytes.
space_part : ℕ → ℕ → HttpRequest → Buffer → Result Turn
unfolding target_part
space_part n i req buf = do
  buf ← pop n buf
  if start_with space buf
      then (do buf ← pop 1 buf; target_part (i - n - 1) req buf)
      else bad req buf

abbrev pub get_name : Bytes
get_name = b'G' ∷ b'E' ∷ b'T' ∷ []

abbrev pub post_name : Bytes
post_name = b'P' ∷ b'O' ∷ b'S' ∷ b'T' ∷ []

method_part : ℕ → HttpRequest → Buffer → Result Turn
unfolding space_part
method_part i req buf =
    if start_with get_name buf
    then space_part 3 i (record req { type = get }) buf
    else if start_with post_name buf
    then space_part 4 i (record req { type = post }) buf
    else bad req buf

pub start_line : HttpRequest → Buffer → Result Turn
unfolding method_part
start_line req buf = elim (first_of crlf buf) [
  | none ↦ ok (leave req buf)
  | some i ↦ if i == 0 then ok (leave req buf) else method_part i req buf
]

field : ℕ → Bytes → Option Bytes → HttpRequest → Buffer → Result Turn
field i name none req buf = bad req buf
field i name (some content) req buf = do
  token ← is_token (tolower name)
  if token
      then (do
        value ← strip content
        buf ← pop (i + 2) buf
        ok (go_on (record req { headers = emplace (tolower name) value req.headers }) buf))
      else bad req buf

pub header_line : HttpRequest → Buffer → Result Turn
unfolding field
header_line req buf = elim (first_of crlf buf) [
  | none ↦ ok (leave req buf)
  | some i ↦
      if i == 0
      then (do buf ← pop 2 buf; ok (go_on (record req { state = expect_body }) buf))
      else let (name, content) = split_at b':' (take i (contents buf)) in
        field i name content req buf
]

abbrev pub content_length : Bytes
content_length =
    b'c' ∷ b'o' ∷ b'n' ∷ b't' ∷ b'e' ∷ b'n' ∷ b't' ∷ b'-' ∷ b'l' ∷ b'e' ∷ b'n' ∷ b'g' ∷ b't' ∷ b'h'
    ∷ []

abbrev pub transfer_encoding : Bytes
transfer_encoding =
    b't' ∷ b'r' ∷ b'a' ∷ b'n' ∷ b's' ∷ b'f' ∷ b'e' ∷ b'r' ∷ b'-' ∷ b'e' ∷ b'n' ∷ b'c' ∷ b'o' ∷ b'd'
    ∷ b'i' ∷ b'n' ∷ b'g' ∷ []

abbrev finished : HttpRequest → Buffer → Turn
finished req buf = leave (record req { state = done }) buf

pub body : HttpRequest → Buffer → Result Turn
body req buf = elim (find_field content_length req.headers) [
  | some v ↦ do
    n ← stoi v
    ok (if leb_ℤ n (pos (buf.tail - buf.head)) then finished req buf else leave req buf)
  | none ↦ elim (find_field transfer_encoding req.headers) [
    | some e ↦ ok (leave req buf)
    | none ↦ ok (finished req buf)
  ]
]

turn : HttpParseState → HttpRequest → Buffer → Result Turn
unfolding start_line header_line body
turn expect_start_line req buf = start_line req buf
turn expect_header_line req buf = header_line req buf
turn expect_body req buf = body req buf
turn request_is_bad req buf = ok (leave req buf)
turn done req buf = ok (leave req buf)

pub after_turn :
    (HttpRequest → Buffer → Result (Option (HttpRequest × Buffer)))
    → Turn
    → Result (Option (HttpRequest × Buffer))
after_turn again (go_on req buf) = again req buf
after_turn again (leave req buf) = ok (some (req, buf))

-- The loop, with fuel; `none` means that the fuel ran out.
unfoldable pub process : ℕ → HttpRequest → Buffer → Result (Option (HttpRequest × Buffer))
unfolding turn after_turn
process zero req buf = ok none
process (suc fuel) req buf = turn req.state req buf >>= after_turn (process fuel)
