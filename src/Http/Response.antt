-- ===== src/Http/Response.antt =====
-- contrib/http/http_response.h and http_response.cc: what is sent back. A response's buffer is the
-- bytes that it holds, and the file of a `FileResponse` is what is still to be read of it.
use anoii.Http.Query.{Fields, assign, emplace, find_field}
use anoii.Prelude.{
  ◌%◌, ◌/◌, ℕ, zero, suc, ◌+◌, ◌*◌, Bool, true, false, not, ◌&&◌, Option, none, some, [], ◌∷◌, ◌++◌,
  ltb, if◌then◌else◌, length, take, drop,
}
use Prim.Native.Char.{code}
use Prim.Native.String.{String}
use anoii.Buffer.{memmem}
use anoii.Http.Utils.{Bytes}
use anoii.Http.Request.{crlf, content_length, transfer_encoding}

-- The bytes of a literal, which is ASCII.
abbrev pub codes : String → Bytes
codes String.[] = []
codes (String.◌∷◌ c s) = code c ∷ codes s

pub data StatusCode : Type 0 where
  success bad_request not_found internal_error : StatusCode

-- `kNotFound` is 400 as well.
abbrev pub status_number : StatusCode → ℕ
status_number success = 200
status_number bad_request = 400
status_number not_found = 400
status_number internal_error = 500

-- An open file: the bytes behind the position, and whether a read has met the end.
pub record OpenFile : Type 0 where
  pub remaining : Bytes
  pub eof : Bool

pub record HttpResponse : Type 0 where
  pub headers : Fields
  pub status_code : StatusCode
  pub buf : Bytes
  pub file : Option OpenFile

abbrev pub make_response : StatusCode → Bytes → HttpResponse
make_response status msg = record { headers = []; status_code = status; buf = msg; file = none }

-- `std::to_string`, with fuel: a number has no more digits than its value, or one.
unfoldable pub decimal_on : ℕ → ℕ → Bytes
decimal_on zero n = []
decimal_on (suc fuel) n =
    let front = decimal_on fuel (n / 10) in
    if ltb n 10 then (n + b'0') ∷ [] else front ++ (n % 10 + b'0') ∷ []

unfoldable pub decimal : ℕ → Bytes
unfolding decimal_on
decimal n = decimal_on (suc n) n

-- Whether a header is there that contains the text.
abbrev has_header : Bytes → Fields → Bool
has_header k m = elim (find_field k m) [ none ↦ false | some v ↦ true ]

abbrev is_chunked : Option Bytes → Bool
is_chunked none = false
is_chunked (some v) = elim (memmem (codes "chunked") v) [ none ↦ false | some i ↦ true ]

unfoldable pub with_length : HttpResponse → HttpResponse
unfolding decimal find_field emplace
with_length r =
    if not (has_header content_length r.headers)
      && not (is_chunked (find_field transfer_encoding r.headers))
    then record r { headers = emplace content_length (decimal (length r.buf)) r.headers }
    else r

unfoldable pub print_headers : Fields → Bytes
print_headers [] = []
print_headers ((k, v) ∷ m) = k ++ (codes ": " ++ (v ++ (crlf ++ print_headers m)))

-- `StartAndFieldToString`, of a response that has its length.
unfoldable pub print_response : HttpResponse → Bytes
unfolding decimal print_headers
print_response r =
    codes "HTTP/1.1 "
    ++ (decimal (status_number r.status_code)
        ++ (codes " " ++ (crlf ++ (print_headers r.headers ++ crlf))))

-- What the file system knows of a path: no regular file, one that cannot be opened, or its bytes.
pub data OnDisk : Type 0 where
  no_file : OnDisk
  closed : ℕ → OnDisk
  readable : Bytes → OnDisk

unfoldable pub file_response : Bytes → OnDisk → HttpResponse
unfolding decimal assign
file_response path no_file = make_response internal_error []
file_response path (closed size) = record (make_response internal_error []) {
  headers = assign content_length (decimal size) [];
  buf = codes "Cannot open " ++ path;
}
file_response path (readable bytes) = record (make_response internal_error []) {
  headers = assign content_length (decimal (length bytes)) [];
  file = some (record { remaining = bytes; eof = false });
}

abbrev pub has_more_data : HttpResponse → Bool
has_more_data r = elim r.file [ none ↦ false | some f ↦ not f.eof ]

abbrev pub chunk : ℕ
chunk = 1024 * 1024

-- A read that gets less than it asked for has met the end.
abbrev pub read_chunk : OpenFile → OpenFile
read_chunk f = record { remaining = drop chunk f.remaining; eof = ltb (length f.remaining) chunk }

-- `LoadData`.
unfoldable pub load_file : Option OpenFile → HttpResponse → HttpResponse
load_file none r = r
load_file (some f) r =
    if f.eof
    then r
    else record r { file = some (read_chunk f); buf = r.buf ++ take chunk f.remaining }

unfoldable pub load_data : HttpResponse → HttpResponse
unfolding load_file
load_data r = load_file r.file r
