-- ===== src/Http/Server/Tests.antt =====
-- What the server sends for concrete requests.
use anoii.Http.Query.{clean_router, find_field, split_at}
use anoii.Prelude.{
  ◌≡◌, inr, refl, true, Option, none, some, [], ◌++◌, arith, if◌then◌else◌, length, ok,
}
use anoii.Buffer.{Buffer, contents, same_bytes, memmem}
use anoii.Buffer.Inv.{IsValid}
use anoii.Http.Request.{get, parse_target, fresh}
use anoii.Http.Server.Serving.{wire, AtRest, read_cb-print_request}
use anoii.Http.Utils.{Bytes}
use anoii.Http.Request.{crlf}
use anoii.Http.Response.{
  codes, HttpResponse, make_response, success, print_response, with_length, decimal,
}
use anoii.Http.Server.{read_cb, Handler, Served, accepted}
use anoii.Http.Server.Download.{flat}

unfoldable head_of : HttpResponse → Bytes
unfolding with_length print_response
head_of r = print_response (with_length r)

head_test :
    head_of (make_response success (codes "hello"))
    ≡ codes "HTTP/1.1 200 " ++ (crlf ++ (codes "content-length: 5" ++ (crlf ++ crlf)))
unfolding head_of
head_test = refl

decimal_test : decimal 1042 ≡ codes "1042"
unfolding decimal
decimal_test = refl

abbrev holding : Bytes → Buffer
holding text = record { head = 0; tail = length text; prepend_size = 0; cells = text }

abbrev hello : Handler
hello req = make_response success (codes "hello")

abbrev only_path : Bytes → Option Handler
only_path path = if same_bytes path (codes "/a") then some hello else none

abbrev asking : Buffer
asking = holding (codes "GET /a HTTP/1.1" ++ (crlf ++ (crlf ++ codes "G")))

parsed :
    parse_target (codes "/a") (record fresh { type = get })
    ≡ ok (record fresh { type = get; router = codes "/a" }, true)
unfolding parse_target clean_router memmem split_at
parsed = refl

read_cb-print_request_example :
    (c' : Served) × (b' : Buffer) × (read_cb 3 only_path accepted asking ≡ ok (some (c', b')))
    × IsValid b'
    × (contents b' ≡ codes "G")
    × (flat c'.sent ≡ wire (make_response success (codes "hello")))
    × AtRest c'
unfolding find_field same_bytes
read_cb-print_request_example =
    read_cb-print_request 3 get (codes "/a") (codes "HTTP/1.1") (codes "G") [] only_path hello
      accepted (inr refl, refl) (omega arith) (λ e. cc e)
      (record { ordered = omega arith; in_cells = omega arith; reserved = omega arith }) refl
      (omega arith) (omega arith) (omega arith) parsed tt
      (record { no_length = refl; no_encoding = refl }) refl
