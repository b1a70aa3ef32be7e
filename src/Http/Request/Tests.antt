-- ===== src/Http/Request/Tests.antt =====
-- Runs of the request parser, and its theorems at concrete requests.
use anoii.Http.Query.{assign, clean_router, emplace, find_field, split_at}
use anoii.Http.Number.{stoi}
use anoii.Prelude.{
  ◌≡◌, refl, true, Option, none, some, [], ◌∷◌, ◌++◌, arith, length, Result, ok, err, out_of_bounds,
  thrown,
}
use Prim.Native.Char.{code}
use Prim.Native.String.{String}
use anoii.Buffer.{Buffer, contents, first_of, start_with, pop, memmem}
use anoii.Buffer.Inv.{IsValid}
use anoii.Http.Utils.{Bytes, is_token, tolower, strip, parse_percent_encoding}
use anoii.Http.Request.{HttpRequest, get, fresh, done, parse_target, start_line, process, crlf}
use anoii.Http.Request.Target.{StaysBelow, router-parse_target}
use anoii.Http.Request.Overruns.{start_line_overruns}
use anoii.Http.Request.Process.{Ends, size, process-Ends}
use anoii.Http.Request.Lines.{
  Header, IsHeader, completed, in_headers, store_headers, process-print_request,
}

-- Every literal below is ASCII.
abbrev codes : String → Bytes
codes String.[] = []
codes (String.◌∷◌ c s) = code c ∷ codes s

abbrev holding : Bytes → Buffer
holding text = record { head = 0; tail = length text; prepend_size = 0; cells = text }

abbrev outcome : Result (Option (HttpRequest × Buffer)) → Result (Option (HttpRequest × Bytes))
outcome (err f) = err f
outcome (ok none) = ok none
outcome (ok (some (req, b))) = ok (some (req, contents b))

abbrev host : Header
host = record { name = codes "Host"; text = codes "  x "; value = codes "x" }

abbrev query_request : HttpRequest
query_request = record fresh {
  type = get;
  router = codes "/a";
  arguments = (codes "k", codes "v w") ∷ (codes "f", []) ∷ [];
}

-- contrib/http/test.cc, in small.
process_test :
    outcome (
      process 9 fresh (
        holding (
          codes "GET /a?k=v%20w&f HTTP/1.1"
          ++ (crlf ++ (codes "Host:  x " ++ (crlf ++ (crlf ++ codes "G")))))))
    ≡ ok (
        some (
          record query_request { state = done; headers = (codes "host", codes "x") ∷ [] },
          codes "G",
        ))
unfolding process start_line first_of start_with pop parse_target clean_router split_at
    parse_percent_encoding is_token tolower strip find_field emplace assign
process_test = refl

parsed :
    parse_target (codes "/a?k=v%20w&f") (record fresh { type = get }) ≡ ok (query_request, true)
unfolding parse_target clean_router memmem split_at parse_percent_encoding assign
parsed = refl

router-parse_target_example : StaysBelow (codes "/a")
router-parse_target_example =
    router-parse_target (codes "/a?k=v%20w&f") (record fresh { type = get }) parsed

-- Without a version the target has no end; a body that is announced with no number throws.
faults_test :
    (process 9 fresh (holding (codes "GET /" ++ crlf)) ≡ err out_of_bounds)
    × (process 9 fresh (holding (codes "GET / HTTP/1.1" ++ (crlf ++ (codes "Host:" ++ crlf))))
        ≡ err out_of_bounds)
    × (process 9 fresh (
          holding
            (codes "GET / HTTP/1.1" ++ (crlf ++ (codes "Content-Length: x" ++ (crlf ++ crlf)))))
        ≡ err thrown)
unfolding process start_line first_of start_with pop parse_target clean_router split_at
    parse_percent_encoding is_token tolower strip find_field emplace assign stoi
faults_test = (refl, refl, refl)

host-IsHeader : IsHeader host
unfolding is_token tolower strip
host-IsHeader = record {
  token = refl;
  stripped = refl;
  no_colon = omega arith;
  name_line = omega arith;
  text_line = omega arith;
}

abbrev target : Bytes
target = codes "/a?k=v%20w&f"

abbrev one_line : Buffer
one_line = holding (codes "GET /a?k=v%20w&f HTTP/1.1" ++ (crlf ++ codes "Host"))

start_line_overruns_example :
    start_line fresh (holding (codes "GET /a" ++ (crlf ++ codes "Host:x"))) ≡ err out_of_bounds
start_line_overruns_example =
    start_line_overruns get (codes "/a") (codes "Host:x") fresh (λ e. cc e) (omega arith) refl
      (omega arith) (omega arith) (omega arith)

process-Ends_example : Ends (size one_line) (process 60 fresh one_line)
process-Ends_example = process-Ends 60 fresh one_line (omega arith)

abbrev whole : Buffer
whole = holding (
    codes "GET /a?k=v%20w&f HTTP/1.1"
    ++ (crlf ++ (codes "Host:  x " ++ (crlf ++ (crlf ++ codes "next")))))

process-print_request_example :
    (b' : Buffer) × (process 9 fresh whole
      ≡ ok (some (completed (store_headers (host ∷ []) (in_headers query_request)), b')))
    × IsValid b'
    × (contents b' ≡ codes "next")
unfolding find_field emplace tolower
process-print_request_example =
    process-print_request 9 get target (codes "HTTP/1.1") (codes "next") (host ∷ []) fresh
      (omega arith) refl (λ e. cc e) (omega arith) refl (omega arith) (omega arith) (omega arith)
      parsed (host-IsHeader, tt) (record { no_length = refl; no_encoding = refl })
