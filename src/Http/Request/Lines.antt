-- ===== src/Http/Request/Lines.antt =====
-- `HttpRequest::Process` on header lines, and on whole requests without a body.
use anoii.Http.Query.{emplace, find_field, split_at}
use anoii.Prelude.{
  take-append_length, ℕ, zero, suc, ◌+◌, ◌≤◌, ◌≡◌, ◌≢◌, refl, sym, ap, ◌∙◌, true, false, none, some,
  List, [], ◌∷◌, ◌++◌, arith, ◌==◌, length, take, length-append, Result, ok,
}
use mathlib.Core.List.{append_assoc}
use anoii.Buffer.{Buffer, contents}
use anoii.Buffer.Inv.{IsValid}
use anoii.Buffer.Refine.{pop-Takes}
use anoii.Buffer.Search.{Lacks, Lacks-append}
use anoii.Http.Utils.{Bytes, strip, tolower, is_token}
use anoii.Http.Request.{
  HttpRequest, RequestType, unknow, Turn, go_on, expect_start_line, expect_header_line, expect_body,
  done, crlf, content_length, transfer_encoding, parse_target, field, header_line, start_line, body,
  turn, process,
}
use anoii.Http.Request.Start.{first_of-append, print_start, start_line-lem}

split_at-append :
    (ch : ℕ) (before behind : Bytes)
    → Lacks ch before
    → split_at ch (before ++ (ch ∷ behind)) ≡ (before, some behind)
unfolding split_at
split_at-append ch [] behind l = ground arith
split_at-append ch (x ∷ before) behind l = ground (arith, split_at-append ch before behind l.1)

-- A header line as it is sent, and the two parts that the parser keeps of it.
pub record Header : Type 0 where
  pub name : Bytes
  pub text : Bytes
  pub value : Bytes

-- The name is a token and the text has another byte than spaces; neither holds a carriage return,
-- and the name holds no colon.
pub record IsHeader (h : Header) : Type 0 where
  pub token : is_token (tolower h.name) ≡ ok true
  pub stripped : strip h.text ≡ ok h.value
  pub no_colon : Lacks b':' h.name
  pub name_line : Lacks 13 h.name
  pub text_line : Lacks 13 h.text

abbrev pub print_line : Header → Bytes
print_line h = h.name ++ (b':' ∷ h.text)

abbrev pub store_header : Header → HttpRequest → HttpRequest
store_header h req = record req { headers = emplace (tolower h.name) h.value req.headers }

header_line-lem :
    {b : Buffer} (h : Header) (rest : Bytes) (req : HttpRequest)
    → IsHeader h
    → IsValid b
    → contents b ≡ print_line h ++ (crlf ++ rest)
    → (b' : Buffer) × (header_line req b ≡ ok (go_on (store_header h req) b'))
      × IsValid b'
      × (contents b' ≡ rest)
unfolding header_line field
header_line-lem {b} h rest req good v e =
    let found =
      first_of-append b 13 (10 ∷ []) (print_line h) rest e
        (Lacks-append 13 h.name (b':' ∷ h.text) good.name_line (omega arith, good.text_line)) in
    let some_line : (length (print_line h) == 0) ≡ false =
      let l = length-append h.name (b':' ∷ h.text) in ground arith in
    let line : take (length (print_line h)) (contents b) ≡ print_line h =
      ap (take (length (print_line h))) e ∙ take-append_length (print_line h) _ in
    let parts = split_at-append b':' h.name h.text good.no_colon in
    let (b', p, v', c) =
      pop-Takes (length (print_line h) + 2) (print_line h ++ crlf) rest v
        (e ∙ sym (append_assoc (print_line h) crlf rest)) (length-append (print_line h) crlf) in
    (b', rw (found, header_line, some_line, line, parts, good.token, good.stripped, p) refl, v', c)

-- The empty line behind the header lines.
header_end-lem :
    {b : Buffer} (rest : Bytes) (req : HttpRequest)
    → IsValid b
    → contents b ≡ crlf ++ rest
    → (b' : Buffer) × (header_line req b ≡ ok (go_on (record req { state = expect_body }) b'))
      × IsValid b'
      × (contents b' ≡ rest)
unfolding header_line
header_end-lem {b} rest req v e =
    let found = first_of-append b 13 (10 ∷ []) [] rest e tt in
    let (b', p, v', c) = pop-Takes 2 crlf rest v e refl in
    (b', rw (found, header_line, p) refl, v', c)

-- The header lines of a request and the empty line behind them.
abbrev pub print_lines : List Header → Bytes
print_lines [] = crlf
print_lines (h ∷ hs) = print_line h ++ (crlf ++ print_lines hs)

abbrev pub store_headers : List Header → HttpRequest → HttpRequest
store_headers [] req = req
store_headers (h ∷ hs) req = store_headers hs (store_header h req)

abbrev pub AreHeaders : List Header → Type 0
AreHeaders [] = Unit {0}
AreHeaders (h ∷ hs) = IsHeader h × AreHeaders hs

-- No header says that a body follows.
pub record HasNoBody (req : HttpRequest) : Type 0 where
  pub no_length : find_field content_length req.headers ≡ none
  pub no_encoding : find_field transfer_encoding req.headers ≡ none

abbrev pub completed : HttpRequest → HttpRequest
completed req = record req { state = done }

abbrev pub in_headers : HttpRequest → HttpRequest
in_headers req = record req { state = expect_header_line }

-- One round of the loop that goes on.
process-go_on :
    (n : ℕ) (req : HttpRequest) (b : Buffer) {req' : HttpRequest} {b' : Buffer}
    → turn req.state req b ≡ ok (go_on req' b')
    → process (suc n) req b ≡ process n req' b'
unfolding process
process-go_on n req b e = rw e refl

turn-header_line :
    (b : Buffer) (req : HttpRequest) {t : Result Turn}
    → req.state ≡ expect_header_line
    → header_line req b ≡ t
    → turn req.state req b ≡ t
unfolding turn
turn-header_line b req s e = ap (λ k. turn k req b) s ∙ e

turn-start_line :
    (b : Buffer) (req : HttpRequest) {t : Result Turn}
    → req.state ≡ expect_start_line
    → start_line req b ≡ t
    → turn req.state req b ≡ t
unfolding turn
turn-start_line b req s e = ap (λ k. turn k req b) s ∙ e

process-body :
    (n : ℕ) (req : HttpRequest) (b : Buffer)
    → 1 ≤ n
    → HasNoBody req
    → process n (record req { state = expect_body }) b ≡ ok (some (completed req, b))
unfolding process body
process-body zero req b l none_there = absurd (omega arith)
process-body (suc n) req b l none_there =
    rw (none_there.no_length, body, none_there.no_encoding) refl

process-lines :
    (n : ℕ) (hs : List Header) {b : Buffer} (rest : Bytes) (req : HttpRequest)
    → length hs + 2 ≤ n
    → AreHeaders hs
    → IsValid b
    → req.state ≡ expect_header_line
    → contents b ≡ print_lines hs ++ rest
    → HasNoBody (store_headers hs req)
    → (b' : Buffer) × (process n req b ≡ ok (some (completed (store_headers hs req), b')))
      × IsValid b'
      × (contents b' ≡ rest)
process-lines zero hs rest req l good v at_lines e none_there = absurd (omega arith)
process-lines (suc n) [] rest req l good v at_lines e none_there =
    let (b', p, v', c) = header_end-lem rest req v e in
    (
      b',
      process-go_on n req _ (turn-header_line _ req at_lines p)
          ∙ process-body n req b' (omega arith) none_there,
      v',
      c,
    )
process-lines (suc n) (h ∷ hs) rest req l good v at_lines e none_there =
    let (b1, p1, v1, c1) =
      header_line-lem h (print_lines hs ++ rest) req good.0 v
        (e ∙ append_assoc (print_line h) (crlf ++ print_lines hs) rest) in
    let (b2, p2, v2, c2) =
      process-lines n hs rest (store_header h req) (omega arith) good.1 v1 at_lines c1 none_there in
    (b2, process-go_on n req _ (turn-header_line _ req at_lines p1) ∙ p2, v2, c2)

-- A whole request without a body.
abbrev pub print_request : RequestType → Bytes → Bytes → List Header → Bytes
print_request type target version hs = print_start type target version ++ (crlf ++ print_lines hs)

-- `Process` on a buffer that begins with a well-formed request without a body: with a round for
-- each line it is done, the method, the target's parts and each header are stored, and the bytes
-- behind the request stay in the buffer. The method is known, the target has no space and no line
-- end, the version no line end, and `ParseTarget` accepts the target; the names of the headers
-- are tokens without a colon or a line end, what stands behind their colons has no line end and is
-- not blank, and they announce no body.
pub process-print_request :
    {b : Buffer} (n : ℕ) (type : RequestType) (target version rest : Bytes) (hs : List Header)
    (req : HttpRequest) {req' : HttpRequest}
    → length hs + 3 ≤ n
    → req.state ≡ expect_start_line
    → type ≢ unknow
    → IsValid b
    → contents b ≡ print_request type target version hs ++ rest
    → Lacks b' ' target
    → Lacks 13 target
    → Lacks 13 version
    → parse_target target (record req { type = type }) ≡ ok (req', true)
    → AreHeaders hs
    → HasNoBody (store_headers hs (in_headers req'))
    → (b' : Buffer) × (process n req b
        ≡ ok (some (completed (store_headers hs (in_headers req')), b')))
      × IsValid b'
      × (contents b' ≡ rest)
process-print_request zero type target version rest hs req l at_start known v e no_space nt nv
      parsed good none_there =
    absurd (omega arith)
process-print_request (suc n) type target version rest hs req {req'} l at_start known v e no_space
      nt nv parsed good none_there =
    let (b1, p1, v1, c1) =
      start_line-lem type target version (print_lines hs ++ rest) req known v
        (e ∙ append_assoc (print_start type target version) (crlf ++ print_lines hs) rest) no_space
        nt nv parsed in
    let (b2, p2, v2, c2) =
      process-lines n hs rest (record req' { state = expect_header_line }) (omega arith) good v1
        refl c1 none_there in
    (b2, process-go_on n req _ (turn-start_line _ req at_start p1) ∙ p2, v2, c2)
