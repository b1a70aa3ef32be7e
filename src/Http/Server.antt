-- ===== src/Http/Server.antt =====
-- contrib/http/http_server.h and http_server.cc: from a request to what is sent. A connection is the
-- context that the server keeps in it, what was given to `Send`, and whether `Shutdown` was called.
pub mod Download
pub mod Routers
pub mod Serving
mod Tests
use anoii.Prelude.{
  ℕ, zero, suc, ◌+◌, ◌-◌, ◌*◌, ◌≤◌, ◌<◌, ◌≡◌, ◌≢◌, ◌↔◌, ◌⊎◌, inl, inr, refl, sym, ap, ◌∙◌, Bool,
  true, false, not, ◌&&◌, ◌||◌, Bool-cases, Option-cases, Option, none, some, List, [], ◌∷◌, ◌++◌,
  arith, ltb, leb, ◌==◌, if◌then◌else◌, length, take, drop, length-append, length-take, length-drop,
  Result, ok, err, Fault, assertion, out_of_bounds, thrown, aborted, assert, ◌>>=◌, ◌>>◌,
  bind-eq-ok,
}
use anoii.Buffer.{Buffer}
use anoii.Http.Utils.{Bytes}
use anoii.Http.Request.{
  HttpRequest, HttpParseState, RequestType, unknow, get, post, fresh, expect_start_line,
  expect_header_line, expect_body, request_is_bad, done, process,
}
use anoii.Http.Response.{
  codes, HttpResponse, StatusCode, success, bad_request, not_found, internal_error, status_number,
  make_response, decimal, with_length, print_response, OnDisk, file_response, has_more_data,
  load_data,
}

-- `Context` and what the connection was told.
pub record Served : Type 0 where
  pub request : HttpRequest
  pub response : HttpResponse
  pub sent : List Bytes
  pub shut : Bool

abbrev pub default_response : HttpResponse
default_response = make_response internal_error (codes "Response was not initialized")

abbrev pub accepted : Served
accepted = record { request = fresh; response = default_response; sent = []; shut = false }

-- `MakeResponseString`, which ends neither the line nor the head.
unfoldable pub make_response_string : StatusCode → Bytes
unfolding decimal
make_response_string code = codes "HTTP/1.1 " ++ decimal (status_number code)

-- `Send`, which ignores what it is given once the connection is shut.
abbrev pub say : Bytes → Served → Served
say bytes c = record c { sent = if c.shut then c.sent else c.sent ++ bytes ∷ [] }

unfoldable pub refuse : StatusCode → Served → Served
unfolding make_response_string
refuse code c = record (say (make_response_string code) c) { shut = true }

-- What a response holds is sent and popped.
unfoldable pub send_held : Served → Served
send_held c = record (say c.response.buf c) { response = record c.response { buf = [] } }

unfoldable pub respond : HttpResponse → Served → Served
unfolding with_length print_response send_held
respond response c =
    let response = with_length response in
    let c = say (print_response response) (record c { response = response }) in
    if length response.buf == 0 then c else send_held c

abbrev pub Handler : Type 0
Handler = HttpRequest → HttpResponse

route : Option Handler → Served → Served
unfolding respond refuse
route none c = refuse not_found c
route (some handler) c = respond (handler c.request) c

-- The switch of `ReadCb`.
answer : (Bytes → Option Handler) → HttpParseState → Served → Served
unfolding route refuse
answer routers expect_start_line c = c
answer routers expect_header_line c = c
answer routers expect_body c = c
answer routers request_is_bad c = refuse bad_request c
answer routers done c = route (routers c.request.router) c

-- A request that is done makes room for the next one.
abbrev next_request : HttpParseState → HttpRequest → HttpRequest
next_request done req = fresh
next_request expect_start_line req = req
next_request expect_header_line req = req
next_request expect_body req = req
next_request request_is_bad req = req

answered :
    (Bytes → Option Handler) → Served → Option (HttpRequest × Buffer) → Option (Served × Buffer)
unfolding answer
answered routers c none = none
answered routers c (some (req, buf)) =
    some (answer routers req.state (record c { request = req }), buf)

-- `ReadCb`, with the fuel of `Process`.
unfoldable pub read_cb :
    ℕ → (Bytes → Option Handler) → Served → Buffer → Result (Option (Served × Buffer))
unfolding process answered
read_cb fuel routers c buf = do
  r ← process fuel (next_request c.request.state c.request) buf
  ok (answered routers c r)

-- `WriteCb`.
unfoldable pub write_cb : Served → Served
unfolding load_data send_held
write_cb c =
    if has_more_data c.response then send_held (record c { response = load_data c.response }) else c

-- `ReadFileAsResponse`.
unfoldable pub read_file_as_response : Bytes → OnDisk → HttpRequest → HttpResponse
unfolding file_response
read_file_as_response path disk req = elim req.type [
  | get ↦ record (file_response path disk) { status_code = success }
  | post ↦ make_response bad_request []
  | unknow ↦ make_response bad_request []
]
