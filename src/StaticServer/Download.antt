-- ===== src/StaticServer/Download.antt =====
-- A download from the server of src/tools/static_server/main.cc, from the request to the last byte.
use anoii.Prelude.{
  ℕ, ◌+◌, ◌≤◌, ◌<◌, ◌≡◌, refl, ap, ◌∙◌, true, false, none, some, List, [], ◌∷◌, ◌++◌, length, ok,
}
use mathlib.Core.List.{append_assoc}
use anoii.Buffer.{Buffer, contents}
use anoii.Buffer.Inv.{IsValid}
use anoii.Buffer.Search.{Lacks}
use anoii.Http.Utils.{Bytes}
use anoii.Http.Query.{Fields, find_field, assign}
use anoii.Buffer.{same_bytes}
use anoii.Http.Request.{HttpRequest, get, fresh, parse_target, crlf, content_length}
use anoii.Http.Request.Lines.{
  Header, AreHeaders, HasNoBody, print_request, completed, in_headers, store_headers, store_header,
}
use anoii.Http.Response.{
  codes, decimal, OnDisk, readable, OpenFile, HttpResponse, success, print_response, with_length,
  file_response, print_headers,
}
use anoii.Http.Server.{Served, read_cb, respond, say, read_file_as_response}
use anoii.Http.Server.Routers.{find_router, static_handler}
use anoii.Http.Server.Download.{flat, writes, serving, writes-download, flat-say}
use anoii.Http.Server.Serving.{AtRest, read_cb-responds}
use anoii.StaticServer.{Entry, add_entries}
use anoii.StaticServer.Routes.{AreRelative, entry_at, handler_of, find_router-add_entries}

-- The head of the response.
abbrev pub head : ℕ → Bytes
head size =
    codes "HTTP/1.1 200 "
    ++ (crlf ++ (codes "content-length: " ++ (decimal size ++ (crlf ++ crlf))))

abbrev whole : Bytes → OpenFile
whole bytes = record { remaining = bytes; eof = false }

-- The response for a file that can be opened.
abbrev reply : Bytes → HttpResponse
reply bytes = record {
  headers = (content_length, decimal (length bytes)) ∷ [];
  status_code = success;
  buf = [];
  file = some (whole bytes);
}

static_handler-reply :
    (path bytes : Bytes) (disk : Bytes → OnDisk) (req : HttpRequest)
    → req.type ≡ get
    → disk path ≡ readable bytes
    → static_handler disk path req ≡ reply bytes
unfolding read_file_as_response file_response assign
static_handler-reply path bytes disk req is_get there =
    ap (λ d. read_file_as_response path d req) there ∙ rw is_get refl

print_response-head : (bytes : Bytes) → print_response (reply bytes) ≡ head (length bytes)
unfolding print_response decimal print_headers
print_response-head bytes =
    ap (λ l. codes "HTTP/1.1 200 " ++ (crlf ++ (codes "content-length: " ++ l)))
      (append_assoc (decimal (length bytes)) crlf crlf)

-- The head is sent, and the file is still whole.
respond-reply :
    (bytes : Bytes) (c : Served)
    → respond (reply bytes) c
      ≡ serving
          (say (print_response (reply bytes)) (record c { response = reply bytes }))
          (whole bytes)
unfolding respond with_length find_field same_bytes
respond-reply bytes c = refl

type-store_headers : (hs : List Header) (req : HttpRequest) → (store_headers hs req).type ≡ req.type
type-store_headers [] req = refl
type-store_headers (h ∷ hs) req = type-store_headers hs (store_header h req)

-- A GET for the path of a file that a server on a directory has, and that can be opened, arrives on a
-- connection between two requests that is not shut, where no relative path is empty or begins with a
-- slash, and the request announces no body: what the client gets, when the write callback has come more often
-- than the file has bytes, is the head with the status 200 and the length of the file, and the bytes
-- of the file, whole, in order and once; the bytes behind the request stay in the buffer.
pub static_download :
    {b : Buffer} (n k : ℕ) (disk : Bytes → OnDisk) (entries : List Entry) (entry : Entry)
    (bytes target version rest path : Bytes) (arguments : Fields) (hs : List Header) (c : Served)
    → AreRelative entries
    → entry_at path entries ≡ some entry
    → disk entry.absolute_path ≡ readable bytes
    → AtRest c
    → length hs + 3 ≤ n
    → length bytes < k
    → IsValid b
    → contents b ≡ print_request get target version hs ++ rest
    → Lacks b' ' target
    → Lacks 13 target
    → Lacks 13 version
    → parse_target target (record fresh { type = get })
      ≡ ok (record fresh { type = get; router = path; arguments = arguments }, true)
    → AreHeaders hs
    → HasNoBody (
        store_headers hs
          (in_headers (record fresh { type = get; router = path; arguments = arguments })))
    → (c' : Served) × (b' : Buffer) × (read_cb n
          (λ p. find_router p (add_entries disk entries []))
          c
          b
        ≡ ok (some (c', b')))
      × IsValid b'
      × (contents b' ≡ rest)
      × (flat (writes k c').sent ≡ flat c.sent ++ (head (length bytes) ++ bytes))
unfolding find_router
static_download n k disk entries entry bytes target version rest path arguments hs c relative listed
      there at_rest l enough valid e no_space nt nv parsed good none_there =
    let asked = record fresh { type = get; router = path; arguments = arguments } in
    let req = completed (store_headers hs (in_headers asked)) in
    let routed =
      find_router-add_entries disk path entries [] relative ∙ ap (handler_of disk none) listed in
    let (b', served, valid', left) =
      read_cb-responds n get target version rest hs
        (λ p. find_router p (add_entries disk entries [])) (static_handler disk entry.absolute_path)
        c at_rest l (λ wrong. cc wrong) valid e no_space nt nv parsed good none_there routed in
    let c0 = record c { request = req } in
    let told = say (print_response (reply bytes)) (record c0 { response = reply bytes }) in
    let answered : respond (static_handler disk entry.absolute_path req) c0
        ≡ serving told (whole bytes) =
      ap (λ r. respond r c0)
        (static_handler-reply entry.absolute_path bytes disk req
          (type-store_headers hs (in_headers asked)) there)
      ∙ respond-reply bytes c0 in
    (
      serving told (whole bytes),
      b',
      served ∙ ap (λ x. ok (some (x, b'))) answered,
      valid',
      left,
      writes-download k told bytes enough at_rest.1
          ∙ ap (λ s. s ++ bytes)
              (flat-say (print_response (reply bytes)) (record c0 { response = reply bytes })
                  at_rest.1
                ∙ ap (λ h. flat c.sent ++ h) (print_response-head bytes))
          ∙ append_assoc (flat c.sent) (head (length bytes)) bytes,
    )
