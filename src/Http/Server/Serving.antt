-- ===== src/Http/Server/Serving.antt =====
-- `HttpServer::ReadCb`, contrib/http/http_server.cc: from the bytes of a request to those of its
-- response.
use anoii.Prelude.{
  ℕ, ◌+◌, ◌≤◌, ◌≡◌, ◌≢◌, ◌⊎◌, inl, inr, refl, sym, ap, ◌∙◌, true, false, Bool-cases, Option, some,
  List, [], ◌∷◌, ◌++◌, arith, ◌==◌, length, ok, ◌>>=◌,
}
use mathlib.Core.Path.{subst}
use mathlib.Core.List.{append-nil, append_assoc}
use anoii.Buffer.{Buffer, contents}
use anoii.Buffer.Inv.{IsValid}
use anoii.Buffer.Search.{Lacks}
use anoii.Http.Utils.{Bytes}
use anoii.Http.Request.{HttpRequest, RequestType, unknow, fresh, done, parse_target, process}
use anoii.Http.Request.Lines.{
  Header, AreHeaders, HasNoBody, print_request, completed, in_headers, store_headers,
  process-print_request,
}
use anoii.Http.Response.{HttpResponse, with_length, print_response}
use anoii.Http.Server.{
  Served, Handler, respond, route, answer, answered, next_request, read_cb, send_held, say,
}
use anoii.Http.Server.Download.{flat, flat-say}

-- The head of a response, and the body that it holds.
abbrev pub wire : HttpResponse → Bytes
wire r = print_response (with_length r) ++ (with_length r).buf

empty_of : (bytes : Bytes) → (length bytes == 0) ≡ true → bytes ≡ []
empty_of [] e = refl
empty_of (x ∷ xs) e = ground arith

abbrev headed : HttpResponse → Served → Served
headed r c = say (print_response r) (record c { response = r })

respond-empty :
    (r : HttpResponse) (c : Served)
    → (length (with_length r).buf == 0) ≡ true
    → respond r c ≡ headed (with_length r) c
unfolding respond
respond-empty r c e = rw e refl

respond-full :
    (r : HttpResponse) (c : Served)
    → (length (with_length r).buf == 0) ≡ false
    → respond r c ≡ send_held (headed (with_length r) c)
unfolding respond
respond-full r c e = rw e refl

headed-flat :
    (r : HttpResponse) (c : Served)
    → c.shut ≡ false
    → flat (headed r c).sent ≡ flat c.sent ++ print_response r
headed-flat r c unshut = flat-say (print_response r) (record c { response = r }) unshut

-- What a response does to a connection that is not shut.
pub record Responded (bytes : Bytes) (c c' : Served) : Type 0 where
  pub on_wire : flat c'.sent ≡ flat c.sent ++ bytes
  pub same_request : c'.request ≡ c.request
  pub same_shut : c'.shut ≡ c.shut

held-Responded :
    (r : HttpResponse) (c : Served)
    → c.shut ≡ false
    → Responded (print_response r ++ r.buf) c (send_held (headed r c))
unfolding send_held
held-Responded r c unshut = record {
  on_wire =
      flat-say r.buf (headed r c) unshut
      ∙ ap (λ l. l ++ r.buf) (headed-flat r c unshut)
      ∙ append_assoc (flat c.sent) (print_response r) r.buf;
  same_request = refl;
  same_shut = refl;
}

respond-Responded :
    (r : HttpResponse) (c : Served) → c.shut ≡ false → Responded (wire r) c (respond r c)
respond-Responded r c unshut = elim (Bool-cases (length (with_length r).buf == 0)) [
  | inl empty ↦
      let bare : print_response (with_length r) ≡ wire r =
        sym (append-nil _)
        ∙ ap (λ l. print_response (with_length r) ++ l) (sym (empty_of _ empty)) in
      subst (Responded (wire r) c) (sym (respond-empty r c empty)) (record {
        on_wire = headed-flat (with_length r) c unshut ∙ ap (λ l. flat c.sent ++ l) bare;
        same_request = refl;
        same_shut = refl;
      })
  | inr full ↦
      subst (Responded (wire r) c) (sym (respond-full r c full))
        (held-Responded (with_length r) c unshut)
]

router-store_headers :
    (hs : List Header) (req : HttpRequest) → (store_headers hs req).router ≡ req.router
router-store_headers [] req = refl
router-store_headers (h ∷ hs) req = router-store_headers hs _

-- Between two requests, and not shut.
abbrev pub AtRest : Served → Type 0
AtRest c = ((c.request.state ≡ done) ⊎ (c.request ≡ fresh)) × (c.shut ≡ false)

next_request-fresh : (c : Served) → AtRest c → next_request c.request.state c.request ≡ fresh
next_request-fresh c (inl e, unshut) = rw e refl
next_request-fresh c (inr e, unshut) = rw e refl

read_cb-process :
    (n : ℕ) (routers : Bytes → Option Handler) (c : Served) (b b' : Buffer) (req : HttpRequest)
    (handler : Handler)
    → next_request c.request.state c.request ≡ fresh
    → process n fresh b ≡ ok (some (req, b'))
    → req.state ≡ done
    → routers req.router ≡ some handler
    → read_cb n routers c b ≡ ok (some (respond (handler req) (record c { request = req }), b'))
unfolding read_cb answered answer route
read_cb-process n routers c b b' req handler again parsed is_done routed =
    let s = record c { request = req } in
    ap (λ q. process n q b >>= λ r. ok (answered routers c r)) again
    ∙ ap (λ r. r >>= λ o. ok (answered routers c o)) parsed
    ∙ ap (λ st. ok (some (answer routers st s, b'))) is_done
    ∙ ap (λ h. ok (some (route h s, b'))) routed

-- A well-formed request without a body is answered by the handler of its path.
pub read_cb-responds :
    {b : Buffer} (n : ℕ) (type : RequestType) (target version rest : Bytes) (hs : List Header)
    (routers : Bytes → Option Handler) (handler : Handler) (c : Served) {req' : HttpRequest}
    → AtRest c
    → length hs + 3 ≤ n
    → type ≢ unknow
    → IsValid b
    → contents b ≡ print_request type target version hs ++ rest
    → Lacks b' ' target
    → Lacks 13 target
    → Lacks 13 version
    → parse_target target (record fresh { type = type }) ≡ ok (req', true)
    → AreHeaders hs
    → HasNoBody (store_headers hs (in_headers req'))
    → routers req'.router ≡ some handler
    → (b' : Buffer) × (read_cb n routers c b
        ≡ ok (
            some (
              respond
                  (handler (completed (store_headers hs (in_headers req'))))
                  (record c { request = completed (store_headers hs (in_headers req')) }),
              b',
            )))
      × IsValid b'
      × (contents b' ≡ rest)
read_cb-responds n type target version rest hs routers handler c {req'} at_rest l known v e no_space
      nt nv parsed good none_there routed =
    let req = completed (store_headers hs (in_headers req')) in
    let (b1, p, v1, left) =
      process-print_request n type target version rest hs fresh l refl known v e no_space nt nv
        parsed good none_there in
    let found : routers req.router ≡ some handler =
      ap routers (router-store_headers hs (in_headers req')) ∙ routed in
    (
      b1,
      read_cb-process n routers c _ b1 req handler (next_request-fresh c at_rest) p refl found,
      v1,
      left,
    )

-- A well-formed request without a body that reaches a connection between two requests which is not
-- shut, and whose path has a handler, is answered with that handler's response behind what was sent
-- before: its head, and the body that it holds, which for a file is none yet; the bytes behind the
-- request stay in the buffer, and the connection is between two requests again and not shut, so that
-- a further request is served in the same way. The header lines have the form of `AreHeaders` and
-- announce no body, and target and version have no space or line end of their own.
pub read_cb-print_request :
    {b : Buffer} (n : ℕ) (type : RequestType) (target version rest : Bytes) (hs : List Header)
    (routers : Bytes → Option Handler) (handler : Handler) (c : Served) {req' : HttpRequest}
    → AtRest c
    → length hs + 3 ≤ n
    → type ≢ unknow
    → IsValid b
    → contents b ≡ print_request type target version hs ++ rest
    → Lacks b' ' target
    → Lacks 13 target
    → Lacks 13 version
    → parse_target target (record fresh { type = type }) ≡ ok (req', true)
    → AreHeaders hs
    → HasNoBody (store_headers hs (in_headers req'))
    → routers req'.router ≡ some handler
    → (c' : Served) × (b' : Buffer) × (read_cb n routers c b ≡ ok (some (c', b')))
      × IsValid b'
      × (contents b' ≡ rest)
      × (flat c'.sent
          ≡ flat c.sent ++ wire (handler (completed (store_headers hs (in_headers req')))))
      × AtRest c'
read_cb-print_request n type target version rest hs routers handler c {req'} at_rest l known v e
      no_space nt nv parsed good none_there routed =
    let req = completed (store_headers hs (in_headers req')) in
    let (b', served, valid, left) =
      read_cb-responds n type target version rest hs routers handler c at_rest l known v e no_space
        nt nv parsed good none_there routed in
    let r = respond-Responded (handler req) (record c { request = req }) at_rest.1 in
    (
      respond (handler req) (record c { request = req }),
      b',
      served,
      valid,
      left,
      r.on_wire,
      (inl (ap (λ q. q.state) r.same_request), r.same_shut ∙ at_rest.1),
    )
