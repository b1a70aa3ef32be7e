-- ===== src/Http/Request/Start.antt =====
-- `HttpRequest::Process` on a start line, contrib/http/http_request.cc.
use anoii.Prelude.{
  take-append_length, drop-append, ℕ, ◌+◌, ◌-◌, ◌≡◌, ◌≢◌, inl, inr, refl, sym, ap, ◌∙◌, true, false,
  Bool-cases, none, some, [], ◌∷◌, ◌++◌, arith, leb, ◌==◌, length, take, drop, length-append, ok,
}
use mathlib.Core.List.{append_assoc}
use anoii.Buffer.{Buffer, contents, first_of, start_with, same_bytes}
use anoii.Buffer.Inv.{IsValid}
use anoii.Buffer.Refine.{pop-Takes}
use anoii.Buffer.Search.{
  Lacks-append, Lacks, memmem-append, memmem-absent, start_with_iff, same_bytes_refl,
}
use anoii.Http.Utils.{Bytes}
use anoii.Http.Request.{
  HttpRequest, RequestType, unknow, get, post, go_on, expect_header_line, crlf, space, get_name,
  post_name, parse_target, version_part, target_part, space_part, method_part, start_line,
}

pub first_of-append :
    (b : Buffer) (c : ℕ) (needle before behind : Bytes)
    → contents b ≡ before ++ (c ∷ needle ++ behind)
    → Lacks c before
    → first_of (c ∷ needle) b ≡ some (length before)
unfolding first_of
first_of-append b c needle before behind e l = rw e (memmem-append c needle before behind l)

pub first_of-absent :
    (b : Buffer) (c : ℕ) (needle : Bytes) → Lacks c (contents b) → first_of (c ∷ needle) b ≡ none
unfolding first_of
first_of-absent b c needle l = memmem-absent c needle (contents b) l

pub start_with-append :
    {b : Buffer} (front back : Bytes)
    → IsValid b
    → contents b ≡ front ++ back
    → start_with front b ≡ true
start_with-append front back v e = (start_with_iff front v).1 (back, e)

-- How a version and its line's end are taken.
version_part-lem :
    {b : Buffer} (t i : ℕ) (target version rest : Bytes) (req : HttpRequest)
    → IsValid b
    → contents b ≡ (target ++ space) ++ (version ++ (crlf ++ rest))
    → length target ≡ t
    → length target + 1 + length version ≡ i
    → (b' : Buffer) × (version_part t i req b
        ≡ ok (go_on (record req { state = expect_header_line }) b'))
      × IsValid b'
      × (contents b' ≡ rest)
unfolding version_part
version_part-lem {b} t i target version rest req v e lt li =
    let (b1, p1, v1, c1) =
      pop-Takes (t + 1) (target ++ space) (version ++ (crlf ++ rest)) v e
        (omega (arith, length-append target space)) in
    let (b2, p2, v2, c2) =
      pop-Takes (i - (t + 1) + 2) (version ++ crlf) rest v1
        (c1 ∙ sym (append_assoc version crlf rest)) (omega (arith, length-append version crlf)) in
    let at_end : drop (i - (t + 1)) (contents b1) ≡ crlf ++ rest =
      let n : i - (t + 1) ≡ length version = omega arith in
      rw n (ap (drop (length version)) c1 ∙ drop-append version (crlf ++ rest)) in
    let ends : same_bytes (take 2 (drop (i - (t + 1)) (contents b1))) crlf ≡ true =
      ap (λ l. same_bytes (take 2 l) crlf) at_end ∙ same_bytes_refl crlf in
    (b2, ground (arith, p1, ends, p2), v2, c2)

target_part-lem :
    {b : Buffer} (i : ℕ) (target version rest : Bytes) (req : HttpRequest) {req' : HttpRequest}
    → IsValid b
    → contents b ≡ (target ++ space) ++ (version ++ (crlf ++ rest))
    → length target + 1 + length version ≡ i
    → Lacks b' ' target
    → parse_target target req ≡ ok (req', true)
    → (b' : Buffer) × (target_part i req b
        ≡ ok (go_on (record req' { state = expect_header_line }) b'))
      × IsValid b'
      × (contents b' ≡ rest)
unfolding target_part
target_part-lem {b} i target version rest req {req'} v e li no_space parsed =
    let (b', p, v', c) = version_part-lem (length target) i target version rest req' v e refl li in
    let whole = e ∙ append_assoc target space (version ++ (crlf ++ rest)) in
    let found = first_of-append b b' ' [] target (version ++ (crlf ++ rest)) whole no_space in
    let taken : take (length target) (contents b) ≡ target =
      ap (take (length target)) whole ∙ take-append_length target _ in
    let short : leb i (length target) ≡ false = ground arith in
    (b', rw (found, target_part, short, taken, parsed) p, v', c)

space_part-lem :
    {b : Buffer} (n i : ℕ) (method target version rest : Bytes) (req : HttpRequest)
    {req' : HttpRequest}
    → IsValid b
    → contents b ≡ method ++ (space ++ ((target ++ space) ++ (version ++ (crlf ++ rest))))
    → length method ≡ n
    → n + 1 + (length target + 1 + length version) ≡ i
    → Lacks b' ' target
    → parse_target target req ≡ ok (req', true)
    → (b' : Buffer) × (space_part n i req b
        ≡ ok (go_on (record req' { state = expect_header_line }) b'))
      × IsValid b'
      × (contents b' ≡ rest)
unfolding space_part
space_part-lem {b} n i method target version rest req v e ln li no_space parsed =
    let (b1, p1, v1, c1) = pop-Takes n method _ v e ln in
    let spaced = start_with-append space _ v1 c1 in
    let (b2, p2, v2, c2) = pop-Takes 1 space _ v1 c1 refl in
    let (b3, p3, v3, c3) =
      target_part-lem (i - n - 1) target version rest req v2 c2 (omega arith) no_space parsed in
    (b3, rw (p1, spaced, p2) p3, v3, c3)

abbrev pub method_name : RequestType → Bytes
method_name unknow = []
method_name get = get_name
method_name post = post_name

-- The start line of a request, without its end.
abbrev pub print_start : RequestType → Bytes → Bytes → Bytes
print_start type target version = method_name type ++ (space ++ ((target ++ space) ++ version))

pub Lacks-name : (type : RequestType) → Lacks 13 (method_name type)
Lacks-name unknow = tt
Lacks-name get = omega arith
Lacks-name post = omega arith

Lacks-print_start :
    (type : RequestType) (target version : Bytes)
    → Lacks 13 target
    → Lacks 13 version
    → Lacks 13 (print_start type target version)
Lacks-print_start type target version t v = Lacks-append 13 (method_name type) _ (Lacks-name type) (
  omega arith,
  Lacks-append 13 (target ++ space) version (Lacks-append 13 target space t (omega arith)) v,
)

first_byte : {x y : ℕ} {xs ys : Bytes} → ◌≡◌ {A = Bytes} (x ∷ xs) (y ∷ ys) → x ≡ y
first_byte e = ground arith

pub not_get :
    {b : Buffer} (back : Bytes)
    → IsValid b
    → contents b ≡ post_name ++ back
    → start_with get_name b ≡ false
not_get {b} back v e = elim (Bool-cases (start_with get_name b)) [
  | inr n ↦ n
  | inl g ↦
      let (rest, e') = (start_with_iff get_name v).0 g in
      absurd (omega (arith, first_byte (sym e ∙ e')))
]

-- The method is read off the front of the line.
method_part-lem :
    {b : Buffer} (i : ℕ) (type : RequestType) (target version rest : Bytes) (req : HttpRequest)
    {req' : HttpRequest}
    → type ≢ unknow
    → IsValid b
    → contents b ≡ method_name type ++ (space ++ ((target ++ space) ++ (version ++ (crlf ++ rest))))
    → length (method_name type) + 1 + (length target + 1 + length version) ≡ i
    → Lacks b' ' target
    → parse_target target (record req { type = type }) ≡ ok (req', true)
    → (b' : Buffer) × (method_part i req b
        ≡ ok (go_on (record req' { state = expect_header_line }) b'))
      × IsValid b'
      × (contents b' ≡ rest)
unfolding method_part
method_part-lem i unknow target version rest req known v e li no_space parsed = absurd (known refl)
method_part-lem {b} i get target version rest req known v e li no_space parsed =
    let named = start_with-append get_name _ v e in
    rw named (space_part-lem 3 i get_name target version rest _ v e refl li no_space parsed)
method_part-lem {b} i post target version rest req known v e li no_space parsed =
    let named = start_with-append post_name _ v e in
    let other = not_get _ v e in
    rw (other, named)
      (space_part-lem 4 i post_name target version rest _ v e refl li no_space parsed)

-- A start line "GET target version" or "POST target version" at the front of a valid buffer, whose
-- target has no space and is accepted by `ParseTarget`, and with no carriage return before its end:
-- the line is taken whole, the method and the parsed target are stored, and header lines follow.
pub start_line-lem :
    {b : Buffer} (type : RequestType) (target version rest : Bytes) (req : HttpRequest)
    {req' : HttpRequest}
    → type ≢ unknow
    → IsValid b
    → contents b ≡ print_start type target version ++ (crlf ++ rest)
    → Lacks b' ' target
    → Lacks 13 target
    → Lacks 13 version
    → parse_target target (record req { type = type }) ≡ ok (req', true)
    → (b' : Buffer) × (start_line req b
        ≡ ok (go_on (record req' { state = expect_header_line }) b'))
      × IsValid b'
      × (contents b' ≡ rest)
unfolding start_line
start_line-lem {b} type target version rest req known v e no_space nt nv parsed =
    let found =
      first_of-append b 13 (10 ∷ []) (print_start type target version) rest e
        (Lacks-print_start type target version nt nv) in
    let counted : length (print_start type target version)
        ≡ length (method_name type) + 1 + (length target + 1 + length version) =
      omega (
        arith,
        length-append (method_name type) (space ++ ((target ++ space) ++ version)),
        length-append (target ++ space) version,
        length-append target space,
      ) in
    let whole : contents b
        ≡ method_name type ++ (space ++ ((target ++ space) ++ (version ++ (crlf ++ rest)))) =
      e
      ∙ append_assoc (method_name type) (space ++ ((target ++ space) ++ version)) (crlf ++ rest)
      ∙ ap (λ l. method_name type ++ (b' ' ∷ l))
          (append_assoc (target ++ space) version (crlf ++ rest)) in
    let some_line : (length (print_start type target version) == 0) ≡ false = ground arith in
    rw (found, start_line, some_line)
      (method_part-lem _ type target version rest req known v whole (sym counted) no_space parsed)
