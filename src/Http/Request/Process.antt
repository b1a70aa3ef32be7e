-- ===== src/Http/Request/Process.antt =====
-- The loop of `HttpRequest::Process`, contrib/http/http_request.cc.
use anoii.Http.Query.{find_field}
use anoii.Http.Number.{stoi}
use anoii.Prelude.{
  ap, ℕ, zero, suc, ◌+◌, ◌-◌, ◌≤◌, ◌<◌, ◌≡◌, ◌≢◌, inl, inr, Bool, true, false, Option-cases, Option,
  none, some, arith, leb, ◌==◌, if◌then◌else◌, take, Result, ok, err, ◌>>=◌, leb_ℤ, pos,
  Result-cases,
}
use anoii.Buffer.{Buffer, contents, first_of, start_with, pop}
use anoii.Buffer.Refine.{pop-shrinks}
use anoii.Http.Utils.{Bytes, strip, tolower, is_token}
use anoii.Http.Request.{
  after_turn, HttpRequest, HttpParseState, Turn, go_on, leave, expect_start_line,
  expect_header_line, expect_body, request_is_bad, done, crlf, space, get_name, post_name,
  content_length, transfer_encoding, parse_target, version_part, target_part, space_part,
  method_part, start_line, field, header_line, body, turn, after_turn, process,
}

abbrev pub size : Buffer → ℕ
size b = b.tail - b.head

-- A round that goes on leaves fewer than `n` bytes, and one that ends the loop no more.
abbrev Falls : ℕ → Result Turn → Type 0
Falls n (err f) = Unit {0}
Falls n (ok (leave req b)) = size b ≤ n
Falls n (ok (go_on req b)) = size b < n

Falls-mono : (m n : ℕ) (r : Result Turn) → m ≤ n → Falls m r → Falls n r
Falls-mono m n (err f) l h = tt
Falls-mono m n (ok (leave req b)) l h = omega arith
Falls-mono m n (ok (go_on req b)) l h = omega arith

-- A step behind a `Pop`.
Falls-pop :
    (k : ℕ) (b : Buffer) (n : ℕ) (next : Buffer → Result Turn)
    → ((b' : Buffer) → pop k b ≡ ok b' → Falls n (next b'))
    → Falls n (pop k b >>= next)
Falls-pop k b n next h = elim (Result-cases (pop k b)) [
  | inl (f, e) ↦ rw e tt
  | inr (b', e) ↦ rw e (h b' e)
]

Falls-leave :
    (t : Bool) (n : ℕ) (req req' : HttpRequest) (b : Buffer)
    → size b ≤ n
    → Falls n (ok (if t then leave req b else leave req' b))
Falls-leave true n req req' b l = l
Falls-leave false n req req' b l = l

pop-lt : (k : ℕ) (b : Buffer) {b' : Buffer} → 0 < k → pop k b ≡ ok b' → size b' < size b
pop-lt k b l p = omega (arith, pop-shrinks k b p)

Falls-if :
    (t : Bool) (n : ℕ) (x y : Result Turn) → Falls n x → Falls n y → Falls n (if t then x else y)
Falls-if true n x y hx hy = hx
Falls-if false n x y hx hy = hy

Falls-bind {ℓ} :
    {V : Type ℓ} (r : Result V) (n : ℕ) (next : V → Result Turn)
    → ((v : V) → Falls n (next v))
    → Falls n (r >>= next)
Falls-bind (err f) n next h = tt
Falls-bind (ok v) n next h = h v

at_most : (b : Buffer) → size b ≤ size b
at_most b = omega arith

version_part-Falls :
    (t i : ℕ) (req : HttpRequest) (b : Buffer) → Falls (size b) (version_part t i req b)
unfolding version_part
version_part-Falls t i req b = Falls-pop (t + 1) b (size b) _ λ b1 p1.
    Falls-bind _ (size b) _ λ checked.
      Falls-pop _ b1 (size b) _
        λ b2 p2. omega (arith, pop-shrinks (t + 1) b p1, pop-shrinks _ b1 p2)

target_part-Falls : (i : ℕ) (req : HttpRequest) (b : Buffer) → Falls (size b) (target_part i req b)
unfolding target_part
target_part-Falls i req b = elim (Option-cases (first_of space b)) [
  | inl e ↦ rw (e, target_part) tt
  | inr (t, e) ↦
      rw (e, target_part)
        (Falls-if (leb i t) (size b) _ _ (at_most b) (
          Falls-bind (parse_target (take t (contents b)) req) (size b) _
            λ r. Falls-if r.1 (size b) _ _ (version_part-Falls t i r.0 b) (at_most b)))
]

space_part-Falls :
    (n i : ℕ) (req : HttpRequest) (b : Buffer) → Falls (size b) (space_part n i req b)
unfolding space_part
space_part-Falls n i req b = Falls-pop n b (size b) _ λ b1 p1.
    Falls-if (start_with space b1) (size b) _ _
      (Falls-pop 1 b1 (size b) _ λ b2 p2.
        Falls-mono (size b2) (size b) _ (omega (arith, pop-shrinks n b p1, pop-shrinks 1 b1 p2))
          (target_part-Falls _ req b2))
      (omega (arith, pop-shrinks n b p1))

start_line-Falls : (req : HttpRequest) (b : Buffer) → Falls (size b) (start_line req b)
unfolding start_line method_part
start_line-Falls req b = elim (Option-cases (first_of crlf b)) [
  | inl e ↦ rw (e, start_line) (at_most b)
  | inr (i, e) ↦
      rw (e, start_line)
        (Falls-if (i == 0) (size b) _ _ (at_most b) (
          Falls-if (start_with get_name b) (size b) _ _ (space_part-Falls 3 i _ b) (
            Falls-if (start_with post_name b) (size b) _ _ (space_part-Falls 4 i _ b) (at_most b))))
]

field-Falls :
    (i : ℕ) (name : Bytes) (content : Option Bytes) (req : HttpRequest) (b : Buffer)
    → Falls (size b) (field i name content req b)
unfolding field
field-Falls i name none req b = (at_most b)
field-Falls i name (some content) req b = Falls-bind (is_token (tolower name)) (size b) _ λ token.
    Falls-if token (size b) _ _
      (Falls-bind (strip content) (size b) _
        λ value. Falls-pop (i + 2) b (size b) _ λ b1 p. pop-lt (i + 2) b (omega arith) p)
      (at_most b)

header_line-Falls : (req : HttpRequest) (b : Buffer) → Falls (size b) (header_line req b)
unfolding header_line
header_line-Falls req b = elim (Option-cases (first_of crlf b)) [
  | inl e ↦ rw (e, header_line) (at_most b)
  | inr (i, e) ↦
      rw (e, header_line)
        (Falls-if (i == 0) (size b) _ _
          (Falls-pop 2 b (size b) _ λ b1 p. omega (arith, pop-shrinks 2 b p))
          (field-Falls i _ _ req b))
]

body-Falls : (req : HttpRequest) (b : Buffer) → Falls (size b) (body req b)
unfolding body
body-Falls req b = elim (Option-cases (find_field content_length req.headers)) [
  | inr (v, e) ↦
      rw (e, body)
        (Falls-bind (stoi v) (size b) _
          λ n. Falls-leave (leb_ℤ n (pos (b.tail - b.head))) (size b) _ _ b (omega arith))
  | inl e ↦ elim (Option-cases (find_field transfer_encoding req.headers)) [
    | inr (v, e') ↦ rw (e, body, e') (at_most b)
    | inl e' ↦ rw (e, body, e') (at_most b)
  ]
]

turn-Falls : (s : HttpParseState) (req : HttpRequest) (b : Buffer) → Falls (size b) (turn s req b)
unfolding turn
turn-Falls expect_start_line req b = start_line-Falls req b
turn-Falls expect_header_line req b = header_line-Falls req b
turn-Falls expect_body req b = body-Falls req b
turn-Falls request_is_bad req b = (at_most b)
turn-Falls done req b = (at_most b)

-- A run that does not end for want of fuel, and leaves no more than `m` bytes.
abbrev pub Ends : ℕ → Result (Option (HttpRequest × Buffer)) → Type 0
Ends m r = (r ≢ ok none) × ((req : HttpRequest) (b : Buffer) → r ≡ ok (some (req, b)) → size b ≤ m)

Ends-mono : (k m : ℕ) (r : Result (Option (HttpRequest × Buffer))) → k ≤ m → Ends k r → Ends m r
Ends-mono k m r l (ended, kept) = (ended, λ req b e. omega (arith, kept req b e))

Ends-after_turn :
    (n m : ℕ) (r : Result Turn)
    → m ≤ n
    → Falls m r
    → ((req : HttpRequest) (b : Buffer) → size b < n → Ends (size b) (process n req b))
    → Ends m (r >>= after_turn (process n))
unfolding after_turn
Ends-after_turn n m (err f) l h go = (λ e. cc e, λ req b e. cc e)
Ends-after_turn n m (ok (leave req b)) l h go =
    (λ e. cc e, λ req' b' e. let same : b ≡ b' = cc e in omega (arith, h, ap size same))
Ends-after_turn n m (ok (go_on req b)) l h go =
    Ends-mono (size b) m _ (omega arith) (go req b (omega arith))

-- `Process` always ends, whatever the request and the buffer: with more rounds than the buffer has
-- readable bytes the loop stops at a fault or an exception, or returns with no more readable bytes than
-- there were.
pub process-Ends :
    (n : ℕ) (req : HttpRequest) (b : Buffer) → size b < n → Ends (size b) (process n req b)
unfolding process
process-Ends zero req b l = absurd (omega arith)
process-Ends (suc n) req b l =
    Ends-after_turn n (size b) (turn req.state req b) (omega arith) (turn-Falls req.state req b)
      (λ req' b' l'. process-Ends n req' b' l')
