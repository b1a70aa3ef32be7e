-- ===== src/Http/Request/Target.antt =====
-- `HttpRequest::ParseTarget`, contrib/http/http_request.cc: the path, and the loop over the query.
use anoii.Http.Query.{
  Fields, after_argument, argument, clean_router, query_loop, relative, split_at,
}
use anoii.Prelude.{
  ℕ, zero, suc, ◌+◌, ◌≤◌, ◌<◌, ◌≡◌, inl, inr, refl, sym, ap, ◌∙◌, Bool, true, false, Bool-cases,
  Option-cases, Option, none, some, [], ◌∷◌, arith, leb, ◌==◌, if◌then◌else◌, length, drop,
  length-append, length-drop, Result, ok, ◌>>=◌, bind-eq-ok, drop-drop,
}
use mathlib.Core.Option
use mathlib.Core.Path.{fun_ext}
use anoii.Buffer.{memmem}
use anoii.Buffer.Search.{OccursAt, memmem-Finds}
use anoii.Http.Utils.{Bytes}
use anoii.Http.Request.{HttpRequest, query_of, parse_target}

abbrev pub dots : Bytes
dots = b'.' ∷ b'.' ∷ []

-- `..` stands nowhere in a path.
abbrev pub StaysBelow : Bytes → Type 0
StaysBelow path = (i : ℕ) → ¬ OccursAt dots path i

-- The end of a path that stays below stays below.
StaysBelow-drop : (k : ℕ) (path : Bytes) → StaysBelow path → StaysBelow (drop k path)
StaysBelow-drop k path s i (l, (rest, e)) =
    let e' = sym (drop-drop k i path) ∙ e in
    elim (Bool-cases (leb (k + i) (length path))) [
      | inl inside ↦ s (k + i) (ground arith, (rest, e'))
      | inr outside ↦
          let gone : length path < k + i = ground arith in
          absurd (omega (arith, ap length e', length-append dots rest, length-drop (k + i) path))
    ]

StaysBelow-slash :
    (path : Bytes) (r : Option ℕ) {router : Bytes}
    → StaysBelow path
    → Option.map (λ j. drop j path) r ≡ some router
    → StaysBelow router
StaysBelow-slash path none s e = cc e
StaysBelow-slash path (some j) {router} s e =
    let e' : drop j path ≡ router = cc e in rw (← e') (StaysBelow-drop j path s)

StaysBelow-relative :
    (path : Bytes) {router : Bytes}
    → StaysBelow path
    → relative path ≡ some router
    → StaysBelow router
unfolding relative
StaysBelow-relative path s e = elim (Option-cases (memmem (b'/' ∷ b'/' ∷ []) path)) [
  | inl no_slashes ↦ cc (rw (no_slashes, relative) at e)
  | inr (i, slashes) ↦
      StaysBelow-slash (drop (i + 2) path) _ (StaysBelow-drop (i + 2) path s)
        (rw (slashes, relative) at e)
]

-- A path that `ParseTarget` keeps stays below.
clean_router-StaysBelow :
    (path : Bytes) {router : Bytes} → clean_router path ≡ some router → StaysBelow router
unfolding clean_router
clean_router-StaysBelow path e = elim (Option-cases (memmem dots path)) [
  | inr (i, up) ↦ cc (rw (up, clean_router) at e)
  | inl below ↦ kept (rw below at (memmem-Finds dots path)) _ (rw (below, clean_router) at e)
]
  where
    kept :
        StaysBelow path
        → (absolute : Bool) {router : Bytes}
        → (if absolute then relative path else some path) ≡ some router
        → StaysBelow router
    kept s true e = StaysBelow-relative path s e
    kept s false {router} e = let e' : path ≡ router = cc e in rw (← e') s

router-query_of :
    (query : Option Bytes) (req : HttpRequest) {req' : HttpRequest} {accepted : Bool}
    → query_of query req ≡ ok (req', accepted)
    → req'.router ≡ req.router
unfolding query_of
router-query_of none req e = ground arith
router-query_of (some query) req e =
    let (r, loop, e') = bind-eq-ok (query_loop (length query) query req.arguments) _ e in
    ground arith

-- Every request whose target `ParseTarget` accepts has a router in which `..` stands nowhere.
pub router-parse_target :
    (target : Bytes) (req : HttpRequest) {req' : HttpRequest}
    → parse_target target req ≡ ok (req', true)
    → StaysBelow req'.router
unfolding parse_target
router-parse_target target req {req'} e = elim (Option-cases (clean_router path)) [
  | inl refused ↦ cc (rw (refused, parse_target) at e)
  | inr (router, kept) ↦
      let same =
        router-query_of (split_at b'?' target).1 (record req { router = router })
          (rw (kept, parse_target) at e) in
      rw same (clean_router-StaysBelow path kept)
]
  where
    path : Bytes
    path = (split_at b'?' target).0

split_at-shorter :
    (ch : ℕ) (cs : Bytes) {kv query : Bytes}
    → split_at ch cs ≡ (kv, some query)
    → length query < length cs
unfolding split_at
split_at-shorter ch [] e = absurd (ground arith)
split_at-shorter ch (c ∷ cs) {kv} {query} e = elim (Bool-cases (c == ch)) [
  | inl here ↦ ground arith
  | inr later ↦
      let rest : split_at ch cs ≡ ((split_at ch cs).0, some query) = ground arith in
      let shorter = split_at-shorter ch cs rest in omega arith
]

-- Two continuations that agree on short queries agree behind an argument.
after_argument_agree :
    (n : ℕ) (f g : Bytes → Fields → Result (Fields × Bool)) (args : Fields) (behind : Option Bytes)
    → ((query : Bytes) (args' : Fields) → length query ≤ n → f query args' ≡ g query args')
    → ((query : Bytes) → behind ≡ some query → length query ≤ n)
    → (r : Option Fields) → after_argument f args behind r ≡ after_argument g args behind r
unfolding after_argument
after_argument_agree n f g args behind same short none = refl
after_argument_agree n f g args none same short (some args') = refl
after_argument_agree n f g args (some query) same short (some args') =
    same query args' (short query refl)

-- The loop over the query never runs out of fuel: any two amounts that are at least the length of
-- the query give the same result.
query_loop_fuel :
    (f g : ℕ) (query : Bytes) (args : Fields)
    → length query ≤ f
    → length query ≤ g
    → query_loop f query args ≡ query_loop g query args
unfolding query_loop
query_loop_fuel zero zero query args hf hg = refl
query_loop_fuel zero (suc g) [] args hf hg = refl
query_loop_fuel zero (suc g) (c ∷ cs) args hf hg = absurd (omega arith)
query_loop_fuel (suc f) zero [] args hf hg = refl
query_loop_fuel (suc f) zero (c ∷ cs) args hf hg = absurd (omega arith)
query_loop_fuel (suc f) (suc g) [] args hf hg = refl
query_loop_fuel (suc f) (suc g) (c ∷ cs) args hf hg =
    ap (λ k. argument (split_at b'&' (c ∷ cs)).0 args >>= k)
      (fun_ext (
        after_argument_agree (length cs) (query_loop f) (query_loop g) args
          (split_at b'&' (c ∷ cs)).1
          (λ query args' l. query_loop_fuel f g query args' (omega arith) (omega arith))
          (λ query e.
            omega (
              arith,
              split_at-shorter b'&' (c ∷ cs) (ap (λ r. ((split_at b'&' (c ∷ cs)).0, r)) e),
            ))))
