-- ===== src/Prelude/Outcomes.antt =====
-- Results of code that can stop: a failed `assert`, an access out of range, a value that does not
-- fit in `int`, an exception, or `abort()`.
use Prim.Native.Nat.{ℕ, ◌+◌, ◌^◌, ◌≤◌, ◌<◌}
use mathlib.Core.Path.{◌≡◌, refl}
use mathlib.Core.Logic.{◌⊎◌, inl, inr}
use mathlib.Core.Bool.{Bool, true, false}
use mathlib.Core.List.{List}
use native.Mathlib.Omega.{arith}
use anoii.Prelude.Tests.{ltb, leb, if◌then◌else◌}
use anoii.Prelude.Lists.{length, splice, slice}

pub data Fault : Type 0 where
  assertion out_of_bounds int_overflow thrown aborted : Fault

-- `thrown`, `assertion` and the rest end the call; a call that returns gives a value.
pub data Result {ℓ} (V : Type ℓ) : Type ℓ where
  err : Fault → Result V
  ok : V → Result V

infixl 5 ◌>>=◌
abbrev pub ◌>>=◌ {ℓ κ} : {V : Type ℓ} {W : Type κ} → Result V → (V → Result W) → Result W
err fault >>= next = err fault
ok value >>= next = next value

infixl 5 ◌>>◌
abbrev pub ◌>>◌ {κ} : {W : Type κ} → Result (Unit {0}) → Result W → Result W
first >> second = first >>= λ done. second

-- `assert(b)` of a debug build.
abbrev pub assert : Bool → Result (Unit {0})
assert true = ok tt
assert false = err assertion

-- The values of `int` that are not negative stay below this bound.
abbrev pub int_bound : ℕ
int_bound = 2 ^ 31

-- A sum or a cast that has to fit in `int`.
abbrev pub to_int : ℕ → Result ℕ
to_int n = if ltb n int_bound then ok n else err int_overflow

-- Reading `n` cells from index `i`, and copying `xs` to index `i`, of an array.
abbrev pub load : ℕ → ℕ → List ℕ → Result (List ℕ)
load i n cells = if leb (i + n) (length cells) then ok (slice i n cells) else err out_of_bounds

abbrev pub store : ℕ → List ℕ → List ℕ → Result (List ℕ)
store i xs cells =
    if leb (i + length xs) (length cells) then ok (splice i xs cells) else err out_of_bounds

pub load-eq-ok :
    (i n : ℕ) (cells : List ℕ) → i + n ≤ length cells → load i n cells ≡ ok (slice i n cells)
load-eq-ok i n cells h = ground arith

pub store-eq-ok :
    (i : ℕ) (xs cells : List ℕ)
    → i + length xs ≤ length cells
    → store i xs cells ≡ ok (splice i xs cells)
store-eq-ok i xs cells h = ground arith

pub to_int-eq-ok : (n : ℕ) → n < int_bound → to_int n ≡ ok n
to_int-eq-ok n h = ground arith

pub Result-cases {ℓ} :
    {V : Type ℓ} (r : Result V) → ((f : Fault) × (r ≡ err f)) ⊎ ((v : V) × (r ≡ ok v))
Result-cases (err f) = inl (f, refl)
Result-cases (ok v) = inr (v, refl)

-- What a step that succeeded says of its parts.
pub bind-eq-ok {ℓ κ} :
    {V : Type ℓ} {W : Type κ} (step : Result V) (next : V → Result W) {w : W}
    → (step >>= next) ≡ ok w
    → (v : V) × (step ≡ ok v) × (next v ≡ ok w)
bind-eq-ok (err fault) next e = cc
bind-eq-ok (ok v) next e = (v, refl, e)
