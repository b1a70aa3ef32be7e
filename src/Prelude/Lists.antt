-- ===== src/Prelude/Lists.antt =====
-- Lists measured and indexed by native numbers, under the library's names.
use Prim.Native.Nat.{ℕ, zero, suc, ◌+◌, ◌-◌, ◌≤◌, min}
use mathlib.Core.Path.{◌≡◌, refl, ap}
use mathlib.Core.List.{List, [], ◌∷◌, ◌++◌}
use mathlib.Core.Option.{Option, none, some}
use native.Mathlib.Omega.{arith}

module _ {ℓ} {A : Type ℓ} where
  abbrev pub length : List A → ℕ
  length [] = 0
  length (x ∷ xs) = suc (length xs)

  abbrev pub get_elem? : List A → ℕ → Option A
  get_elem? [] i = none
  get_elem? (x ∷ xs) zero = some x
  get_elem? (x ∷ xs) (suc i) = get_elem? xs i

  -- A write out of bounds changes nothing.
  abbrev pub set : List A → ℕ → A → List A
  set [] i v = []
  set (x ∷ xs) zero v = v ∷ xs
  set (x ∷ xs) (suc i) v = x ∷ set xs i v

  abbrev pub take : ℕ → List A → List A
  take zero xs = []
  take (suc n) [] = []
  take (suc n) (x ∷ xs) = x ∷ take n xs

  abbrev pub drop : ℕ → List A → List A
  drop zero xs = xs
  drop (suc n) [] = []
  drop (suc n) (x ∷ xs) = drop n xs

  abbrev pub replicate : ℕ → A → List A
  replicate zero a = []
  replicate (suc n) a = a ∷ replicate n a

  -- `std::copy` of `xs` over the start of `l`, which has room for it.
  abbrev pub overwrite : List A → List A → List A
  overwrite [] l = l
  overwrite (x ∷ xs) [] = []
  overwrite (x ∷ xs) (y ∷ l) = x ∷ overwrite xs l

  -- The same at index `i`.
  abbrev pub splice : ℕ → List A → List A → List A
  splice zero xs l = overwrite xs l
  splice (suc i) xs [] = []
  splice (suc i) xs (y ∷ l) = y ∷ splice i xs l

  -- The `n` elements from index `i` on.
  abbrev pub slice : ℕ → ℕ → List A → List A
  slice i n l = take n (drop i l)

module _ {ℓ} {A : Type ℓ} where
  pub length-append : (xs ys : List A) → length (xs ++ ys) ≡ length xs + length ys
  length-append [] ys = omega arith
  length-append (x ∷ xs) ys = omega (arith, length-append xs ys)

  pub length-take : (n : ℕ) (xs : List A) → length (take n xs) ≡ min n (length xs)
  length-take zero xs = omega arith
  length-take (suc n) [] = omega arith
  length-take (suc n) (x ∷ xs) = omega (arith, length-take n xs)

  pub length-drop : (n : ℕ) (xs : List A) → length (drop n xs) ≡ length xs - n
  length-drop zero xs = omega arith
  length-drop (suc n) [] = omega arith
  length-drop (suc n) (x ∷ xs) = omega (arith, length-drop n xs)

  pub length-slice : (i n : ℕ) (xs : List A) → i + n ≤ length xs → length (slice i n xs) ≡ n
  length-slice i n xs h = omega (arith, length-take n (drop i xs), length-drop i xs)

  pub length-replicate : (n : ℕ) (a : A) → length (replicate n a) ≡ n
  length-replicate zero a = refl
  length-replicate (suc n) a = ap suc (length-replicate n a)

  pub take-append-drop : (n : ℕ) (xs : List A) → take n xs ++ drop n xs ≡ xs
  take-append-drop zero xs = refl
  take-append-drop (suc n) [] = refl
  take-append-drop (suc n) (x ∷ xs) = ap (λ l. x ∷ l) (take-append-drop n xs)

  pub take-all : (n : ℕ) (xs : List A) → length xs ≤ n → take n xs ≡ xs
  take-all zero [] h = refl
  take-all zero (x ∷ xs) h = absurd (omega arith)
  take-all (suc n) [] h = refl
  take-all (suc n) (x ∷ xs) h = ap (λ l. x ∷ l) (take-all n xs (omega arith))

  pub take-append : (n : ℕ) (xs ys : List A) → n ≤ length xs → take n (xs ++ ys) ≡ take n xs
  take-append zero xs ys h = refl
  take-append (suc n) [] ys h = absurd (omega arith)
  take-append (suc n) (x ∷ xs) ys h = ap (λ l. x ∷ l) (take-append n xs ys (omega arith))

  -- Growing a list at its end leaves a slice inside it alone.
  pub slice-append :
      (i n : ℕ) (xs ys : List A) → i + n ≤ length xs → slice i n (xs ++ ys) ≡ slice i n xs
  slice-append zero n xs ys h = take-append n xs ys (omega arith)
  slice-append (suc i) n [] ys h = absurd (omega arith)
  slice-append (suc i) n (x ∷ xs) ys h = slice-append i n xs ys (omega arith)

  pub length-overwrite : (xs l : List A) → length (overwrite xs l) ≡ length l
  length-overwrite [] l = refl
  length-overwrite (x ∷ xs) [] = refl
  length-overwrite (x ∷ xs) (y ∷ l) = ap suc (length-overwrite xs l)

  pub length-splice : (i : ℕ) (xs l : List A) → length (splice i xs l) ≡ length l
  length-splice zero xs l = length-overwrite xs l
  length-splice (suc i) xs [] = refl
  length-splice (suc i) xs (y ∷ l) = ap suc (length-splice i xs l)

  take-overwrite : (xs l : List A) → length xs ≤ length l → take (length xs) (overwrite xs l) ≡ xs
  take-overwrite [] l h = refl
  take-overwrite (x ∷ xs) [] h = absurd (omega arith)
  take-overwrite (x ∷ xs) (y ∷ l) h = ap (λ r. x ∷ r) (take-overwrite xs l (omega arith))

  -- What was copied to index `i` is what is read there.
  pub slice-splice :
      (i : ℕ) (xs l : List A) → i + length xs ≤ length l → slice i (length xs) (splice i xs l) ≡ xs
  slice-splice zero xs l h = take-overwrite xs l (omega arith)
  slice-splice (suc i) xs [] h = absurd (omega arith)
  slice-splice (suc i) xs (y ∷ l) h = slice-splice i xs l (omega arith)

  take-splice :
      (n m : ℕ) (xs l : List A)
      → m ≡ n + length xs
      → m ≤ length l
      → take m (splice n xs l) ≡ take n l ++ xs
  take-splice zero m xs l e h =
      let e' : m ≡ length xs = omega arith in rw e' (take-overwrite xs l (omega arith))
  take-splice (suc n) zero xs l e h = absurd (omega arith)
  take-splice (suc n) (suc m) xs [] e h = absurd (omega arith)
  take-splice (suc n) (suc m) xs (y ∷ l) e h =
      ap (λ r. y ∷ r) (take-splice n m xs l (omega arith) (omega arith))

  -- A copy behind a slice extends the slice.
  pub slice-splice_end :
      (i n m : ℕ) (xs l : List A)
      → m ≡ n + length xs
      → i + m ≤ length l
      → slice i m (splice (i + n) xs l) ≡ slice i n l ++ xs
  slice-splice_end zero n m xs l e h =
      let e' : 0 + n ≡ n = omega arith in rw e' (take-splice n m xs l e (omega arith))
  slice-splice_end (suc i) n m xs [] e h = absurd (omega arith)
  slice-splice_end (suc i) n m xs (y ∷ l) e h =
      let e' : suc i + n ≡ suc (i + n) = omega arith in
      rw e' (slice-splice_end i n m xs l e (omega arith))

  pub drop-nil : (n : ℕ) → drop {A = A} n [] ≡ []
  drop-nil zero = refl
  drop-nil (suc n) = refl

  pub take-nil : (n : ℕ) → take {A = A} n [] ≡ []
  take-nil zero = refl
  take-nil (suc n) = refl

  pub drop-drop : (i n : ℕ) (l : List A) → drop n (drop i l) ≡ drop (i + n) l
  drop-drop zero n l = let e : 0 + n ≡ n = omega arith in rw e
  drop-drop (suc i) n [] = rw (drop-nil n, drop-nil (suc i + n))
  drop-drop (suc i) n (x ∷ l) =
      let e : suc i + n ≡ suc (i + n) = omega arith in rw e (drop-drop i n l)

  drop-take : (k n : ℕ) (l : List A) → drop k (take n l) ≡ take (n - k) (drop k l)
  drop-take zero n l = let e : n - 0 ≡ n = omega arith in rw e
  drop-take (suc k) zero l = let e : 0 - suc k ≡ 0 = omega arith in rw e
  drop-take (suc k) (suc n) [] = rw (take-nil (suc n - suc k))
  drop-take (suc k) (suc n) (x ∷ l) =
      let e : suc n - suc k ≡ n - k = omega arith in rw e (drop-take k n l)

  -- Moving the start of a slice drops from it.
  pub slice-drop : (i n k : ℕ) (l : List A) → slice (i + k) (n - k) l ≡ drop k (slice i n l)
  slice-drop i n k l = rw (drop-take k n (drop i l), drop-drop i k l)

  pub drop-append : (xs ys : List A) → drop (length xs) (xs ++ ys) ≡ ys
  drop-append [] ys = refl
  drop-append (x ∷ xs) ys = drop-append xs ys

  pub take-append_length : (xs ys : List A) → take (length xs) (xs ++ ys) ≡ xs
  take-append_length [] ys = refl
  take-append_length (x ∷ xs) ys = ap (λ l. x ∷ l) (take-append_length xs ys)
