-- ===== src/Buffer/Headers.antt =====
-- `Buffer::Prepend` of src/buffer.cc.
use anoii.Prelude.{
  ℕ, zero, suc, ◌-◌, ◌≤◌, ◌<◌, ◌≡◌, refl, ap, inl, inr, Bool-cases, List, [], ◌∷◌, ◌++◌, arith, leb,
  ◌≢◌, ◌==◌, length, take, slice, overwrite, length-overwrite, Result, ok, err, assertion,
  out_of_bounds,
}
use anoii.Buffer.{Buffer, contents, copy_before, prepend}
use anoii.Buffer.Inv.{IsValid}

take-overwrite_long :
    (m : ℕ) (xs l : List ℕ)
    → length xs ≤ m
    → m ≤ length l
    → take m (overwrite xs l) ≡ xs ++ slice (length xs) (m - length xs) l
take-overwrite_long m [] l h k = let e : m - 0 ≡ m = omega arith in rw e
take-overwrite_long zero (x ∷ xs) l h k = absurd (omega arith)
take-overwrite_long (suc m) (x ∷ xs) [] h k = absurd (omega arith)
take-overwrite_long (suc m) (x ∷ xs) (y ∷ l) h k =
    let e : suc m - suc (length xs) ≡ m - length xs = omega arith in
    rw e (ap (λ r. x ∷ r) (take-overwrite_long m xs l (omega arith) (omega arith)))

-- How `Prepend` ends, by the room before the readable bytes.
pub data Prepends (bytes : List ℕ) (b : Buffer) (r : Result Buffer) : Type 0 where
  too_long : b.head < length bytes → r ≡ err assertion → Prepends bytes b r
  nothing : bytes ≡ [] → r ≡ ok b → Prepends bytes b r
  filled :
      (b' : Buffer)
      → length bytes ≡ b.head
      → r ≡ ok b'
      → IsValid b'
      → contents b' ≡ bytes ++ contents b
      → Prepends bytes b r
  misplaced : bytes ≢ [] → length bytes < b.head → r ≡ err out_of_bounds → Prepends bytes b r

misplaced_lem :
    (head : ℕ) (x : ℕ) (bytes cells : List ℕ)
    → 0 < head
    → copy_before head (x ∷ bytes) cells ≡ err out_of_bounds
unfolding copy_before
misplaced_lem zero x bytes cells h = absurd (omega arith)
misplaced_lem (suc head) x bytes cells h = refl

abbrev filled_buffer : List ℕ → Buffer → Buffer
filled_buffer bytes b = record b { head = 0; cells = overwrite bytes b.cells }

filled-IsValid : {b : Buffer} (bytes : List ℕ) → IsValid b → IsValid (filled_buffer bytes b)
filled-IsValid {b} bytes v = record {
  ordered = omega arith;
  in_cells = omega (arith, length-overwrite bytes b.cells);
  reserved = omega (arith, length-overwrite bytes b.cells);
}

contents-filled :
    {b : Buffer} (bytes : List ℕ)
    → IsValid b
    → length bytes ≡ b.head
    → contents (filled_buffer bytes b) ≡ bytes ++ contents b
contents-filled {b} bytes v e =
    let e' : b.tail - 0 ≡ b.tail = omega arith in
    rw (e', ← e) (take-overwrite_long b.tail bytes b.cells (omega arith) (omega arith))

-- `Prepend` on a valid buffer: bytes that are more than the room before the readable bytes fail
-- its assertion; no bytes change nothing; bytes that fill the room exactly are put before the
-- readable ones; and any others are copied to a place before the vector.
prepend-Prepends : {b : Buffer} (bytes : List ℕ) → IsValid b → Prepends bytes b (prepend bytes b)
unfolding prepend copy_before
prepend-Prepends {b} [] v =
    nothing refl (let e : b.head - 0 ≡ b.head = omega arith in ground (arith, e))
prepend-Prepends {b} (x ∷ bytes) v = elim (Bool-cases (leb (length (x ∷ bytes)) b.head)) [
  | inr long ↦ too_long (ground arith) (rw (long, prepend))
  | inl fits ↦ elim (Bool-cases (length (x ∷ bytes) == b.head)) [
    | inl exact ↦
        let e : b.head - length (x ∷ bytes) ≡ 0 = ground arith in
        filled (filled_buffer (x ∷ bytes) b) (ground arith) (rw (fits, prepend, e) (ground arith))
          (filled-IsValid (x ∷ bytes) v) (contents-filled (x ∷ bytes) v (ground arith))
    | inr less ↦
        misplaced (λ e. cc) (ground arith)
          (rw (
            fits,
            prepend,
            misplaced_lem (b.head - length (x ∷ bytes)) x bytes b.cells (ground arith),
          ))
  ]
]
