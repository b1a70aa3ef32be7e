-- ===== src/UPoll/Maps.antt =====
-- The maps of src/unix_poll.cc and src/timer_queue.cc: what a key has behind an insertion or an
-- erasure.
use anoii.Prelude.{
  ℕ, ◌≡◌, ◌≢◌, inl, inr, refl, false, Bool-cases, none, some, List, [], ◌∷◌, arith, ◌==◌,
}
use mathlib.Core.Path.{subst}
use anoii.UPoll.{find, put, erase}
use anoii.UPoll.Slots.{find-put}

module _ {V : Type 0} where
  pub find-put-other : (k j : ℕ) (v : V) (m : List (ℕ × V)) → j ≢ k → find k (put j v m) ≡ find k m
  find-put-other k j v [] h = let no : (j == k) ≡ false = ground arith in simp no
  find-put-other k j v ((i, w) ∷ m) h = elim (Bool-cases (i == j)) [
    | inl same ↦
        let a : (j == k) ≡ false = ground arith in
        let b : (i == k) ≡ false = ground (arith, same) in simp (same, a, b)
    | inr other ↦ elim (Bool-cases (i == k)) [
      | inl found ↦ simp (other, found)
      | inr missed ↦ simp (other, missed, find-put-other k j v m h)
    ]
  ]

  pub find-erase : (k : ℕ) (m : List (ℕ × V)) → find k (erase k m) ≡ none
  find-erase k [] = refl
  find-erase k ((j, w) ∷ m) = elim (Bool-cases (j == k)) [
    | inl same ↦ simp (same, find-erase k m)
    | inr other ↦ simp (other, find-erase k m)
  ]

  pub find-erase-other : (k j : ℕ) (m : List (ℕ × V)) → j ≢ k → find k (erase j m) ≡ find k m
  find-erase-other k j [] h = refl
  find-erase-other k j ((i, w) ∷ m) h = elim (Bool-cases (i == j)) [
    | inl same ↦
        let no : (i == k) ≡ false = ground (arith, same) in
        simp (same, no, find-erase-other k j m h)
    | inr other ↦ elim (Bool-cases (i == k)) [
      | inl found ↦ simp (other, found)
      | inr missed ↦ simp (other, missed, find-erase-other k j m h)
    ]
  ]

  pub find-put-same : (k j : ℕ) (v : V) (m : List (ℕ × V)) → j ≡ k → find k (put j v m) ≡ some v
  find-put-same k j v m e = subst (λ i. find i (put j v m) ≡ some v) e (find-put j v m)
