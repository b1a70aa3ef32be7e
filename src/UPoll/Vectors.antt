-- ===== src/UPoll/Vectors.antt =====
-- The vector of src/unix_poll.cc: what stands at an index behind its changes.
use anoii.Prelude.{
  ℕ, zero, suc, ◌+◌, ◌<◌, ◌≡◌, ◌≢◌, ◌⊎◌, inl, inr, refl, ap, some, List, [], ◌∷◌, ◌++◌, arith,
  length,
}
use anoii.UPoll.{get_elem?, set_elem, back, pop_back}

module _ {V : Type 0} where
  pub get_elem?-bound : (xs : List V) (i : ℕ) {v : V} → get_elem? xs i ≡ some v → i < length xs
  get_elem?-bound [] i e = cc e
  get_elem?-bound (x ∷ xs) zero e = omega arith
  get_elem?-bound (x ∷ xs) (suc i) e = omega (arith, get_elem?-bound xs i e)

  pub get_elem?-some : (xs : List V) (i : ℕ) → i < length xs → (v : V) × (get_elem? xs i ≡ some v)
  get_elem?-some [] i h = absurd (omega (arith, h))
  get_elem?-some (x ∷ xs) zero h = (x, refl)
  get_elem?-some (x ∷ xs) (suc i) h = get_elem?-some xs i (omega (arith, h))

  pub get_elem?-end : (xs : List V) (v : V) → get_elem? (xs ++ v ∷ []) (length xs) ≡ some v
  get_elem?-end [] v = refl
  get_elem?-end (x ∷ xs) v = get_elem?-end xs v

  pub get_elem?-before :
      (xs : List V) (v : V) (i : ℕ) → i < length xs → get_elem? (xs ++ v ∷ []) i ≡ get_elem? xs i
  get_elem?-before [] v i h = absurd (omega (arith, h))
  get_elem?-before (x ∷ xs) v zero h = refl
  get_elem?-before (x ∷ xs) v (suc i) h = get_elem?-before xs v i (omega (arith, h))

  pub get_elem?-behind :
      (xs : List V) (v : V) (i : ℕ) {w : V}
      → get_elem? (xs ++ v ∷ []) i ≡ some w
      → (get_elem? xs i ≡ some w) ⊎ (i ≡ length xs)
  get_elem?-behind [] v zero e = inr refl
  get_elem?-behind [] v (suc i) e = cc e
  get_elem?-behind (x ∷ xs) v zero e = inl e
  get_elem?-behind (x ∷ xs) v (suc i) e = elim (get_elem?-behind xs v i e) [
    | inl there ↦ inl there
    | inr same ↦ inr (ap suc same)
  ]

  pub set_elem-here :
      (xs : List V) (i : ℕ) (w : V) → i < length xs → get_elem? (set_elem i w xs) i ≡ some w
  set_elem-here [] i w h = absurd (omega (arith, h))
  set_elem-here (x ∷ xs) zero w h = refl
  set_elem-here (x ∷ xs) (suc i) w h = set_elem-here xs i w (omega (arith, h))

  pub set_elem-other :
      (xs : List V) (i j : ℕ) (w : V) → i ≢ j → get_elem? (set_elem i w xs) j ≡ get_elem? xs j
  set_elem-other [] i j w h = refl
  set_elem-other (x ∷ xs) zero zero w h = absurd (h refl)
  set_elem-other (x ∷ xs) zero (suc j) w h = refl
  set_elem-other (x ∷ xs) (suc i) zero w h = refl
  set_elem-other (x ∷ xs) (suc i) (suc j) w h = set_elem-other xs i j w (λ e. h (ap suc e))

  pub length-set_elem : (xs : List V) (i : ℕ) (w : V) → length (set_elem i w xs) ≡ length xs
  length-set_elem [] i w = refl
  length-set_elem (x ∷ xs) zero w = refl
  length-set_elem (x ∷ xs) (suc i) w = ap suc (length-set_elem xs i w)

  pub pop_back-before :
      (xs : List V) (i : ℕ) → i + 1 < length xs → get_elem? (pop_back xs) i ≡ get_elem? xs i
  pop_back-before [] i h = refl
  pop_back-before (x ∷ []) i h = absurd (omega (arith, h))
  pop_back-before (x ∷ y ∷ xs) zero h = refl
  pop_back-before (x ∷ y ∷ xs) (suc i) h = pop_back-before (y ∷ xs) i (omega (arith, h))

  pub pop_back-some :
      (xs : List V) (i : ℕ) {w : V}
      → get_elem? (pop_back xs) i ≡ some w
      → (i + 1 < length xs) × (get_elem? xs i ≡ some w)
  pop_back-some [] i e = cc e
  pop_back-some (x ∷ []) i e = cc e
  pop_back-some (x ∷ y ∷ xs) zero e = (omega arith, e)
  pop_back-some (x ∷ y ∷ xs) (suc i) e =
      let (h, there) = pop_back-some (y ∷ xs) i e in (omega (arith, h), there)

  pub back-lem :
      (xs : List V) (i : ℕ) {w : V} → i + 1 ≡ length xs → get_elem? xs i ≡ some w → back xs ≡ some w
  back-lem [] i h e = cc e
  back-lem (x ∷ []) zero h e = e
  back-lem (x ∷ []) (suc i) h e = cc e
  back-lem (x ∷ y ∷ xs) zero h e = absurd (omega (arith, h))
  back-lem (x ∷ y ∷ xs) (suc i) h e = back-lem (y ∷ xs) i (omega (arith, h)) e
