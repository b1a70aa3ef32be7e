-- ===== src/TimerQueue/Sound.antt =====
-- The invariant of the timers of src/timer_queue.cc, between its operations and amid a round.
use anoii.Prelude.{
  ℤ, ℕ, ◌+◌, ◌≤◌, ◌<◌, ◌≡◌, inl, inr, refl, ap, ◌∙◌, true, false, Bool-cases, Option-cases, Option,
  none, some, List, [], ◌∷◌, arith, ltb, ◌==◌, if◌then◌else◌,
}
use anoii.UPoll.{find}
use anoii.TimerQueue.{TimerQueue, insert, before, abs_id, take_expired}
use anoii.TimerQueue.Expiry.{Sorted}

-- How often a timer stands in a list.
abbrev pub count : ℕ → List (ℕ × ℕ) → ℕ
count t [] = 0
count t ((when, p) ∷ ts) = (if p == t then 1 else 0) + count t ts

abbrev pub present : Option ℤ → ℕ
present none = 0
present (some id) = 1

-- The timers in `waiting` were taken for this round and not called yet. Every timer that is allocated
-- stands once in `timers_` or in `waiting`, and no other does; its identifier, negated or not, is in
-- use for it; and an identifier in use is that of an allocated timer, given out before.
pub record IsQueue (waiting : List (ℕ × ℕ)) (q : TimerQueue) : Type 0 where
  pub sorted : Sorted q.timers
  pub balance : (t : ℕ) → count t q.timers + count t waiting ≡ present (find t q.heap)
  pub named :
      (t : ℕ) (z : ℤ)
      → find t q.heap ≡ some z
      → (find (abs_id z) q.in_use ≡ some t) × (0 < abs_id z)
  pub uses :
      (id t : ℕ)
      → find id q.in_use ≡ some t
      → (id ≤ q.next_timer_id) × (z : ℤ) × (find t q.heap ≡ some z) × (abs_id z ≡ id)

-- A timer that is not there is before or behind any other.
apart :
    (when timer x p : ℕ) (us : List (ℕ × ℕ))
    → count timer ((x, p) ∷ us) ≡ 0
    → before (when, timer) (x, p) ≡ false
    → before (x, p) (when, timer) ≡ false
    → ⊥
apart when timer x p us h e same = elim (Bool-cases (p == timer)) [
  | inl is ↦ ground (arith, is)
  | inr other ↦ ground (arith, other)
]

pub count-insert :
    (t when timer : ℕ) (us : List (ℕ × ℕ))
    → count timer us ≡ 0
    → count t (insert (when, timer) us).0 ≡ count t ((when, timer) ∷ us)
unfolding insert
count-insert t when timer [] h = refl
count-insert t when timer ((x, p) ∷ us) h = elim (Bool-cases (before (when, timer) (x, p))) [
  | inl less ↦ rw less refl
  | inr e ↦ elim (Bool-cases (before (x, p) (when, timer))) [
    | inl more ↦
        let rest : count t (insert (when, timer) us).0 ≡ count t ((when, timer) ∷ us) =
          count-insert t when timer us (omega (arith, h)) in
        rw (e, more) (omega (arith, rest))
    | inr same ↦ absurd (apart when timer x p us h e same)
  ]
]

pub insert-fresh :
    (when timer : ℕ) (us : List (ℕ × ℕ)) → count timer us ≡ 0 → (insert (when, timer) us).1 ≡ true
unfolding insert
insert-fresh when timer [] h = refl
insert-fresh when timer ((x, p) ∷ us) h = elim (Bool-cases (before (when, timer) (x, p))) [
  | inl less ↦ rw less refl
  | inr e ↦ elim (Bool-cases (before (x, p) (when, timer))) [
    | inl more ↦ rw (e, more) (insert-fresh when timer us (omega (arith, h)))
    | inr same ↦ absurd (apart when timer x p us h e same)
  ]
]

pub count-take_expired :
    (t now : ℕ) (ts : List (ℕ × ℕ))
    → count t (take_expired now ts).1 + count t (take_expired now ts).0 ≡ count t ts
unfolding take_expired
count-take_expired t now [] = refl
count-take_expired t now ((w, p) ∷ ts) = elim (Bool-cases (ltb now w)) [
  | inl later ↦ rw later (omega arith)
  | inr e ↦ rw e (omega (arith, count-take_expired t now ts))
]

-- A timer that is not allocated stands nowhere.
pub count-absent :
    {waiting : List (ℕ × ℕ)} {q : TimerQueue} (s : IsQueue waiting q) (t : ℕ)
    → find t q.heap ≡ none
    → (count t q.timers ≡ 0) × (count t waiting ≡ 0)
count-absent s t e =
    let b : _ ≡ 0 = s.balance t ∙ ap present e in (omega (arith, b), omega (arith, b))

-- One that waits to be called is allocated, and stands nowhere else.
pub waiting-present :
    {w t : ℕ} {ts : List (ℕ × ℕ)} {q : TimerQueue} (s : IsQueue ((w, t) ∷ ts) q)
    → ((z : ℤ) × (find t q.heap ≡ some z)) × (count t q.timers ≡ 0) × (count t ts ≡ 0)
waiting-present {w} {t} {ts} {q} s =
    let balance = s.balance t in
    let here : (t == t) ≡ true = ground arith in
    elim (Option-cases (find t q.heap)) [
      | inl e ↦
          let gone : count t q.timers + count t ((w, t) ∷ ts) ≡ 0 = balance ∙ ap present e in
          absurd (ground (arith, here, gone))
      | inr (z, e) ↦
          let one : count t q.timers + count t ((w, t) ∷ ts) ≡ 1 = balance ∙ ap present e in
          ((z, e), ground (arith, here, one), ground (arith, here, one))
    ]
