-- ===== src/TimerQueue/Expiry.antt =====
-- The order of the timers of src/timer_queue.cc, those that a round takes, and `Cancel`.
use anoii.Prelude.{
  pos, negsuc, ℕ, suc, ◌≤◌, ◌≡◌, inl, inr, refl, ap, Bool-cases, some, List, [], ◌∷◌, ◌++◌, arith,
  ltb, ok,
}
use anoii.UPoll.{find, put}
use anoii.UPoll.Slots.{find-put}
use anoii.TimerQueue.{
  TimerQueue, insert, cancel, mark, mark_found, Callback, call_timer, call_live, take_expired,
  before,
}

-- Nothing in the list is due before the time.
abbrev pub From : ℕ → List (ℕ × ℕ) → Type 0
From when [] = Unit {0}
From when (t ∷ ts) = (when ≤ t.0) × From when ts

-- The order of the set, by time.
abbrev pub Sorted : List (ℕ × ℕ) → Type 0
Sorted [] = Unit {0}
Sorted (t ∷ ts) = From t.0 ts × Sorted ts

From-less : (a b : ℕ) (ts : List (ℕ × ℕ)) → a ≤ b → From b ts → From a ts
From-less a b [] h f = tt
From-less a b (t ∷ ts) h f = (omega (arith, f.0), From-less a b ts h f.1)

From-insert : (a : ℕ) (t : ℕ × ℕ) (ts : List (ℕ × ℕ)) → a ≤ t.0 → From a ts → From a (insert t ts).0
unfolding insert
From-insert a t [] h f = (h, tt)
From-insert a (w, p) ((x, q) ∷ us) h f = elim (Bool-cases (before (w, p) (x, q))) [
  | inl less ↦ rw less (h, f)
  | inr e ↦ elim (Bool-cases (before (x, q) (w, p))) [
    | inl more ↦ rw (e, more) (f.0, From-insert a (w, p) us h f.1)
    | inr same ↦ rw (e, same) f
  ]
]

-- `timers_` stays in the order of time whatever is inserted.
pub Sorted-insert : (t : ℕ × ℕ) (ts : List (ℕ × ℕ)) → Sorted ts → Sorted (insert t ts).0
unfolding insert
Sorted-insert t [] s = (tt, tt)
Sorted-insert (w, p) ((x, q) ∷ us) s = elim (Bool-cases (before (w, p) (x, q))) [
  | inl less ↦ let first : w ≤ x = ground arith in rw less ((first, From-less w x us first s.0), s)
  | inr e ↦ elim (Bool-cases (before (x, q) (w, p))) [
    | inl more ↦
        let first : x ≤ w = ground arith in
        rw (e, more) (From-insert x (w, p) us first s.0, Sorted-insert (w, p) us s.1)
    | inr same ↦ rw (e, same) s
  ]
]

-- Everything in the list is due.
abbrev pub Due : ℕ → List (ℕ × ℕ) → Type 0
Due now [] = Unit {0}
Due now (t ∷ ts) = (t.0 ≤ now) × Due now ts

-- What `DoExpired` takes from the ordered timers: every timer that is due at that time and no other,
-- in order, so that those that stay are all due later.
pub take_expired-Splits :
    (now : ℕ) (ts : List (ℕ × ℕ))
    → Sorted ts
    → ((take_expired now ts).0 ++ (take_expired now ts).1 ≡ ts)
      × Due now (take_expired now ts).0
      × From (suc now) (take_expired now ts).1
unfolding take_expired
take_expired-Splits now [] s = (refl, tt, tt)
take_expired-Splits now ((w, p) ∷ ts) s = elim (Bool-cases (ltb now w)) [
  | inl later ↦ rw later (refl, tt, (ground arith, From-less (suc now) w ts (ground arith) s.0))
  | inr e ↦
      let (a, d, f) = take_expired-Splits now ts s.1 in
      rw e (ap (λ l. (w, p) ∷ l) a, (ground arith, d), f)
]

-- Cancelling a live timer succeeds; from then on its callback is not called when it is due, which
-- counts as a delay of 0, and cancelling it again changes nothing.
cancel_silences :
    (q : TimerQueue) (id timer n : ℕ)
    → find id q.in_use ≡ some timer
    → find timer q.heap ≡ some (pos (suc n))
    → (q' : TimerQueue) × (cancel id q ≡ ok q')
      × ((cb : Callback) (now : ℕ) → call_timer cb timer now q' ≡ ok (q', 0))
      × (cancel id q' ≡ ok q')
unfolding cancel mark_found mark call_timer call_live
cancel_silences q id timer n known live =
    let marked = find-put timer (negsuc n) q.heap in
    (
      record q { heap = put timer (negsuc n) q.heap },
      simp (known, live),
      λ cb now. rw marked refl,
      simp (known, marked),
    )
