-- ===== src/TimerQueue/Adding.antt =====
-- `AddTimer` of src/timer_queue.cc on the loop's thread, and its invariant.
use anoii.Prelude.{
  pos, ℤ, ℕ, suc, ◌+◌, ◌≤◌, ◌<◌, ◌≡◌, ◌≢◌, inl, inr, refl, sym, ap, ◌∙◌, true, Bool-cases,
  Option-cases, none, some, List, arith, ltb, ◌==◌, ok,
}
use mathlib.Core.Path.{subst}
use anoii.UPoll.{find, put}
use anoii.UPoll.Maps.{find-put-same, find-put-other}
use anoii.TimerQueue.{TimerQueue, insert, abs_id, add_timer, add_timer_in_loop}
use anoii.TimerQueue.Expiry.{Sorted-insert}
use anoii.TimerQueue.Sound.{count, present, IsQueue, count-insert, insert-fresh, count-absent}

-- The next identifier is not in use.
fresh_id :
    {waiting : List (ℕ × ℕ)} {q : TimerQueue} (s : IsQueue waiting q)
    → find (suc q.next_timer_id) q.in_use ≡ none
fresh_id {waiting} {q} s = elim (Option-cases (find (suc q.next_timer_id) q.in_use)) [
  | inl e ↦ e
  | inr (t, e) ↦
      let (bound, z, there, same) = s.uses (suc q.next_timer_id) t e in
      absurd (omega (arith, bound))
]

module _ {waiting : List (ℕ × ℕ)} (when timer : ℕ) (q : TimerQueue) (s : IsQueue waiting q)
    (fresh : find timer q.heap ≡ none) where
  abbrev id : ℕ
  id = suc q.next_timer_id

  abbrev added : TimerQueue
  added = record {
    timers = (insert (when, timer) q.timers).0;
    in_use = put id timer q.in_use;
    heap = put timer (pos id) q.heap;
    next_timer_id = id;
  }

  nowhere : (count timer q.timers ≡ 0) × (count timer waiting ≡ 0)
  nowhere = count-absent s timer fresh

  added-balance : (t : ℕ) → count t added.timers + count t waiting ≡ present (find t added.heap)
  added-balance t =
      let inserted = count-insert t when timer q.timers nowhere.0 in
      elim (Bool-cases (timer == t)) [
        | inl same ↦
            let is : timer ≡ t = ground (arith, same) in
            let (a, b) = count-absent s t (subst (λ i. find i q.heap ≡ none) is fresh) in
            let found : present (find t added.heap) ≡ 1 =
              ap present (find-put-same t timer (pos id) q.heap is) in
            ground (arith, inserted, a, b, found, same)
        | inr other ↦
            let same_heap : present (find t added.heap) ≡ present (find t q.heap) =
              ap present (find-put-other t timer (pos id) q.heap (ground (arith, other))) in
            ground (arith, inserted, s.balance t, same_heap, other)
      ]

  added-named :
      (t : ℕ) (z : ℤ)
      → find t added.heap ≡ some z
      → (find (abs_id z) added.in_use ≡ some t) × (0 < abs_id z)
  added-named t z e = elim (Bool-cases (timer == t)) [
    | inl same ↦
        let is : timer ≡ t = ground (arith, same) in
        let made : pos id ≡ z = cc (find-put-same t timer (pos id) q.heap is, e) in
        subst (λ y. (find (abs_id y) added.in_use ≡ some t) × (0 < abs_id y)) made
          (find-put-same id id timer q.in_use refl ∙ ap some is, omega arith)
    | inr other ↦
        let old = sym (find-put-other t timer (pos id) q.heap (ground (arith, other))) ∙ e in
        let (known, positive) = s.named t z old in
        let (bound, y, there, same_id) = s.uses (abs_id z) t known in
        (find-put-other (abs_id z) id timer q.in_use (omega (arith, bound)) ∙ known, positive)
  ]

  added-uses :
      (i t : ℕ)
      → find i added.in_use ≡ some t
      → (i ≤ id) × (z : ℤ) × (find t added.heap ≡ some z) × (abs_id z ≡ i)
  added-uses i t e = elim (Bool-cases (id == i)) [
    | inl same ↦
        let is : id ≡ i = ground (arith, same) in
        let made : timer ≡ t = cc (find-put-same i id timer q.in_use is, e) in
        (omega (arith, is), pos id, find-put-same t timer (pos id) q.heap made, is)
    | inr other ↦
        let old = sym (find-put-other i id timer q.in_use (ground (arith, other))) ∙ e in
        let (bound, z, there, named) = s.uses i t old in
        let apart : timer ≢ t = λ is. cc (subst (λ j. find j q.heap ≡ none) is fresh, there) in
        (omega (arith, bound), z, find-put-other t timer (pos id) q.heap apart ∙ there, named)
  ]

  -- `AddTimer`, with an address that is not allocated.
  pub add_timer-IsQueue :
      (q' : TimerQueue) × (add_timer when timer q ≡ ok (q', id)) × IsQueue waiting q'
  unfolding add_timer add_timer_in_loop
  add_timer-IsQueue =
      let free = fresh_id s in
      let inserted = insert-fresh when timer q.timers nowhere.0 in
      (
        added,
        let positive : ltb 0 (suc q.next_timer_id) ≡ true = ground arith in
            simp (free, inserted, positive),
        record {
          sorted = Sorted-insert (when, timer) q.timers s.sorted;
          balance = added-balance;
          named = added-named;
          uses = added-uses;
        },
      )
