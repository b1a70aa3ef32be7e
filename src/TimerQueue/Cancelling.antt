-- ===== src/TimerQueue/Cancelling.antt =====
-- `Cancel` of src/timer_queue.cc, and its invariant.
use anoii.Prelude.{
  pos, negsuc, ℤ, ℕ, zero, suc, ◌<◌, ◌≡◌, inl, inr, refl, sym, ap, ◌∙◌, Bool-cases, Option-cases,
  some, List, arith, ◌==◌, ok,
}
use mathlib.Core.Path.{subst}
use anoii.UPoll.{find, put}
use anoii.UPoll.Maps.{find-put-same, find-put-other}
use anoii.TimerQueue.{TimerQueue, abs_id, cancel, mark, mark_found}
use anoii.TimerQueue.Sound.{present, IsQueue}

-- A timer's identifier changes its sign.
mark-IsQueue :
    {waiting : List (ℕ × ℕ)} (t : ℕ) (z z' : ℤ) (q : TimerQueue)
    → IsQueue waiting q
    → find t q.heap ≡ some z
    → abs_id z' ≡ abs_id z
    → IsQueue waiting (record q { heap = put t z' q.heap })
mark-IsQueue {waiting} t z z' q s there same_id = record {
  sorted = s.sorted;
  balance = λ i. elim (Bool-cases (t == i)) [
    | inl same ↦
        let is : t ≡ i = ground (arith, same) in
        s.balance i
        ∙ ap present (subst (λ j. find j q.heap ≡ some z) is there)
        ∙ sym (ap present (find-put-same i t z' q.heap is))
    | inr other ↦
        s.balance i ∙ sym (ap present (find-put-other i t z' q.heap (ground (arith, other))))
  ];
  named = λ i y e. elim (Bool-cases (t == i)) [
    | inl same ↦
        let is : t ≡ i = ground (arith, same) in
        let marked : z' ≡ y = cc (find-put-same i t z' q.heap is, e) in
        subst (λ x. (find x q.in_use ≡ some i) × (0 < x)) (sym same_id ∙ ap abs_id marked)
          (s.named i z (subst (λ j. find j q.heap ≡ some z) is there))
    | inr other ↦ s.named i y (sym (find-put-other i t z' q.heap (ground (arith, other))) ∙ e)
  ];
  uses = λ id i e.
      let (bound, y, known, named) = s.uses id i e in
      elim (Bool-cases (t == i)) [
        | inl same ↦
            let is : t ≡ i = ground (arith, same) in
            let was : y ≡ z = cc (known, subst (λ j. find j q.heap ≡ some z) is there) in
            (bound, z', find-put-same i t z' q.heap is, same_id ∙ ap abs_id (sym was) ∙ named)
        | inr other ↦
            (bound, y, find-put-other i t z' q.heap (ground (arith, other)) ∙ known, named)
      ];
}

mark_live :
    {waiting : List (ℕ × ℕ)} (t : ℕ) (z : ℤ) (q : TimerQueue)
    → IsQueue waiting q
    → find t q.heap ≡ some z
    → (q' : TimerQueue) × (mark t (some z) q ≡ ok q') × IsQueue waiting q'
unfolding mark
mark_live t (pos zero) q s there = (q, refl, s)
mark_live t (negsuc n) q s there = (q, refl, s)
mark_live t (pos (suc n)) q s there = (
  record q { heap = put t (negsuc n) q.heap },
  refl,
  mark-IsQueue t (pos (suc n)) (negsuc n) q s there refl,
)

pub cancel-IsQueue :
    {waiting : List (ℕ × ℕ)} (id : ℕ) (q : TimerQueue)
    → IsQueue waiting q
    → (q' : TimerQueue) × (cancel id q ≡ ok q') × IsQueue waiting q'
unfolding cancel mark_found mark
cancel-IsQueue id q s = elim (Option-cases (find id q.in_use)) [
  | inl e ↦ (q, rw e refl, s)
  | inr (t, e) ↦
      let (bound, z, there, same_id) = s.uses id t e in
      let (q', marked, sound) = mark_live t z q s there in
      (q', ap (λ o. mark_found o q) e ∙ ap (λ o. mark t o q) there ∙ marked, sound)
]
