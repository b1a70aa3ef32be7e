-- ===== src/TimerQueue/Firing.antt =====
-- A round of the timers of src/timer_queue.cc, and its invariant.
use anoii.Prelude.{
  pos, negsuc, ℤ, ℕ, zero, suc, ◌+◌, ◌≤◌, ◌<◌, ◌≡◌, ◌≢◌, inl, inr, refl, sym, ap, ◌∙◌, Bool-cases,
  none, some, List, [], ◌∷◌, arith, ltb, ◌==◌, ok, ◌>>=◌,
}
use mathlib.Core.Path.{subst}
use anoii.UPoll.{find, erase}
use anoii.UPoll.Maps.{find-erase, find-erase-other}
use anoii.TimerQueue.{
  TimerQueue, insert, abs_id, take_expired, Callback, call_live, call_timer, settle_timer,
  drop_timer, fire_all, do_expired,
}
use anoii.TimerQueue.Expiry.{Sorted, Sorted-insert}
use anoii.TimerQueue.Sound.{
  count, present, IsQueue, count-insert, count-take_expired, waiting-present,
}
use anoii.TimerQueue.Adding.{add_timer-IsQueue}
use anoii.TimerQueue.Cancelling.{cancel-IsQueue}
use anoii.TimerQueue.Steps.{TimerAct, adds, cancels, do_act, perform, callback}

module _ {w t : ℕ} {ts : List (ℕ × ℕ)} (q : TimerQueue) (z : ℤ) (s : IsQueue ((w, t) ∷ ts) q)
    (there : find t q.heap ≡ some z) where
  abbrev freed : TimerQueue
  freed = record q { in_use = erase (abs_id z) q.in_use; heap = erase t q.heap }

  freed-balance : (i : ℕ) → count i freed.timers + count i ts ≡ present (find i freed.heap)
  freed-balance i = elim (Bool-cases (t == i)) [
    | inl same ↦
        let is : t ≡ i = ground (arith, same) in
        let (live, a, b) = waiting-present s in
        subst (λ j. count j q.timers + count j ts ≡ present (find j (erase t q.heap))) is
          (omega (arith, a, b) ∙ sym (ap present (find-erase t q.heap)))
    | inr other ↦
        let gone : count i ((w, t) ∷ ts) ≡ count i ts = ground (arith, other) in
        ap (λ c. count i q.timers + c) (sym gone)
        ∙ s.balance i
        ∙ sym (ap present (find-erase-other i t q.heap (ground (arith, other))))
  ]

  freed-named :
      (i : ℕ) (y : ℤ)
      → find i freed.heap ≡ some y
      → (find (abs_id y) freed.in_use ≡ some i) × (0 < abs_id y)
  freed-named i y e = elim (Bool-cases (t == i)) [
    | inl same ↦
        let is : t ≡ i = ground (arith, same) in
        absurd (cc (subst (λ j. find j (erase t q.heap) ≡ none) is (find-erase t q.heap), e))
    | inr other ↦
        let differ : t ≢ i = ground (arith, other) in
        let (known, positive) = s.named i y (sym (find-erase-other i t q.heap differ) ∙ e) in
        let (mine, more) = s.named t z there in
        let apart : abs_id z ≢ abs_id y = λ is. differ (cc (mine, is, known)) in
        (find-erase-other (abs_id y) (abs_id z) q.in_use apart ∙ known, positive)
  ]

  freed-uses :
      (id i : ℕ)
      → find id freed.in_use ≡ some i
      → (id ≤ q.next_timer_id) × (y : ℤ) × (find i freed.heap ≡ some y) × (abs_id y ≡ id)
  freed-uses id i e = elim (Bool-cases (abs_id z == id)) [
    | inl same ↦
        let is : abs_id z ≡ id = ground (arith, same) in
        absurd (cc (subst (λ k. find k freed.in_use ≡ none) is (find-erase (abs_id z) q.in_use), e))
    | inr other ↦
        let differ : abs_id z ≢ id = ground (arith, other) in
        let (bound, y, known, named) =
          s.uses id i (sym (find-erase-other id (abs_id z) q.in_use differ) ∙ e) in
        let apart : t ≢ i =
          λ is. let old : z ≡ y = cc (there, is, known) in differ (ap abs_id old ∙ named) in
        (bound, y, find-erase-other i t q.heap apart ∙ known, named)
  ]

settle_timer-freed :
    (w t : ℕ) (q : TimerQueue) (z : ℤ)
    → find t q.heap ≡ some z
    → settle_timer w t 0 q
      ≡ ok (record q { in_use = erase (abs_id z) q.in_use; heap = erase t q.heap })
unfolding settle_timer
settle_timer-freed w t q z e = ap (λ o. drop_timer t o q) e

settle_timer-IsQueue :
    {w t : ℕ} {ts : List (ℕ × ℕ)} (delay : ℕ) (q : TimerQueue)
    → IsQueue ((w, t) ∷ ts) q
    → (q' : TimerQueue) × (settle_timer w t delay q ≡ ok q') × IsQueue ts q'
unfolding settle_timer
settle_timer-IsQueue {w} {t} {ts} zero q s =
    let ((z, there), a, b) = waiting-present s in
    (
      freed q z s there,
      settle_timer-freed w t q z there,
      record {
        sorted = s.sorted;
        balance = freed-balance q z s there;
        named = freed-named q z s there;
        uses = freed-uses q z s there;
      },
    )
settle_timer-IsQueue {w} {t} {ts} (suc delay) q s =
    let (live, a, b) = waiting-present s in
    (
      record q { timers = (insert (w + suc delay, t) q.timers).0 },
      refl,
      record {
        sorted = Sorted-insert (w + suc delay, t) q.timers s.sorted;
        balance = λ i.
            let inserted = count-insert i (w + suc delay) t q.timers a in
            let before : count i q.timers + count i ((w, t) ∷ ts) ≡ present (find i q.heap) =
              s.balance i in
            ap (λ c. c + count i ts) inserted ∙ ground (arith, before);
        named = s.named;
        uses = s.uses;
      },
    )

Sorted-take_expired : (now : ℕ) (ts : List (ℕ × ℕ)) → Sorted ts → Sorted (take_expired now ts).1
unfolding take_expired
Sorted-take_expired now [] s = tt
Sorted-take_expired now ((w, p) ∷ ts) s = elim (Bool-cases (ltb now w)) [
  | inl later ↦ rw later s
  | inr e ↦ rw e (Sorted-take_expired now ts s.1)
]

module _ (alloc : List (ℕ × ℤ) → ℕ)
    (fresh : (heap : List (ℕ × ℤ)) → find (alloc heap) heap ≡ none) where
  pub do_act-IsQueue :
      {waiting : List (ℕ × ℕ)} (a : TimerAct) (q : TimerQueue)
      → IsQueue waiting q
      → (q' : TimerQueue) × (do_act alloc a q ≡ ok q') × IsQueue waiting q'
  unfolding do_act
  do_act-IsQueue (adds when) q s =
      let (q', added, sound) = add_timer-IsQueue when (alloc q.heap) q s (fresh q.heap) in
      (q', ap (λ r. r >>= λ p. ok p.0) added, sound)
  do_act-IsQueue (cancels id) q s = cancel-IsQueue id q s

  perform-IsQueue :
      {waiting : List (ℕ × ℕ)} (acts : List TimerAct) (q : TimerQueue)
      → IsQueue waiting q
      → (q' : TimerQueue) × (perform alloc acts q ≡ ok q') × IsQueue waiting q'
  unfolding perform
  perform-IsQueue [] q s = (q, refl, s)
  perform-IsQueue (a ∷ acts) q s =
      let (q', done, sound) = do_act-IsQueue a q s in
      let (q'', rest, sound') = perform-IsQueue acts q' sound in
      (q'', ap (λ r. r >>= perform alloc acts) done ∙ rest, sound')

  module _ (script : ℕ → ℕ → TimerQueue → List TimerAct) (delay : ℕ → ℕ → TimerQueue → ℕ) where
    abbrev cb : Callback
    cb = callback alloc script delay

    call_live-IsQueue :
        {waiting : List (ℕ × ℕ)} (t now : ℕ) (z : ℤ) (q : TimerQueue)
        → IsQueue waiting q
        → (r : TimerQueue × ℕ) × (call_live cb t now (some z) q ≡ ok r) × IsQueue waiting r.0
    unfolding call_live
    call_live-IsQueue t now (pos zero) q s = ((q, 0), refl, s)
    call_live-IsQueue t now (negsuc n) q s = ((q, 0), refl, s)
    call_live-IsQueue t now (pos (suc n)) q s =
        let (q', done, sound) = perform-IsQueue (script t now q) q s in
        ((q', delay t now q), ap (λ r. r >>= λ p. ok (p, delay t now q)) done, sound)

    fire_all-IsQueue :
        (now : ℕ) (ts : List (ℕ × ℕ)) (q : TimerQueue)
        → IsQueue ts q
        → (q' : TimerQueue) × (fire_all cb now ts q ≡ ok q') × IsQueue [] q'
    unfolding fire_all call_timer
    fire_all-IsQueue now [] q s = (q, refl, s)
    fire_all-IsQueue now ((w, t) ∷ ts) q s =
        let ((z, there), a, b) = waiting-present s in
        let (r, called, sound) = call_live-IsQueue t now z q s in
        let (q', settled, sound') = settle_timer-IsQueue r.1 r.0 sound in
        let (q'', rest, sound'') = fire_all-IsQueue now ts q' sound' in
        (
          q'',
          ap (λ o. call_live cb t now o q >>= λ p. settle_timer w t p.1 p.0 >>= fire_all cb now ts)
                there
              ∙ ap (λ x. x >>= λ p. settle_timer w t p.1 p.0 >>= fire_all cb now ts) called
              ∙ ap (λ x. x >>= fire_all cb now ts) settled
              ∙ rest,
          sound'',
        )

    pub do_expired-IsQueue :
        (now : ℕ) (q : TimerQueue)
        → IsQueue [] q
        → (q' : TimerQueue) × (do_expired cb now q ≡ ok q') × IsQueue [] q'
    unfolding do_expired
    do_expired-IsQueue now q s =
        fire_all-IsQueue now (take_expired now q.timers).0
          (record q { timers = (take_expired now q.timers).1 })
          (record {
            sorted = Sorted-take_expired now q.timers s.sorted;
            balance = λ i. count-take_expired i now q.timers ∙ ground (arith, s.balance i);
            named = s.named;
            uses = s.uses;
          })
