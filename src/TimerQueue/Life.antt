-- ===== src/TimerQueue/Life.antt =====
-- The whole life of the timers of src/timer_queue.cc.
use anoii.Prelude.{
  ℤ, ℕ, ◌≡◌, inl, inr, refl, ap, ◌∙◌, true, Bool-cases, Option-cases, none, some, List, [], ◌∷◌,
  arith, ◌==◌, ok, ◌>>=◌,
}
use mathlib.Core.Path.{subst}
use anoii.UPoll.{find, erase}
use anoii.UPoll.Maps.{find-erase, find-erase-other}
use anoii.TimerQueue.{TimerQueue, no_timers, destruct_timers, free_timer}
use anoii.TimerQueue.Sound.{count, present, IsQueue}
use anoii.TimerQueue.Firing.{do_act-IsQueue, do_expired-IsQueue}
use anoii.TimerQueue.Steps.{TimerAct, Step, does, passes, take_step, steps}

no_timers-IsQueue : IsQueue [] no_timers
no_timers-IsQueue = record {
  sorted = tt;
  balance = λ t. refl;
  named = λ t z e. cc e;
  uses = λ id t e. cc e;
}

-- Each timer stands once in the list if it is allocated, and not at all if it is not.
abbrev Balanced : List (ℕ × ℕ) → List (ℕ × ℤ) → Type 0
Balanced ts heap = (t : ℕ) → count t ts ≡ present (find t heap)

Balanced-erase :
    (w t : ℕ) (ts : List (ℕ × ℕ)) (heap : List (ℕ × ℤ)) {z : ℤ}
    → Balanced ((w, t) ∷ ts) heap
    → find t heap ≡ some z
    → Balanced ts (erase t heap)
Balanced-erase w t ts heap {z} b there i = elim (Bool-cases (t == i)) [
  | inl same ↦
      let is : t ≡ i = ground (arith, same) in
      let one : count i ((w, t) ∷ ts) ≡ 1 =
        b i ∙ ap present (subst (λ j. find j heap ≡ some z) is there) in
      let gone : present (find i (erase t heap)) ≡ 0 =
        ap present (subst (λ j. find j (erase t heap) ≡ none) is (find-erase t heap)) in
      ground (arith, one, gone, same)
  | inr other ↦
      let stays : present (find i (erase t heap)) ≡ present (find i heap) =
        ap present (find-erase-other i t heap (ground (arith, other))) in
      ground (arith, b i, stays, other)
]

Balanced-found :
    (w t : ℕ) (ts : List (ℕ × ℕ)) (heap : List (ℕ × ℤ))
    → Balanced ((w, t) ∷ ts) heap
    → (z : ℤ) × (find t heap ≡ some z)
Balanced-found w t ts heap b = elim (Option-cases (find t heap)) [
  | inr found ↦ found
  | inl e ↦
      let none_of : count t ((w, t) ∷ ts) ≡ 0 = b t ∙ ap present e in
      let here : (t == t) ≡ true = ground arith in absurd (ground (arith, none_of, here))
]

destruct_timers-Balanced :
    (ts : List (ℕ × ℕ)) (heap : List (ℕ × ℤ))
    → Balanced ts heap
    → (rest : List (ℕ × ℤ)) × (destruct_timers ts heap ≡ ok rest) × ((t : ℕ) → find t rest ≡ none)
unfolding destruct_timers
destruct_timers-Balanced [] heap b = (
  heap,
  refl,
  λ t. elim (Option-cases (find t heap)) [
    | inl e ↦ e
    | inr (z, e) ↦ absurd (omega (arith, b t ∙ ap present e))
  ],
)
destruct_timers-Balanced ((w, t) ∷ ts) heap b =
    let (z, there) = Balanced-found w t ts heap b in
    let (rest, done, gone) =
      destruct_timers-Balanced ts (erase t heap) (Balanced-erase w t ts heap b there) in
    (rest, ap (λ o. free_timer t o heap >>= destruct_timers ts) there ∙ done, gone)

module _ (alloc : List (ℕ × ℤ) → ℕ) (fresh : (heap : List (ℕ × ℤ)) → find (alloc heap) heap ≡ none)
    (script : ℕ → ℕ → TimerQueue → List TimerAct) (delay : ℕ → ℕ → TimerQueue → ℕ) where
  take_step-IsQueue :
      (s : Step) (q : TimerQueue)
      → IsQueue [] q
      → (q' : TimerQueue) × (take_step alloc script delay s q ≡ ok q') × IsQueue [] q'
  unfolding take_step
  take_step-IsQueue (does a) q h = do_act-IsQueue alloc fresh a q h
  take_step-IsQueue (passes now) q h = do_expired-IsQueue alloc fresh script delay now q h

  steps-IsQueue :
      (ss : List Step) (q : TimerQueue)
      → IsQueue [] q
      → (q' : TimerQueue) × (steps alloc script delay ss q ≡ ok q') × IsQueue [] q'
  unfolding steps
  steps-IsQueue [] q h = (q, refl, h)
  steps-IsQueue (s ∷ ss) q h =
      let (q', done, sound) = take_step-IsQueue s q h in
      let (q'', rest, sound') = steps-IsQueue ss q' sound in
      (q'', ap (λ r. r >>= steps alloc script delay ss) done ∙ rest, sound')

  -- Whatever timers are added and cancelled, by anyone on the loop's thread and by the callbacks of
  -- timers, their own included, whatever delays the callbacks answer, and whenever rounds come, no
  -- assertion fails and no timer is used after it was freed; every allocated timer stands once in the
  -- set, in the order of time; and the destructor frees each timer once and leaves none. What `new`
  -- answers is no timer that is allocated.
  pub steps-Lives :
      (ss : List Step)
      → (q : TimerQueue) × (steps alloc script delay ss no_timers ≡ ok q)
        × IsQueue [] q
        × (rest : List (ℕ × ℤ)) × (destruct_timers q.timers q.heap ≡ ok rest)
        × ((t : ℕ) → find t rest ≡ none)
  steps-Lives ss =
      let (q, ran, sound) = steps-IsQueue ss no_timers no_timers-IsQueue in
      let (rest, freed, gone) =
        destruct_timers-Balanced q.timers q.heap (λ t. omega (arith, sound.balance t)) in
      (q, ran, sound, rest, freed, gone)
