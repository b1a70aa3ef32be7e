-- ===== src/TimerQueue/Tests.antt =====
-- Timers at concrete times, and the theorems at them.
use anoii.Prelude.{
  suc, ◌≤◌, ◌+◌, ◌==◌, ℤ, false, none, List, pos, ℕ, ◌≡◌, refl, [], ◌∷◌, ◌++◌, arith, ok, ◌>>=◌,
}
use anoii.TimerQueue.{
  TimerQueue, no_timers, insert, add_timer, cancel, Callback, call_timer, take_expired, do_expired,
  sleep_time,
}
use anoii.UPoll.{find}
use anoii.TimerQueue.{destruct_timers}
use anoii.TimerQueue.Sound.{IsQueue}
use anoii.TimerQueue.Steps.{TimerAct, adds, cancels, does, passes, steps}
use anoii.TimerQueue.Life.{steps-Lives}
use anoii.TimerQueue.Expiry.{From, Due, Sorted, take_expired-Splits}

-- Two timers: at the address 70, due at 50, and at the address 80, due at 20.
abbrev two : TimerQueue
two = record {
  timers = (20, 80) ∷ (50, 70) ∷ [];
  in_use = (1, 70) ∷ (2, 80) ∷ [];
  heap = (70, pos 1) ∷ (80, pos 2) ∷ [];
  next_timer_id = 2;
}

two_test : (do r ← add_timer 50 70 no_timers; add_timer 20 80 r.0) ≡ ok (two, 2)
unfolding add_timer insert
two_test = refl

-- Every timer wants to run again after 10 milliseconds.
abbrev again : Callback
again timer now q = ok (q, 10)

expired_test :
    (do_expired again 30 two ≡ ok (record two { timers = (30, 80) ∷ (50, 70) ∷ [] }))
    × ((do q ← cancel 2 two; do_expired again 30 q)
        ≡ ok
            (record two { timers = (50, 70) ∷ []; in_use = (1, 70) ∷ []; heap = (70, pos 1) ∷ [] }))
    × (sleep_time 5 two.timers ≡ pos 15)
unfolding do_expired take_expired call_timer cancel insert sleep_time
expired_test = (refl, refl, refl)

two-Sorted : Sorted two.timers
two-Sorted = ((omega arith, tt), (tt, tt))

take_expired-Splits_example :
    ((take_expired 30 two.timers).0 ++ (take_expired 30 two.timers).1 ≡ two.timers)
    × Due 30 (take_expired 30 two.timers).0
    × From 31 (take_expired 30 two.timers).1
take_expired-Splits_example = take_expired-Splits 30 two.timers two-Sorted

-- `new` answers an address behind all others.
abbrev above : List (ℕ × ℤ) → ℕ
above [] = 0
above ((t, z) ∷ heap) = suc (t + above heap)

absent-above : (heap : List (ℕ × ℤ)) (t : ℕ) → above heap ≤ t → find t heap ≡ none
absent-above [] t h = refl
absent-above ((i, z) ∷ heap) t h =
    let other : (i == t) ≡ false = ground arith in
    simp other (absent-above heap t (omega (arith, h)))

-- A timer cancels itself and adds another, and wants to run again.
abbrev script : ℕ → ℕ → TimerQueue → List TimerAct
script timer now q = cancels 1 ∷ adds (now + 5) ∷ []

steps-Lives_example :
    (q : TimerQueue) × (steps above script
        (λ t now q. 3)
        (does (adds 10) ∷ passes 12 ∷ does (cancels 1) ∷ passes 20 ∷ [])
        no_timers
      ≡ ok q)
    × IsQueue [] q
    × (rest : List (ℕ × ℤ)) × (destruct_timers q.timers q.heap ≡ ok rest)
    × ((t : ℕ) → find t rest ≡ none)
steps-Lives_example =
    steps-Lives above (λ heap. absent-above heap (above heap) (omega arith)) script (λ t now q. 3)
      (does (adds 10) ∷ passes 12 ∷ does (cancels 1) ∷ passes 20 ∷ [])
