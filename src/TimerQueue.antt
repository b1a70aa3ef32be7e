-- ===== src/TimerQueue.antt =====
-- src/timer_queue.cc and src/include/timer_queue.h: timers ordered by the time when they are due. A
-- `Timer*` is an address, and `heap` holds the `timer_id_` of each timer that is allocated, which a
-- cancelled timer has negated. Times are milliseconds since the epoch; a delay that is not positive
-- is 0.
pub mod Expiry
pub mod Steps
pub mod Sound
pub mod Adding
pub mod Cancelling
pub mod Firing
pub mod Life
mod Tests
use anoii.Prelude.{
  negsuc, ℤ, pos, ℕ, zero, suc, ◌+◌, ◌-◌, ◌*◌, ◌≤◌, ◌<◌, ◌≡◌, ◌≢◌, ◌↔◌, ◌⊎◌, inl, inr, refl, sym,
  ap, ◌∙◌, Bool, true, false, not, ◌&&◌, ◌||◌, Bool-cases, Option-cases, Option, none, some, List,
  [], ◌∷◌, ◌++◌, arith, ltb, leb, ◌==◌, if◌then◌else◌, length, take, drop, length-append,
  length-take, length-drop, Result, ok, err, Fault, assertion, out_of_bounds, thrown, aborted,
  assert, ◌>>=◌, ◌>>◌, bind-eq-ok,
}
use anoii.UPoll.{find, put, erase}

pub record TimerQueue : Type 0 where
  pub timers : List (ℕ × ℕ)
  pub in_use : List (ℕ × ℕ)
  pub heap : List (ℕ × ℤ)
  pub next_timer_id : ℕ

abbrev pub no_timers : TimerQueue
no_timers = record { timers = []; in_use = []; heap = []; next_timer_id = 0 }

-- The order of `std::pair`.
abbrev pub before : ℕ × ℕ → ℕ × ℕ → Bool
before (when, timer) (when', timer') = ltb when when' || (when == when' && ltb timer timer')

-- `timers_.insert`; `false` tells that the pair is there already.
unfoldable pub insert : ℕ × ℕ → List (ℕ × ℕ) → List (ℕ × ℕ) × Bool
insert t [] = (t ∷ [], true)
insert t (u ∷ us) =
    let (rest, fresh) = insert t us in
    if before t u
    then (t ∷ u ∷ us, true)
    else if before u t
    then (u ∷ rest, fresh)
    else (u ∷ us, false)

-- `Timer::Cancel`, behind the guard of its caller. A `none` is a failed assertion.
abbrev negated : ℤ → Option ℤ
negated (pos zero) = none
negated (pos (suc n)) = some (negsuc n)
negated (negsuc n) = none

-- The timer at an address is marked.
mark : ℕ → Option ℤ → TimerQueue → Result TimerQueue
mark timer none q = err out_of_bounds
mark timer (some id) q = elim (negated id) [
  | none ↦ ok q
  | some cancelled ↦ ok (record q { heap = put timer cancelled q.heap })
]

mark_found : Option ℕ → TimerQueue → Result TimerQueue
unfolding mark
mark_found none q = ok q
mark_found (some timer) q = mark timer (find timer q.heap) q

unfoldable pub cancel : ℕ → TimerQueue → Result TimerQueue
unfolding mark_found
cancel id q = mark_found (find id q.in_use) q

unfoldable pub add_timer_in_loop : ℕ → ℕ → ℕ → TimerQueue → Result TimerQueue
unfolding insert
add_timer_in_loop when timer id q = do
  assert (ltb 0 id)
  let inserted = insert (when, timer) q.timers
  assert inserted.1
  elim (find id q.in_use) [
    | some other ↦ err assertion
    | none ↦ ok (record q { timers = inserted.0; in_use = put id timer q.in_use })
  ]

-- On the loop's thread. `timer` is the address that `new` answers.
unfoldable pub add_timer : ℕ → ℕ → TimerQueue → Result (TimerQueue × ℕ)
unfolding add_timer_in_loop
add_timer when timer q = do
  let id = suc q.next_timer_id
  q ←
      add_timer_in_loop when timer id
        (record q { next_timer_id = id; heap = put timer (pos id) q.heap })
  ok (q, id)

unfoldable pub sleep_time : ℕ → List (ℕ × ℕ) → ℤ
sleep_time now [] = negsuc 0
sleep_time now ((when, timer) ∷ ts) = pos (when - now)

-- The timers that are due, which `expired_` takes, and the others.
unfoldable pub take_expired : ℕ → List (ℕ × ℕ) → List (ℕ × ℕ) × List (ℕ × ℕ)
take_expired current [] = ([], [])
take_expired current ((when, timer) ∷ ts) =
    let (due, rest) = take_expired current ts in
    if ltb current when then ([], (when, timer) ∷ ts) else ((when, timer) ∷ due, rest)

abbrev pub abs_id : ℤ → ℕ
abs_id (pos n) = n
abs_id (negsuc n) = suc n

-- What a callback does to the queue, and the delay that it returns.
abbrev pub Callback : Type 0
Callback = ℕ → ℕ → TimerQueue → Result (TimerQueue × ℕ)

-- `Timer::Call`.
call_live : Callback → ℕ → ℕ → Option ℤ → TimerQueue → Result (TimerQueue × ℕ)
call_live cb timer current none q = err out_of_bounds
call_live cb timer current (some (pos zero)) q = ok (q, 0)
call_live cb timer current (some (pos (suc n))) q = cb timer current q
call_live cb timer current (some (negsuc n)) q = ok (q, 0)

unfoldable pub call_timer : Callback → ℕ → ℕ → TimerQueue → Result (TimerQueue × ℕ)
unfolding call_live
call_timer cb timer current q = call_live cb timer current (find timer q.heap) q

-- A timer that wants no other call, with the identifier that it has.
abbrev pub drop_timer : ℕ → Option ℤ → TimerQueue → Result TimerQueue
drop_timer timer none q = err out_of_bounds
drop_timer timer (some id) q =
    ok (record q { in_use = erase (abs_id id) q.in_use; heap = erase timer q.heap })

-- Behind the call of a timer that was due at `when`.
unfoldable pub settle_timer : ℕ → ℕ → ℕ → TimerQueue → Result TimerQueue
unfolding insert
settle_timer when timer zero q = drop_timer timer (find timer q.heap) q
settle_timer when timer (suc delay) q =
    ok (record q { timers = (insert (when + suc delay, timer) q.timers).0 })

unfoldable pub fire_all : Callback → ℕ → List (ℕ × ℕ) → TimerQueue → Result TimerQueue
unfolding call_timer settle_timer
fire_all cb current [] q = ok q
fire_all cb current ((when, timer) ∷ ts) q = do
  r ← call_timer cb timer current q
  q ← settle_timer when timer r.1 r.0
  fire_all cb current ts q

unfoldable pub do_expired : Callback → ℕ → TimerQueue → Result TimerQueue
unfolding take_expired fire_all
do_expired cb current q =
    let (due, rest) = take_expired current q.timers in
    fire_all cb current due (record q { timers = rest })

-- `delete timer`: twice is a fault.
abbrev pub free_timer : ℕ → Option ℤ → List (ℕ × ℤ) → Result (List (ℕ × ℤ))
free_timer timer none heap = err out_of_bounds
free_timer timer (some id) heap = ok (erase timer heap)

-- The destructor: the timers that stay allocated.
unfoldable pub destruct_timers : List (ℕ × ℕ) → List (ℕ × ℤ) → Result (List (ℕ × ℤ))
destruct_timers [] heap = ok heap
destruct_timers ((when, timer) ∷ ts) heap = do
  heap ← free_timer timer (find timer heap) heap
  destruct_timers ts heap
