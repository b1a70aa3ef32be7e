-- ===== src/TimerQueue/Steps.antt =====
-- What the users of src/timer_queue.cc do to a queue on its loop's thread.
use anoii.Prelude.{ℤ, ℕ, List, [], ◌∷◌, Result, ok, ◌>>=◌}
use anoii.TimerQueue.{TimerQueue, Callback, add_timer, cancel, do_expired}

-- A timer that is to be due at a time, and an identifier that is cancelled, of any timer or of none.
pub data TimerAct : Type 0 where
  adds : ℕ → TimerAct
  cancels : ℕ → TimerAct

-- An act of someone else, and a round of the loop at a time.
pub data Step : Type 0 where
  does : TimerAct → Step
  passes : ℕ → Step

-- `alloc` is where `new` puts a timer.
module _ (alloc : List (ℕ × ℤ) → ℕ) where
  unfoldable pub do_act : TimerAct → TimerQueue → Result TimerQueue
  do_act (adds when) q = do r ← add_timer when (alloc q.heap) q; ok r.0
  do_act (cancels id) q = cancel id q

  unfoldable pub perform : List TimerAct → TimerQueue → Result TimerQueue
  unfolding do_act
  perform [] q = ok q
  perform (a ∷ acts) q = do q ← do_act a q; perform acts q

  -- The callbacks of the timers: what each does and the delay that it answers depend on the timer, the
  -- time, and what it finds.
  module _ (script : ℕ → ℕ → TimerQueue → List TimerAct) (delay : ℕ → ℕ → TimerQueue → ℕ) where
    abbrev pub callback : Callback
    callback timer current q = do
      q' ← perform (script timer current q) q
      ok (q', delay timer current q)

    unfoldable pub take_step : Step → TimerQueue → Result TimerQueue
    unfolding do_act perform
    take_step (does a) q = do_act a q
    take_step (passes current) q = do_expired callback current q

    unfoldable pub steps : List Step → TimerQueue → Result TimerQueue
    unfolding take_step
    steps [] q = ok q
    steps (s ∷ ss) q = do q ← take_step s q; steps ss q
