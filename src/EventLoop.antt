-- ===== src/EventLoop.antt =====
-- src/event_loop.cc and src/include/event_loop.h: the queue of functors and the wake-up descriptor.
-- A functor is a number; `queues` tells what running it queues. Calls from other threads are the
-- operations with `in_thread` false, each of them whole, as the lock makes it.
use anoii.Prelude.{
  ℕ, zero, suc, ◌+◌, ◌-◌, ◌*◌, ◌≤◌, ◌<◌, ◌≡◌, ◌≢◌, ◌↔◌, ◌⊎◌, inl, inr, refl, sym, ap, ◌∙◌, Bool,
  true, false, not, ◌&&◌, ◌||◌, Bool-cases, Option-cases, Option, none, some, List, [], ◌∷◌, ◌++◌,
  arith, ltb, leb, ◌==◌, if◌then◌else◌, length, take, drop, length-append, length-take, length-drop,
  Result, ok, err, Fault, assertion, out_of_bounds, thrown, aborted, assert, ◌>>=◌, ◌>>◌,
  bind-eq-ok,
}
pub mod Rounds
pub mod Turns
pub mod Remotes
pub mod Serving
pub mod Waking
pub mod Sleep
pub mod Threads
mod Tests

pub record EventLoop : Type 0 where
  pub pedding_functors : List ℕ
  pub calling_pedding_functors : Bool
  -- The counter of the eventfd.
  pub wakeups : ℕ
  pub done : Bool
  -- The functors that were called, in order.
  pub called : List ℕ

unfoldable pub wake_up : EventLoop → EventLoop
wake_up l = record l { wakeups = suc l.wakeups }

-- The eventfd is not blocking: reading 0 fails and changes nothing.
unfoldable pub handle_wake_up_read : EventLoop → EventLoop
handle_wake_up_read l = record l { wakeups = 0 }

unfoldable pub queue_in_loop : Bool → ℕ → EventLoop → EventLoop
unfolding wake_up
queue_in_loop in_thread cb l =
    let l = record l { pedding_functors = l.pedding_functors ++ cb ∷ [] } in
    if not in_thread || l.calling_pedding_functors then wake_up l else l

unfoldable pub quit : Bool → EventLoop → EventLoop
unfolding wake_up
quit in_thread l = let l = record l { done = true } in if in_thread then l else wake_up l

unfoldable pub queue_all : Bool → List ℕ → EventLoop → EventLoop
unfolding queue_in_loop
queue_all in_thread [] l = l
queue_all in_thread (cb ∷ cbs) l = queue_all in_thread cbs (queue_in_loop in_thread cb l)

module _ (queues : ℕ → List ℕ) where
  -- Calling a functor on the loop's thread.
  unfoldable pub run : ℕ → EventLoop → EventLoop
  unfolding queue_all
  run cb l = queue_all true (queues cb) (record l { called = l.called ++ cb ∷ [] })

  unfoldable pub run_in_loop : Bool → ℕ → EventLoop → EventLoop
  unfolding run queue_in_loop
  run_in_loop in_thread cb l = if in_thread then run cb l else queue_in_loop false cb l

  unfoldable pub run_all : List ℕ → EventLoop → EventLoop
  unfolding run
  run_all [] l = l
  run_all (cb ∷ cbs) l = run_all cbs (run cb l)

  unfoldable pub do_pedding_functors : EventLoop → EventLoop
  unfolding run_all
  do_pedding_functors l =
      let after =
        run_all l.pedding_functors
          (record l { pedding_functors = []; calling_pedding_functors = true }) in
      record after { calling_pedding_functors = false }

  -- One round of `Loop` behind poll: the handlers of the active channels and the timers queue
  -- `handlers` on the loop's thread, and the wake-up channel is among them if its counter is not 0.
  unfoldable pub round : List ℕ → EventLoop → EventLoop
  unfolding do_pedding_functors handle_wake_up_read queue_all
  round handlers l = do_pedding_functors (queue_all true handlers (handle_wake_up_read l))
