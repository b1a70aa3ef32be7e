-- ===== src/EventLoop/Waking.antt =====
-- When poll does not sleep in `EventLoop::Loop`, src/event_loop.cc.
use anoii.Prelude.{ℕ, suc, ◌<◌, ◌≡◌, refl, Bool, true, false, List, [], ◌∷◌, ◌++◌, arith}
use anoii.EventLoop.{EventLoop, wake_up, queue_in_loop, quit}
use anoii.EventLoop.Rounds.{Awake}
use anoii.EventLoop.Turns.{Remote, posts, stops, remote, remote_all, LoopTurn, loop_turn, loop}
use anoii.EventLoop.Remotes.{stopped}
use anoii.EventLoop.Serving.{Runs, calls, left_over, any_ends, ends, loop_turn-Runs, loop-Runs}

module _ (queues : ℕ → List ℕ) where
  -- Behind what other threads do, the wake-up counter is not 0 if functors wait or one of them called
  -- `Quit`, so that poll returns at once.
  abbrev pub Wakes : List Remote → EventLoop → Type 0
  Wakes rs l = Awake queues (remote_all rs l) × (stopped rs ≡ true → 0 < (remote_all rs l).wakeups)

  remote-counts : (r : Remote) (l : EventLoop) → (remote r l).wakeups ≡ suc l.wakeups
  unfolding remote queue_in_loop quit wake_up
  remote-counts (posts cb) l = refl
  remote-counts stops l = refl

  remote_all-wakes :
      (rs : List Remote) (l : EventLoop) → 0 < l.wakeups → 0 < (remote_all rs l).wakeups
  unfolding remote_all
  remote_all-wakes [] l h = h
  remote_all-wakes (r ∷ rs) l h =
      remote_all-wakes rs (remote r l) (omega (arith, remote-counts r l))

  remote_all-Wakes : (rs : List Remote) (l : EventLoop) → Awake queues l → Wakes rs l
  unfolding remote_all
  remote_all-Wakes [] l awake = (awake, λ e. cc e)
  remote_all-Wakes (r ∷ rs) l awake =
      let woken = remote_all-wakes rs (remote r l) (omega (arith, remote-counts r l)) in
      (λ h. woken, λ e. woken)

  -- In each round that comes.
  abbrev pub Woken : List LoopTurn → EventLoop → Type 0
  Woken [] l = Unit {0}
  Woken (t ∷ ts) l =
      (l.done ≡ false → Wakes t.remotes l) × (l.done ≡ false → Woken ts (loop_turn queues t l))

  loop-Woken :
      (ts : List LoopTurn) (l : EventLoop) {called waiting : List ℕ} (done : Bool)
      → Runs queues called waiting done l
      → Woken ts l
  loop-Woken [] l done r = tt
  loop-Woken (t ∷ ts) l {called} {waiting} done r = (
    λ e. remote_all-Wakes t.remotes l r.awake,
    λ e. loop-Woken ts (loop_turn queues t l) (ends queues t) (
        loop_turn-Runs queues t l (record {
          has_called = r.has_called;
          has_waiting = r.has_waiting;
          awake = r.awake;
          idle = r.idle;
          has_done = e;
        })),
  )

  -- The loop, with what other threads queue and whoever calls `Quit`: it calls what was queued, by any
  -- thread, by the handlers and by the functors, each once and in order, up to and with the round in
  -- which `Quit` is called, by another thread or on its own, and that round is its last one; what is
  -- queued then stays queued. In each round, whenever functors wait, or another thread called `Quit`,
  -- the wake-up counter is not 0, so that poll does not sleep.
  pub loop-serves :
      (ts : List LoopTurn) (l : EventLoop) {called waiting : List ℕ}
      → Runs queues called waiting false l
      → Runs queues
          (called ++ calls queues ts waiting)
          (left_over queues ts waiting)
          (any_ends queues ts)
          (loop queues ts l)
        × Woken ts l
  loop-serves ts l r = (loop-Runs queues ts l r, loop-Woken ts l false r)
