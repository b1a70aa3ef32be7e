-- ===== src/EventLoop/Rounds.antt =====
-- What a round of `EventLoop::Loop` calls and what it leaves, src/event_loop.cc.
use anoii.Prelude.{
  ℕ, ◌+◌, ◌<◌, ◌≡◌, inl, inr, refl, sym, ap, ◌∙◌, Bool, true, false, Bool-cases, List, [], ◌∷◌,
  ◌++◌, arith, if◌then◌else◌, length, length-append,
}
use mathlib.Core.List.{append-nil, append_assoc}
use anoii.EventLoop.{
  EventLoop, wake_up, queue_in_loop, queue_all, run, run_all, do_pedding_functors,
  handle_wake_up_read, round,
}

pub queue_in_loop-pedding :
    (in_thread : Bool) (cb : ℕ) (l : EventLoop)
    → (queue_in_loop in_thread cb l).pedding_functors ≡ l.pedding_functors ++ cb ∷ []
unfolding queue_in_loop wake_up
queue_in_loop-pedding true cb l = elim (Bool-cases l.calling_pedding_functors) [
  | inl calls ↦ simp calls
  | inr idle ↦ simp idle
]
queue_in_loop-pedding false cb l = refl

-- What queueing leaves: a loop that is calling functors is woken for what is queued meanwhile.
pub record Queued (cbs : List ℕ) (l l' : EventLoop) : Type 0 where
  pub pedding : l'.pedding_functors ≡ l.pedding_functors ++ cbs
  pub calling : l'.calling_pedding_functors ≡ l.calling_pedding_functors
  pub called : l'.called ≡ l.called
  pub woken : l.wakeups + (if l.calling_pedding_functors then length cbs else 0) ≡ l'.wakeups

queue_in_loop-Queued : (cb : ℕ) (l : EventLoop) → Queued (cb ∷ []) l (queue_in_loop true cb l)
unfolding queue_in_loop wake_up
queue_in_loop-Queued cb l = go l.calling_pedding_functors refl
  where
    go : (b : Bool) → l.calling_pedding_functors ≡ b → Queued (cb ∷ []) l (queue_in_loop true cb l)
    go true e = record { pedding = simp e; calling = simp e; called = simp e; woken = ground arith }
    go false e = record {
      pedding = simp e;
      calling = simp e;
      called = simp e;
      woken = ground arith;
    }

queue_all-Queued : (cbs : List ℕ) (l : EventLoop) → Queued cbs l (queue_all true cbs l)
unfolding queue_all
queue_all-Queued [] l = record {
  pedding = sym (append-nil _);
  calling = refl;
  called = refl;
  woken = ground arith;
}
queue_all-Queued (cb ∷ cbs) l =
    let q = queue_in_loop-Queued cb l in
    let r = queue_all-Queued cbs (queue_in_loop true cb l) in
    record {
      pedding =
          r.pedding ∙ ap (λ x. x ++ cbs) q.pedding ∙ append_assoc l.pedding_functors (cb ∷ []) cbs;
      calling = r.calling ∙ q.calling;
      called = r.called ∙ q.called;
      woken = ground (arith, q.calling, q.woken, r.woken);
    }

module _ (queues : ℕ → List ℕ) where
  -- What all of some functors queue.
  abbrev pub all_queued : List ℕ → List ℕ
  all_queued [] = []
  all_queued (cb ∷ cbs) = queues cb ++ all_queued cbs

  run_all-lem :
      (cbs : List ℕ) (l : EventLoop)
      → l.calling_pedding_functors ≡ true
      → ((run_all queues cbs l).called ≡ l.called ++ cbs)
        × ((run_all queues cbs l).pedding_functors ≡ l.pedding_functors ++ all_queued cbs)
        × (l.wakeups + length (all_queued cbs) ≡ (run_all queues cbs l).wakeups)
  unfolding run_all run
  run_all-lem [] l e = (sym (append-nil _), sym (append-nil _), omega arith)
  run_all-lem (cb ∷ cbs) l e =
      let q = queue_all-Queued (queues cb) (record l { called = l.called ++ cb ∷ [] }) in
      let (c, p, w) = run_all-lem cbs (run queues cb l) (q.calling ∙ e) in
      let n = length-append (queues cb) (all_queued cbs) in
      (
        c ∙ ap (λ x. x ++ cbs) q.called ∙ append_assoc l.called (cb ∷ []) cbs,
        p
            ∙ ap (λ x. x ++ all_queued cbs) q.pedding
            ∙ append_assoc l.pedding_functors (queues cb) (all_queued cbs),
        ground (arith, q.woken, w, n, e),
      )

  -- A loop that will not sleep in poll while functors wait.
  abbrev pub Awake : EventLoop → Type 0
  Awake l = 0 < length l.pedding_functors → 0 < l.wakeups

  -- One round of the loop calls what was queued before it, by any thread, and what the handlers of
  -- this round queued, each once and in that order; what these calls queue in turn waits for the next
  -- round, in order, and the wake-up counter is then not 0, so that poll does not sleep on it.
  pub round-lem :
      (handlers : List ℕ) (l : EventLoop)
      → l.calling_pedding_functors ≡ false
      → ((round queues handlers l).called ≡ l.called ++ (l.pedding_functors ++ handlers))
        × ((round queues handlers l).pedding_functors ≡ all_queued (l.pedding_functors ++ handlers))
        × Awake (round queues handlers l)
        × ((round queues handlers l).calling_pedding_functors ≡ false)
  unfolding round do_pedding_functors handle_wake_up_read
  round-lem handlers l e =
      let q = queue_all-Queued handlers (record l { wakeups = 0 }) in
      let start = queue_all true handlers (record l { wakeups = 0 }) in
      let (c, p, w) =
        run_all-lem start.pedding_functors
          (record start { pedding_functors = []; calling_pedding_functors = true }) refl in
      (
        c ∙ ap (λ x. x ++ start.pedding_functors) q.called ∙ ap (λ x. l.called ++ x) q.pedding,
        p ∙ ap all_queued q.pedding,
        λ h. omega (arith, h, w, ap length p),
        refl,
      )
