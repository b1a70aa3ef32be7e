-- ===== src/EventLoop/Serving.antt =====
-- What `EventLoop::Loop` calls until it ends, src/event_loop.cc.
use anoii.Prelude.{
  ℕ, ◌≡◌, inl, inr, refl, sym, ap, ◌∙◌, Bool, true, false, ◌||◌, Bool-cases, List, [], ◌∷◌, ◌++◌,
  if◌then◌else◌,
}
use mathlib.Core.Path.{subst}
use mathlib.Core.List.{append_assoc, append-nil}
use anoii.EventLoop.{
  EventLoop, wake_up, queue_in_loop, queue_all, quit, run, run_all, do_pedding_functors,
  handle_wake_up_read, round,
}
use anoii.EventLoop.Rounds.{all_queued, Awake, round-lem}
use anoii.EventLoop.Turns.{remote_all, LoopTurn, loop_turn, loop}
use anoii.EventLoop.Remotes.{posted, stopped, remote_all-Reached}

queue_in_loop-done : (cb : ℕ) (l : EventLoop) → (queue_in_loop true cb l).done ≡ l.done
unfolding queue_in_loop wake_up
queue_in_loop-done cb l = elim (Bool-cases l.calling_pedding_functors) [
  | inl calls ↦ simp calls
  | inr idle ↦ simp idle
]

queue_all-done : (cbs : List ℕ) (l : EventLoop) → (queue_all true cbs l).done ≡ l.done
unfolding queue_all
queue_all-done [] l = refl
queue_all-done (cb ∷ cbs) l = queue_all-done cbs (queue_in_loop true cb l) ∙ queue_in_loop-done cb l

or_false : (b : Bool) → (b || false) ≡ b
or_false true = refl
or_false false = refl

module _ (queues : ℕ → List ℕ) where
  run_all-done : (cbs : List ℕ) (l : EventLoop) → (run_all queues cbs l).done ≡ l.done
  unfolding run_all run
  run_all-done [] l = refl
  run_all-done (cb ∷ cbs) l =
      run_all-done cbs (run queues cb l)
      ∙ queue_all-done (queues cb) (record l { called = l.called ++ cb ∷ [] })

  round-done : (handlers : List ℕ) (l : EventLoop) → (round queues handlers l).done ≡ l.done
  unfolding round do_pedding_functors handle_wake_up_read
  round-done handlers l =
      let start = queue_all true handlers (record l { wakeups = 0 }) in
      run_all-done start.pedding_functors
        (record start { pedding_functors = []; calling_pedding_functors = true })
      ∙ queue_all-done handlers (record l { wakeups = 0 })

  abbrev pub ends : LoopTurn → Bool
  ends t = t.quits || stopped t.remotes

  -- What a round calls, with what was queued before it.
  abbrev pub batch : LoopTurn → List ℕ → List ℕ
  batch t waiting = (waiting ++ posted t.remotes) ++ t.handlers

  -- What the rounds call until one of them ends the loop, and what is queued then.
  abbrev pub calls : List LoopTurn → List ℕ → List ℕ
  calls [] waiting = []
  calls (t ∷ ts) waiting =
      let rest = calls ts (all_queued queues (batch t waiting)) in
      batch t waiting ++ (if ends t then [] else rest)

  abbrev pub left_over : List LoopTurn → List ℕ → List ℕ
  left_over [] waiting = waiting
  left_over (t ∷ ts) waiting =
      let rest = left_over ts (all_queued queues (batch t waiting)) in
      if ends t then all_queued queues (batch t waiting) else rest

  -- A loop that runs, and is not amid its functors.
  pub record Runs (called waiting : List ℕ) (done : Bool) (l : EventLoop) : Type 0 where
    pub has_called : l.called ≡ called
    pub has_waiting : l.pedding_functors ≡ waiting
    pub awake : Awake queues l
    pub idle : l.calling_pedding_functors ≡ false
    pub has_done : l.done ≡ done

  quit-Runs :
      {called waiting : List ℕ} {done : Bool} (b : Bool) (l : EventLoop)
      → Runs called waiting done l
      → Runs called waiting (b || done) (if b then quit true l else l)
  unfolding quit
  quit-Runs true l r = record {
    has_called = r.has_called;
    has_waiting = r.has_waiting;
    awake = r.awake;
    idle = r.idle;
    has_done = refl;
  }
  quit-Runs false l r = r

  pub loop_turn-Runs :
      {called waiting : List ℕ} (t : LoopTurn) (l : EventLoop)
      → Runs called waiting false l
      → Runs
          (called ++ batch t waiting)
          (all_queued queues (batch t waiting))
          (ends t)
          (loop_turn queues t l)
  unfolding loop_turn
  loop_turn-Runs {called} {waiting} t l r =
      let m = remote_all t.remotes l in
      let reached = remote_all-Reached t.remotes l in
      let (c, p, a, i) = round-lem queues t.handlers m (reached.calling ∙ r.idle) in
      let same : m.pedding_functors ++ t.handlers ≡ batch t waiting =
        ap (λ w. w ++ t.handlers)
          (reached.pedding ∙ ap (λ w. w ++ posted t.remotes) r.has_waiting) in
      quit-Runs t.quits (round queues t.handlers m) (record {
        has_called =
            c
            ∙ ap (λ w. m.called ++ w) same
            ∙ ap (λ w. w ++ batch t waiting) (reached.called ∙ r.has_called);
        has_waiting = p ∙ ap (all_queued queues) same;
        awake = a;
        idle = i;
        has_done =
            round-done t.handlers m
            ∙ reached.ended
            ∙ ap (λ b. stopped t.remotes || b) r.has_done
            ∙ or_false (stopped t.remotes);
      })

  loop-done : (ts : List LoopTurn) (l : EventLoop) → l.done ≡ true → loop queues ts l ≡ l
  unfolding loop
  loop-done [] l e = refl
  loop-done (t ∷ ts) l e = ap (λ b. if b then l else loop queues ts (loop_turn queues t l)) e

  loop-goes_on :
      (t : LoopTurn) (ts : List LoopTurn) (l : EventLoop)
      → l.done ≡ false
      → loop queues (t ∷ ts) l ≡ loop queues ts (loop_turn queues t l)
  unfolding loop
  loop-goes_on t ts l e = ap (λ b. if b then l else loop queues ts (loop_turn queues t l)) e

  -- Whether a round ends the loop.
  abbrev pub any_ends : List LoopTurn → Bool
  any_ends [] = false
  any_ends (t ∷ ts) = ends t || any_ends ts

  -- Behind a round that ends the loop, and behind another one.
  behind-end :
      {called waiting : List ℕ} (ts : List LoopTurn) (l : EventLoop)
      → Runs called waiting true l
      → Runs called waiting true (loop queues ts l)
  behind-end {called} {waiting} ts l r =
      subst (λ m. Runs called waiting true m) (sym (loop-done ts l r.has_done)) r

  behind :
      (called : List ℕ) (b : Bool) (now waiting : List ℕ) (ts : List LoopTurn) (l : EventLoop)
      → (Runs (called ++ now) waiting false l
          → Runs
              ((called ++ now) ++ calls ts waiting)
              (left_over ts waiting)
              (any_ends ts)
              (loop queues ts l))
      → Runs (called ++ now) waiting b l
      → Runs
          (called ++ (now ++ (if b then [] else calls ts waiting)))
          (if b then waiting else left_over ts waiting)
          (b || any_ends ts)
          (loop queues ts l)
  behind called true now waiting ts l rest r =
      subst (λ c. Runs (called ++ c) waiting true (loop queues ts l)) (sym (append-nil now))
        (behind-end ts l r)
  behind called false now waiting ts l rest r =
      subst (λ c. Runs c (left_over ts waiting) (any_ends ts) (loop queues ts l))
        (append_assoc called now (calls ts waiting)) (rest r)

  -- The loop calls what was queued up to and with the round in which `Quit` is called.
  pub loop-Runs :
      (ts : List LoopTurn) (l : EventLoop) {called waiting : List ℕ}
      → Runs called waiting false l
      → Runs (called ++ calls ts waiting) (left_over ts waiting) (any_ends ts) (loop queues ts l)
  loop-Runs [] l {called} {waiting} r =
      subst (λ c. Runs c waiting false (loop queues [] l)) (sym (append-nil called))
        (unfold loop in r)
  loop-Runs (t ∷ ts) l {called} {waiting} r =
      subst
        (λ m.
          Runs (called ++ calls (t ∷ ts) waiting) (left_over (t ∷ ts) waiting) (any_ends (t ∷ ts))
            m)
        (sym (loop-goes_on t ts l r.has_done))
        (behind called (ends t) (batch t waiting) (all_queued queues (batch t waiting)) ts
          (loop_turn queues t l) (λ next. loop-Runs ts (loop_turn queues t l) next)
          (loop_turn-Runs t l r))
