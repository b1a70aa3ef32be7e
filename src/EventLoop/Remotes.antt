-- ===== src/EventLoop/Remotes.antt =====
-- What other threads do to an `EventLoop` of src/event_loop.cc during a round.
use anoii.Prelude.{ℕ, suc, ◌≡◌, refl, sym, ◌∙◌, Bool, true, false, ◌||◌, List, [], ◌∷◌, ◌++◌}
use mathlib.Core.Path.{subst}
use mathlib.Core.List.{append_assoc, append-nil}
use anoii.EventLoop.{EventLoop, wake_up, queue_in_loop, quit}
use anoii.EventLoop.Turns.{Remote, posts, stops, remote, remote_all}

-- What other threads queue, and whether one stops the loop.
abbrev pub posted : List Remote → List ℕ
posted [] = []
posted (posts cb ∷ rs) = cb ∷ posted rs
posted (stops ∷ rs) = posted rs

abbrev pub stopped : List Remote → Bool
stopped [] = false
stopped (posts cb ∷ rs) = stopped rs
stopped (stops ∷ rs) = true

queue_in_loop-remote :
    (cb : ℕ) (l : EventLoop)
    → queue_in_loop false cb l
      ≡ record l { pedding_functors = l.pedding_functors ++ cb ∷ []; wakeups = suc l.wakeups }
unfolding queue_in_loop wake_up
queue_in_loop-remote cb l = refl

quit-remote : (l : EventLoop) → quit false l ≡ record l { done = true; wakeups = suc l.wakeups }
unfolding quit wake_up
quit-remote l = refl

or_true : (b : Bool) → (b || true) ≡ true
or_true true = refl
or_true false = refl

-- What is left of a loop behind the calls of other threads.
pub record Reached (rs : List Remote) (l l' : EventLoop) : Type 0 where
  pub pedding : l'.pedding_functors ≡ l.pedding_functors ++ posted rs
  pub called : l'.called ≡ l.called
  pub calling : l'.calling_pedding_functors ≡ l.calling_pedding_functors
  pub ended : l'.done ≡ (stopped rs || l.done)

pub remote_all-Reached : (rs : List Remote) (l : EventLoop) → Reached rs l (remote_all rs l)
unfolding remote_all remote
remote_all-Reached [] l = record {
  pedding = sym (append-nil l.pedding_functors);
  called = refl;
  calling = refl;
  ended = refl;
}
remote_all-Reached (posts cb ∷ rs) l =
    let next = record l {
      pedding_functors = l.pedding_functors ++ cb ∷ [];
      wakeups = suc l.wakeups;
    } in
    let r : Reached rs next (remote_all rs (queue_in_loop false cb l)) =
      subst (λ m. Reached rs next (remote_all rs m)) (sym (queue_in_loop-remote cb l))
        (remote_all-Reached rs next) in
    record {
      pedding = r.pedding ∙ append_assoc l.pedding_functors (cb ∷ []) (posted rs);
      called = r.called;
      calling = r.calling;
      ended = r.ended;
    }
remote_all-Reached (stops ∷ rs) l =
    let next = record l { done = true; wakeups = suc l.wakeups } in
    let r : Reached rs next (remote_all rs (quit false l)) =
      subst (λ m. Reached rs next (remote_all rs m)) (sym (quit-remote l))
        (remote_all-Reached rs next) in
    record {
      pedding = r.pedding;
      called = r.called;
      calling = r.calling;
      ended = r.ended ∙ or_true (stopped rs);
    }
