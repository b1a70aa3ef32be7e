-- ===== src/EventLoop/Turns.antt =====
-- `EventLoop::Loop` of src/event_loop.cc, round after round, with what other threads do meanwhile.
use anoii.Prelude.{ℕ, Bool, true, false, List, [], ◌∷◌, if◌then◌else◌}
use anoii.EventLoop.{EventLoop, queue_in_loop, quit, round}

-- What another thread does to the loop.
pub data Remote : Type 0 where
  posts : ℕ → Remote
  stops : Remote

unfoldable pub remote : Remote → EventLoop → EventLoop
unfolding queue_in_loop quit
remote (posts cb) l = queue_in_loop false cb l
remote stops l = quit false l

unfoldable pub remote_all : List Remote → EventLoop → EventLoop
unfolding remote
remote_all [] l = l
remote_all (r ∷ rs) l = remote_all rs (remote r l)

-- A round: what other threads do before its functors are taken, what its handlers and timers queue,
-- and whether one of them calls `Quit`.
pub record LoopTurn : Type 0 where
  pub remotes : List Remote
  pub handlers : List ℕ
  pub quits : Bool

module _ (queues : ℕ → List ℕ) where
  unfoldable pub loop_turn : LoopTurn → EventLoop → EventLoop
  unfolding remote_all round quit
  loop_turn t l =
      let l = round queues t.handlers (remote_all t.remotes l) in if t.quits then quit true l else l

  -- `Loop`, over the rounds that may come.
  unfoldable pub loop : List LoopTurn → EventLoop → EventLoop
  unfolding loop_turn
  loop [] l = l
  loop (t ∷ ts) l = let rest = loop ts (loop_turn t l) in if l.done then l else rest
