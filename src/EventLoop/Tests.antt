-- ===== src/EventLoop/Tests.antt =====
-- A loop at concrete functors.
use anoii.Prelude.{
  negsuc, pos, ℕ, suc, ◌≤◌, ◌<◌, ◌≡◌, ◌≢◌, inl, inr, refl, true, false, Bool-cases, none, some,
  List, [], ◌∷◌, arith, ◌==◌, ok, err, aborted,
}
use anoii.EventLoop.{EventLoop, queue_in_loop}
use anoii.EventLoop.Turns.{LoopTurn, posts, stops, loop}
use anoii.EventLoop.Serving.{Runs}
use anoii.EventLoop.Waking.{Woken, loop-serves}
use anoii.EventLoop.Sleep.{poll_timeout, poll_timeout-lem}
use anoii.EventLoop.Threads.{
  init_loop, destruct_loop, is_in_loop_thread, Owned, Unowned, loops-Owned,
}
use anoii.UPoll.{find}
use anoii.TimerQueue.{take_expired}

-- Functor 2 queues 0 and 1.
abbrev queues : ℕ → List ℕ
queues (suc (suc n)) = 0 ∷ 1 ∷ []
queues n = []

abbrev idle : EventLoop
idle = record {
  pedding_functors = [];
  calling_pedding_functors = false;
  wakeups = 0;
  done = false;
  called = [];
}

abbrev busy : EventLoop
busy = record idle { pedding_functors = 2 ∷ 1 ∷ []; wakeups = 2 }

busy_test : queue_in_loop false 1 (queue_in_loop false 2 idle) ≡ busy
unfolding queue_in_loop
busy_test = refl

-- Functor 2 comes from another thread, and the loop is stopped in the round behind.
abbrev turns : List LoopTurn
turns =
    record { remotes = posts 2 ∷ []; handlers = 1 ∷ []; quits = false }
    ∷ record { remotes = stops ∷ []; handlers = []; quits = false }
    ∷ record { remotes = posts 1 ∷ []; handlers = []; quits = false }
    ∷ []

loop-serves_example :
    Runs queues (2 ∷ 1 ∷ 2 ∷ 1 ∷ 0 ∷ 1 ∷ 0 ∷ 1 ∷ []) [] true (loop queues turns busy)
    × Woken queues turns busy
loop-serves_example = loop-serves queues turns busy (record {
  has_called = refl;
  has_waiting = refl;
  awake = λ h. omega arith;
  idle = refl;
  has_done = refl;
})

poll_timeout-lem_example :
    (30 < 2147483648
      → (poll_timeout 20 ((50, 7) ∷ []) ≡ pos 30)
        × ((later : ℕ) → 20 ≤ later → later < 50 → (take_expired later ((50, 7) ∷ [])).0 ≡ [])
        × ((take_expired 50 ((50, 7) ∷ [])).0 ≢ []))
    × (2147483648 ≤ 30 → 30 < 4294967296 → (k : ℕ) × (poll_timeout 20 ((50, 7) ∷ []) ≡ negsuc k))
poll_timeout-lem_example = poll_timeout-lem 20 50 7 []

abbrev one_loop : List (ℕ × ℕ)
one_loop = (1, 70) ∷ []

one-Owned : Owned one_loop
one-Owned s t k hs ht = elim (Bool-cases (1 == s)) [
  | inr other ↦ ground (arith, other, hs)
  | inl is_s ↦ elim (Bool-cases (1 == t)) [
    | inr other ↦ ground (arith, other, ht)
    | inl is_t ↦ ground (arith, is_s, is_t)
  ]
]

loops-Owned_example :
    (Unowned 80 one_loop
      → find 2 one_loop ≡ none
      → (loops : List (ℕ × ℕ)) × (init_loop 2 80 one_loop ≡ ok loops)
        × Owned loops
        × (is_in_loop_thread 2 80 loops ≡ true))
    × ((other : ℕ) → find 2 one_loop ≡ some other → init_loop 2 80 one_loop ≡ err aborted)
    × (is_in_loop_thread 2 80 one_loop ≡ true
        → (loops : List (ℕ × ℕ)) × (destruct_loop 2 80 one_loop ≡ ok loops)
          × Owned loops
          × Unowned 80 loops
          × (find 2 loops ≡ none))
    × (is_in_loop_thread 2 80 one_loop ≡ false → destruct_loop 2 80 one_loop ≡ err aborted)
loops-Owned_example = loops-Owned 2 80 one_loop one-Owned
