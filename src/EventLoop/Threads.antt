-- ===== src/EventLoop/Threads.antt =====
-- Which thread a loop belongs to, src/event_loop.cc: `loop_of_thread` of each thread. A thread is a
-- number, and a loop is an address.
use anoii.Prelude.{
  ℕ, ◌≡◌, ◌≢◌, inl, inr, refl, sym, ap, ◌∙◌, Bool, true, false, Bool-cases, Option, none, some,
  List, arith, ◌==◌, if◌then◌else◌, Result, ok, err, aborted, ◌>>=◌,
}
use mathlib.Core.Path.{subst}
use anoii.UPoll.{find, put, erase}
use anoii.UPoll.Maps.{find-put-same, find-put-other, find-erase, find-erase-other}

-- `this == loop_of_thread`, on a thread.
abbrev pub is_loop : ℕ → Option ℕ → Bool
is_loop loop none = false
is_loop loop (some mine) = mine == loop

unfoldable pub is_in_loop_thread : ℕ → ℕ → List (ℕ × ℕ) → Bool
is_in_loop_thread thread loop loops = is_loop loop (find thread loops)

-- `AssertIfOutLoopThread`, which terminates.
unfoldable pub assert_if_out_loop_thread : ℕ → ℕ → List (ℕ × ℕ) → Result (Unit {0})
unfolding is_in_loop_thread
assert_if_out_loop_thread thread loop loops =
    if is_in_loop_thread thread loop loops then ok tt else err aborted

-- The constructor, on a thread that has no loop.
abbrev claim_thread : ℕ → ℕ → Option ℕ → List (ℕ × ℕ) → Result (List (ℕ × ℕ))
claim_thread thread loop (some other) loops = err aborted
claim_thread thread loop none loops = ok (put thread loop loops)

unfoldable pub init_loop : ℕ → ℕ → List (ℕ × ℕ) → Result (List (ℕ × ℕ))
init_loop thread loop loops = claim_thread thread loop (find thread loops) loops

-- The destructor, whose RemoveChannel wants the thread of the loop.
unfoldable pub destruct_loop : ℕ → ℕ → List (ℕ × ℕ) → Result (List (ℕ × ℕ))
unfolding assert_if_out_loop_thread
destruct_loop thread loop loops = do
  _ ← assert_if_out_loop_thread thread loop loops
  ok (erase thread loops)

-- No two threads have the same loop.
abbrev pub Owned : List (ℕ × ℕ) → Type 0
Owned loops = (s t loop : ℕ) → find s loops ≡ some loop → find t loops ≡ some loop → s ≡ t

-- A loop that no thread has.
abbrev pub Unowned : ℕ → List (ℕ × ℕ) → Type 0
Unowned loop loops = (t : ℕ) → find t loops ≢ some loop

init_loop-Owned :
    (thread loop : ℕ) (loops : List (ℕ × ℕ))
    → Owned loops
    → Unowned loop loops
    → Owned (put thread loop loops)
init_loop-Owned thread loop loops o new s t k hs ht = elim (Bool-cases (thread == s)) [
  | inl is_s ↦ elim (Bool-cases (thread == t)) [
    | inl is_t ↦ ground (arith, is_s, is_t)
    | inr other ↦
        let mine : loop ≡ k = cc (find-put-same s thread loop loops (ground (arith, is_s)), hs) in
        let old = sym (find-put-other t thread loop loops (ground (arith, other))) ∙ ht in
        absurd (new t (old ∙ ap some (sym mine)))
  ]
  | inr other ↦
      let old = sym (find-put-other s thread loop loops (ground (arith, other))) ∙ hs in
      elim (Bool-cases (thread == t)) [
        | inl is_t ↦
            let mine : loop ≡ k =
              cc (find-put-same t thread loop loops (ground (arith, is_t)), ht) in
            absurd (new s (old ∙ ap some (sym mine)))
        | inr other' ↦
            o s t k old (sym (find-put-other t thread loop loops (ground (arith, other'))) ∙ ht)
      ]
]

find-kept :
    (thread x : ℕ) (loops : List (ℕ × ℕ)) {k : ℕ}
    → find x (erase thread loops) ≡ some k
    → (thread ≢ x) × (find x loops ≡ some k)
find-kept thread x loops h = elim (Bool-cases (thread == x)) [
  | inl same ↦
      let is : thread ≡ x = ground (arith, same) in
      absurd (cc (subst (λ y. find y (erase thread loops) ≡ none) is (find-erase thread loops), h))
  | inr other ↦
      let differ : thread ≢ x = ground (arith, other) in
      (differ, sym (find-erase-other x thread loops differ) ∙ h)
]

is_loop-some : (loop : ℕ) (o : Option ℕ) → is_loop loop o ≡ true → o ≡ some loop
is_loop-some loop none h = absurd (cc h)
is_loop-some loop (some mine) h = ap some (ground (arith, h))

destruct_loop-Owned :
    (thread loop : ℕ) (loops : List (ℕ × ℕ))
    → Owned loops
    → find thread loops ≡ some loop
    → Owned (erase thread loops) × Unowned loop (erase thread loops)
destruct_loop-Owned thread loop loops o mine = (
  λ s t k hs ht. o s t k (find-kept thread s loops hs).1 (find-kept thread t loops ht).1,
  λ t h. (find-kept thread t loops h).0 (o thread t loop mine (find-kept thread t loops h).1),
)

-- Whatever loops are made and destroyed on which threads, the loops that no thread has being new ones,
-- each loop belongs to one thread: a loop that is made on a thread without one belongs to it, and on a
-- thread with one the program aborts; a loop is destroyed on its own thread, which can make another
-- one, and on any other thread the program aborts.
pub loops-Owned :
    (thread loop : ℕ) (loops : List (ℕ × ℕ))
    → Owned loops
    → (Unowned loop loops
        → find thread loops ≡ none
        → (loops' : List (ℕ × ℕ)) × (init_loop thread loop loops ≡ ok loops')
          × Owned loops'
          × (is_in_loop_thread thread loop loops' ≡ true))
      × ((other : ℕ) → find thread loops ≡ some other → init_loop thread loop loops ≡ err aborted)
      × (is_in_loop_thread thread loop loops ≡ true
          → (loops' : List (ℕ × ℕ)) × (destruct_loop thread loop loops ≡ ok loops')
            × Owned loops'
            × Unowned loop loops'
            × (find thread loops' ≡ none))
      × (is_in_loop_thread thread loop loops ≡ false
          → destruct_loop thread loop loops ≡ err aborted)
unfolding init_loop destruct_loop is_in_loop_thread assert_if_out_loop_thread
loops-Owned thread loop loops o = (
  λ new free. (
    put thread loop loops,
    ap (λ m. claim_thread thread loop m loops) free,
    init_loop-Owned thread loop loops o new,
    ap (is_loop loop) (find-put-same thread thread loop loops refl) ∙ ground arith,
  ),
  λ other taken. ap (λ m. claim_thread thread loop m loops) taken,
  λ mine. (
    erase thread loops,
    ap (λ b. (if b then ok tt else err aborted) >>= λ u. ok (erase thread loops)) mine,
    (destruct_loop-Owned thread loop loops o (is_loop-some loop (find thread loops) mine)).0,
    (destruct_loop-Owned thread loop loops o (is_loop-some loop (find thread loops) mine)).1,
    find-erase thread loops,
  ),
  λ others. ap (λ b. (if b then ok tt else err aborted) >>= λ u. ok (erase thread loops)) others,
)
