-- ===== src/Buffer/Refine.antt =====
-- `Buffer` of src/buffer.cc against a queue of bytes.
use anoii.Prelude.{
  int_bound, ltb, drop-append, ap, ℕ, ◌+◌, ◌-◌, ◌≤◌, ◌<◌, ◌≡◌, refl, sym, ◌∙◌, ◌⊎◌, inl, inr,
  Bool-cases, true, List, [], ◌∷◌, ◌++◌, arith, leb, length, take, drop, slice, replicate,
  slice-drop, slice-append, length-take, length-append, length-replicate, take-append-drop, Result,
  ok, err, int_overflow, assert, ◌>>=◌, ◌>>◌,
}
use anoii.Buffer.{move_to, Buffer, contents, append, shrink, resize_cells, pop}
use anoii.Buffer.Inv.{IsValid, Holds, Yields, append-Yields, move_to-Holds, length-contents}

-- The specification: a queue of bytes.
pub dequeue : ℕ → List ℕ → Result (List ℕ)
dequeue n q = do assert (leb n (length q)); ok (drop n q)

pub data Call : Type 0 where
  appends : ℕ → List ℕ → Call
  pops : ℕ → Call
  shrinks : Call

pub step : Call → Buffer → Result Buffer
step (appends spare bytes) b = append spare bytes b
step (pops n) b = pop n b
step shrinks b = shrink b

pub run : List Call → Buffer → Result Buffer
run [] b = ok b
run (c ∷ cs) b = do b' ← step c b; run cs b'

pub step_queue : Call → List ℕ → Result (List ℕ)
step_queue (appends spare bytes) q = ok (q ++ bytes)
step_queue (pops n) q = dequeue n q
step_queue shrinks q = ok q

pub run_queue : List Call → List ℕ → Result (List ℕ)
run_queue [] q = ok q
run_queue (c ∷ cs) q = do q' ← step_queue c q; run_queue cs q'

-- `Pop` within the readable bytes drops them from the front.
pub pop-Holds :
    {b : Buffer} (n : ℕ)
    → IsValid b
    → leb n (b.tail - b.head) ≡ true
    → Holds (drop n (contents b)) b (record b { head = b.head + n })
pop-Holds {b} n v h = record {
  valid = ground arith;
  holds =
      let e : b.tail - (b.head + n) ≡ b.tail - b.head - n = omega arith in
      rw e (slice-drop b.head (b.tail - b.head) n b.cells);
  reserve = refl;
  aligned = λ a. omega arith;
}

-- `Pop` of as many bytes as stand in front of others.
pub pop-Takes :
    {b : Buffer} (n : ℕ) (front back : List ℕ)
    → IsValid b
    → contents b ≡ front ++ back
    → length front ≡ n
    → (b' : Buffer) × (pop n b ≡ ok b') × IsValid b' × (contents b' ≡ back)
unfolding pop
pop-Takes {b} n front back v e l =
    let fits : leb n (b.tail - b.head) ≡ true =
      ground (arith, length-contents v, ap length e, length-append front back) in
    let h = pop-Holds n v fits in
    (
      record b { head = b.head + n },
      rw fits refl,
      h.valid,
      h.holds ∙ ap (drop n) e ∙ ap (λ k. drop k (front ++ back)) (sym l) ∙ drop-append front back,
    )

-- `Pop` that succeeds takes that many bytes.
pub pop-shrinks :
    (n : ℕ) (b : Buffer) {b' : Buffer}
    → pop n b ≡ ok b'
    → (n ≤ b.tail - b.head) × (b'.tail - b'.head ≡ b.tail - b.head - n)
unfolding pop
pop-shrinks n b e = ground arith

slice-resize :
    (i n m : ℕ) (cells : List ℕ)
    → i + n ≤ m
    → m ≤ length cells
    → slice i n (resize_cells m cells) ≡ slice i n cells
unfolding resize_cells
slice-resize i n m cells h k =
    let e = slice-append i n (take m cells) (drop m cells) (omega (arith, length-take m cells)) in
    slice-append i n (take m cells) _ (omega (arith, length-take m cells))
    ∙ sym (rw (take-append-drop m cells) at e)

length-resize : (m : ℕ) (cells : List ℕ) → m ≤ length cells → length (resize_cells m cells) ≡ m
unfolding resize_cells
length-resize m cells h = omega (
  arith,
  length-append (take m cells) (replicate (m - length cells) 0),
  length-take m cells,
  length-replicate {A = ℕ} (m - length cells) 0,
)

-- `Shrink` of a buffer whose reserve is free and whose vector's size fits in `int`: it succeeds, keeps the readable bytes, puts them
-- behind the reserve and leaves no free cell.
shrink-Holds :
    {b : Buffer}
    → IsValid b
    → length b.cells < int_bound
    → b.prepend_size ≤ b.head
    → (b' : Buffer) × (shrink b ≡ ok b')
      × Holds (contents b) b b'
      × (b'.head ≡ b.prepend_size)
      × (length b'.cells ≡ b'.tail)
unfolding shrink
shrink-Holds {b} v small free =
    let (m, e, h, at_reserve, l) =
      move_to-Holds b.prepend_size v small (omega arith) (omega arith) in
    let valid = h.valid in
    let sized = length-resize m.tail m.cells valid.in_cells in
    (
      record m { cells = resize_cells m.tail m.cells },
      rw (e, shrink),
      record {
        valid = record {
          ordered = valid.ordered;
          in_cells = omega (arith, sized);
          reserved = omega (arith, sized, h.reserve, at_reserve, valid.ordered);
        };
        holds =
            slice-resize m.head (m.tail - m.head) m.tail m.cells (omega arith) (omega arith)
            ∙ h.holds;
        reserve = h.reserve;
        aligned = h.aligned;
      },
      at_reserve,
      sized,
    )

-- A call on the buffer does what it does on the queue of its bytes.
abbrev Agrees : Buffer → Result Buffer → Result (List ℕ) → Type 0
Agrees b r (ok q) = Yields q b r
Agrees b r (err e) = r ≡ err e

step-Agrees :
    {b : Buffer} (c : Call)
    → IsValid b
    → b.prepend_size ≤ b.head
    → Agrees b (step c b) (step_queue c (contents b))
unfolding step step_queue dequeue pop
step-Agrees (appends spare bytes) v free = append-Yields spare bytes v
step-Agrees {b} (pops n) v free = elim (Bool-cases (leb n (b.tail - b.head))) [
  | inl fits ↦ rw (length-contents v, fits) (inl (_, refl, pop-Holds n v fits))
  | inr over ↦ rw (length-contents v, over) refl
]
step-Agrees {b} shrinks v free = elim (Bool-cases (ltb (length b.cells) int_bound)) [
  | inl small ↦ let (b', e, h, _, _) = shrink-Holds v (ground arith) free in inl (b', e, h)
  | inr large ↦ inr (unfold shrink in (unfold move_to in rw large refl))
]

-- What a client sees at the end.
abbrev pub view : Result Buffer → Result (List ℕ)
view (ok b) = ok (contents b)
view (err e) = err e

-- Any sequence of `Append`, `Pop` and `Shrink` on a valid buffer whose reserve is free ends with
-- the bytes that a queue of bytes holds after the same calls, and with a failed assertion exactly
-- where the queue is too short for a `Pop`, unless some size leaves `int`.
pub run_refines :
    (cs : List Call) {b : Buffer}
    → IsValid b
    → b.prepend_size ≤ b.head
    → (view (run cs b) ≡ run_queue cs (contents b)) ⊎ (run cs b ≡ err int_overflow)
unfolding run run_queue
run_refines [] v free = inl refl
run_refines (c ∷ cs) {b} v free =
    after (step_queue c (contents b)) refl (step-Agrees c v free) (λ b' v' f'. run_refines cs v' f')
  where
    after :
        (q : Result (List ℕ))
        → step_queue c (contents b) ≡ q
        → Agrees b (step c b) q
        → ((b' : Buffer)
            → IsValid b'
            → b'.prepend_size ≤ b'.head
            → (view (run cs b') ≡ run_queue cs (contents b')) ⊎ (run cs b' ≡ err int_overflow))
        → (view (run (c ∷ cs) b) ≡ run_queue (c ∷ cs) (contents b))
          ⊎ (run (c ∷ cs) b ≡ err int_overflow)
    after (err f) eq e rest = inl (rw (eq, e))
    after (ok q) eq (inr e) rest = inr (rw e)
    after (ok q) eq (inl (b', e, h)) rest = rw (e, eq, ← h.holds) (rest b' h.valid (h.aligned free))
