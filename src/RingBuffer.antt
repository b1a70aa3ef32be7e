-- ===== src/RingBuffer.antt =====
-- src/ring_buffer.cc and src/include/ring_buffer.h: a ring of bytes, which the build leaves out in
-- favour of buffer.cc. The differences of the source are taken where they are not negative, as its own
-- tests on the indices make them.
pub mod Pushing
mod Tests
use anoii.Prelude.{
  store, replicate, load, ℕ, zero, suc, ◌+◌, ◌-◌, ◌*◌, ◌≤◌, ◌<◌, ◌≡◌, ◌≢◌, ◌↔◌, ◌⊎◌, inl, inr, refl,
  sym, ap, ◌∙◌, Bool, true, false, not, ◌&&◌, ◌||◌, Bool-cases, Option-cases, Option, none, some,
  List, [], ◌∷◌, ◌++◌, arith, ltb, leb, ◌==◌, if◌then◌else◌, length, take, drop, length-append,
  length-take, length-drop, Result, ok, err, Fault, assertion, out_of_bounds, thrown, aborted,
  assert, ◌>>=◌, ◌>>◌, bind-eq-ok,
}
use mathlib.Core.List.{reverse}

pub record RingBuffer : Type 0 where
  pub head : ℕ
  pub tail : ℕ
  pub cells : List ℕ

abbrev pub new_ring : ℕ → RingBuffer
new_ring initial_size = record { head = 0; tail = 0; cells = replicate (initial_size + 1) 0 }

abbrev pub ring_size : RingBuffer → ℕ
ring_size b = if leb b.head b.tail then b.tail - b.head else b.tail + length b.cells - b.head

-- `std::copy` of the cells from `from` to `to` to the index `at`.
abbrev copy : ℕ → ℕ → ℕ → List ℕ → Result (List ℕ)
copy from to at cells = do bytes ← load from (to - from) cells; store at bytes cells

abbrev wrap : RingBuffer → RingBuffer
wrap b = if leb (length b.cells) b.tail then record b { tail = b.tail - length b.cells } else b

-- The bytes at the front of the old cells move behind them, as far as there is room.
unwind : ℕ → RingBuffer → Result RingBuffer
unwind old b =
    let gained = length b.cells - old in
    if leb b.tail gained
    then (do
      cells ← copy 0 b.tail old b.cells
      ok (wrap (record b { cells = cells; tail = b.tail + old })))
    else do
      cells ← copy 0 gained old b.cells
      cells ← copy gained b.tail 0 cells
      ok (wrap (record b { cells = cells; tail = gained }))

-- `spare` is what `resize(capacity())` adds.
unfoldable pub resize : ℕ → ℕ → RingBuffer → Result RingBuffer
unfolding unwind
resize spare new_size b = do
  let old = length b.cells
  assert (leb old (suc new_size))
  let b = record b { cells = b.cells ++ replicate (suc new_size - old + spare) 0 }
  if leb b.head b.tail || b.tail == 0 then ok b else unwind old b

-- `_push_back`.
unfoldable pub put_back : ℕ → RingBuffer → Result RingBuffer
put_back byte b = do
  assert (leb 2 (length b.cells - ring_size b))
  cells ← store b.tail (byte ∷ []) b.cells
  let tail = b.tail + 1
  ok (record b { cells = cells; tail = if leb (length cells) tail then 0 else tail })

-- `_push_front`.
unfoldable pub put_front : ℕ → RingBuffer → Result RingBuffer
put_front byte b = do
  assert (leb 2 (length b.cells - ring_size b))
  let head = if b.head == 0 then length b.cells - 1 else b.head - 1
  cells ← store head (byte ∷ []) b.cells
  ok (record b { cells = cells; head = head })

unfoldable pub put_all :
    (ℕ → RingBuffer → Result RingBuffer) → List ℕ → RingBuffer → Result RingBuffer
put_all put [] b = ok b
put_all put (x ∷ xs) b = do b ← put x b; put_all put xs b

-- The guard of the five pushes, for `n` more bytes.
unfoldable pub make_room : ℕ → ℕ → RingBuffer → Result RingBuffer
unfolding resize
make_room spare n b =
    if leb (ring_size b + n + 1) (length b.cells) then resize spare (ring_size b + n) b else ok b

unfoldable pub push_back : ℕ → List ℕ → RingBuffer → Result RingBuffer
unfolding make_room put_back put_all
push_back spare bytes b = do b ← make_room spare (length bytes) b; put_all put_back bytes b

unfoldable pub push_front : ℕ → List ℕ → RingBuffer → Result RingBuffer
unfolding make_room put_front put_all
push_front spare bytes b = do
  b ← make_room spare (length bytes) b
  put_all put_front (reverse bytes) b

unfoldable pub rpush_front : ℕ → List ℕ → RingBuffer → Result RingBuffer
unfolding make_room put_front put_all
rpush_front spare bytes b = do b ← make_room spare (length bytes) b; put_all put_front bytes b

-- `operator[]`.
unfoldable pub element : ℕ → RingBuffer → Result ℕ
element index b = do
  assert (ltb index (ring_size b))
  let shift = if leb b.head b.tail then 0 else length b.cells - b.head
  found ← (if leb shift index then load (index - shift) 1 b.cells else err out_of_bounds)
  elim found [ [] ↦ err out_of_bounds | x ∷ xs ↦ ok x ]

unfoldable pub pop_front : ℕ → RingBuffer → RingBuffer
pop_front n b =
    let head = b.head + n in
    record b { head = if leb (length b.cells) head then head - length b.cells else head }
