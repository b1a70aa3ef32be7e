-- ===== src/Buffer.antt =====
-- src/buffer.cc and src/include/buffer.h: the byte buffer of a connection.
-- `cells` is the vector `data_`. `head_`, `tail_` and `prepend_` are `int`; they are never negative
-- where no assertion has failed, and a sum or cast that leaves `int` is a fault. A call that
-- reads or copies outside the vector is a fault too. `spare` is by how much `resize(capacity())`
-- lengthens the vector, which the implementation of `std::vector` chooses.
pub mod Inv
pub mod Refine
pub mod Search
pub mod Fill
pub mod Headers
mod Tests
use anoii.Prelude.{
  ℕ, zero, suc, ◌+◌, ◌-◌, ◌≤◌, ◌<◌, ◌≡◌, Bool, true, false, ◌&&◌, Option, none, some, List, [], ◌∷◌,
  ◌++◌, ltb, leb, ◌==◌, if◌then◌else◌, length, take, drop, replicate, slice, Fault, out_of_bounds,
  Result, ok, err, ◌>>=◌, ◌>>◌, assert, to_int, load, store,
}
use mathlib.Core.Option

pub record Buffer : Type 0 where
  pub head : ℕ
  pub tail : ℕ
  pub prepend_size : ℕ
  pub cells : List ℕ

-- The constructor.
unfoldable pub init : ℕ → ℕ → Result Buffer
init initial_size prepend_size = do
  assert (leb prepend_size initial_size)
  ok (record {
    head = prepend_size;
    tail = prepend_size;
    prepend_size = prepend_size;
    cells = replicate initial_size 0;
  })

-- The readable bytes, `[head_, tail_)`.
abbrev pub contents : Buffer → List ℕ
contents b = slice b.head (b.tail - b.head) b.cells

unfoldable pub readable_bytes : Buffer → ℕ
readable_bytes b = b.tail - b.head

unfoldable pub is_empty : Buffer → Bool
is_empty b = b.head == b.tail

-- `WriteableBytes() - prepend_ < size`, without a difference that could be negative.
abbrev pub is_short : ℕ → Buffer → Bool
is_short size b = ltb (length b.cells) (size + (b.tail - b.head) + b.prepend_size)

pub move_to : ℕ → Buffer → Result Buffer
move_to index b = do
  size ← to_int (length b.cells)
  assert (leb (index + b.tail - b.head) size)
  if b.head == index then ok b else do
    bytes ← load b.head (b.tail - b.head) b.cells
    cells ← store index bytes b.cells
    ok (record b { head = index; tail = index + b.tail - b.head; cells = cells })

unfoldable pub ensure_writable_space : ℕ → ℕ → Buffer → Result Buffer
ensure_writable_space spare size b = do
  _ ← to_int (length b.cells)
  if is_short size b
      then (do
        grown ← to_int (size + b.tail)
        ok (record b { cells = b.cells ++ replicate (grown + spare) 0 }))
      else move_to b.prepend_size b

unfoldable pub append : ℕ → List ℕ → Buffer → Result Buffer
append spare bytes b = do
  roomy ← ensure_writable_space spare (length bytes) b
  cells ← store roomy.tail bytes roomy.cells
  tail ← to_int (roomy.tail + length bytes)
  ok (record roomy { tail = tail; cells = cells })

-- `resize(tail_)`, which also gives back what was spare.
resize_cells : ℕ → List ℕ → List ℕ
resize_cells n cells = take n cells ++ replicate (n - length cells) 0

unfoldable pub shrink : Buffer → Result Buffer
unfolding resize_cells
shrink b = do
  moved ← move_to b.prepend_size b
  ok (record moved { cells = resize_cells moved.tail moved.cells })

-- `std::copy` to `data_.data() - head_`: before the array, unless `head_` is 0 by then or there is
-- nothing to copy.
copy_before : ℕ → List ℕ → List ℕ → Result (List ℕ)
copy_before head [] cells = ok cells
copy_before zero bytes cells = store 0 bytes cells
copy_before (suc head) bytes cells = err out_of_bounds

unfoldable pub prepend : List ℕ → Buffer → Result Buffer
unfolding copy_before
prepend bytes b = do
  assert (leb (length bytes) b.head)
  cells ← copy_before (b.head - length bytes) bytes b.cells
  ok (record b { head = b.head - length bytes; cells = cells })

unfoldable pub pop : ℕ → Buffer → Result Buffer
pop size b = do assert (leb size (b.tail - b.head)); ok (record b { head = b.head + size })

-- `memcmp(a, b, n) == 0` for two arrays of one length.
unfoldable pub same_bytes : List ℕ → List ℕ → Bool
same_bytes [] [] = true
same_bytes [] (y ∷ ys) = false
same_bytes (x ∷ xs) [] = false
same_bytes (x ∷ xs) (y ∷ ys) = x == y && same_bytes xs ys

unfoldable pub start_with : List ℕ → Buffer → Bool
unfolding same_bytes
start_with bytes b =
    if ltb (b.tail - b.head) (length bytes)
    then false
    else same_bytes bytes (take (length bytes) (contents b))

is_prefix : List ℕ → List ℕ → Bool
is_prefix [] hay = true
is_prefix (x ∷ needle) [] = false
is_prefix (x ∷ needle) (y ∷ hay) = x == y && is_prefix needle hay

-- `memmem`: the first place where `needle` stands in `hay`.
unfoldable pub memmem : List ℕ → List ℕ → Option ℕ
unfolding is_prefix
memmem needle [] = if is_prefix needle [] then some 0 else none
memmem needle (y ∷ hay) =
    if is_prefix needle (y ∷ hay) then some 0 else Option.map suc (memmem needle hay)

-- `none` is -1.
unfoldable pub first_of : List ℕ → Buffer → Option ℕ
unfolding memmem
first_of bytes b = memmem bytes (contents b)

-- The loop over `data_[i]`, `i` from `head_` up to `tail_`.
contains_in : ℕ → List ℕ → Bool
contains_in ch [] = false
contains_in ch (x ∷ xs) = if x == ch then true else contains_in ch xs

unfoldable pub contains : ℕ → Buffer → Bool
unfolding contains_in
contains ch b = contains_in ch (contents b)

-- What `readv` into the free cells and 65535 further bytes answers: an error number, or the bytes
-- that it delivered, in order.
pub data Reading : Type 0 where
  failed : ℕ → Reading
  delivered : List ℕ → Reading

-- The bytes go to the free cells first; the rest lands in `extra` and is appended.
take_in : ℕ → List ℕ → Buffer → Result Buffer
unfolding append
take_in spare bytes b =
    let room = length b.cells - b.tail in
    if leb (length bytes) room
    then (do
      cells ← store b.tail bytes b.cells
      tail ← to_int (b.tail + length bytes)
      ok (record b { tail = tail; cells = cells }))
    else do
      cells ← store b.tail (take room bytes) b.cells
      tail ← to_int (b.tail + room)
      append spare (drop room bytes) (record b { tail = tail; cells = cells })

-- The buffer, and what is returned: the count, or the error number through `err`.
pub data Received : Type 0 where
  count : ℕ → Received
  errno : ℕ → Received

unfoldable pub read_fd : ℕ → Reading → Buffer → Result (Buffer × Received)
unfolding take_in
read_fd spare (failed e) b = ok (b, errno e)
read_fd spare (delivered bytes) b = do b' ← take_in spare bytes b; ok (b', count (length bytes))
