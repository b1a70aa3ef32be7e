-- ===== src/Buffer/Fill.antt =====
-- `Buffer::ReadFd` of src/buffer.cc.
use anoii.Prelude.{
  ℕ, ◌+◌, ◌-◌, ◌≡◌, refl, ◌∙◌, ap, ◌⊎◌, inl, inr, Bool-cases, false, List, ◌++◌, arith, ltb, leb,
  length, take, drop, length-take, take-append-drop, Result, ok, err, int_overflow, int_bound,
}
use mathlib.Core.List.{append_assoc}
use anoii.Buffer.{
  Buffer, contents, take_in, Reading, failed, delivered, Received, count, errno, read_fd,
}
use anoii.Buffer.Inv.{IsValid, Holds, Yields, extended, extend-Holds, Holds-refl, append-Yields}

abbrev room : Buffer → ℕ
room b = length b.cells - b.tail

-- The first part fills the free cells, and the rest is appended.
overflow-Yields :
    {b : Buffer} (spare : ℕ) (bytes : List ℕ)
    → IsValid b
    → leb (length bytes) (room b) ≡ false
    → Yields (contents b ++ bytes) b (take_in spare bytes b)
unfolding take_in
overflow-Yields {b} spare bytes v more = elim (Bool-cases (ltb (b.tail + room b) int_bound)) [
  | inr over ↦ inr (ground (arith, len))
  | inl fits ↦ elim (append-Yields spare (drop (room b) bytes) full.valid) [
    | inr e ↦ inr (ground (arith, len, e))
    | inl (b', e, h) ↦ inl (
      b',
      ground (arith, len, e),
      record {
        valid = h.valid;
        holds =
            h.holds
            ∙ ap (λ l. l ++ drop (room b) bytes) full.holds
            ∙ append_assoc (contents b) (take (room b) bytes) (drop (room b) bytes)
            ∙ ap (λ l. contents b ++ l) (take-append-drop (room b) bytes);
        reserve = h.reserve;
        aligned = h.aligned;
      },
    )
  ]
]
  where
    len : length (take (room b) bytes) ≡ room b
    len = ground (arith, length-take (room b) bytes)

    full : Holds (contents b ++ take (room b) bytes) b (extended (take (room b) bytes) b)
    full = extend-Holds (take (room b) bytes) (Holds-refl v) (omega (arith, len))

take_in-Yields :
    {b : Buffer} (spare : ℕ) (bytes : List ℕ)
    → IsValid b
    → Yields (contents b ++ bytes) b (take_in spare bytes b)
unfolding take_in
take_in-Yields {b} spare bytes v = elim (Bool-cases (leb (length bytes) (room b))) [
  | inr more ↦ overflow-Yields spare bytes v more
  | inl fits ↦ elim (Bool-cases (ltb (b.tail + length bytes) int_bound)) [
    | inl small ↦
        inl (extended bytes b, ground arith, extend-Holds bytes (Holds-refl v) (ground arith))
    | inr over ↦ inr (ground arith)
  ]
]

-- What `ReadFd` returns and leaves for each answer of `readv`: an error number changes nothing,
-- and bytes are all kept, in order.
abbrev pub Reads : Reading → Buffer → Result (Buffer × Received) → Type 0
Reads (failed e) b r = r ≡ ok (b, errno e)
Reads (delivered bytes) b r =
    ((b' : Buffer) × (r ≡ ok (b', count (length bytes))) × Holds (contents b ++ bytes) b b')
    ⊎ (r ≡ err int_overflow)

-- On a valid buffer `ReadFd` does what `Reads` says: on an error it returns the error number and
-- leaves the buffer alone; otherwise it returns the number of bytes and appends all of them, also
-- when they did not fit in the free cells, or some size leaves `int`.
pub read_fd-Reads :
    {b : Buffer} (spare : ℕ) (answer : Reading)
    → IsValid b
    → Reads answer b (read_fd spare answer b)
unfolding read_fd
read_fd-Reads spare (failed e) v = refl
read_fd-Reads spare (delivered bytes) v = elim (take_in-Yields spare bytes v) [
  | inl (b', e, h) ↦ inl (b', rw e, h)
  | inr e ↦ inr (rw e)
]
