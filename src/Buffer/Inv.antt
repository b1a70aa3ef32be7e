-- ===== src/Buffer/Inv.antt =====
-- The representation invariant of `Buffer`, and what the parts of `Append` do under it.
use anoii.Prelude.{
  ℕ, ◌+◌, ◌-◌, ◌≤◌, ◌<◌, ◌≡◌, refl, sym, ◌∙◌, ap, List, ◌++◌, arith, ltb, ◌==◌, ◌⊎◌, inl, inr, true,
  false, Bool-cases, length, replicate, splice, length-slice, length-splice, length-append,
  length-replicate, slice-splice, slice-append, slice-splice_end, Result, ok, err, int_bound,
  int_overflow,
}
use anoii.Buffer.{Buffer, contents, is_short, move_to, ensure_writable_space, append}

pub record IsValid (b : Buffer) : Type 0 where
  pub ordered : b.head ≤ b.tail
  pub in_cells : b.tail ≤ length b.cells
  pub reserved : b.prepend_size ≤ length b.cells

pub length-contents : {b : Buffer} → IsValid b → length (contents b) ≡ b.tail - b.head
length-contents {b} v = length-slice b.head (b.tail - b.head) b.cells (omega arith)

-- What a call leaves: a valid buffer that holds `bytes` and has the same reserve.
pub record Holds (bytes : List ℕ) (b : Buffer) (b' : Buffer) : Type 0 where
  pub valid : IsValid b'
  pub holds : contents b' ≡ bytes
  pub reserve : b'.prepend_size ≡ b.prepend_size
  -- Nothing but `Prepend` uses the reserve.
  pub aligned : b.prepend_size ≤ b.head → b'.prepend_size ≤ b'.head

pub Holds-refl : {b : Buffer} → IsValid b → Holds (contents b) b b
Holds-refl v = record { valid = v; holds = refl; reserve = refl; aligned = λ h. h }

abbrev moved : ℕ → Buffer → Buffer
moved index b = record b {
  head = index;
  tail = index + b.tail - b.head;
  cells = splice index (contents b) b.cells;
}

moved-Holds :
    {b : Buffer} (index : ℕ)
    → IsValid b
    → index + (b.tail - b.head) ≤ length b.cells
    → b.prepend_size ≤ index
    → Holds (contents b) b (moved index b)
moved-Holds {b} index v h i = record {
  valid = omega (arith, length-splice index (contents b) b.cells);
  holds =
      let e : index + b.tail - b.head - index ≡ length (contents b) =
        omega (arith, length-contents v) in
      rw e (slice-splice index (contents b) b.cells (omega (arith, length-contents v)));
  reserve = refl;
  aligned = λ _. i;
}

-- `MoveTo` in a vector whose size fits in `int`, with room for the bytes behind `index` keeps them, and starts them there.
pub move_to-Holds :
    {b : Buffer} (index : ℕ)
    → IsValid b
    → length b.cells < int_bound
    → index + (b.tail - b.head) ≤ length b.cells
    → b.prepend_size ≤ index
    → (b' : Buffer) × (move_to index b ≡ ok b')
      × Holds (contents b) b b'
      × (b'.head ≡ index)
      × (length b'.cells ≡ length b.cells)
unfolding move_to
move_to-Holds {b} index v small h i = elim (Bool-cases (b.head == index)) [
  | inl same ↦ (b, ground arith, Holds-refl v, ground arith, refl)
  | inr other ↦ (
    moved index b,
    ground (arith, length-contents v),
    moved-Holds index v h i,
    refl,
    length-splice index (contents b) b.cells,
  )
]

-- What `EnsureWritableSpace(size)` leaves: the same bytes, and room for `size` more.
pub record HasRoom (size : ℕ) (b : Buffer) (b' : Buffer) : Type 0 where
  pub kept : Holds (contents b) b b'
  pub room : b'.tail + size ≤ length b'.cells
  pub tail_bound : b'.tail ≤ b.tail + b.prepend_size

-- A call that keeps the bytes keeps their number.
size-Holds :
    {b b' : Buffer} → IsValid b → Holds (contents b) b b' → b'.tail - b'.head ≡ b.tail - b.head
size-Holds v k = sym (length-contents k.valid) ∙ ap length k.holds ∙ length-contents v

abbrev grown : ℕ → ℕ → Buffer → Buffer
grown spare size b = record b { cells = b.cells ++ replicate (size + b.tail + spare) 0 }

length-grown :
    (spare size : ℕ) (b : Buffer)
    → length (grown spare size b).cells ≡ length b.cells + (size + b.tail + spare)
length-grown spare size b = omega (
  arith,
  length-append b.cells (replicate (size + b.tail + spare) 0),
  length-replicate {A = ℕ} (size + b.tail + spare) 0,
)

grown-HasRoom : {b : Buffer} (spare size : ℕ) → IsValid b → HasRoom size b (grown spare size b)
grown-HasRoom {b} spare size v = record {
  kept = record {
    valid = omega (arith, length-grown spare size b);
    holds = slice-append b.head (b.tail - b.head) b.cells _ (omega arith);
    reserve = refl;
    aligned = λ h. h;
  };
  room = omega (arith, length-grown spare size b);
  tail_bound = omega arith;
}

slide-HasRoom :
    {b : Buffer} (spare size : ℕ)
    → IsValid b
    → ltb (length b.cells) int_bound ≡ true
    → is_short size b ≡ false
    → (b' : Buffer) × (ensure_writable_space spare size b ≡ ok b') × HasRoom size b b'
unfolding ensure_writable_space
slide-HasRoom {b} spare size v small enough =
    let fit : size + (b.tail - b.head) + b.prepend_size ≤ length b.cells = ground arith in
    let (b', e, k, h, l) =
      move_to-Holds b.prepend_size v (ground arith) (omega arith) (omega arith) in
    let same = size-Holds v k in
    (
      b',
      ground (arith, e),
      record {
        kept = k;
        room = omega (arith, k.valid.ordered);
        tail_bound = omega (arith, k.valid.ordered);
      },
    )

-- `EnsureWritableSpace`: it does its work, or some size leaves `int`.
pub ensure_writable_space-HasRoom :
    {b : Buffer} (spare size : ℕ)
    → IsValid b
    → ((b' : Buffer) × (ensure_writable_space spare size b ≡ ok b') × HasRoom size b b')
      ⊎ ((ensure_writable_space spare size b ≡ err int_overflow)
          × ((int_bound ≤ length b.cells) ⊎ (int_bound ≤ size + b.tail)))
unfolding ensure_writable_space
ensure_writable_space-HasRoom {b} spare size v =
    elim (Bool-cases (ltb (length b.cells) int_bound)) [
      | inr large ↦ inr (ground arith, ground arith)
      | inl small ↦ elim (Bool-cases (is_short size b)) [
        | inl short ↦ elim (Bool-cases (ltb (size + b.tail) int_bound)) [
          | inl fits ↦ inl (grown spare size b, ground arith, grown-HasRoom spare size v)
          | inr over ↦ inr (ground arith, ground arith)
        ]
        | inr enough ↦ inl (slide-HasRoom spare size v small enough)
      ]
    ]

abbrev pub extended : List ℕ → Buffer → Buffer
extended bytes r = record r { tail = r.tail + length bytes; cells = splice r.tail bytes r.cells }

-- Copying to the free cells at the tail.
pub extended-Holds :
    {r : Buffer} (bytes : List ℕ)
    → IsValid r
    → r.tail + length bytes ≤ length r.cells
    → Holds (contents r ++ bytes) r (extended bytes r)
extended-Holds {r} bytes v h = record {
  valid = omega (arith, length-splice r.tail bytes r.cells);
  holds =
      let e : r.head + (r.tail - r.head) ≡ r.tail = omega arith in
      let behind =
        slice-splice_end r.head (r.tail - r.head) (r.tail + length bytes - r.head) bytes r.cells
          (omega arith) (omega arith) in
      rw e at behind;
  reserve = refl;
  aligned = λ h. h;
}

-- How a call ends: it leaves a valid buffer with these bytes, or a size leaves `int`.
abbrev pub Yields : List ℕ → Buffer → Result Buffer → Type 0
Yields bytes b r = ((b' : Buffer) × (r ≡ ok b') × Holds bytes b b') ⊎ (r ≡ err int_overflow)

pub extend-Holds :
    {b r : Buffer} (bytes : List ℕ)
    → Holds (contents b) b r
    → r.tail + length bytes ≤ length r.cells
    → Holds (contents b ++ bytes) b (extended bytes r)
extend-Holds bytes h room =
    let k = extended-Holds bytes h.valid room in
    record {
      valid = k.valid;
      holds = k.holds ∙ ap (λ l. l ++ bytes) h.holds;
      reserve = h.reserve;
      aligned = h.aligned;
    }

-- `Append` puts the bytes behind those that were there.
pub append-Yields :
    {b : Buffer} (spare : ℕ) (bytes : List ℕ)
    → IsValid b
    → Yields (contents b ++ bytes) b (append spare bytes b)
unfolding append
append-Yields {b} spare bytes v = elim (ensure_writable_space-HasRoom spare (length bytes) v) [
  | inr (e, _) ↦ inr (rw (e, append))
  | inl (r, e, h) ↦ elim (Bool-cases (ltb (r.tail + length bytes) int_bound)) [
    | inl fits ↦ inl (extended bytes r, ground (arith, e, h.room), extend-Holds bytes h.kept h.room)
    | inr over ↦ inr (ground (arith, e, h.room))
  ]
]

-- With sizes that fit in `int`, `Append` succeeds.
pub append-Holds :
    {b : Buffer} (spare : ℕ) (bytes : List ℕ)
    → IsValid b
    → length b.cells < int_bound
    → b.tail + b.prepend_size + length bytes < int_bound
    → (b' : Buffer) × (append spare bytes b ≡ ok b') × Holds (contents b ++ bytes) b b'
unfolding append
append-Holds {b} spare bytes v small fits =
    elim (ensure_writable_space-HasRoom spare (length bytes) v) [
      | inr (_, over) ↦ absurd (omega arith)
      | inl (r, e, h) ↦ (
        extended bytes r,
        ground (arith, e, h.room, h.tail_bound),
        extend-Holds bytes h.kept h.room,
      )
    ]
