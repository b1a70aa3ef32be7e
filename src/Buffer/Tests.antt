-- ===== src/Buffer/Tests.antt =====
-- Runs of `Buffer`, and its theorems at concrete buffers.
use anoii.Prelude.{
  ◌≡◌, refl, ◌⊎◌, List, [], ◌∷◌, arith, true, none, some, ok, err, out_of_bounds, int_overflow,
  ◌>>=◌,
}
use anoii.Buffer.{
  Buffer, contents, init, append, prepend, start_with, first_of, contains, read_fd,
  ensure_writable_space, delivered,
}
use anoii.Buffer.Inv.{IsValid, Holds, append-Holds}
use anoii.Buffer.Fill.{Reads, read_fd-Reads}
use anoii.Buffer.Refine.{Call, appends, pops, shrinks, run, run_queue, view, run_refines}

-- Eight reserved cells, then the bytes 1 2 3, then one free cell.
abbrev three : Buffer
three = record {
  head = 8;
  tail = 11;
  prepend_size = 8;
  cells = 0 ∷ 0 ∷ 0 ∷ 0 ∷ 0 ∷ 0 ∷ 0 ∷ 0 ∷ 1 ∷ 2 ∷ 3 ∷ 0 ∷ [];
}

-- The bytes 1 2 3 behind two cells of which none is reserved any more.
abbrev late : Buffer
late = record { head = 2; tail = 5; prepend_size = 0; cells = 0 ∷ 0 ∷ 1 ∷ 2 ∷ 3 ∷ 0 ∷ [] }

three-IsValid : IsValid three
three-IsValid = omega arith

late-IsValid : IsValid late
late-IsValid = omega arith

-- tests/buffer_test.cc: a header of eight bytes before seven.
header_test :
    (do
      b ← init 10 8
      b ← append 0 (1 ∷ 2 ∷ 3 ∷ 4 ∷ 5 ∷ 6 ∷ 7 ∷ []) b
      b ← prepend (11 ∷ 12 ∷ 13 ∷ 14 ∷ 15 ∷ 16 ∷ 17 ∷ 18 ∷ []) b
      ok (contents b))
    ≡ ok (11 ∷ 12 ∷ 13 ∷ 14 ∷ 15 ∷ 16 ∷ 17 ∷ 18 ∷ 1 ∷ 2 ∷ 3 ∷ 4 ∷ 5 ∷ 6 ∷ 7 ∷ [])
unfolding init append prepend ensure_writable_space
header_test = refl

-- A shorter header goes to a place before the vector.
short_header_test : prepend (11 ∷ []) three ≡ err out_of_bounds
unfolding prepend
short_header_test = refl

search_test :
    (first_of (2 ∷ 3 ∷ []) three ≡ some 1)
    × (first_of (3 ∷ 2 ∷ []) three ≡ none)
    × (contains 3 three ≡ true)
    × (start_with (1 ∷ 2 ∷ []) three ≡ true)
unfolding first_of contains start_with
search_test = (refl, refl, refl, refl)

append-Holds_example :
    (b' : Buffer) × (append 2 (4 ∷ 5 ∷ []) three ≡ ok b') × Holds (1 ∷ 2 ∷ 3 ∷ 4 ∷ 5 ∷ []) three b'
append-Holds_example = append-Holds 2 (4 ∷ 5 ∷ []) three-IsValid (omega arith) (omega arith)

read_fd-Reads_example :
    Reads (delivered (4 ∷ 5 ∷ [])) three (read_fd 0 (delivered (4 ∷ 5 ∷ [])) three)
read_fd-Reads_example = read_fd-Reads 0 (delivered (4 ∷ 5 ∷ [])) three-IsValid

abbrev script : List Call
script = appends 3 (4 ∷ 5 ∷ []) ∷ pops 2 ∷ shrinks ∷ pops 9 ∷ []

run_refines_example :
    (view (run script late) ≡ run_queue script (1 ∷ 2 ∷ 3 ∷ []))
    ⊎ (run script late ≡ err int_overflow)
run_refines_example = run_refines script late-IsValid (omega arith)
