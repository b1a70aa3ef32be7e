-- ===== src/SwPlayer/Info/Collected.antt =====
-- The fields that `GetAllLufs` of src/tools/swplayer/main.cc collects in a block.
use anoii.Prelude.{
  ◌≡◌, inl, inr, refl, sym, ap, ◌∙◌, false, Bool-cases, Option, none, some, [], ◌∷◌, ◌++◌,
}
use mathlib.Core.List.{append-nil}
use mathlib.Core.Path.{subst}
use anoii.Buffer.{same_bytes}
use anoii.Buffer.Search.{same_bytes_sound}
use anoii.Http.Utils.{Bytes}
use anoii.Http.Query.{Fields, find_field, emplace}

find_field-missed :
    (k j v : Bytes) (m : Fields)
    → same_bytes j k ≡ false
    → find_field k m ≡ find_field k (m ++ (j, v) ∷ [])
unfolding find_field
find_field-missed k j v [] h = simp h
find_field-missed k j v ((i, w) ∷ m) h = elim (Bool-cases (same_bytes i k)) [
  | inl found ↦ simp found
  | inr missed ↦ simp missed (find_field-missed k j v m h)
]

-- A field that is emplaced is found where a field that is added behind is.
find_field-emplace :
    (k j v : Bytes) (m : Fields) → find_field k (emplace j v m) ≡ find_field k (m ++ (j, v) ∷ [])
unfolding find_field emplace
find_field-emplace k j v [] = refl
find_field-emplace k j v ((i, w) ∷ m) = elim (Bool-cases (same_bytes i j)) [
  | inl same ↦ elim (Bool-cases (same_bytes i k)) [
    | inl found ↦ simp (same, found)
    | inr missed ↦
        let apart : same_bytes j k ≡ false =
          subst (λ x. same_bytes x k ≡ false) (same_bytes_sound i j same) missed in
        simp (same, missed) (find_field-missed k j v m apart)
  ]
  | inr other ↦ elim (Bool-cases (same_bytes i k)) [
    | inl found ↦ simp (other, found)
    | inr missed ↦ simp (other, missed, find_field-emplace k j v m)
  ]
]

-- The fields of a block are collected in order.
abbrev pub collect : Fields → Fields → Fields
collect [] block = block
collect ((key, value) ∷ fields) block = collect fields (emplace key value block)

abbrev or_else : Option Bytes → Option Bytes → Option Bytes
or_else none y = y
or_else (some x) y = some x

or_else_assoc : (x y z : Option Bytes) → or_else (or_else x y) z ≡ or_else x (or_else y z)
or_else_assoc none y z = refl
or_else_assoc (some x) y z = refl

find_field-append :
    (k : Bytes) (m n : Fields) → find_field k (m ++ n) ≡ or_else (find_field k m) (find_field k n)
unfolding find_field
find_field-append k [] n = refl
find_field-append k ((i, w) ∷ m) n = elim (Bool-cases (same_bytes i k)) [
  | inl found ↦ simp found
  | inr missed ↦ simp missed (find_field-append k m n)
]

-- The first field of a name counts.
pub find_field-collect :
    (k : Bytes) (fields block : Fields)
    → find_field k (collect fields block) ≡ or_else (find_field k block) (find_field k fields)
find_field-collect k [] block =
    ap (find_field k) (sym (append-nil block)) ∙ find_field-append k block []
find_field-collect k ((j, v) ∷ fields) block =
    find_field-collect k fields (emplace j v block)
    ∙ ap (λ x. or_else x (find_field k fields))
        (find_field-emplace k j v block ∙ find_field-append k block ((j, v) ∷ []))
    ∙ or_else_assoc (find_field k block) (find_field k ((j, v) ∷ [])) (find_field k fields)
    ∙ ap (or_else (find_field k block)) (sym (find_field-append k ((j, v) ∷ []) fields))
