-- ===== src/Buffer/Search.antt =====
-- The searches of `Buffer`: `StartWith`, `FirstOf` and `Contains`.
use anoii.Prelude.{
  ℕ, zero, suc, ◌-◌, ◌≤◌, ◌<◌, ◌≡◌, ◌≢◌, ◌↔◌, inl, inr, refl, sym, ap, ◌∙◌, true, false, Bool-cases,
  Option, none, some, List, [], ◌∷◌, ◌++◌, arith, ◌==◌, length, take, drop, length-append,
  take-append-drop,
}
use mathlib.Core.List.{Mem, mem-cons, not-mem-nil}
use mathlib.Core.Logic.Or
use mathlib.Core.Option
use mathlib.Core.Path.{subst}
use anoii.Buffer.{
  Buffer, contents, same_bytes, start_with, is_prefix, memmem, first_of, contains_in, contains,
}
use anoii.Buffer.Inv.{IsValid, length-contents}

-- `hay` begins with `needle`.
abbrev pub BeginsWith : List ℕ → List ℕ → Type 0
BeginsWith needle hay = (rest : List ℕ) × (hay ≡ needle ++ rest)

pub same_bytes_sound : (xs ys : List ℕ) → same_bytes xs ys ≡ true → xs ≡ ys
unfolding same_bytes
same_bytes_sound [] [] h = refl
same_bytes_sound [] (y ∷ ys) h = cc
same_bytes_sound (x ∷ xs) [] h = cc
same_bytes_sound (x ∷ xs) (y ∷ ys) h = ground (arith, same_bytes_sound xs ys)

pub same_bytes_refl : (xs : List ℕ) → same_bytes xs xs ≡ true
unfolding same_bytes
same_bytes_refl [] = refl
same_bytes_refl (x ∷ xs) = ground (arith, same_bytes_refl xs)

take-length_append : (xs ys : List ℕ) → take (length xs) (xs ++ ys) ≡ xs
take-length_append [] ys = refl
take-length_append (x ∷ xs) ys = ap (λ l. x ∷ l) (take-length_append xs ys)

-- On a valid buffer `StartWith` tells exactly whether the readable bytes begin with the given ones.
pub start_with_iff :
    {b : Buffer} (bytes : List ℕ)
    → IsValid b
    → (start_with bytes b ≡ true) ↔ BeginsWith bytes (contents b)
unfolding start_with
start_with_iff {b} bytes v = (there, back)
  where
    there : start_with bytes b ≡ true → BeginsWith bytes (contents b)
    there h =
        let same = same_bytes_sound bytes (take (length bytes) (contents b)) (ground arith) in
        (
          drop (length bytes) (contents b),
          sym (take-append-drop (length bytes) (contents b))
              ∙ ap (λ l. l ++ drop (length bytes) (contents b)) (sym same),
        )

    back : BeginsWith bytes (contents b) → start_with bytes b ≡ true
    back (rest, e) =
        let long : length bytes ≤ b.tail - b.head =
          omega (arith, length-contents v, ap length e, length-append bytes rest) in
        let t : take (length bytes) (contents b) ≡ bytes =
          ap (take (length bytes)) e ∙ take-length_append bytes rest in
        let s = same_bytes_refl bytes in ground (arith, ap (same_bytes bytes) t, s)

is_prefix_sound : (needle hay : List ℕ) → is_prefix needle hay ≡ true → BeginsWith needle hay
unfolding is_prefix
is_prefix_sound [] hay h = (hay, refl)
is_prefix_sound (x ∷ needle) [] h = cc
is_prefix_sound (x ∷ needle) (y ∷ hay) h =
    let (rest, e) = is_prefix_sound needle hay (ground arith) in
    let e' : x ≡ y = ground arith in (rest, cc)

is_prefix-append : (needle rest : List ℕ) → is_prefix needle (needle ++ rest) ≡ true
unfolding is_prefix
is_prefix-append [] rest = refl
is_prefix-append (x ∷ needle) rest = ground (arith, is_prefix-append needle rest)

-- `needle` stands in `hay` at index `i`.
abbrev pub OccursAt : List ℕ → List ℕ → ℕ → Type 0
OccursAt needle hay i = (i ≤ length hay) × BeginsWith needle (drop i hay)

-- What a search answers: the least index, or that there is none.
abbrev pub Finds : List ℕ → List ℕ → Option ℕ → Type 0
Finds needle hay none = (i : ℕ) → ¬ OccursAt needle hay i
Finds needle hay (some i) = OccursAt needle hay i × ((j : ℕ) → j < i → ¬ OccursAt needle hay j)

not-BeginsWith : (needle hay : List ℕ) → is_prefix needle hay ≡ false → ¬ BeginsWith needle hay
not-BeginsWith needle hay h (rest, e) =
    let t = is_prefix-append needle rest in let h' = ap (is_prefix needle) (sym e) ∙ h in cc (t, h')

Finds-later :
    (needle : List ℕ) (y : ℕ) (hay : List ℕ) (r : Option ℕ)
    → is_prefix needle (y ∷ hay) ≡ false
    → Finds needle hay r
    → Finds needle (y ∷ hay) (Option.map suc r)
Finds-later needle y hay none h f = nowhere
  where
    nowhere : (i : ℕ) → ¬ OccursAt needle (y ∷ hay) i
    nowhere zero (l, o) = not-BeginsWith needle (y ∷ hay) h o
    nowhere (suc i) (l, o) = f i (omega arith, o)
Finds-later needle y hay (some i) h f = ((omega arith, f.0.1), earlier)
  where
    earlier : (j : ℕ) → j < suc i → ¬ OccursAt needle (y ∷ hay) j
    earlier zero k (l, o) = not-BeginsWith needle (y ∷ hay) h o
    earlier (suc j) k (l, o) = f.1 j (omega arith) (omega arith, o)

pub memmem-Finds : (needle hay : List ℕ) → Finds needle hay (memmem needle hay)
unfolding memmem
memmem-Finds needle [] = elim (Bool-cases (is_prefix needle [])) [
  | inl h ↦ rw (h, memmem) ((omega arith, is_prefix_sound needle [] h), λ j k. absurd (omega arith))
  | inr h ↦ rw (h, memmem) (none_there h)
]
  where
    none_there : is_prefix needle [] ≡ false → (i : ℕ) → ¬ OccursAt needle [] i
    none_there h zero (l, o) = not-BeginsWith needle [] h o
    none_there h (suc i) (l, o) = absurd (omega arith)
memmem-Finds needle (y ∷ hay) = elim (Bool-cases (is_prefix needle (y ∷ hay))) [
  | inl h ↦
      rw (h, memmem)
        ((omega arith, is_prefix_sound needle (y ∷ hay) h), λ j k. absurd (omega arith))
  | inr h ↦
      rw (h, memmem) (Finds-later needle y hay (memmem needle hay) h (memmem-Finds needle hay))
]

-- A text that differs from a text differs from those that are the same.
pub same_bytes-apart :
    (j k p : List ℕ) → same_bytes j k ≡ true → same_bytes j p ≡ false → same_bytes p k ≡ false
same_bytes-apart j k p found other = elim (Bool-cases (same_bytes p k)) [
  | inr differs ↦ differs
  | inl same ↦
      let is_j : same_bytes j p ≡ true =
        subst (λ x. same_bytes j x ≡ true)
          (same_bytes_sound j k found ∙ sym (same_bytes_sound p k same)) (same_bytes_refl j) in
      cc (is_j, other)
]

-- `ch` is no byte of the text.
abbrev pub Lacks : ℕ → List ℕ → Type 0
Lacks ch [] = Unit {0}
Lacks ch (c ∷ cs) = (c ≢ ch) × Lacks ch cs

pub Lacks-append : (ch : ℕ) (xs ys : List ℕ) → Lacks ch xs → Lacks ch ys → Lacks ch (xs ++ ys)
Lacks-append ch [] ys hx hy = hy
Lacks-append ch (x ∷ xs) ys hx hy = (hx.0, Lacks-append ch xs ys hx.1 hy)

-- A pattern is found where it first can be: where its first byte first stands.
pub memmem-append :
    (c : ℕ) (needle before behind : List ℕ)
    → Lacks c before
    → memmem (c ∷ needle) (before ++ (c ∷ needle ++ behind)) ≡ some (length before)
unfolding memmem
memmem-append c needle [] behind l = rw (here) refl
  where
    here : is_prefix (c ∷ needle) (c ∷ needle ++ behind) ≡ true
    here = is_prefix-append (c ∷ needle) behind
memmem-append c needle (x ∷ before) behind l =
    ground (arith, memmem-append c needle before behind l.1)

pub memmem-absent : (c : ℕ) (needle hay : List ℕ) → Lacks c hay → memmem (c ∷ needle) hay ≡ none
unfolding memmem
memmem-absent c needle [] l = refl
memmem-absent c needle (x ∷ hay) l = ground (arith, memmem-absent c needle hay l.1)

-- `FirstOf` answers the least index, counted from the first readable byte, at which the pattern
-- stands in the readable bytes, and -1 exactly if it stands nowhere there.
first_of-Finds : (b : Buffer) (bytes : List ℕ) → Finds bytes (contents b) (first_of bytes b)
unfolding first_of
first_of-Finds b bytes = memmem-Finds bytes (contents b)

differs : {ch x : ℕ} (xs : List ℕ) → ch ≡ x → (x == ch) ≡ false → contains_in ch xs ≡ true
differs xs e h = absurd (ground arith)

contains_in_iff : (ch : ℕ) (xs : List ℕ) → (contains_in ch xs ≡ true) ↔ Mem ch xs
unfolding contains_in
contains_in_iff ch [] = (λ h. cc, λ m. absurd (not-mem-nil m))
contains_in_iff ch (x ∷ xs) = elim (Bool-cases (x == ch)) [
  | inl same ↦
      let e : ch ≡ x = ground arith in
      rw (same, contains_in) (λ h. mem-cons.1 (Or.inl e), λ m. refl)
  | inr other ↦
      let rest = contains_in_iff ch xs in
      rw (other, contains_in)
        (
          λ h. mem-cons.1 (Or.inr (rest.0 h)),
          λ m. Or.elim (hlevel) (mem-cons.0 m) (λ e. differs xs e other) rest.1,
        )
]

-- `Contains` tells exactly whether a byte is among the readable ones.
pub contains_iff : (b : Buffer) (ch : ℕ) → (contains ch b ≡ true) ↔ Mem ch (contents b)
unfolding contains
contains_iff b ch = contains_in_iff ch (contents b)
