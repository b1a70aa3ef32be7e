-- ===== src/Http/Utils/Strip.antt =====
-- `strip` against its specification, and where it reads outside its view.
use mathlib.Core.List.{reverse, reverse-append, reverse-reverse, reverse-cons}
use anoii.Prelude.{
  ℕ, ◌≡◌, refl, sym, ap, ◌∙◌, inl, inr, [], ◌∷◌, ◌++◌, true, false, Bool-cases, Result, ok, err,
  out_of_bounds,
}
use anoii.Http.Utils.{Bytes, isspace, strip_front, strip_back, strip}

abbrev pub AllSpace : Bytes → Type 0
AllSpace [] = Unit {0}
AllSpace (c ∷ cs) = (isspace c ≡ true) × AllSpace cs

AllSpace-append : (xs ys : Bytes) → AllSpace xs → AllSpace ys → AllSpace (xs ++ ys)
AllSpace-append [] ys a b = b
AllSpace-append (x ∷ xs) ys a b = (a.0, AllSpace-append xs ys a.1 b)

AllSpace-reverse : (xs : Bytes) → AllSpace xs → AllSpace (reverse xs)
AllSpace-reverse [] a = a
AllSpace-reverse (x ∷ xs) a =
    rw (reverse-cons x xs)
      (AllSpace-append (reverse xs) (x ∷ []) (AllSpace-reverse xs a.1) (a.0, tt))

-- What `strip_front` leaves, if there is something to leave.
data Leads (sv : Bytes) (r : Result Bytes) : Type 0 where
  blank : AllSpace sv → r ≡ err out_of_bounds → Leads sv r
  inked :
      (spaces : Bytes) (c : ℕ) (cs : Bytes)
      → sv ≡ spaces ++ c ∷ cs
      → AllSpace spaces
      → isspace c ≡ false
      → r ≡ ok (c ∷ cs)
      → Leads sv r

strip_front-Leads : (sv : Bytes) → Leads sv (strip_front sv)
unfolding strip_front
strip_front-Leads [] = blank tt refl
strip_front-Leads (c ∷ cs) = elim (Bool-cases (isspace c)) [
  | inr ink ↦ inked [] c cs refl tt ink (rw ink refl)
  | inl space ↦ elim (strip_front-Leads cs) [
    | blank a e ↦ blank (space, a) (rw space e)
    | inked s d ds e a n r ↦ inked (c ∷ s) d ds (ap (λ l. c ∷ l) e) (space, a) n (rw space r)
  ]
]

-- A text whose first and last byte are no spaces.
pub record IsInked (text : Bytes) : Type 0 where
  pub first : ℕ
  pub rest : Bytes
  pub starts : text ≡ first ∷ rest
  pub first_ink : isspace first ≡ false
  pub last : ℕ
  pub before : Bytes
  pub ends : text ≡ before ++ last ∷ []
  pub last_ink : isspace last ≡ false

-- What `strip` answers: the text between the spaces, or a read outside a text of spaces only.
pub data Strips (sv : Bytes) (r : Result Bytes) : Type 0 where
  blank : AllSpace sv → r ≡ err out_of_bounds → Strips sv r
  between :
      (left text right : Bytes)
      → sv ≡ left ++ (text ++ right)
      → AllSpace left
      → AllSpace right
      → IsInked text
      → r ≡ ok text
      → Strips sv r

first_of_prefix :
    (xs ys : Bytes) (c d : ℕ) (cs : Bytes)
    → c ∷ cs ≡ (xs ++ d ∷ []) ++ ys
    → (rest : Bytes) × (xs ++ d ∷ [] ≡ c ∷ rest)
first_of_prefix [] ys c d cs e = ([], cc)
first_of_prefix (x ∷ xs) ys c d cs e = (xs ++ d ∷ [], cc)

not_blank : (c : ℕ) (cs : Bytes) → isspace c ≡ false → ¬ AllSpace (c ∷ cs)
not_blank c cs ink a = cc (a.0, ink)

back-Strips :
    (c : ℕ) (cs : Bytes)
    → isspace c ≡ false
    → (text right : Bytes) × (c ∷ cs ≡ text ++ right)
      × AllSpace right
      × IsInked text
      × (strip_back (c ∷ cs) ≡ ok text)
unfolding strip_back
back-Strips c cs ink = elim (strip_front-Leads (reverse (c ∷ cs))) [
  | blank a e ↦ absurd (
      not_blank c cs ink (rw (reverse-reverse (c ∷ cs)) at (AllSpace-reverse (reverse (c ∷ cs)) a)))
  | inked s d ds e a n r ↦
      let whole : c ∷ cs ≡ reverse (d ∷ ds) ++ reverse s =
        sym (reverse-reverse (c ∷ cs)) ∙ ap reverse e ∙ reverse-append s (d ∷ ds) in
      let last : reverse (d ∷ ds) ≡ reverse ds ++ d ∷ [] = reverse-cons d ds in
      let (rest, starts) = first_of_prefix (reverse ds) (reverse s) c d cs (rw last at whole) in
      (
        reverse (d ∷ ds),
        reverse s,
        whole,
        AllSpace-reverse s a,
        record {
          first = c;
          rest = rest;
          starts = last ∙ starts;
          first_ink = ink;
          last = d;
          before = reverse ds;
          ends = last;
          last_ink = n;
        },
        rw r refl,
      )
]

-- `strip` takes the spaces off both ends of a text that has another byte, and reads outside a text
-- that has none, the empty one included.
strip-Strips : (sv : Bytes) → Strips sv (strip sv)
unfolding strip
strip-Strips sv = elim (strip_front-Leads sv) [
  | blank a e ↦ blank a (rw e refl)
  | inked s c cs e a n r ↦
      let (text, right, whole, spaces, ink, back) = back-Strips c cs n in
      between s text right (e ∙ ap (λ l. s ++ l) whole) a spaces ink (rw r back)
]
