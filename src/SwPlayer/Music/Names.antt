-- ===== src/SwPlayer/Music/Names.antt =====
-- The names that src/tools/swplayer/main.cc takes for those of music.
use anoii.Prelude.{
  ℕ, ◌≡◌, ◌≢◌, ◌⊎◌, inl, inr, refl, sym, ap, ◌∙◌, true, ◌&&◌, ◌||◌, Bool-cases, Option-cases,
  Option, none, some, List, [], ◌∷◌, ◌++◌, ◌==◌, if◌then◌else◌,
}
use mathlib.Core.Path.{subst}
use anoii.Buffer.{same_bytes}
use anoii.Buffer.Search.{same_bytes_sound}
use anoii.Http.Utils.{Bytes}
use anoii.Http.Response.{codes}
use anoii.SwPlayer.Music.{
  from_last_dot, keep_dot, or_empty, extension, is_among, music_file_extensions, filename,
  DirectoryEntry, is_music,
}

-- A text of the list.
abbrev pub IsOneOf : Bytes → List Bytes → Type 0
IsOneOf e [] = ⊥
IsOneOf e (x ∷ xs) = (x ≡ e) ⊎ IsOneOf e xs

-- A name that ends in one of the extensions, behind at least one byte.
abbrev pub IsMusicName : Bytes → Type 0
IsMusicName name =
    (stem : Bytes) × (e : Bytes) × (name ≡ stem ++ e)
    × (stem ≢ [])
    × IsOneOf e music_file_extensions

-- The extension is the end of the text.
keep_dot-append :
    (c : ℕ) (cs : Bytes) (o : Option Bytes) (e : Bytes)
    → ((x : Bytes) → o ≡ some x → (before : Bytes) × (cs ≡ before ++ x))
    → keep_dot c cs o ≡ some e
    → (before : Bytes) × (c ∷ cs ≡ before ++ e)
keep_dot-append c cs (some x) e h is =
    let (before, there) = h x refl in
    let same : x ≡ e = cc is in (c ∷ before, ap (λ l. c ∷ l) there ∙ ap (λ l. c ∷ before ++ l) same)
keep_dot-append c cs none e h is = elim (Bool-cases (c == b'.')) [
  | inl dot ↦
      let same : c ∷ cs ≡ e = cc (ap (λ b. if b then some (c ∷ cs) else none) (sym dot) ∙ is) in
      ([], same)
  | inr other ↦ absurd (cc (ap (λ b. if b then some (c ∷ cs) else none) (sym other) ∙ is))
]

from_last_dot-append :
    (cs e : Bytes) → from_last_dot cs ≡ some e → (before : Bytes) × (cs ≡ before ++ e)
unfolding from_last_dot
from_last_dot-append [] e h = absurd (cc h)
from_last_dot-append (c ∷ cs) e h =
    keep_dot-append c cs (from_last_dot cs) e (λ x k. from_last_dot-append cs x k) h

is_among-IsOneOf : (e : Bytes) (xs : List Bytes) → is_among e xs ≡ true → IsOneOf e xs
unfolding is_among
is_among-IsOneOf e [] h = absurd (cc h)
is_among-IsOneOf e (x ∷ xs) h = elim (Bool-cases (same_bytes x e)) [
  | inl same ↦ inl (same_bytes_sound x e same)
  | inr other ↦ inr (is_among-IsOneOf e xs (ap (λ b. b || is_among e xs) (sym other) ∙ h))
]

-- No extension is empty.
IsOneOf-nil : IsOneOf [] music_file_extensions → ⊥
IsOneOf-nil (inl e) = cc e
IsOneOf-nil (inr (inl e)) = cc e
IsOneOf-nil (inr (inr (inl e))) = cc e
IsOneOf-nil (inr (inr (inr (inl e)))) = cc e
IsOneOf-nil (inr (inr (inr (inr (inl e))))) = cc e
IsOneOf-nil (inr (inr (inr (inr (inr h))))) = h

extension-IsMusicName :
    (name : Bytes) → IsOneOf (extension name) music_file_extensions → IsMusicName name
unfolding extension
extension-IsMusicName [] h = absurd (IsOneOf-nil h)
extension-IsMusicName (c ∷ cs) h = elim (Bool-cases (same_bytes (c ∷ cs) (codes ".."))) [
  | inl dots ↦ absurd (
      IsOneOf-nil (
        subst (λ x. IsOneOf x music_file_extensions)
          (ap (λ b. if b then [] else or_empty (from_last_dot cs)) dots) h))
  | inr other ↦
      let found : IsOneOf (or_empty (from_last_dot cs)) music_file_extensions =
        subst (λ x. IsOneOf x music_file_extensions)
          (ap (λ b. if b then [] else or_empty (from_last_dot cs)) other) h in
      elim (Option-cases (from_last_dot cs)) [
        | inl none_there ↦
            absurd (
              IsOneOf-nil
                (subst (λ o. IsOneOf (or_empty o) music_file_extensions) none_there found))
        | inr (e, there) ↦
            let (before, is) = from_last_dot-append cs e there in
            (
              c ∷ before,
              e,
              ap (λ l. c ∷ l) is,
              (λ empty. cc empty),
              subst (λ o. IsOneOf (or_empty o) music_file_extensions) there found,
            )
      ]
]

pub is_music-IsMusicName :
    (entry : DirectoryEntry)
    → is_music entry ≡ true
    → (entry.is_regular_file ≡ true) × IsMusicName (filename entry.path)
unfolding is_music
is_music-IsMusicName entry h = elim (Bool-cases entry.is_regular_file) [
  | inr other ↦ absurd (
      cc (
        ap (λ b. b && is_among (extension (filename entry.path)) music_file_extensions) (sym other)
        ∙ h))
  | inl regular ↦
      let among =
        ap (λ b. b && is_among (extension (filename entry.path)) music_file_extensions)
          (sym regular)
        ∙ h in
      (
        regular,
        extension-IsMusicName (filename entry.path)
            (is_among-IsOneOf (extension (filename entry.path)) music_file_extensions among),
      )
]
