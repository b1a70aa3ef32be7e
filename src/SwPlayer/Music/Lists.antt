-- ===== src/SwPlayer/Music/Lists.antt =====
-- Where the paths of the music map of src/tools/swplayer/main.cc come from.
use anoii.Prelude.{◌≡◌, ◌⊎◌, inl, inr, refl, true, Bool-cases, some, List, [], ◌∷◌, arith}
use mathlib.Core.Path.{subst}
use anoii.Buffer.{same_bytes}
use anoii.Http.Utils.{Bytes}
use anoii.SwPlayer.Music.Names.{IsMusicName, is_music-IsMusicName}
use anoii.SwPlayer.Music.{
  MusicInfo, Map, lookup, modify, filename, DirectoryEntry, is_music, add_file, get_all_music_file,
}

module _ {V : Type 0} (P : V → Type 0) where
  abbrev pub All : Map V → Type 0
  All [] = Unit {0}
  All ((k, v) ∷ m) = P v × All m

  pub All-modify :
      (k : Bytes) (d : V) (f : V → V) (m : Map V)
      → P (f d)
      → ((v : V) → P v → P (f v))
      → All m
      → All (modify k d f m)
  unfolding modify
  All-modify k d f [] new keep h = (new, tt)
  All-modify k d f ((j, v) ∷ m) new keep h = elim (Bool-cases (same_bytes j k)) [
    | inl same ↦ rw same (keep v h.0, h.1)
    | inr other ↦ rw other (h.0, All-modify k d f m new keep h.1)
  ]

  pub All-lookup : (k : Bytes) (m : Map V) {v : V} → All m → lookup k m ≡ some v → P v
  unfolding lookup
  All-lookup k [] h e = cc e
  All-lookup k ((j, w) ∷ m) {v} h e = elim (Bool-cases (same_bytes j k)) [
    | inl same ↦ subst P (ground (arith, same)) h.0
    | inr other ↦ All-lookup k m h.1 (ground (arith, other))
  ]

-- A path that the file system listed as that of a regular file, with such a name.
abbrev pub Listed : List Bytes → List DirectoryEntry → Type 0
Listed path [] = ⊥
Listed path (entry ∷ entries) =
    ((entry.path ≡ path) × (entry.is_regular_file ≡ true) × IsMusicName (filename path))
    ⊎ Listed path entries

-- The path of an entry of the map: a listed one, or that of a name that no file has.
abbrev pub Known : {D : Type 0} → List DirectoryEntry → MusicInfo D → Type 0
Known entries info = (info.path ≡ []) ⊎ Listed info.path entries

module _ {D : Type 0} (default_lufs : D) where
  add_file-Known :
      (all : List DirectoryEntry) (entry : DirectoryEntry) (music : Map (MusicInfo D))
      → (is_music entry ≡ true → Listed entry.path all)
      → All (Known all) music
      → All (Known all) (add_file default_lufs entry music)
  unfolding add_file
  add_file-Known all entry music listed h = elim (Bool-cases (is_music entry)) [
    | inr other ↦ rw other h
    | inl wanted ↦ rw wanted (
        All-modify (Known all) (filename entry.path) (record { path = []; lufs = default_lufs })
          (λ info. record info { path = entry.path }) music (inr (listed wanted))
          (λ v k. inr (listed wanted)) h)
  ]

  pub get_all_music_file-Known :
      (all entries : List DirectoryEntry) (music : Map (MusicInfo D))
      → ((path : List Bytes) → Listed path entries → Listed path all)
      → All (Known all) music
      → All (Known all) (get_all_music_file default_lufs entries music)
  unfolding get_all_music_file
  get_all_music_file-Known all [] music sub h = h
  get_all_music_file-Known all (entry ∷ entries) music sub h =
      get_all_music_file-Known all entries (add_file default_lufs entry music)
        (λ p l. sub p (inr l))
        (add_file-Known all entry music
          (λ wanted. sub entry.path (
            inl
              (refl, (is_music-IsMusicName entry wanted).0, (is_music-IsMusicName entry wanted).1)))
          h)
