-- ===== src/SwPlayer/Info/Loudness.antt =====
-- What a printed music.info stores, src/tools/swplayer/main.cc.
use anoii.Prelude.{
  ◌≡◌, refl, ap, ◌∙◌, Bool-cases, inl, inr, if◌then◌else◌, Option, none, some, List, [], ◌∷◌,
  Result, ok, err, ◌>>=◌,
}
use anoii.Buffer.{same_bytes}
use anoii.Http.Utils.{Bytes}
use anoii.Http.Query.{find_field}
use anoii.Http.Response.{codes}
use anoii.SwPlayer.Music.{MusicInfo, Map, modify}
use anoii.SwPlayer.Info.{close_block, set_lufs, get_all_lufs}
use anoii.SwPlayer.Info.RoundTrip.{
  Block, print_info, AllPrintable, apply_all, get_all_lufs-apply_all,
}

module _ {D : Type 0} (stod : Bytes → Result D) (default_lufs : D) where
  -- The map in which the loudness of a file is `x`, and nothing else changed. A file that is not there
  -- is made, without a path.
  abbrev pub with_lufs : Bytes → D → Map (MusicInfo D) → Map (MusicInfo D)
  with_lufs name x [] = (name, record { path = []; lufs = x }) ∷ []
  with_lufs name x ((key, info) ∷ m) =
      if same_bytes key name
      then (key, record { path = info.path; lufs = x }) ∷ m
      else (key, info) ∷ with_lufs name x m

  -- A value is the text of a number.
  abbrev pub stores : Bytes → Option Bytes → Map (MusicInfo D) → Result (Map (MusicInfo D))
  stores name none music = ok music
  stores name (some value) music = stod value >>= λ x. ok (with_lufs name x music)

  abbrev pub store_all : List Block → Map (MusicInfo D) → Result (Map (MusicInfo D))
  store_all [] music = ok music
  store_all (b ∷ bs) music =
      stores b.name (find_field (codes "lufs") b.fields) music >>= store_all bs

  set_lufs-eq :
      (name : Bytes) (x : D) (m : Map (MusicInfo D))
      → set_lufs stod default_lufs name x m ≡ with_lufs name x m
  unfolding set_lufs modify
  set_lufs-eq name x [] = refl
  set_lufs-eq name x ((key, info) ∷ m) = elim (Bool-cases (same_bytes key name)) [
    | inl here ↦ simp here
    | inr other ↦ simp other (ap (λ l. (key, info) ∷ l) (set_lufs-eq name x m))
  ]

  close_block-stores :
      (name : Bytes) (value : Option Bytes) (m : Map (MusicInfo D))
      → close_block stod default_lufs name value m ≡ stores name value m
  unfolding close_block
  close_block-stores name none m = refl
  close_block-stores name (some value) m = go (stod value)
    where
      go :
          (r : Result D)
          → (r >>= λ x. ok (set_lufs stod default_lufs name x m))
            ≡ (r >>= λ x. ok (with_lufs name x m))
      go (err f) = refl
      go (ok x) = ap ok (set_lufs-eq name x m)

  apply_all-store_all :
      (bs : List Block) (m : Map (MusicInfo D)) → apply_all stod default_lufs bs m ≡ store_all bs m
  apply_all-store_all [] m = refl
  apply_all-store_all (b ∷ bs) m =
      ap (λ r. r >>= apply_all stod default_lufs bs)
        (close_block-stores b.name (find_field (codes "lufs") b.fields) m)
      ∙ go (stores b.name (find_field (codes "lufs") b.fields) m) (λ m'. apply_all-store_all bs m')
    where
      go :
          (r : Result (Map (MusicInfo D)))
          → ((m' : Map (MusicInfo D)) → apply_all stod default_lufs bs m' ≡ store_all bs m')
          → (r >>= apply_all stod default_lufs bs) ≡ (r >>= store_all bs)
      go (err f) rest = refl
      go (ok m') rest = rest m'

  -- A printed file of blocks, each the name of a file and lines of a key, a colon, a space and a
  -- value, is read back block by block, in order: each block with a field lufs makes the number of
  -- the first one the loudness of its file, which is made without a path if it is not there, and
  -- changes nothing else; a number that `stod` refuses ends the reading. The names are not empty, no
  -- text has a line end, no key a colon, and no value is empty or begins or ends with a space.
  pub get_all_lufs-print_info :
      (bs : List Block) (music : Map (MusicInfo D))
      → AllPrintable bs
      → get_all_lufs stod default_lufs (some (print_info bs)) music ≡ store_all bs music
  get_all_lufs-print_info bs music h =
      get_all_lufs-apply_all stod default_lufs bs music h ∙ apply_all-store_all bs music
