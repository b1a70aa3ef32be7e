-- ===== src/SwPlayer/Info.antt =====
-- `GetAllLufs` of src/tools/swplayer/main.cc: the parser of music.info. `stod` is `std::stod`.
pub mod RoundTrip
pub mod Trim
pub mod Collected
pub mod Loudness
use anoii.Prelude.{
  ℕ, zero, suc, ◌+◌, ◌-◌, ◌*◌, ◌≤◌, ◌<◌, ◌≡◌, ◌≢◌, ◌↔◌, ◌⊎◌, inl, inr, refl, sym, ap, ◌∙◌, Bool,
  true, false, not, ◌&&◌, ◌||◌, Bool-cases, Option-cases, Option, none, some, List, [], ◌∷◌, ◌++◌,
  arith, ltb, leb, ◌==◌, if◌then◌else◌, length, take, drop, length-append, length-take, length-drop,
  Result, ok, err, Fault, assertion, out_of_bounds, thrown, aborted, assert, ◌>>=◌, ◌>>◌,
  bind-eq-ok,
}
use anoii.Http.Utils.{Bytes}
use anoii.Http.Query.{Fields, find_field, emplace, split_at}
use anoii.Http.Response.{codes}
use anoii.SwPlayer.Music.{MusicInfo, Map, modify}

-- The lines that `std::getline` gives: a last one without an end is one too.
unfoldable pub add_to_line : ℕ → List Bytes → List Bytes
add_to_line c [] = (c ∷ []) ∷ []
add_to_line c (l ∷ ls) = (c ∷ l) ∷ ls

unfoldable pub lines : Bytes → List Bytes
unfolding add_to_line
lines [] = []
lines (c ∷ cs) = let rest = lines cs in if c == b'\n' then [] ∷ rest else add_to_line c rest

unfoldable pub trim_front : Bytes → Bytes
trim_front [] = []
trim_front (c ∷ cs) = let rest = trim_front cs in if c == b' ' then rest else c ∷ cs

unfoldable pub trim_back : Bytes → Bytes
trim_back [] = []
trim_back (c ∷ cs) = elim (trim_back cs) [
  | [] ↦ if c == b' ' then [] else c ∷ []
  | d ∷ ds ↦ c ∷ d ∷ ds
]

abbrev pub unless_empty : Bytes → Bytes → Bytes
unless_empty [] value = value
unless_empty (c ∷ cs) value = c ∷ cs

-- Spaces are taken off both ends, unless there is nothing else.
unfoldable pub trim : Bytes → Bytes
unfolding trim_front trim_back
trim value = unless_empty (trim_back (trim_front value)) value

-- One line of a block, by what stands behind its colon.
unfoldable pub add_field : Bytes → Option Bytes → Fields → Fields
unfolding trim emplace
add_field key none block = block
add_field key (some value) block = emplace key (trim value) block

module _ {D : Type 0} (stod : Bytes → Result D) (default_lufs : D) where
  unfoldable pub set_lufs : Bytes → D → Map (MusicInfo D) → Map (MusicInfo D)
  unfolding modify
  set_lufs name x music =
      modify name (record { path = []; lufs = default_lufs }) (λ info. record info { lufs = x })
        music

  -- The end of a block.
  unfoldable pub close_block : Bytes → Option Bytes → Map (MusicInfo D) → Result (Map (MusicInfo D))
  unfolding set_lufs
  close_block name none music = ok music
  close_block name (some value) music = do x ← stod value; ok (set_lufs name x music)

  -- The loop over the lines, with the name of the block, empty for none, and its fields.
  unfoldable pub read_lines :
      List Bytes → Bytes → Fields → Map (MusicInfo D) → Result (Map (MusicInfo D))
  unfolding close_block find_field add_field split_at
  read_lines [] [] block music = ok music
  read_lines [] (c ∷ cs) block music = close_block (c ∷ cs) (find_field (codes "lufs") block) music
  read_lines ([] ∷ ls) name block music = do
    music ← close_block name (find_field (codes "lufs") block) music
    read_lines ls [] [] music
  read_lines ((x ∷ xs) ∷ ls) [] block music = read_lines ls (x ∷ xs) block music
  read_lines ((x ∷ xs) ∷ ls) (c ∷ cs) block music =
      let (key, value) = split_at b':' (x ∷ xs) in
      read_lines ls (c ∷ cs) (add_field key value block) music

  -- `none` is a file that cannot be opened.
  unfoldable pub get_all_lufs : Option Bytes → Map (MusicInfo D) → Result (Map (MusicInfo D))
  unfolding read_lines lines
  get_all_lufs none music = ok music
  get_all_lufs (some text) music = read_lines (lines text) [] [] music
