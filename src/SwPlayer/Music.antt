-- ===== src/SwPlayer/Music.antt =====
-- The music files of src/tools/swplayer/main.cc and their playlists. The maps are association lists,
-- in an order of their own. A path is the list of its components. `D` stands for `double`.
pub mod Names
pub mod Lists
pub mod Playlists
use anoii.Prelude.{
  ℕ, zero, suc, ◌+◌, ◌-◌, ◌*◌, ◌≤◌, ◌<◌, ◌≡◌, ◌≢◌, ◌↔◌, ◌⊎◌, inl, inr, refl, sym, ap, ◌∙◌, Bool,
  true, false, not, ◌&&◌, ◌||◌, Bool-cases, Option-cases, Option, none, some, List, [], ◌∷◌, ◌++◌,
  arith, ltb, leb, ◌==◌, if◌then◌else◌, length, take, drop, length-append, length-take, length-drop,
  Result, ok, err, Fault, assertion, out_of_bounds, thrown, aborted, assert, ◌>>=◌, ◌>>◌,
  bind-eq-ok,
}
use anoii.Buffer.{same_bytes}
use anoii.Http.Utils.{Bytes}
use anoii.Http.Response.{codes}

-- The field `name_` is never used.
pub record MusicInfo (D : Type 0) : Type 0 where
  pub path : List Bytes
  pub lufs : D

abbrev pub Map : Type 0 → Type 0
Map V = List (Bytes × V)

unfoldable pub lookup : {V : Type 0} → Bytes → Map V → Option V
unfolding same_bytes
lookup k [] = none
lookup k ((j, v) ∷ m) = if same_bytes j k then some v else lookup k m

-- A change of `m[k]`, which is made of `d` if it is not there.
unfoldable pub modify : {V : Type 0} → Bytes → V → (V → V) → Map V → Map V
unfolding same_bytes
modify k d f [] = (k, f d) ∷ []
modify k d f ((j, v) ∷ m) = if same_bytes j k then (j, f v) ∷ m else (j, v) ∷ modify k d f m

-- The last component, and the last one of the parent path.
unfoldable pub filename : List Bytes → Bytes
filename [] = []
filename (c ∷ []) = c
filename (c ∷ d ∷ cs) = filename (d ∷ cs)

unfoldable pub parent_name : List Bytes → Bytes
parent_name [] = []
parent_name (c ∷ []) = []
parent_name (c ∷ d ∷ []) = c
parent_name (c ∷ d ∷ e ∷ cs) = parent_name (d ∷ e ∷ cs)

-- A text from its last dot on, with what the rest has.
abbrev pub keep_dot : ℕ → Bytes → Option Bytes → Option Bytes
keep_dot c cs (some e) = some e
keep_dot c cs none = if c == b'.' then some (c ∷ cs) else none

unfoldable pub from_last_dot : Bytes → Option Bytes
from_last_dot [] = none
from_last_dot (c ∷ cs) = keep_dot c cs (from_last_dot cs)

abbrev pub or_empty : Option Bytes → Bytes
or_empty none = []
or_empty (some e) = e

-- `path.extension()`: a dot at the front of the name begins none.
unfoldable pub extension : Bytes → Bytes
unfolding from_last_dot same_bytes
extension [] = []
extension (c ∷ cs) = if same_bytes (c ∷ cs) (codes "..") then [] else or_empty (from_last_dot cs)

abbrev pub music_file_extensions : List Bytes
music_file_extensions =
    codes ".mp3" ∷ codes ".ogg" ∷ codes ".wav" ∷ codes ".aac" ∷ codes ".flac" ∷ []

unfoldable pub is_among : Bytes → List Bytes → Bool
unfolding same_bytes
is_among e [] = false
is_among e (x ∷ xs) = same_bytes x e || is_among e xs

-- What the file system lists below the search path.
pub record DirectoryEntry : Type 0 where
  pub path : List Bytes
  pub is_regular_file : Bool

unfoldable pub is_music : DirectoryEntry → Bool
unfolding extension is_among filename
is_music entry =
    entry.is_regular_file && is_among (extension (filename entry.path)) music_file_extensions

-- What an entry adds; `default_lufs` is 0.5.
unfoldable pub add_file : {D : Type 0} → D → DirectoryEntry → Map (MusicInfo D) → Map (MusicInfo D)
unfolding is_music filename modify
add_file default_lufs entry music =
    if is_music entry
    then modify (filename entry.path) (record { path = []; lufs = default_lufs })
        (λ info. record info { path = entry.path }) music
    else music

-- `GetAllMusicFile`.
unfoldable pub get_all_music_file :
    {D : Type 0} → D → List DirectoryEntry → Map (MusicInfo D) → Map (MusicInfo D)
unfolding add_file
get_all_music_file default_lufs [] music = music
get_all_music_file default_lufs (entry ∷ entries) music =
    get_all_music_file default_lufs entries (add_file default_lufs entry music)

-- The name of the playlist of all music, in UTF-8.
abbrev pub all_music : Bytes
all_music = 0xe6 ∷ 0x89 ∷ 0x80 ∷ 0xe6 ∷ 0x9c ∷ 0x89 ∷ 0xe9 ∷ 0x9f ∷ 0xb3 ∷ 0xe4 ∷ 0xb9 ∷ 0x90 ∷ []

abbrev pub append_name : Bytes → Bytes → Map (List Bytes) → Map (List Bytes)
append_name playlist name lists = modify playlist [] (λ names. names ++ name ∷ []) lists

-- `InitPlayList`.
unfoldable pub init_play_list :
    {D : Type 0} → Map (MusicInfo D) → Map (List Bytes) → Map (List Bytes)
unfolding modify parent_name
init_play_list [] lists = lists
init_play_list ((name, info) ∷ music) lists =
    init_play_list music
      (append_name all_music name (append_name (parent_name info.path) name lists))
