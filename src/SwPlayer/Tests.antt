-- ===== src/SwPlayer/Tests.antt =====
-- The music server at a small directory, and its theorems there.
use anoii.Prelude.{
  map, ℕ, ◌-◌, ◌≡◌, inl, inr, refl, Bool, true, false, not, ◌&&◌, Bool-cases, none, some, List, [],
  ◌∷◌, ◌++◌, arith, leb, ◌==◌, if◌then◌else◌, Result, ok, err, thrown, ◌>>=◌,
}
use anoii.Http.Utils.{Bytes}
use anoii.Buffer.Search.{Lacks}
use anoii.Http.Query.{find_field}
use anoii.Http.Request.{HttpRequest, fresh, get}
use anoii.Http.Response.{
  file_response, codes, OnDisk, no_file, readable, decimal, bad_request, make_response,
}
use anoii.SwPlayer.Music.{
  parent_name, modify, MusicInfo, Map, lookup, DirectoryEntry, extension, get_all_music_file,
  all_music, init_play_list,
}
use anoii.SwPlayer.Music.Playlists.{names_in, init_play_list_lem}
use anoii.SwPlayer.Info.{set_lufs, close_block, trim, get_all_lufs}
use anoii.SwPlayer.Info.Trim.{IsClean}
use anoii.SwPlayer.Info.RoundTrip.{Block, AllPrintable}
use anoii.SwPlayer.Info.Loudness.{get_all_lufs-print_info}
use anoii.SwPlayer.Replies.{serve_music, list_music, get_music}
use anoii.SwPlayer.Replies.Json.{join, print_list, list_music_lem}
use anoii.SwPlayer.Replies.Missing.{unknown_block}
use anoii.SwPlayer.Replies.Served.{Serves, get_music-Serves}

-- A loudness of one digit.
abbrev stod : Bytes → Result ℕ
stod [] = err thrown
stod (c ∷ cs) = if leb b'0' c then ok (c - b'0') else err thrown

abbrev file : List Bytes → DirectoryEntry
file path = record { path = path; is_regular_file = true }

abbrev entries : List DirectoryEntry
entries =
    file (codes "m" ∷ codes "a.mp3" ∷ [])
    ∷ file (codes "m" ∷ codes "a.txt" ∷ [])
    ∷ file (codes "m" ∷ codes "n" ∷ codes "b.ogg" ∷ [])
    ∷ []

abbrev music : Map (MusicInfo ℕ)
music =
    (codes "a.mp3", record { path = codes "m" ∷ codes "a.mp3" ∷ []; lufs = 5 })
    ∷ (codes "b.ogg", record { path = codes "m" ∷ codes "n" ∷ codes "b.ogg" ∷ []; lufs = 5 })
    ∷ []

abbrev lists : Map (List Bytes)
lists =
    (codes "m", codes "a.mp3" ∷ [])
    ∷ (all_music, codes "a.mp3" ∷ codes "b.ogg" ∷ [])
    ∷ (codes "n", codes "b.ogg" ∷ [])
    ∷ []

listed : get_all_music_file 5 entries [] ≡ music
unfolding get_all_music_file
listed = refl

made_lists : init_play_list music [] ≡ lists
unfolding init_play_list modify parent_name
made_lists = refl

a_hidden_file : extension (codes ".mp3") ≡ []
unfolding extension
a_hidden_file = refl

both_ends : trim (codes " 7 ") ≡ codes "7"
unfolding trim
both_ends = refl

only_spaces : trim (codes "  ") ≡ codes "  "
unfolding trim
only_spaces = refl

init_play_list_lem_example :
    names_in all_music (init_play_list music []) ≡ codes "a.mp3" ∷ codes "b.ogg" ∷ []
unfolding lookup parent_name
init_play_list_lem_example = init_play_list_lem all_music music []

abbrev block : Bytes → Block
block name = record { name = name; fields = (codes "lufs", codes "7") ∷ [] }

abbrev one_digit : IsClean (codes "7")
one_digit = record {
  first = b'7';
  rest = [];
  starts = refl;
  no_space = omega arith;
  front = [];
  last = b'7';
  ends = refl;
  no_space_behind = omega arith;
}

-- Whether a text has no such byte.
abbrev is_absent : ℕ → Bytes → Bool
is_absent ch [] = true
is_absent ch (c ∷ cs) = not (c == ch) && is_absent ch cs

lacks : (ch : ℕ) (text : Bytes) → is_absent ch text ≡ true → Lacks ch text
lacks ch [] e = tt
lacks ch (c ∷ cs) e = elim (Bool-cases (c == ch)) [
  | inl same ↦ ground (arith, same)
  | inr other ↦ (ground (arith, other), lacks ch cs (ground (arith, other)))
]

fits : (c : ℕ) (cs : Bytes) → is_absent b'\n' (c ∷ cs) ≡ true → AllPrintable (block (c ∷ cs) ∷ [])
fits c cs e = (
  (
    ground arith,
    lacks b'\n' (c ∷ cs) e,
    (
      (
        lacks b':' (codes "lufs") refl,
        lacks b'\n' (codes "lufs") refl,
        lacks b'\n' (codes "7") refl,
        one_digit,
      ),
      tt,
    ),
  ),
  tt,
)

get_all_lufs-print_info_example :
    get_all_lufs stod 5 (some (codes "b.ogg\nlufs: 7\n\n")) music
    ≡ ok (
        (codes "a.mp3", record { path = codes "m" ∷ codes "a.mp3" ∷ []; lufs = 5 })
        ∷ (codes "b.ogg", record { path = codes "m" ∷ codes "n" ∷ codes "b.ogg" ∷ []; lufs = 7 })
        ∷ [])
unfolding close_block set_lufs modify find_field
get_all_lufs-print_info_example =
    get_all_lufs-print_info stod 5 (block (codes "b.ogg") ∷ []) music (fits _ _ refl)

abbrev asks : Bytes → HttpRequest
asks name = record fresh { type = get; arguments = (codes "music-name", name) ∷ [] }

list_music_lem_example :
    (list_music decimal 5 music lists (asks [])).buf
    ≡ codes "{" ++ (join (map (print_list decimal 5 music) lists) ++ codes "}")
list_music_lem_example = list_music_lem decimal 5 music lists (asks []) refl

abbrev disk : List Bytes → OnDisk
disk [] = no_file
disk (c ∷ []) = no_file
disk (c ∷ d ∷ cs) = readable (1 ∷ 2 ∷ 3 ∷ [])

unknown_block_example :
    ((get_all_lufs stod 5 (some (codes "c.mp3\nlufs: 7\n\n")) music >>= λ m.
    get_music disk m (asks (codes "c.mp3")))
      ≡ err thrown)
    × (get_music disk music (asks (codes "c.mp3"))
        ≡ ok (make_response bad_request (codes "Could not found c.mp3")))
unfolding lookup find_field
unknown_block_example =
    unknown_block disk stod 5 music (block (codes "c.mp3")) (codes "7") 7 (asks (codes "c.mp3"))
      (fits _ _ refl) refl refl refl refl refl refl

get_music-Serves_example : Serves entries disk (record { remaining = 1 ∷ 2 ∷ 3 ∷ []; eof = false })
unfolding get_all_lufs get_all_music_file get_music serve_music find_field lookup file_response
get_music-Serves_example =
    get_music-Serves entries disk stod 5 none (asks (codes "b.ogg")) refl refl refl
