-- ===== src/SwPlayer/Replies.antt =====
-- The handlers of src/tools/swplayer/main.cc. `show` prints a loudness, as `fmt::format` does.
pub mod Json
pub mod Missing
pub mod Served
use anoii.Prelude.{
  int_overflow, negsuc, pos, ◌^◌, ◌%◌, ℤ, ℕ, zero, suc, ◌+◌, ◌-◌, ◌*◌, ◌≤◌, ◌<◌, ◌≡◌, ◌≢◌, ◌↔◌, ◌⊎◌,
  inl, inr, refl, sym, ap, ◌∙◌, Bool, true, false, not, ◌&&◌, ◌||◌, Bool-cases, Option-cases,
  Option, none, some, List, [], ◌∷◌, ◌++◌, arith, ltb, leb, ◌==◌, if◌then◌else◌, length, take, drop,
  length-append, length-take, length-drop, Result, ok, err, Fault, assertion, out_of_bounds, thrown,
  aborted, assert, ◌>>=◌, ◌>>◌, bind-eq-ok,
}
use anoii.Buffer.{same_bytes}
use anoii.Http.Utils.{Bytes}
use anoii.Http.Query.{Fields, find_field, assign}
use anoii.Http.Request.{HttpRequest, RequestType, get, post, unknow, content_length}
use anoii.Http.Response.{
  codes, decimal, HttpResponse, success, bad_request, internal_error, make_response, OnDisk,
  no_file, closed, readable, file_response,
}
use anoii.SwPlayer.Music.{MusicInfo, Map, lookup}

-- `GetLyric`: the answer is a response that no one has filled in.
unfoldable pub get_lyric : HttpRequest → HttpResponse
get_lyric req = elim req.type [
  | get ↦ make_response internal_error []
  | post ↦ make_response bad_request []
  | unknow ↦ make_response bad_request []
]

abbrev pub quote : Bytes
quote = b'"' ∷ []

module _ {D : Type 0} (show : D → Bytes) (default_lufs : D) where
  -- `music_[name].lufs_`.
  abbrev pub lufs_of : Bytes → Map (MusicInfo D) → D
  lufs_of name music = elim (lookup name music) [ none ↦ default_lufs | some info ↦ info.lufs ]

  unfoldable pub print_music : Map (MusicInfo D) → Bytes → Bytes
  print_music music name =
      codes "{"
      ++ (quote
          ++ (codes "lufs"
              ++ (quote
                  ++ (codes ":"
                      ++ (show (lufs_of name music)
                          ++ (codes ","
                              ++ (quote
                                  ++ (codes "name"
                                      ++ (quote
                                          ++ (codes ":"
                                              ++ (quote ++ (name ++ (quote ++ codes "}")))))))))))))

  -- The loop over the names of a playlist, with `count`.
  unfoldable pub print_names : Map (MusicInfo D) → ℕ → List Bytes → Bytes
  unfolding print_music
  print_names music count [] = []
  print_names music count (name ∷ names) =
      print_music music name
      ++ ((if count - 1 == 0 then [] else codes ",") ++ print_names music (count - 1) names)

  -- The loop over the playlists, with `playlist_count`.
  unfoldable pub print_playlists : Map (MusicInfo D) → ℕ → Map (List Bytes) → Bytes
  unfolding print_names
  print_playlists music count [] = []
  print_playlists music count ((playlist, names) ∷ lists) =
      quote
      ++ (playlist
          ++ (quote
              ++ (codes ":["
                  ++ (print_names music (length names) names
                      ++ (codes "]"
                          ++ ((if count - 1 == 0 then [] else codes ",")
                              ++ print_playlists music (count - 1) lists))))))

  unfoldable pub list_music : Map (MusicInfo D) → Map (List Bytes) → HttpRequest → HttpResponse
  unfolding print_playlists
  list_music music lists req = elim req.type [
    | get ↦
        make_response success
          (codes "{" ++ (print_playlists music (length lists) lists ++ codes "}"))
    | post ↦ make_response bad_request []
    | unknow ↦ make_response bad_request []
  ]

-- `static_cast<int>` of a size.
abbrev pub int_of : ℕ → ℤ
int_of size =
    let word = size % 2 ^ 32 in if ltb word (2 ^ 31) then pos word else negsuc (2 ^ 32 - 1 - word)

-- One less, which overflows at the least `int`.
abbrev pub one_less : ℤ → Result ℤ
one_less (pos zero) = ok (negsuc 0)
one_less (pos (suc n)) = ok (pos n)
one_less (negsuc n) = if n == 2 ^ 31 - 1 then err int_overflow else ok (negsuc (suc n))

abbrev pub print_int : ℤ → Bytes
print_int (pos n) = decimal n
print_int (negsuc n) = codes "-" ++ decimal (suc n)

-- `std::filesystem::file_size`, which throws if there is no file.
abbrev pub file_size : OnDisk → Result ℕ
file_size no_file = err thrown
file_size (closed size) = ok size
file_size (readable bytes) = ok (length bytes)

-- `disk` is what the path of the music holds.
unfoldable pub serve_music : Bytes → OnDisk → Result HttpResponse
unfolding file_response assign
serve_music filepath disk = do
  let resp = file_response filepath disk
  size ← file_size disk
  last ← one_less (int_of size)
  ok (record resp {
    status_code = success;
    headers = assign (codes "expires") (codes "0") (
        assign (codes "pragma") (codes "no-cache") (
          assign (codes "cache-control") (codes "no-store, no-cache, must-revalidate, max-age=0") (
            assign (codes "content-type") (codes "audio/mp3") (
              assign content_length (print_int (int_of size)) (
                assign (codes "accept-ranges")
                  (codes "bytes 0-" ++ (print_int last ++ (codes "/" ++ print_int (int_of size))))
                  resp.headers)))));
  })

-- The path of components, as a text.
unfoldable pub path_text : List Bytes → Bytes
path_text [] = []
path_text (c ∷ []) = c
path_text (c ∷ d ∷ cs) = c ++ (b'/' ∷ path_text (d ∷ cs))

-- What `music_` has under the name.
abbrev pub serve_found :
    {D : Type 0} → Bytes → (List Bytes → OnDisk) → Option (MusicInfo D) → Result HttpResponse
serve_found name disk none = ok (make_response bad_request (codes "Could not found " ++ name))
serve_found name disk (some info) = serve_music (path_text info.path) (disk info.path)

abbrev pub find_music :
    {D : Type 0} → (List Bytes → OnDisk) → Map (MusicInfo D) → Option Bytes → Result HttpResponse
find_music disk music none = ok (make_response bad_request (codes "Missing argument: music-name"))
find_music disk music (some name) = serve_found name disk (lookup name music)

abbrev pub answer_music :
    {D : Type 0}
    → (List Bytes → OnDisk)
    → Map (MusicInfo D)
    → Fields
    → RequestType
    → Result HttpResponse
answer_music disk music arguments get =
    find_music disk music (find_field (codes "music-name") arguments)
answer_music disk music arguments post = ok (make_response bad_request [])
answer_music disk music arguments unknow = ok (make_response bad_request [])

unfoldable pub get_music :
    {D : Type 0} → (List Bytes → OnDisk) → Map (MusicInfo D) → HttpRequest → Result HttpResponse
get_music disk music req = answer_music disk music req.arguments req.type
