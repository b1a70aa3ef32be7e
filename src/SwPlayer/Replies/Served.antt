-- ===== src/SwPlayer/Replies/Served.antt =====
-- The files that src/tools/swplayer/main.cc gives out.
use anoii.Prelude.{
  ◌≡◌, ◌⊎◌, inl, refl, ap, ◌∙◌, Option, none, some, List, [], ◌∷◌, Result, ok, err, bind-eq-ok,
}
use mathlib.Core.Path.{subst}
use anoii.Http.Utils.{Bytes}
use anoii.Http.Query.{Fields, find_field, split_at}
use anoii.Http.Request.{HttpRequest, RequestType, get, post, unknow}
use anoii.Http.Response.{
  codes, HttpResponse, OpenFile, OnDisk, no_file, closed, readable, file_response,
}
use anoii.SwPlayer.Music.{MusicInfo, Map, lookup, DirectoryEntry, get_all_music_file}
use anoii.SwPlayer.Music.Lists.{
  All, All-modify, All-lookup, Listed, Known, get_all_music_file-Known,
}
use anoii.SwPlayer.Info.{set_lufs, close_block, add_field, read_lines, lines, get_all_lufs}
use anoii.SwPlayer.Replies.{
  serve_found, answer_music, int_of, one_less, file_size, path_text, serve_music, find_music,
  get_music,
}

module _ {D : Type 0} (stod : Bytes → Result D) (default_lufs : D)
    (entries : List DirectoryEntry) where
  close_block-Known :
      (name : Bytes) (value : Option Bytes) (music : Map (MusicInfo D)) {m : Map (MusicInfo D)}
      → All (Known entries) music
      → close_block stod default_lufs name value music ≡ ok m
      → All (Known entries) m
  unfolding close_block set_lufs
  close_block-Known name none music h e = subst (All (Known entries)) (cc e) h
  close_block-Known name (some value) music h e =
      let (x, parsed, stored) = bind-eq-ok (stod value) _ e in
      subst (All (Known entries)) (cc stored) (
        All-modify (Known entries) name (record { path = []; lufs = default_lufs })
          (λ info. record info { lufs = x }) music (inl refl) (λ v k. k) h)

  read_lines-Known :
      (ls : List Bytes) (name : Bytes) (block : Fields) (music : Map (MusicInfo D))
      {m : Map (MusicInfo D)}
      → All (Known entries) music
      → read_lines stod default_lufs ls name block music ≡ ok m
      → All (Known entries) m
  unfolding read_lines
  read_lines-Known [] [] block music h e = subst (All (Known entries)) (cc e) h
  read_lines-Known [] (c ∷ cs) block music h e =
      close_block-Known (c ∷ cs) (find_field (codes "lufs") block) music h e
  read_lines-Known ([] ∷ ls) name block music h e =
      let (music', done, rest) =
        bind-eq-ok (close_block stod default_lufs name (find_field (codes "lufs") block) music) _
          e in
      read_lines-Known ls [] [] music'
        (close_block-Known name (find_field (codes "lufs") block) music h done) rest
  read_lines-Known ((x ∷ xs) ∷ ls) [] block music h e = read_lines-Known ls (x ∷ xs) block music h e
  read_lines-Known ((x ∷ xs) ∷ ls) (c ∷ cs) block music h e =
      let (key, value) = split_at b':' (x ∷ xs) in
      read_lines-Known ls (c ∷ cs) (add_field key value block) music h e

  get_all_lufs-Known :
      (info : Option Bytes) (music : Map (MusicInfo D)) {m : Map (MusicInfo D)}
      → All (Known entries) music
      → get_all_lufs stod default_lufs info music ≡ ok m
      → All (Known entries) m
  unfolding get_all_lufs
  get_all_lufs-Known none music h e = subst (All (Known entries)) (cc e) h
  get_all_lufs-Known (some text) music h e = read_lines-Known (lines text) [] [] music h e

-- An answer with a file has that of the disk.
file_response-file :
    (path : Bytes) (disk : OnDisk) {f : OpenFile}
    → (file_response path disk).file ≡ some f
    → disk ≡ readable f.remaining
unfolding file_response
file_response-file path no_file e = cc e
file_response-file path (closed size) e = cc e
file_response-file path (readable bytes) e = cc e

abbrev file_of : Result HttpResponse → Option OpenFile
file_of (ok resp) = resp.file
file_of (err x) = none

serve_music-file :
    (path : Bytes) (disk : OnDisk) {resp : HttpResponse} {f : OpenFile}
    → serve_music path disk ≡ ok resp
    → resp.file ≡ some f
    → disk ≡ readable f.remaining
unfolding serve_music
serve_music-file path disk e served =
    let (size, measured, rest) = bind-eq-ok (file_size disk) _ e in
    let (last, lessened, done) = bind-eq-ok (one_less (int_of size)) _ rest in
    file_response-file path disk (ap file_of done ∙ served)

no_file-made :
    {resp : HttpResponse} {f : OpenFile} (r : HttpResponse)
    → r.file ≡ none
    → ok r ≡ ok resp
    → resp.file ≡ some f
    → ⊥
no_file-made {f = f} r nothing e served =
    let same : r.file ≡ some f = ap file_of e ∙ served in cc (nothing, same)

-- A path that may be given out, and what it holds.
abbrev pub Serves : List DirectoryEntry → (List Bytes → OnDisk) → OpenFile → Type 0
Serves entries disk f =
    (path : List Bytes) × ((path ≡ []) ⊎ Listed path entries) × (disk path ≡ readable f.remaining)

module _ {D : Type 0} (entries : List DirectoryEntry) (disk : List Bytes → OnDisk) where
  serve_found-Serves :
      (name : Bytes) (info : Option (MusicInfo D)) {resp : HttpResponse} {f : OpenFile}
      → ((i : MusicInfo D) → info ≡ some i → Known entries i)
      → serve_found name disk info ≡ ok resp
      → resp.file ≡ some f
      → Serves entries disk f
  serve_found-Serves name none h e served = absurd (no_file-made _ refl e served)
  serve_found-Serves name (some info) h e served =
      (info.path, h info refl, serve_music-file (path_text info.path) (disk info.path) e served)

  find_music-Serves :
      (music : Map (MusicInfo D)) (name : Option Bytes) {resp : HttpResponse} {f : OpenFile}
      → All (Known entries) music
      → find_music disk music name ≡ ok resp
      → resp.file ≡ some f
      → Serves entries disk f
  find_music-Serves music none h e served = absurd (no_file-made _ refl e served)
  find_music-Serves music (some name) h e served =
      serve_found-Serves name (lookup name music)
        (λ i found. All-lookup (Known entries) name music h found) e served

  answer_music-Serves :
      (music : Map (MusicInfo D)) (arguments : Fields) (type : RequestType) {resp : HttpResponse}
      {f : OpenFile}
      → All (Known entries) music
      → answer_music disk music arguments type ≡ ok resp
      → resp.file ≡ some f
      → Serves entries disk f
  answer_music-Serves music arguments get h e served =
      find_music-Serves music (find_field (codes "music-name") arguments) h e served
  answer_music-Serves music arguments post h e served = absurd (no_file-made _ refl e served)
  answer_music-Serves music arguments unknow h e served = absurd (no_file-made _ refl e served)

  -- Whatever the file system lists and whatever music.info holds: an answer of /get_music that carries
  -- a file carries the bytes that the disk has at a path which is empty or was listed as that of a
  -- regular file whose name ends in one of the five extensions behind at least one byte. No name in a
  -- request leads to any other file.
  pub get_music-Serves :
      (stod : Bytes → Result D) (default_lufs : D) (info : Option Bytes) (req : HttpRequest)
      {music : Map (MusicInfo D)} {resp : HttpResponse} {f : OpenFile}
      → get_all_lufs stod default_lufs info (get_all_music_file default_lufs entries []) ≡ ok music
      → get_music disk music req ≡ ok resp
      → resp.file ≡ some f
      → Serves entries disk f
  unfolding get_music
  get_music-Serves stod default_lufs info req {music} read e served =
      answer_music-Serves music req.arguments req.type
        (get_all_lufs-Known stod default_lufs entries info
          (get_all_music_file default_lufs entries [])
          (get_all_music_file-Known default_lufs entries entries [] (λ p l. l) tt) read)
        e served
