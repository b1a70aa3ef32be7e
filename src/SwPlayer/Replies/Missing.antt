-- ===== src/SwPlayer/Replies/Missing.antt =====
-- Music of src/tools/swplayer/main.cc whose file is not there.
use anoii.Prelude.{
  ◌≡◌, inl, inr, refl, sym, ap, ◌∙◌, Bool-cases, Option, none, some, List, [], ◌∷◌, ◌++◌,
  if◌then◌else◌, Result, ok, err, thrown, ◌>>=◌,
}
use anoii.Buffer.{same_bytes}
use anoii.Buffer.Search.{same_bytes_refl}
use anoii.Http.Utils.{Bytes}
use anoii.Http.Query.{find_field}
use anoii.Http.Request.{HttpRequest, get}
use anoii.Http.Response.{codes, bad_request, make_response, OnDisk, no_file}
use anoii.SwPlayer.Music.{MusicInfo, Map, lookup, modify}
use anoii.SwPlayer.Info.{set_lufs, close_block, get_all_lufs}
use anoii.SwPlayer.Info.RoundTrip.{
  Block, print_info, AllPrintable, apply_all, get_all_lufs-apply_all,
}
use anoii.SwPlayer.Replies.{
  path_text, serve_music, serve_found, find_music, answer_music, get_music,
}

serve_music-thrown :
    (path : Bytes) (disk : OnDisk) → disk ≡ no_file → serve_music path disk ≡ err thrown
unfolding serve_music
serve_music-thrown path disk e = rw e refl

lookup-modify :
    {V : Type 0} (k : Bytes) (d : V) (f : V → V) (m : Map V)
    → lookup k m ≡ none
    → lookup k (modify k d f m) ≡ some (f d)
unfolding lookup modify
lookup-modify k d f [] h = ap (λ b. if b then some (f d) else none) (same_bytes_refl k)
lookup-modify k d f ((j, v) ∷ m) h = elim (Bool-cases (same_bytes j k)) [
  | inl same ↦ cc (same, h)
  | inr other ↦
      simp other
        (lookup-modify k d f m (ap (λ b. if b then some v else lookup k m) (sym other) ∙ h))
]

module _ {D : Type 0} (disk : List Bytes → OnDisk) where
  -- A GET for music that is in the map and whose path holds no file: the exception of
  -- `std::filesystem::file_size` leaves the handler, which has no catch, so no answer is made.
  get_music-thrown :
      (music : Map (MusicInfo D)) (req : HttpRequest) (name : Bytes) (info : MusicInfo D)
      → req.type ≡ get
      → find_field (codes "music-name") req.arguments ≡ some name
      → lookup name music ≡ some info
      → disk info.path ≡ no_file
      → get_music disk music req ≡ err thrown
  unfolding get_music
  get_music-thrown music req name info is_get asked found gone =
      ap (answer_music disk music req.arguments) is_get
      ∙ ap (find_music disk music) asked
      ∙ ap (serve_found name disk) found
      ∙ serve_music-thrown (path_text info.path) (disk info.path) gone

  close_block-new :
      (stod : Bytes → Result D) (default_lufs : D) (name value : Bytes) (x : D)
      (music : Map (MusicInfo D))
      → stod value ≡ ok x
      → close_block stod default_lufs name (some value) music
        ≡ ok (
            modify name
              (record { path = []; lufs = default_lufs })
              (λ info. record info { lufs = x })
              music)
  unfolding close_block set_lufs
  close_block-new stod default_lufs name value x music e = simp e

  -- A block of music.info for a name that no file has, with a number that `stod` takes, makes an entry
  -- with the empty path. A later GET for that name finds it, the path holds no file, and the exception
  -- of `std::filesystem::file_size` leaves the handler. Without the block the name is answered with a
  -- bad request.
  pub unknown_block :
      (stod : Bytes → Result D) (default_lufs : D) (music : Map (MusicInfo D)) (b : Block)
      (value : Bytes) (x : D) (req : HttpRequest)
      → AllPrintable (b ∷ [])
      → find_field (codes "lufs") b.fields ≡ some value
      → stod value ≡ ok x
      → lookup b.name music ≡ none
      → disk [] ≡ no_file
      → req.type ≡ get
      → find_field (codes "music-name") req.arguments ≡ some b.name
      → ((get_all_lufs stod default_lufs (some (print_info (b ∷ []))) music >>= λ m.
            get_music disk m req)
          ≡ err thrown)
        × (get_music disk music req
            ≡ ok (make_response bad_request (codes "Could not found " ++ b.name)))
  unfolding get_music
  unknown_block stod default_lufs music b value x req printable has number missing gone is_get
        asked =
      let made =
        modify b.name (record { path = []; lufs = default_lufs }) (λ info. record info { lufs = x })
          music in
      let close : Option Bytes → Result (Map (MusicInfo D)) =
        λ v. close_block stod default_lufs b.name v music >>= apply_all stod default_lufs [] in
      let read : get_all_lufs stod default_lufs (some (print_info (b ∷ []))) music ≡ ok made =
        get_all_lufs-apply_all stod default_lufs (b ∷ []) music printable
        ∙ ap close has
        ∙ ap (λ r. r >>= apply_all stod default_lufs [])
            (close_block-new stod default_lufs b.name value x music number) in
      (
        ap (λ r. r >>= λ m. get_music disk m req) read
            ∙ get_music-thrown made req b.name (record { path = []; lufs = x }) is_get asked
                (lookup-modify b.name (record { path = []; lufs = default_lufs })
                  (λ info. record info { lufs = x }) music missing)
                gone,
        ap (answer_music disk music req.arguments) is_get
            ∙ ap (find_music disk music) asked
            ∙ ap (serve_found b.name disk) missing,
      )
