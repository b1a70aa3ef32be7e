-- ===== src/SwPlayer/Info/RoundTrip.antt =====
-- Printed blocks of music.info, and what `GetAllLufs` of src/tools/swplayer/main.cc makes of them.
use anoii.Prelude.{
  ℕ, ◌≡◌, ◌≢◌, refl, sym, ap, ◌∙◌, false, Option, some, List, [], ◌∷◌, ◌++◌, arith, ◌==◌, Result,
  ok, err, ◌>>=◌,
}
use mathlib.Core.List.{append_assoc}
use anoii.Buffer.Search.{Lacks, Lacks-append}
use anoii.Http.Utils.{Bytes}
use anoii.Http.Query.{Fields, find_field, emplace, split_at}
use anoii.Http.Response.{codes}
use anoii.SwPlayer.Music.{MusicInfo, Map}
use anoii.SwPlayer.Info.{add_to_line, lines, add_field, close_block, read_lines, get_all_lufs}
use anoii.SwPlayer.Info.Trim.{IsClean, trim-IsClean}
use anoii.SwPlayer.Info.Collected.{collect, find_field-collect}

lines-append : (l rest : Bytes) → Lacks b'\n' l → lines (l ++ (b'\n' ∷ rest)) ≡ l ∷ lines rest
unfolding lines add_to_line
lines-append [] rest h = refl
lines-append (c ∷ cs) rest h =
    let other : (c == b'\n') ≡ false = ground (arith, h.0) in
    simp other (ap (add_to_line c) (lines-append cs rest h.1))

split_at-append :
    (key rest : Bytes) → Lacks b':' key → split_at b':' (key ++ (b':' ∷ rest)) ≡ (key, some rest)
unfolding split_at
split_at-append [] rest h = refl
split_at-append (c ∷ cs) rest h =
    let other : (c == b':') ≡ false = ground (arith, h.0) in
    simp (other, split_at-append cs rest h.1)

-- A block of the file: the name of a file, and its fields.
pub record Block : Type 0 where
  pub name : Bytes
  pub fields : Fields

abbrev pub print_fields : Fields → Bytes → Bytes
print_fields [] rest = rest
print_fields ((key, value) ∷ fields) rest =
    key ++ (b':' ∷ b' ' ∷ (value ++ (b'\n' ∷ print_fields fields rest)))

abbrev pub print_info : List Block → Bytes
print_info [] = []
print_info (b ∷ bs) = b.name ++ (b'\n' ∷ print_fields b.fields (b'\n' ∷ print_info bs))

abbrev pub ArePrintable : Fields → Type 0
ArePrintable [] = Unit {0}
ArePrintable ((key, value) ∷ fields) =
    (Lacks b':' key × Lacks b'\n' key × Lacks b'\n' value × IsClean value) × ArePrintable fields

abbrev pub AllPrintable : List Block → Type 0
AllPrintable [] = Unit {0}
AllPrintable (b ∷ bs) =
    ((b.name ≢ []) × Lacks b'\n' b.name × ArePrintable b.fields) × AllPrintable bs

lines_field :
    (key value rest : Bytes)
    → Lacks b'\n' key
    → Lacks b'\n' value
    → lines (key ++ (b':' ∷ b' ' ∷ (value ++ (b'\n' ∷ rest))))
      ≡ (key ++ (b':' ∷ b' ' ∷ value)) ∷ lines rest
lines_field key value rest hk hv =
    ap lines (sym (append_assoc key (b':' ∷ b' ' ∷ value) (b'\n' ∷ rest)))
    ∙ lines-append (key ++ (b':' ∷ b' ' ∷ value)) rest
        (Lacks-append b'\n' key (b':' ∷ b' ' ∷ value) hk (omega arith, (omega arith, hv)))

module _ {D : Type 0} (stod : Bytes → Result D) (default_lufs : D) where
  abbrev read : List Bytes → Bytes → Fields → Map (MusicInfo D) → Result (Map (MusicInfo D))
  read = read_lines stod default_lufs

  read_split :
      (c x : ℕ) (cs xs key value : Bytes) (ls : List Bytes) (block : Fields)
      (music : Map (MusicInfo D))
      → split_at b':' (x ∷ xs) ≡ (key, some (b' ' ∷ value))
      → IsClean value
      → read ((x ∷ xs) ∷ ls) (c ∷ cs) block music ≡ read ls (c ∷ cs) (emplace key value block) music
  unfolding read_lines add_field
  read_split c x cs xs key value ls block music e clean =
      ap (λ (p : Bytes × Option Bytes). read ls (c ∷ cs) (add_field p.0 p.1 block) music) e
      ∙ ap (λ v. read ls (c ∷ cs) (emplace key v block) music) (trim-IsClean clean)

  read_field :
      (c : ℕ) (cs key value : Bytes) (ls : List Bytes) (block : Fields) (music : Map (MusicInfo D))
      → Lacks b':' key
      → IsClean value
      → read ((key ++ (b':' ∷ b' ' ∷ value)) ∷ ls) (c ∷ cs) block music
        ≡ read ls (c ∷ cs) (emplace key value block) music
  read_field c cs [] value ls block music h clean =
      read_split c b':' cs (b' ' ∷ value) [] value ls block music
        (split_at-append [] (b' ' ∷ value) h) clean
  read_field c cs (k ∷ ks) value ls block music h clean =
      read_split c k cs (ks ++ (b':' ∷ b' ' ∷ value)) (k ∷ ks) value ls block music
        (split_at-append (k ∷ ks) (b' ' ∷ value) h) clean

  read_fields :
      (c : ℕ) (cs : Bytes) (fields block : Fields) (music : Map (MusicInfo D)) (rest : Bytes)
      → ArePrintable fields
      → read (lines (print_fields fields rest)) (c ∷ cs) block music
        ≡ read (lines rest) (c ∷ cs) (collect fields block) music
  read_fields c cs [] block music rest h = refl
  read_fields c cs ((key, value) ∷ fields) block music rest ((no_colon, hk, hv, clean), h) =
      ap (λ l. read l (c ∷ cs) block music) (lines_field key value (print_fields fields rest) hk hv)
      ∙ read_field c cs key value (lines (print_fields fields rest)) block music no_colon clean
      ∙ read_fields c cs fields (emplace key value block) music rest h

  -- What a block says: the loudness of its file is that of its first field of that name.
  abbrev pub apply_block : Block → Map (MusicInfo D) → Result (Map (MusicInfo D))
  apply_block b music =
      close_block stod default_lufs b.name (find_field (codes "lufs") b.fields) music

  abbrev pub apply_all : List Block → Map (MusicInfo D) → Result (Map (MusicInfo D))
  apply_all [] music = ok music
  apply_all (b ∷ bs) music = apply_block b music >>= apply_all bs

  read_end :
      (c : ℕ) (cs : Bytes) (fields : Fields) (music : Map (MusicInfo D)) (rest : Bytes)
      → read (lines (b'\n' ∷ rest)) (c ∷ cs) (collect fields []) music ≡ (
          close_block stod default_lufs (c ∷ cs) (find_field (codes "lufs") fields) music
          >>= read (lines rest) [] [])
  unfolding read_lines lines
  read_end c cs fields music rest =
      ap (λ v. close_block stod default_lufs (c ∷ cs) v music >>= read (lines rest) [] [])
        (find_field-collect (codes "lufs") fields [])

  bind-cong :
      (r : Result (Map (MusicInfo D))) {f g : Map (MusicInfo D) → Result (Map (MusicInfo D))}
      → ((m : Map (MusicInfo D)) → f m ≡ g m)
      → (r >>= f) ≡ (r >>= g)
  bind-cong (err x) h = refl
  bind-cong (ok m) h = h m

  read_name :
      (c : ℕ) (cs : Bytes) (ls : List Bytes) (music : Map (MusicInfo D))
      → read ((c ∷ cs) ∷ ls) [] [] music ≡ read ls (c ∷ cs) [] music
  unfolding read_lines
  read_name c cs ls music = refl

  read_block :
      (name : Bytes) (fields : Fields) (rest : Bytes) (music : Map (MusicInfo D))
      → name ≢ []
      → Lacks b'\n' name
      → ArePrintable fields
      → read (lines (name ++ (b'\n' ∷ print_fields fields (b'\n' ∷ rest)))) [] [] music ≡ (
          close_block stod default_lufs name (find_field (codes "lufs") fields) music
          >>= read (lines rest) [] [])
  read_block [] fields rest music ne l h = absurd (ne refl)
  read_block (c ∷ cs) fields rest music ne l h =
      ap (λ ls. read ls [] [] music) (lines-append (c ∷ cs) (print_fields fields (b'\n' ∷ rest)) l)
      ∙ read_name c cs (lines (print_fields fields (b'\n' ∷ rest))) music
      ∙ read_fields c cs fields [] music (b'\n' ∷ rest) h
      ∙ read_end c cs fields music rest

  read_info :
      (bs : List Block) (music : Map (MusicInfo D))
      → AllPrintable bs
      → read (lines (print_info bs)) [] [] music ≡ apply_all bs music
  read_info [] music h = unfold read_lines lines in refl
  read_info (b ∷ bs) music ((named, line, printable), h) =
      read_block b.name b.fields (print_info bs) music named line printable
      ∙ bind-cong (apply_block b music) (λ m. read_info bs m h)

  -- A printed file is read back block by block, each closed as the code closes it.
  pub get_all_lufs-apply_all :
      (bs : List Block) (music : Map (MusicInfo D))
      → AllPrintable bs
      → get_all_lufs stod default_lufs (some (print_info bs)) music ≡ apply_all bs music
  unfolding get_all_lufs
  get_all_lufs-apply_all bs music h = read_info bs music h
