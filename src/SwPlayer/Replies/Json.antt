-- ===== src/SwPlayer/Replies/Json.antt =====
-- The list of music that src/tools/swplayer/main.cc prints.
use anoii.Prelude.{
  ℕ, suc, ◌-◌, ◌≡◌, refl, ap, ◌∙◌, false, List, [], ◌∷◌, ◌++◌, arith, ◌==◌, if◌then◌else◌, length,
  map,
}
use mathlib.Core.List.{append_assoc, append-nil}
use anoii.Http.Utils.{Bytes}
use anoii.Http.Request.{HttpRequest, get}
use anoii.Http.Response.{codes}
use anoii.SwPlayer.Music.{MusicInfo, Map}
use anoii.SwPlayer.Replies.{quote, print_music, print_names, print_playlists, list_music}

-- Texts with commas between them.
abbrev pub join : List Bytes → Bytes
join [] = []
join (x ∷ []) = x
join (x ∷ y ∷ ys) = x ++ (codes "," ++ join (y ∷ ys))

counted : (k : ℕ) → suc (suc k) - 1 ≡ suc k
counted k = omega arith

more_to_come : (k : ℕ) → ((suc k) == 0) ≡ false
more_to_come k = ground arith

module _ {D : Type 0} (show : D → Bytes) (default_lufs : D) where
  print_names-cons :
      (music : Map (MusicInfo D)) (count : ℕ) (n : Bytes) (names : List Bytes)
      → print_names show default_lufs music (suc (suc count)) (n ∷ names)
        ≡ print_music show default_lufs music n
          ++ (codes "," ++ print_names show default_lufs music (suc count) names)
  unfolding print_names
  print_names-cons music count n names =
      ap
        (λ k.
          print_music show default_lufs music n
          ++ ((if k == 0 then [] else codes ",") ++ print_names show default_lufs music k names))
        (counted count)
      ∙ ap
          (λ b.
            print_music show default_lufs music n
            ++ ((if b then [] else codes ",")
                ++ print_names show default_lufs music (suc count) names))
          (more_to_come count)

  print_names-last :
      (music : Map (MusicInfo D)) (n : Bytes)
      → print_names show default_lufs music 1 (n ∷ []) ≡ print_music show default_lufs music n
  unfolding print_names
  print_names-last music n = append-nil (print_music show default_lufs music n)

  print_names-join :
      (music : Map (MusicInfo D)) (names : List Bytes)
      → print_names show default_lufs music (length names) names
        ≡ join (map (print_music show default_lufs music) names)
  print_names-join music [] = unfold print_names in refl
  print_names-join music (n ∷ []) = print_names-last music n
  print_names-join music (n ∷ m ∷ names) =
      print_names-cons music (length names) n (m ∷ names)
      ∙ ap (λ l. print_music show default_lufs music n ++ (codes "," ++ l))
          (print_names-join music (m ∷ names))

  -- A playlist as a member of the object: its name, and the array of its music.
  abbrev pub print_list : Map (MusicInfo D) → Bytes × List Bytes → Bytes
  print_list music (playlist, names) =
      quote
      ++ (playlist
          ++ (quote
              ++ (codes ":["
                  ++ (join (map (print_music show default_lufs music) names) ++ codes "]"))))

  print_list-append :
      (music : Map (MusicInfo D)) (playlist : Bytes) (names : List Bytes) (rest : Bytes)
      → quote
          ++ (playlist
              ++ (quote
                  ++ (codes ":["
                      ++ (print_names show default_lufs music (length names) names
                          ++ (codes "]" ++ rest)))))
        ≡ print_list music (playlist, names) ++ rest
  print_list-append music playlist names rest =
      rw (print_names-join music names) (simp append_assoc)

  -- The end of a member, and the members behind it.
  abbrev behind : Map (MusicInfo D) → Map (List Bytes) → ℕ → Bytes
  behind music lists k =
      (if k == 0 then [] else codes ",") ++ print_playlists show default_lufs music k lists

  print_playlists-step :
      (music : Map (MusicInfo D)) (count : ℕ) (playlist : Bytes) (names : List Bytes)
      (lists : Map (List Bytes))
      → print_playlists show default_lufs music count ((playlist, names) ∷ lists)
        ≡ print_list music (playlist, names) ++ behind music lists (count - 1)
  unfolding print_playlists
  print_playlists-step music count playlist names lists =
      print_list-append music playlist names (behind music lists (count - 1))

  print_nothing : (music : Map (MusicInfo D)) → print_playlists show default_lufs music 0 [] ≡ []
  unfolding print_playlists
  print_nothing music = refl

  print_playlists-join :
      (music : Map (MusicInfo D)) (lists : Map (List Bytes))
      → print_playlists show default_lufs music (length lists) lists
        ≡ join (map (print_list music) lists)
  print_playlists-join music [] = unfold print_playlists in refl
  print_playlists-join music ((p, ns) ∷ []) =
      print_playlists-step music 1 p ns []
      ∙ ap (λ l. print_list music (p, ns) ++ l) (print_nothing music)
      ∙ append-nil (print_list music (p, ns))
  print_playlists-join music ((p, ns) ∷ m ∷ lists) =
      print_playlists-step music (length ((p, ns) ∷ m ∷ lists)) p ns (m ∷ lists)
      ∙ ap (λ k. print_list music (p, ns) ++ behind music (m ∷ lists) k) (counted (length lists))
      ∙ ap
          (λ b.
            print_list music (p, ns)
            ++ ((if b then [] else codes ",")
                ++ print_playlists show default_lufs music (length (m ∷ lists)) (m ∷ lists)))
          (more_to_come (length lists))
      ∙ ap (λ l. print_list music (p, ns) ++ (codes "," ++ l))
          (print_playlists-join music (m ∷ lists))

  -- The answer to a GET of the list is an object with a member for each playlist, whose value is the
  -- array of its music, with a comma between any two members and between any two elements and nowhere
  -- else: the counters of the loops place the commas right.
  pub list_music_lem :
      (music : Map (MusicInfo D)) (lists : Map (List Bytes)) (req : HttpRequest)
      → req.type ≡ get
      → (list_music show default_lufs music lists req).buf
        ≡ codes "{" ++ (join (map (print_list music) lists) ++ codes "}")
  unfolding list_music
  list_music_lem music lists req e =
      rw e (ap (λ l. codes "{" ++ (l ++ codes "}")) (print_playlists-join music lists))
