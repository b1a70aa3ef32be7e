-- ===== src/SwPlayer/Music/Playlists.antt =====
-- The playlists that `InitPlayList` of src/tools/swplayer/main.cc makes.
use anoii.Prelude.{
  ◌≡◌, inl, inr, sym, ap, ◌∙◌, true, false, Bool-cases, Option, none, some, List, [], ◌∷◌, ◌++◌,
  if◌then◌else◌,
}
use mathlib.Core.List.{append_assoc, append-nil}
use mathlib.Core.Path.{subst}
use anoii.Buffer.{same_bytes}
use anoii.Buffer.Search.{same_bytes_sound, same_bytes-apart}
use anoii.Http.Utils.{Bytes}
use anoii.SwPlayer.Music.{
  MusicInfo, Map, lookup, modify, parent_name, all_music, append_name, init_play_list,
}

-- The names in a playlist.
abbrev pub names_of : Option (List Bytes) → List Bytes
names_of none = []
names_of (some names) = names

abbrev pub names_in : Bytes → Map (List Bytes) → List Bytes
names_in playlist lists = names_of (lookup playlist lists)

-- The names that go to a playlist: those of the files in the directory of that name, and all of them
-- for the playlist of all music.
abbrev pub names_for : {D : Type 0} → Bytes → Map (MusicInfo D) → List Bytes
names_for playlist [] = []
names_for playlist ((name, info) ∷ music) =
    (if same_bytes (parent_name info.path) playlist then name ∷ [] else [])
    ++ ((if same_bytes all_music playlist then name ∷ [] else []) ++ names_for playlist music)

-- What `names_in` finds at an entry, and behind it.
names_in-here :
    (k j : Bytes) (ns : List Bytes) (lists : Map (List Bytes))
    → same_bytes j k ≡ true
    → names_in k ((j, ns) ∷ lists) ≡ ns
unfolding lookup
names_in-here k j ns lists h = ap (λ b. names_of (if b then some ns else lookup k lists)) h

names_in-there :
    (k j : Bytes) (ns : List Bytes) (lists : Map (List Bytes))
    → same_bytes j k ≡ false
    → names_in k ((j, ns) ∷ lists) ≡ names_in k lists
unfolding lookup
names_in-there k j ns lists h = ap (λ b. names_of (if b then some ns else lookup k lists)) h

modify-here :
    (p j name : Bytes) (ns : List Bytes) (lists : Map (List Bytes))
    → same_bytes j p ≡ true
    → append_name p name ((j, ns) ∷ lists) ≡ (j, ns ++ name ∷ []) ∷ lists
unfolding modify
modify-here p j name ns lists h =
    ap (λ b. if b then (j, ns ++ name ∷ []) ∷ lists else (j, ns) ∷ append_name p name lists) h

modify-there :
    (p j name : Bytes) (ns : List Bytes) (lists : Map (List Bytes))
    → same_bytes j p ≡ false
    → append_name p name ((j, ns) ∷ lists) ≡ (j, ns) ∷ append_name p name lists
unfolding modify
modify-there p j name ns lists h =
    ap (λ b. if b then (j, ns ++ name ∷ []) ∷ lists else (j, ns) ∷ append_name p name lists) h

-- What is added for the key `k`.
abbrev added : Bytes → Bytes → Bytes → List Bytes
added k p name = if same_bytes p k then name ∷ [] else []

added-other : (k p name : Bytes) → same_bytes p k ≡ false → added k p name ≡ []
added-other k p name h = ap (λ b. if b then name ∷ [] else []) h

added-same : (k p name : Bytes) → same_bytes p k ≡ true → added k p name ≡ name ∷ []
added-same k p name h = ap (λ b. if b then name ∷ [] else []) h

names_in-append_name-nil : (k p name : Bytes) → names_in k (append_name p name []) ≡ added k p name
unfolding modify lookup
names_in-append_name-nil k p name = elim (Bool-cases (same_bytes p k)) [
  | inl same ↦ names_in-here k p (name ∷ []) [] same ∙ sym (added-same k p name same)
  | inr other ↦ names_in-there k p (name ∷ []) [] other ∙ sym (added-other k p name other)
]

module _ (k p name j : Bytes) (ns : List Bytes) (lists : Map (List Bytes)) where
  at_entry :
      same_bytes j p ≡ true
      → names_in k (append_name p name ((j, ns) ∷ lists))
        ≡ names_in k ((j, ns) ∷ lists) ++ added k p name
  at_entry same =
      let is_p : j ≡ p = same_bytes_sound j p same in
      ap (names_in k) (modify-here p j name ns lists same) ∙ elim (Bool-cases (same_bytes j k)) [
        | inl found ↦
            names_in-here k j (ns ++ name ∷ []) lists found
            ∙ ap (λ l. l ++ name ∷ []) (sym (names_in-here k j ns lists found))
            ∙ ap (λ l. names_in k ((j, ns) ∷ lists) ++ l)
                (sym (added-same k p name (subst (λ x. same_bytes x k ≡ true) is_p found)))
        | inr missed ↦
            names_in-there k j (ns ++ name ∷ []) lists missed
            ∙ sym (names_in-there k j ns lists missed)
            ∙ sym (append-nil (names_in k ((j, ns) ∷ lists)))
            ∙ ap (λ b. names_in k ((j, ns) ∷ lists) ++ b)
                (sym (added-other k p name (subst (λ x. same_bytes x k ≡ false) is_p missed)))
      ]

  behind_entry :
      same_bytes j p ≡ false
      → names_in k (append_name p name lists) ≡ names_in k lists ++ added k p name
      → names_in k (append_name p name ((j, ns) ∷ lists))
        ≡ names_in k ((j, ns) ∷ lists) ++ added k p name
  behind_entry other rest =
      ap (names_in k) (modify-there p j name ns lists other) ∙ elim (Bool-cases (same_bytes j k)) [
        | inl found ↦
            names_in-here k j ns (append_name p name lists) found
            ∙ sym (names_in-here k j ns lists found)
            ∙ sym (append-nil (names_in k ((j, ns) ∷ lists)))
            ∙ ap (λ b. names_in k ((j, ns) ∷ lists) ++ b)
                (sym (added-other k p name (same_bytes-apart j k p found other)))
        | inr missed ↦
            names_in-there k j ns (append_name p name lists) missed
            ∙ rest
            ∙ ap (λ l. l ++ added k p name) (sym (names_in-there k j ns lists missed))
      ]

names_in-append_name :
    (k p name : Bytes) (lists : Map (List Bytes))
    → names_in k (append_name p name lists) ≡ names_in k lists ++ added k p name
names_in-append_name k p name [] = unfold lookup in names_in-append_name-nil k p name
names_in-append_name k p name ((j, ns) ∷ lists) = elim (Bool-cases (same_bytes j p)) [
  | inl same ↦ at_entry k p name j ns lists same
  | inr other ↦ behind_entry k p name j ns lists other (names_in-append_name k p name lists)
]

module _ {D : Type 0} where
  -- `InitPlayList` appends to each playlist, in the order of the map, the names of the music whose
  -- directory has the name of the playlist, and to the playlist of all music every name; nothing that
  -- a playlist held is lost, and a directory with the name of that playlist has its music in it twice.
  pub init_play_list_lem :
      (k : Bytes) (music : Map (MusicInfo D)) (lists : Map (List Bytes))
      → names_in k (init_play_list music lists) ≡ names_in k lists ++ names_for k music
  unfolding init_play_list
  init_play_list_lem k [] lists = sym (append-nil (names_in k lists))
  init_play_list_lem k ((name, info) ∷ music) lists =
      let here = if same_bytes (parent_name info.path) k then name ∷ [] else [] in
      let everywhere = if same_bytes all_music k then name ∷ [] else [] in
      let pushed = append_name (parent_name info.path) name lists in
      init_play_list_lem k music (append_name all_music name pushed)
      ∙ ap (λ l. l ++ names_for k music)
          (names_in-append_name k all_music name pushed
            ∙ ap (λ l. l ++ everywhere) (names_in-append_name k (parent_name info.path) name lists))
      ∙ append_assoc (names_in k lists ++ here) everywhere (names_for k music)
      ∙ append_assoc (names_in k lists) here (everywhere ++ names_for k music)
