-- ===== src/StaticServer/Routes.antt =====
-- The routes of src/tools/static_server/main.cc.
use anoii.Prelude.{
  ◌≡◌, ◌≢◌, ◌⊎◌, arith, ◌==◌, inl, inr, refl, sym, ap, ◌∙◌, Bool, true, false, ◌&&◌, Bool-cases,
  Option, none, some, List, [], ◌∷◌, if◌then◌else◌, ok, err, aborted,
}
use anoii.Buffer.{same_bytes}
use anoii.Http.Utils.{Bytes}
use anoii.Http.Response.{OnDisk}
use anoii.Http.Server.{Handler}
use anoii.Http.Server.Routers.{
  add_router, Routers, find_router, add_static_file, static_router, static_handler,
  find_router-add_router,
}
use anoii.StaticServer.{Entry, rooted, add_entry, add_entries, init_static_server}

-- Where an entry is served.
abbrev pub route_of : Entry → Bytes
route_of entry = b'/' ∷ entry.relative_path

-- A relative path names something and does not begin with a slash.
abbrev pub IsRelative : Bytes → Type 0
IsRelative [] = ⊥
IsRelative (c ∷ cs) = c ≢ b'/'

abbrev pub AreRelative : List Entry → Type 0
AreRelative [] = Unit {0}
AreRelative (entry ∷ entries) = IsRelative entry.relative_path × AreRelative entries

static_router-rooted :
    (pathname path : Bytes) → IsRelative path → static_router pathname (rooted path) ≡ b'/' ∷ path
static_router-rooted pathname [] r = absurd r
static_router-rooted pathname (c ∷ cs) r =
    let other : (c == b'/') ≡ false = ground (arith, r) in simp other

abbrev pub serves : Bytes → Entry → Bool
serves path entry = entry.is_regular_file && same_bytes (route_of entry) path

-- The last entry that is served at a path.
abbrev pub later : Bytes → Entry → Option Entry → Option Entry
later path entry (some e) = some e
later path entry none = if serves path entry then some entry else none

abbrev pub entry_at : Bytes → List Entry → Option Entry
entry_at path [] = none
entry_at path (entry ∷ entries) = later path entry (entry_at path entries)

module _ (disk : Bytes → OnDisk) where
  abbrev pub handler_of : Option Handler → Option Entry → Option Handler
  handler_of before none = before
  handler_of before (some entry) = some (static_handler disk entry.absolute_path)

  picked :
      (before : Option Handler) (entry : Entry) (b : Bool)
      → (if b then some (static_handler disk entry.absolute_path) else before)
        ≡ handler_of before (if b then some entry else none)
  picked before entry true = refl
  picked before entry false = refl

  find_router-add_entry :
      (path : Bytes) (entry : Entry) (m : Routers)
      → IsRelative entry.relative_path
      → find_router path (add_entry disk entry m)
        ≡ handler_of (find_router path m) (if serves path entry then some entry else none)
  unfolding add_entry add_static_file
  find_router-add_entry path entry m relative =
      let here = same_bytes (route_of entry) path in
      let with_it = add_static_file disk entry.absolute_path (rooted entry.relative_path) m in
      let before = find_router path m in
      elim (Bool-cases entry.is_regular_file) [
        | inr other ↦
            ap (λ b. find_router path (if b then with_it else m)) other
            ∙ sym (ap (λ b. handler_of before (if b && here then some entry else none)) other)
        | inl regular ↦
            ap (λ b. find_router path (if b then with_it else m)) regular
            ∙ ap (λ k. find_router path (add_router k (static_handler disk entry.absolute_path) m))
                (static_router-rooted entry.absolute_path entry.relative_path relative)
            ∙ find_router-add_router path (route_of entry) (static_handler disk entry.absolute_path)
                m
            ∙ picked before entry here
            ∙ sym (ap (λ b. handler_of before (if b && here then some entry else none)) regular)
      ]

  handler_of-later :
      (path : Bytes) (entry : Entry) (before : Option Handler) (o : Option Entry)
      → handler_of (handler_of before (if serves path entry then some entry else none)) o
        ≡ handler_of before (later path entry o)
  handler_of-later path entry before none = refl
  handler_of-later path entry before (some e) = refl

  pub find_router-add_entries :
      (path : Bytes) (entries : List Entry) (m : Routers)
      → AreRelative entries
      → find_router path (add_entries disk entries m)
        ≡ handler_of (find_router path m) (entry_at path entries)
  unfolding add_entries
  find_router-add_entries path [] m h = refl
  find_router-add_entries path (entry ∷ entries) m h =
      find_router-add_entries path entries (add_entry disk entry m) h.1
      ∙ ap (λ h. handler_of h (entry_at path entries)) (find_router-add_entry path entry m h.0)
      ∙ handler_of-later path entry (find_router path m) (entry_at path entries)

  -- The server on a directory that can be walked answers a path with the last regular file below it
  -- whose relative path, with a slash in front, is that path, and has no route for any other path,
  -- where no relative path is empty or begins with a slash. On anything else it aborts.
  pub init_static_server_lem :
      (is_directory : Bool) (entries : Option (List Entry))
      → ((is_directory ≡ false) ⊎ (entries ≡ none)
          → init_static_server disk is_directory entries ≡ err aborted)
        × ((es : List Entry)
            → is_directory ≡ true
            → entries ≡ some es
            → AreRelative es
            → (m : Routers) × (init_static_server disk is_directory entries ≡ ok m)
              × ((path : Bytes) → find_router path m ≡ handler_of none (entry_at path es)))
  unfolding init_static_server find_router
  init_static_server_lem true (some es) = (
    λ bad. elim bad [ inl e ↦ absurd (cc e) | inr e ↦ absurd (cc e) ],
    λ es' yes is relative. (
      add_entries disk es [],
      refl,
      λ path.
          let same : es ≡ es' = cc is in
          find_router-add_entries path es [] (rw same relative)
          ∙ ap (λ l. handler_of none (entry_at path l)) same,
    ),
  )
  init_static_server_lem true none = (λ bad. refl, λ es yes is relative. absurd (cc is))
  init_static_server_lem false none = (λ bad. refl, λ es yes is relative. absurd (cc yes))
  init_static_server_lem false (some es) = (λ bad. refl, λ es' yes is relative. absurd (cc yes))
