-- ===== src/StaticServer.antt =====
-- src/tools/static_server/main.cc: a file server on top of the HTTP server. What the file system lists
-- below the directory is an argument, and so are the paths that it makes of an entry.
pub mod Routes
pub mod Download
mod Tests
use anoii.Prelude.{
  ℕ, zero, suc, ◌+◌, ◌-◌, ◌*◌, ◌≤◌, ◌<◌, ◌≡◌, ◌≢◌, ◌↔◌, ◌⊎◌, inl, inr, refl, sym, ap, ◌∙◌, Bool,
  true, false, not, ◌&&◌, ◌||◌, Bool-cases, Option-cases, Option, none, some, List, [], ◌∷◌, ◌++◌,
  arith, ltb, leb, ◌==◌, if◌then◌else◌, length, take, drop, length-append, length-take, length-drop,
  Result, ok, err, Fault, assertion, out_of_bounds, thrown, aborted, assert, ◌>>=◌, ◌>>◌,
  bind-eq-ok,
}
use anoii.Http.Utils.{Bytes}
use anoii.Http.Response.{OnDisk}
use anoii.Http.Server.Routers.{Routers, add_static_file}

-- A path below the base path.
pub record Entry : Type 0 where
  pub absolute_path : Bytes
  pub relative_path : Bytes
  pub is_regular_file : Bool

-- A slash stands in front of the relative path.
abbrev pub rooted : Bytes → Bytes
rooted [] = []
rooted (c ∷ cs) = if c == b'/' then c ∷ cs else b'/' ∷ c ∷ cs

unfoldable pub add_entry : (Bytes → OnDisk) → Entry → Routers → Routers
unfolding add_static_file
add_entry disk entry m =
    if entry.is_regular_file
    then add_static_file disk entry.absolute_path (rooted entry.relative_path) m
    else m

unfoldable pub add_entries : (Bytes → OnDisk) → List Entry → Routers → Routers
unfolding add_entry
add_entries disk [] m = m
add_entries disk (entry ∷ entries) m = add_entries disk entries (add_entry disk entry m)

-- The constructor. `none` is a walk that ends in an exception.
unfoldable pub init_static_server : (Bytes → OnDisk) → Bool → Option (List Entry) → Result Routers
unfolding add_entries
init_static_server disk false entries = err aborted
init_static_server disk true none = err aborted
init_static_server disk true (some entries) = ok (add_entries disk entries [])
