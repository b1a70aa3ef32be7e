-- ===== src/StaticServer/Tests.antt =====
-- The file server on a small directory, and its theorems there.
use anoii.Prelude.{
  ◌≡◌, ◌⊎◌, inr, refl, true, false, none, some, List, [], ◌∷◌, ◌++◌, arith, if◌then◌else◌, length,
  ok, err, aborted,
}
use anoii.Buffer.{Buffer, contents, same_bytes, memmem}
use anoii.Buffer.Inv.{IsValid}
use anoii.Http.Utils.{Bytes}
use anoii.Http.Query.{clean_router, find_field, split_at}
use anoii.Http.Request.{get, fresh, crlf, parse_target}
use anoii.Http.Response.{codes, OnDisk, no_file, readable}
use anoii.Http.Server.{Served, read_cb, accepted}
use anoii.Http.Server.Routers.{Routers, find_router}
use anoii.Http.Server.Download.{flat, writes}
use anoii.StaticServer.{Entry, add_entries, init_static_server}
use anoii.StaticServer.Routes.{AreRelative, entry_at, handler_of, init_static_server_lem}
use anoii.StaticServer.Download.{head, static_download}

abbrev page : Entry
page = record { absolute_path = codes "/s/a"; relative_path = codes "a"; is_regular_file = true }

abbrev entries : List Entry
entries = record page { relative_path = codes "d"; is_regular_file = false } ∷ page ∷ []

abbrev disk : Bytes → OnDisk
disk path = if same_bytes path (codes "/s/a") then readable (codes "hi") else no_file

init_static_server_lem_example :
    ((true ≡ false) ⊎ (some entries ≡ none)
      → init_static_server disk true (some entries) ≡ err aborted)
    × ((es : List Entry)
        → true ≡ true
        → some entries ≡ some es
        → AreRelative es
        → (m : Routers) × (init_static_server disk true (some entries) ≡ ok m)
          × ((path : Bytes) → find_router path m ≡ handler_of disk none (entry_at path es)))
init_static_server_lem_example = init_static_server_lem disk true (some entries)

abbrev asking : Buffer
asking =
    let text = codes "GET /a HTTP/1.1" ++ (crlf ++ (crlf ++ codes "G")) in
    record { head = 0; tail = length text; prepend_size = 0; cells = text }

parsed :
    parse_target (codes "/a") (record fresh { type = get })
    ≡ ok (record fresh { type = get; router = codes "/a" }, true)
unfolding parse_target clean_router memmem split_at
parsed = refl

static_download_example :
    (c' : Served) × (b' : Buffer) × (read_cb 3
        (λ p. find_router p (add_entries disk entries []))
        accepted
        asking
      ≡ ok (some (c', b')))
    × IsValid b'
    × (contents b' ≡ codes "G")
    × (flat (writes 3 c').sent ≡ head 2 ++ codes "hi")
unfolding find_field same_bytes
static_download_example =
    static_download 3 3 disk entries page (codes "hi") (codes "/a") (codes "HTTP/1.1") (codes "G")
      (codes "/a") [] [] accepted (omega arith, (omega arith, tt)) refl refl (inr refl, refl)
      (omega arith) (omega arith)
      (record { ordered = omega arith; in_cells = omega arith; reserved = omega arith }) refl
      (omega arith) (omega arith) (omega arith) parsed tt
      (record { no_length = refl; no_encoding = refl })
