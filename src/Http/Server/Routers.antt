-- ===== src/Http/Server/Routers.antt =====
-- The routes and the connection callback of contrib/http/http_server.cc. The map of the routes is an
-- association list; `disk` is what the file system holds when a file is asked for.
use anoii.Prelude.{
  ◌≡◌, inl, inr, refl, ap, false, Bool-cases, Option, none, some, List, [], ◌∷◌, if◌then◌else◌,
}
use anoii.Buffer.{same_bytes}
use anoii.Buffer.Search.{same_bytes_sound, same_bytes-apart}
use anoii.Http.Utils.{Bytes}
use anoii.Http.Request.{fresh}
use anoii.Http.Response.{OnDisk}
use anoii.Http.Server.{Handler, Served, default_response, read_file_as_response}
use anoii.TcpConnection.{ConnState, connecting, established, half_shutdown, disconnected}

abbrev pub Routers : Type 0
Routers = List (Bytes × Handler)

unfoldable pub find_router : Bytes → Routers → Option Handler
unfolding same_bytes
find_router k [] = none
find_router k ((j, handler) ∷ m) = if same_bytes j k then some handler else find_router k m

-- `AddRouter`: a route that is there already changes its handler.
unfoldable pub add_router : Bytes → Handler → Routers → Routers
unfolding same_bytes
add_router k handler [] = (k, handler) ∷ []
add_router k handler ((j, old) ∷ m) =
    if same_bytes j k then (j, handler) ∷ m else (j, old) ∷ add_router k handler m

-- The route of a static file.
abbrev pub static_router : Bytes → Bytes → Bytes
static_router pathname [] = b'/' ∷ pathname
static_router pathname (c ∷ cs) = c ∷ cs

abbrev pub static_handler : (Bytes → OnDisk) → Bytes → Handler
static_handler disk pathname req = read_file_as_response pathname (disk pathname) req

-- `AddStaticFile`.
unfoldable pub add_static_file : (Bytes → OnDisk) → Bytes → Bytes → Routers → Routers
unfolding add_router
add_static_file disk pathname router m =
    add_router (static_router pathname router) (static_handler disk pathname) m

-- The callbacks of the user of the server.
pub data ServerCall : Type 0 where
  on_establish : ServerCall
  on_disconnect : ServerCall

-- `ConnCb`: a connection that is established gets a context of its own.
unfoldable pub conn_cb : ConnState → Served → Served × List ServerCall
conn_cb connecting c = (c, [])
conn_cb established c =
    (record c { request = fresh; response = default_response }, on_establish ∷ [])
conn_cb half_shutdown c = (c, [])
conn_cb disconnected c = (c, on_disconnect ∷ [])

-- The handler that was added last for a path is the one that answers it.
pub find_router-add_router :
    (k j : Bytes) (handler : Handler) (m : Routers)
    → find_router k (add_router j handler m)
      ≡ (if same_bytes j k then some handler else find_router k m)
unfolding find_router add_router
find_router-add_router k j handler [] = refl
find_router-add_router k j handler ((i, old) ∷ m) = elim (Bool-cases (same_bytes i j)) [
  | inl same ↦
      let is = same_bytes_sound i j same in
      let there : same_bytes i k ≡ same_bytes j k = ap (λ x. same_bytes x k) is in
      elim (Bool-cases (same_bytes j k)) [
        | inl found ↦ simp (same, there, found)
        | inr missed ↦ simp (same, there, missed)
      ]
  | inr other ↦ elim (Bool-cases (same_bytes i k)) [
    | inl found ↦
        let apart : same_bytes j k ≡ false = same_bytes-apart i k j found other in
        simp (other, found, apart)
    | inr missed ↦ simp (other, missed) (find_router-add_router k j handler m)
  ]
]
