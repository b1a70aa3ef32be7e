-- ===== src/Http/Query.antt =====
-- The fields of a request and the parts of its target, contrib/http/http_request.h and
-- http_request.cc.
-- The maps are association lists.
use mathlib.Core.Option
use anoii.Prelude.{
  ℕ, zero, suc, ◌+◌, Bool, true, false, ◌&&◌, Option, none, some, List, [], ◌∷◌, ltb, ◌==◌,
  if◌then◌else◌, length, take, drop, Result, ok, ◌>>=◌,
}
use anoii.Buffer.{memmem, same_bytes}
use anoii.Http.Utils.{Bytes, parse_percent_encoding}

abbrev pub Fields : Type 0
Fields = List (Bytes × Bytes)

unfoldable pub find_field : Bytes → Fields → Option Bytes
unfolding same_bytes
find_field k [] = none
find_field k ((j, v) ∷ m) = if same_bytes j k then some v else find_field k m

-- `m[k] = v`.
unfoldable pub assign : Bytes → Bytes → Fields → Fields
unfolding same_bytes
assign k v [] = (k, v) ∷ []
assign k v ((j, w) ∷ m) = if same_bytes j k then (j, v) ∷ m else (j, w) ∷ assign k v m

-- `m.emplace(k, v)`: a key that is there keeps its value.
unfoldable pub emplace : Bytes → Bytes → Fields → Fields
unfolding same_bytes
emplace k v [] = (k, v) ∷ []
emplace k v ((j, w) ∷ m) = if same_bytes j k then (j, w) ∷ m else (j, w) ∷ emplace k v m

-- A text up to the first `ch`, and what stands behind it if it is there.
unfoldable pub split_at : ℕ → Bytes → Bytes × Option Bytes
split_at ch [] = ([], none)
split_at ch (c ∷ cs) =
    let (before, behind) = split_at ch cs in if c == ch then ([], some cs) else (c ∷ before, behind)

abbrev value_of : Option Bytes → Bytes
value_of none = []
value_of (some v) = v

-- One `key=value` of the query; `none` is `return false`.
store_argument : Option Bytes → Option Bytes → Fields → Option Fields
store_argument (some k) (some v) args = some (assign k v args)
store_argument (some k) none args = none
store_argument none v args = none

pub argument : Bytes → Fields → Result (Option Fields)
unfolding store_argument
argument kv args = do
  let parts = split_at b'=' kv
  key ← parse_percent_encoding parts.0
  value ← parse_percent_encoding (value_of parts.1)
  ok (store_argument key value args)

-- Behind an argument: `return false`, the end of the query, or the next round behind the `&`.
unfoldable pub after_argument :
    (Bytes → Fields → Result (Fields × Bool))
    → Fields
    → Option Bytes
    → Option Fields
    → Result (Fields × Bool)
after_argument round args behind none = ok (args, false)
after_argument round args none (some args') = ok (args', true)
after_argument round args (some query) (some args') = round query args'

-- The loop over the query, with fuel: each round that goes on has taken a byte at least, so the
-- length of the query is enough.
unfoldable pub query_loop : ℕ → Bytes → Fields → Result (Fields × Bool)
unfolding argument after_argument
query_loop zero query args = ok (args, true)
query_loop (suc fuel) [] args = ok (args, true)
query_loop (suc fuel) (c ∷ cs) args = do
  let parts = split_at b'&' (c ∷ cs)
  r ← argument parts.0 args
  after_argument (query_loop fuel) args parts.1 r

-- The path of a target: `none` is `return false`. A target of the absolute form loses its scheme
-- and host.
unfoldable pub relative : Bytes → Option Bytes
relative router = elim (memmem (b'/' ∷ b'/' ∷ []) router) [
  | none ↦ none
  | some i ↦
      let rest = drop (i + 2) router in Option.map (λ j. drop j rest) (memmem (b'/' ∷ []) rest)
]

unfoldable pub clean_router : Bytes → Option Bytes
unfolding relative
clean_router router = elim (memmem (b'.' ∷ b'.' ∷ []) router) [
  | some i ↦ none
  | none ↦
      if ltb 4 (length router) && same_bytes (take 4 router) (b'h' ∷ b't' ∷ b't' ∷ b'p' ∷ [])
      then relative router
      else some router
]
