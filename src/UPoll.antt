-- ===== src/UPoll.antt =====
-- src/unix_poll.cc: the poller over `poll`. A `Channel*` is an address, and `channels` is what the
-- addresses hold; `fd_channels` is the map from descriptors to addresses. Events are bits.
use anoii.Prelude.{
  negsuc, pos, ℤ, ℕ, zero, suc, ◌+◌, ◌-◌, ◌*◌, ◌≤◌, ◌<◌, ◌≡◌, ◌≢◌, ◌↔◌, ◌⊎◌, inl, inr, refl, sym,
  ap, ◌∙◌, Bool, true, false, not, ◌&&◌, ◌||◌, Bool-cases, Option-cases, Option, none, some, List,
  [], ◌∷◌, ◌++◌, arith, ltb, leb, ◌==◌, if◌then◌else◌, length, take, drop, length-append,
  length-take, length-drop, Result, ok, err, Fault, assertion, out_of_bounds, thrown, aborted,
  assert, ◌>>=◌, ◌>>◌, bind-eq-ok,
}
pub mod Maps
pub mod Vectors
pub mod Registry
pub mod Updates
pub mod Removal
pub mod Swapping
pub mod Removes
pub mod Ready
pub mod Slots
mod Tests

pub record PolledChannel : Type 0 where
  pub fd : ℕ
  pub index : Option ℕ
  pub events : ℕ

pub record PollFd : Type 0 where
  pub fd : ℤ
  pub events : ℕ
  pub revents : ℕ

pub record UPoll : Type 0 where
  pub plfds : List PollFd
  pub fd_channels : List (ℕ × ℕ)
  pub channels : List (ℕ × PolledChannel)

abbrev pub find : {V : Type 0} → ℕ → List (ℕ × V) → Option V
find k [] = none
find k ((j, v) ∷ m) = if j == k then some v else find k m

abbrev pub put : {V : Type 0} → ℕ → V → List (ℕ × V) → List (ℕ × V)
put k v [] = (k, v) ∷ []
put k v ((j, w) ∷ m) = if j == k then (k, v) ∷ m else (j, w) ∷ put k v m

abbrev pub erase : {V : Type 0} → ℕ → List (ℕ × V) → List (ℕ × V)
erase k [] = []
erase k ((j, w) ∷ m) = let rest = erase k m in if j == k then rest else (j, w) ∷ rest

-- `v[i]` of a vector, and `v[i] = x`.
abbrev pub get_elem? : {V : Type 0} → List V → ℕ → Option V
get_elem? [] i = none
get_elem? (x ∷ xs) zero = some x
get_elem? (x ∷ xs) (suc i) = get_elem? xs i

abbrev pub set_elem : {V : Type 0} → ℕ → V → List V → List V
set_elem i v [] = []
set_elem zero v (x ∷ xs) = v ∷ xs
set_elem (suc i) v (x ∷ xs) = x ∷ set_elem i v xs

-- A value that the code takes for granted.
abbrev pub need : {V : Type 0} → Fault → Option V → Result V
need f none = err f
need f (some v) = ok v

-- `-fd - 1`, which is `-(fd + 1)` too.
abbrev pub flip : ℤ → ℤ
flip (pos n) = negsuc n
flip (negsuc n) = pos n

abbrev pub is_pos : ℕ → ℤ → Bool
is_pos n (pos m) = n == m
is_pos n (negsuc m) = false

-- A slot is that of a channel if it has its descriptor, negated or not.
abbrev pub names : ℕ → ℤ → Bool
names fd slot = is_pos fd (flip slot) || is_pos fd slot

-- `SetIndex`.
abbrev pub set_index : ℕ → PolledChannel → Option ℕ → UPoll → UPoll
set_index ch c index u = record u { channels = put ch (record c { index = index }) u.channels }

-- `pfd` behind an update of its channel.
unfoldable pub refresh : PolledChannel → PollFd → PollFd
refresh c pfd = record {
  fd = if c.events == 0 then flip pfd.fd else pfd.fd;
  events = c.events;
  revents = 0;
}

-- A channel with an index below 0, and what the map has under its descriptor.
abbrev pub add_slot : Option ℕ → ℕ → PolledChannel → UPoll → Result UPoll
add_slot (some other) ch c u = err assertion
add_slot none ch c u = ok (record (set_index ch c (some (length u.plfds)) u) {
  plfds = u.plfds ++ record { fd = pos c.fd; events = c.events; revents = 0 } ∷ [];
  fd_channels = put c.fd ch u.fd_channels;
})

unfoldable pub add_channel : ℕ → PolledChannel → UPoll → Result UPoll
add_channel ch c u = add_slot (find c.fd u.fd_channels) ch c u

-- The slot at `i` of a channel, with the assertions on both.
unfoldable pub slot_of : ℕ → PolledChannel → ℕ → UPoll → Result PollFd
slot_of ch c i u = do
  known ← need assertion (find c.fd u.fd_channels)
  assert (known == ch)
  pfd ← need assertion (get_elem? u.plfds i)
  assert (names c.fd pfd.fd)
  ok pfd

-- The channel is the one at the address `ch`.
unfoldable pub update_channel : ℕ → UPoll → Result UPoll
unfolding add_channel slot_of refresh
update_channel ch u = do
  c ← need out_of_bounds (find ch u.channels)
  elim c.index [
    | none ↦ add_channel ch c u
    | some i ↦ do
      pfd ← slot_of ch c i u
      ok (record u { plfds = set_elem i (refresh c pfd) u.plfds })
  ]

-- `plfds_.back().fd > 0 ? plfds_.back().fd : -(plfds_.back().fd + 1)`; the result for 0 is -1.
abbrev pub end_fd : ℤ → ℤ
end_fd (pos zero) = negsuc zero
end_fd (pos (suc n)) = pos (suc n)
end_fd (negsuc n) = pos n

abbrev pub back : {V : Type 0} → List V → Option V
back [] = none
back (x ∷ []) = some x
back (x ∷ y ∷ xs) = back (y ∷ xs)

abbrev pub pop_back : {V : Type 0} → List V → List V
pop_back [] = []
pop_back (x ∷ []) = []
pop_back (x ∷ y ∷ xs) = x ∷ pop_back (y ∷ xs)

abbrev pub find_fd : ℤ → List (ℕ × ℕ) → Option ℕ
find_fd (pos n) m = find n m
find_fd (negsuc n) m = none

-- `events_` of a channel is changed, and then `Update` is called.
unfoldable pub set_events : ℕ → ℕ → UPoll → Result UPoll
unfolding update_channel
set_events ch events u = do
  c ← need out_of_bounds (find ch u.channels)
  update_channel ch (record u { channels = put ch (record c { events = events }) u.channels })

-- The last slot takes the place of the one at `i`, unless it is that one.
unfoldable pub move_last : ℕ → UPoll → Result UPoll
move_last i u =
    if ltb (i + 1) (length u.plfds)
    then (do
      last ← need out_of_bounds (back u.plfds)
      other ← need assertion (find_fd (end_fd last.fd) u.fd_channels)
      c ← need out_of_bounds (find other u.channels)
      ok (record (set_index other c (some i) u) { plfds = set_elem i last u.plfds }))
    else ok u

unfoldable pub remove_channel : ℕ → UPoll → Result (UPoll × Bool)
unfolding slot_of move_last
remove_channel ch u = do
  c ← need out_of_bounds (find ch u.channels)
  elim c.index [
    | none ↦ ok (u, false)
    | some i ↦ do
      assert (c.events == 0)
      _ ← slot_of ch c i u
      u ← move_last i (record u { fd_channels = erase c.fd u.fd_channels })
      let u = set_index ch c none u
      ok (record u { plfds = pop_back u.plfds }, true)
  ]

-- `FillActivedChannels`: the addresses with the events that came.
unfoldable pub fill_actived_channels : ℕ → List PollFd → UPoll → Result (List (ℕ × ℕ))
fill_actived_channels n [] u = ok []
fill_actived_channels zero (p ∷ ps) u = ok []
fill_actived_channels (suc n) (p ∷ ps) u =
    let same = fill_actived_channels (suc n) ps u in
    let fewer = fill_actived_channels n ps u in
    elim p.fd [
      | negsuc k ↦ same
      | pos fd ↦ if p.revents == 0 then same else do
        ch ← need assertion (find fd u.fd_channels)
        c ← need out_of_bounds (find ch u.channels)
        assert (c.fd == fd)
        rest ← fewer
        ok ((ch, p.revents) ∷ rest)
    ]

-- `PollUntil`, with what `poll` returns and what it makes of the slots.
unfoldable pub poll_until : ℤ → List PollFd → UPoll → Result (UPoll × List (ℕ × ℕ))
unfolding fill_actived_channels
poll_until (negsuc k) answered u = ok (u, [])
poll_until (pos zero) answered u = ok (record u { plfds = answered }, [])
poll_until (pos (suc n)) answered u = do
  let u = record u { plfds = answered }
  active ← fill_actived_channels (suc n) answered u
  ok (u, active)

abbrev is_some : {V : Type 0} → Option V → Bool
is_some none = false
is_some (some v) = true

unfoldable pub has_channel : ℕ → UPoll → Result Bool
has_channel ch u = do
  c ← need out_of_bounds (find ch u.channels)
  let known = is_some (find c.fd u.fd_channels)
  elim c.index [ none ↦ ok known | some i ↦ do assert (ltb i (length u.plfds)); ok known ]
