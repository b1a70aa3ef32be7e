-- ===== src/UPoll/Slots.antt =====
-- `UPoll::UpdateChannel` of src/unix_poll.cc on the slot of its channel.
use anoii.Prelude.{
  ℤ, pos, negsuc, ℕ, zero, suc, ◌≡◌, ◌≢◌, inl, inr, refl, ap, ◌∙◌, true, false, Bool-cases, some,
  List, [], ◌∷◌, arith, ◌==◌, ok,
}
use anoii.UPoll.{
  UPoll, PollFd, PolledChannel, find, get_elem?, set_elem, flip, names, refresh, slot_of,
  update_channel, put, set_events,
}

-- The slot of a channel that the poller has: its index, its descriptor and the maps agree.
pub record HasSlot (u : UPoll) (ch i : ℕ) (c : PolledChannel) (pfd : PollFd) : Type 0 where
  pub stored : find ch u.channels ≡ some c
  pub indexed : c.index ≡ some i
  pub mapped : find c.fd u.fd_channels ≡ some ch
  pub held : get_elem? u.plfds i ≡ some pfd
  pub named : names c.fd pfd.fd ≡ true

pub update_channel-lem :
    {u : UPoll} {ch i : ℕ} {c : PolledChannel} {pfd : PollFd}
    → HasSlot u ch i c pfd
    → update_channel ch u ≡ ok (record u { plfds = set_elem i (refresh c pfd) u.plfds })
unfolding update_channel slot_of
update_channel-lem {u} {ch} {i} {c} {pfd} h =
    let own : (ch == ch) ≡ true = ground arith in
    simp (h.stored, h.indexed, h.mapped, h.held, h.named, own)

pub names-flip : (fd : ℕ) (slot : ℤ) → names fd (flip slot) ≡ names fd slot
names-flip fd (pos n) = grind arith
names-flip fd (negsuc n) = grind arith

pub find-put : {V : Type 0} (k : ℕ) (v : V) (m : List (ℕ × V)) → find k (put k v m) ≡ some v
find-put k v [] = ground arith
find-put k v ((j, w) ∷ m) = elim (Bool-cases (j == k)) [
  | inl same ↦ let own : (k == k) ≡ true = ground arith in simp (same, own)
  | inr other ↦ simp (other, find-put k v m)
]

get_elem?-set_elem :
    {V : Type 0} (xs : List V) (i : ℕ) {v : V} (w : V)
    → get_elem? xs i ≡ some v
    → get_elem? (set_elem i w xs) i ≡ some w
get_elem?-set_elem [] i w h = cc h
get_elem?-set_elem (x ∷ xs) zero w h = refl
get_elem?-set_elem (x ∷ xs) (suc i) w h = get_elem?-set_elem xs i w h

names-refresh :
    (c : PolledChannel) (pfd : PollFd)
    → names c.fd pfd.fd ≡ true
    → names c.fd (refresh c pfd).fd ≡ true
unfolding refresh
names-refresh c pfd h = elim (Bool-cases (c.events == 0)) [
  | inl quiet ↦ rw quiet (names-flip c.fd pfd.fd ∙ h)
  | inr wants ↦ rw wants h
]

-- An update of a channel that the poller has fails no assertion: it stores the channel's events in its
-- slot, clears what came, and negates the slot's descriptor if the channel wants no event.
update_channel-HasSlot :
    {u : UPoll} {ch i : ℕ} {c : PolledChannel} {pfd : PollFd}
    → HasSlot u ch i c pfd
    → (u' : UPoll) × (update_channel ch u ≡ ok u') × HasSlot u' ch i c (refresh c pfd)
update_channel-HasSlot {u} {ch} {i} {c} {pfd} h = (
  record u { plfds = set_elem i (refresh c pfd) u.plfds },
  update_channel-lem h,
  record {
    stored = h.stored;
    indexed = h.indexed;
    mapped = h.mapped;
    held = get_elem?-set_elem u.plfds i (refresh c pfd) h.held;
    named = names-refresh c pfd h.named;
  },
)

set_events-HasSlot :
    {u : UPoll} {ch i : ℕ} {c : PolledChannel} {pfd : PollFd} (events : ℕ)
    → HasSlot u ch i c pfd
    → (u' : UPoll) × (set_events ch events u ≡ ok u')
      × HasSlot u' ch i (record c { events = events }) (refresh (record c { events = events }) pfd)
unfolding set_events
set_events-HasSlot {u} {ch} {i} {c} {pfd} events h =
    let c' = record c { events = events } in
    let h' : HasSlot (record u { channels = put ch c' u.channels }) ch i c' pfd = record {
      stored = find-put ch c' u.channels;
      indexed = h.indexed;
      mapped = h.mapped;
      held = h.held;
      named = h.named;
    } in
    let (u', e, k) = update_channel-HasSlot h' in (u', rw (h.stored) e, k)

refreshed :
    (c : PolledChannel) (pfd : PollFd) (events : ℕ)
    → pfd.fd ≡ pos c.fd
    → events ≢ 0
    → refresh (record c { events = events }) (refresh (record c { events = 0 }) pfd)
      ≡ record { fd = negsuc c.fd; events = events; revents = 0 }
unfolding refresh
refreshed c pfd events watched wants =
    let some_event : (events == 0) ≡ false = ground arith in simp (some_event, watched)

-- A channel that disables all its events and enables some again stays ignored by poll: the first
-- update negates the descriptor in its slot, and the second one leaves it negated.
pub set_events_ignored :
    {u : UPoll} {ch i : ℕ} {c : PolledChannel} {pfd : PollFd} (events : ℕ)
    → HasSlot u ch i c pfd
    → pfd.fd ≡ pos c.fd
    → events ≢ 0
    → (u' u'' : UPoll) × (set_events ch 0 u ≡ ok u')
      × (set_events ch events u' ≡ ok u'')
      × (get_elem? u''.plfds i ≡ some (record { fd = negsuc c.fd; events = events; revents = 0 }))
set_events_ignored {u} {ch} {i} {c} {pfd} events h watched wants =
    let (u', e', h') = set_events-HasSlot 0 h in
    let (u'', e'', h'') = set_events-HasSlot events h' in
    (u', u'', e', e'', h''.held ∙ ap some (refreshed c pfd events watched wants))
