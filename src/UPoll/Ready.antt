-- ===== src/UPoll/Ready.antt =====
-- `UPoll::FillActivedChannels` of src/unix_poll.cc on what poll answers.
use anoii.Prelude.{
  negsuc, pos, ℤ, ℕ, zero, suc, ◌+◌, ◌≡◌, inl, inr, refl, sym, ap, ◌∙◌, Bool, true, false, not,
  Bool-cases, Option, none, some, List, [], ◌∷◌, arith, ◌==◌, if◌then◌else◌, ok, ◌>>=◌,
}
use anoii.UPoll.{
  UPoll, PollFd, PolledChannel, find, get_elem?, names, fill_actived_channels, poll_until,
}
use anoii.UPoll.Registry.{IsSlotted}

-- What `poll` counts: a slot with an event, whose descriptor is not negated.
abbrev pub is_ready : ℤ → ℕ → Bool
is_ready (pos fd) revents = not (revents == 0)
is_ready (negsuc k) revents = false

abbrev pub count_ready : List PollFd → ℕ
count_ready [] = 0
count_ready (p ∷ ps) = (if is_ready p.fd p.revents then 1 else 0) + count_ready ps

-- The channel of a slot, by the map.
abbrev pub channel_of : ℤ → List (ℕ × ℕ) → Option ℕ
channel_of (pos fd) m = find fd m
channel_of (negsuc k) m = none

abbrev pub add_active : Option ℕ → Bool → ℕ → List (ℕ × ℕ) → List (ℕ × ℕ)
add_active none ready revents rest = rest
add_active (some ch) ready revents rest = if ready then (ch, revents) ∷ rest else rest

-- The channels of the slots with events, in the order of the slots, and the events.
abbrev pub active : List (ℕ × ℕ) → List PollFd → List (ℕ × ℕ)
active m [] = []
active m (p ∷ ps) = add_active (channel_of p.fd m) (is_ready p.fd p.revents) p.revents (active m ps)

-- `poll` changes the events that came and nothing else.
abbrev pub Answers : List PollFd → List PollFd → Type 0
Answers [] [] = Unit {0}
Answers [] (q ∷ qs) = ⊥
Answers (p ∷ ps) [] = ⊥
Answers (p ∷ ps) (q ∷ qs) = (p.fd ≡ q.fd) × Answers ps qs

-- A slot that is watched is that of a channel with its descriptor.
abbrev Mapped : UPoll → ℤ → Type 0
Mapped u slot =
    (fd : ℕ)
    → slot ≡ pos fd
    → (ch : ℕ) × (c : PolledChannel) × (find fd u.fd_channels ≡ some ch)
      × (find ch u.channels ≡ some c)
      × (c.fd ≡ fd)

abbrev AllMapped : UPoll → List PollFd → Type 0
AllMapped u [] = Unit {0}
AllMapped u (p ∷ ps) = Mapped u p.fd × AllMapped u ps

slot-Mapped :
    (u : UPoll) → IsSlotted u → (i : ℕ) (p : PollFd) → get_elem? u.plfds i ≡ some p → Mapped u p.fd
slot-Mapped u r i p e fd is =
    let (ch, c, known, x) = r.owner i p e in
    let (mine, q, at, named) = r.slot ch i c known x in
    let q_is : q ≡ p = cc (at, e) in
    let fd_is : c.fd ≡ fd =
      names_pos c.fd fd
        (ap (λ s. names c.fd s) (sym is ∙ ap (λ (y : PollFd). y.fd) (sym q_is)) ∙ named) in
    (ch, c, ap (λ f. find f u.fd_channels) (sym fd_is) ∙ mine, known, fd_is)
  where
    names_pos : (a b : ℕ) → names a (pos b) ≡ true → a ≡ b
    names_pos a b h = ground (arith, h)

all-Mapped :
    (u : UPoll) (qs ps : List PollFd)
    → ((i : ℕ) (q : PollFd) → get_elem? qs i ≡ some q → Mapped u q.fd)
    → Answers ps qs
    → AllMapped u ps
all-Mapped u [] [] h a = tt
all-Mapped u (q ∷ qs) [] h a = absurd a
all-Mapped u [] (p ∷ ps) h a = absurd a
all-Mapped u (q ∷ qs) (p ∷ ps) h (same, a) =
    (λ fd is. h 0 q refl fd (sym same ∙ is), all-Mapped u qs ps (λ i x e. h (suc i) x e) a)

add_active_idle :
    (o : Option ℕ) (revents : ℕ) (rest : List (ℕ × ℕ)) → add_active o false revents rest ≡ rest
add_active_idle none revents rest = refl
add_active_idle (some ch) revents rest = refl

active_step :
    (m : List (ℕ × ℕ)) (p : PollFd) (ps : List PollFd)
    → is_ready p.fd p.revents ≡ false
    → active m (p ∷ ps) ≡ active m ps
active_step m p ps h =
    ap (λ b. add_active (channel_of p.fd m) b p.revents (active m ps)) h
    ∙ add_active_idle (channel_of p.fd m) p.revents (active m ps)

active-ready :
    (m : List (ℕ × ℕ)) (p : PollFd) (ps : List PollFd) (ch : ℕ)
    → channel_of p.fd m ≡ some ch
    → is_ready p.fd p.revents ≡ true
    → active m (p ∷ ps) ≡ (ch, p.revents) ∷ active m ps
active-ready m p ps ch there h =
    ap (λ o. add_active o (is_ready p.fd p.revents) p.revents (active m ps)) there
    ∙ ap (λ b. add_active (some ch) b p.revents (active m ps)) h

active_none : (m : List (ℕ × ℕ)) (ps : List PollFd) → count_ready ps ≡ 0 → active m ps ≡ []
active_none m [] h = refl
active_none m (p ∷ ps) h = elim (Bool-cases (is_ready p.fd p.revents)) [
  | inl ready ↦ absurd (ground (arith, h, ready))
  | inr idle ↦ active_step m p ps idle ∙ active_none m ps (ground (arith, h, idle))
]

-- The loop at a slot without events, and at one with events.
fill-idle :
    (n : ℕ) (fd : ℤ) (events revents : ℕ) (ps : List PollFd) (u : UPoll)
    → is_ready fd revents ≡ false
    → fill_actived_channels (suc n) (record { fd = fd; events = events; revents = revents } ∷ ps) u
      ≡ fill_actived_channels (suc n) ps u
unfolding fill_actived_channels
fill-idle n (negsuc k) events revents ps u h = refl
fill-idle n (pos fd) events revents ps u h =
    let nothing : (revents == 0) ≡ true = ground (arith, h) in simp nothing

fill-ready :
    (n : ℕ) (fd : ℤ) (events revents : ℕ) (ps : List PollFd) (u : UPoll)
    → Mapped u fd
    → is_ready fd revents ≡ true
    → (ch : ℕ) × (channel_of fd u.fd_channels ≡ some ch)
      × (fill_actived_channels
            (suc n)
            (record { fd = fd; events = events; revents = revents } ∷ ps)
            u
          ≡ (fill_actived_channels n ps u >>= λ rest. ok ((ch, revents) ∷ rest)))
unfolding fill_actived_channels
fill-ready n (negsuc k) events revents ps u m h = absurd (cc h)
fill-ready n (pos fd) events revents ps u m h =
    let (ch, c, mine, known, fd_is) = m fd refl in
    let something : (revents == 0) ≡ false = ground (arith, h) in
    let same : (c.fd == fd) ≡ true = ground (arith, fd_is) in
    (ch, mine, simp (something, mine, known, same))

fill_zero : (u : UPoll) (ps : List PollFd) → fill_actived_channels 0 ps u ≡ ok []
unfolding fill_actived_channels
fill_zero u [] = refl
fill_zero u (p ∷ ps) = refl

fill_lem :
    (u : UPoll) (ps : List PollFd) (n : ℕ)
    → AllMapped u ps
    → count_ready ps ≡ n
    → fill_actived_channels n ps u ≡ ok (active u.fd_channels ps)
fill_lem u [] n h e = unfold fill_actived_channels in refl
fill_lem u (p ∷ ps) zero h e =
    fill_zero u (p ∷ ps) ∙ ap ok (sym (active_none u.fd_channels (p ∷ ps) e))
fill_lem u (p ∷ ps) (suc n) (m, h) e = elim (Bool-cases (is_ready p.fd p.revents)) [
  | inr idle ↦
      fill-idle n p.fd p.events p.revents ps u idle
      ∙ fill_lem u ps (suc n) h (ground (arith, e, idle))
      ∙ ap ok (sym (active_step u.fd_channels p ps idle))
  | inl ready ↦
      let (ch, mine, step) = fill-ready n p.fd p.events p.revents ps u m ready in
      step
      ∙ ap (λ r. r >>= λ rest. ok ((ch, p.revents) ∷ rest))
          (fill_lem u ps n h (ground (arith, e, ready)))
      ∙ ap ok (sym (active-ready u.fd_channels p ps ch mine ready))
]

poll_until_lem :
    (u : UPoll) (ps : List PollFd) (n : ℕ)
    → AllMapped (record u { plfds = ps }) ps
    → count_ready ps ≡ n
    → poll_until (pos n) ps u ≡ ok (record u { plfds = ps }, active u.fd_channels ps)
unfolding poll_until
poll_until_lem u ps zero h e =
    ap (λ l. ok (record u { plfds = ps }, l)) (sym (active_none u.fd_channels ps e))
poll_until_lem u ps (suc n) h e =
    ap (λ r. r >>= λ l. ok (record u { plfds = ps }, l))
      (fill_lem (record u { plfds = ps }) ps (suc n) h e)

-- Where slots, map and channels agree, the channels that PollUntil makes active are those of the
-- slots that `poll` answers events for, each once, in the order of the slots and with the events of
-- its slot, and a slot whose descriptor is negated makes none: `poll` answers the number of slots
-- with events, and the loop over them, which stops at that number, misses none. No assertion fails.
pub poll_until-active :
    (u : UPoll) (ps : List PollFd)
    → IsSlotted u
    → Answers ps u.plfds
    → poll_until (pos (count_ready ps)) ps u ≡ ok (record u { plfds = ps }, active u.fd_channels ps)
poll_until-active u ps r a =
    poll_until_lem u ps (count_ready ps) (all-Mapped u u.plfds ps (slot-Mapped u r) a) refl
