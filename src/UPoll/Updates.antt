-- ===== src/UPoll/Updates.antt =====
-- `UPoll::UpdateChannel` of src/unix_poll.cc on all slots.
use anoii.Prelude.{
  pos, ℕ, ◌≡◌, ◌≢◌, inl, inr, refl, sym, ap, ◌∙◌, true, Bool-cases, Option-cases, none, some, [],
  ◌∷◌, ◌++◌, arith, ◌==◌, length, ok,
}
use mathlib.Core.Path.{subst}
use anoii.UPoll.{
  UPoll, PollFd, PolledChannel, find, put, get_elem?, set_elem, names, refresh, add_slot,
  add_channel, update_channel, set_events, set_index,
}
use anoii.UPoll.Maps.{find-put-same, find-put-other}
use anoii.UPoll.Slots.{HasSlot, update_channel-lem}
use anoii.UPoll.Registry.{IsSlotted, recolour, refresh-IsSlotted}
use anoii.UPoll.Vectors.{get_elem?-bound, get_elem?-end, get_elem?-before, get_elem?-behind}

-- A channel that has no slot gets one at the end.
module _ (u : UPoll) (ch : ℕ) (c : PolledChannel) (r : IsSlotted u)
    (there : find ch u.channels ≡ some c) (new : c.index ≡ none)
    (unmapped : find c.fd u.fd_channels ≡ none) where
  abbrev n : ℕ
  n = length u.plfds

  abbrev listed : PolledChannel
  listed = record c { index = some n }

  abbrev pfd : PollFd
  pfd = record { fd = pos c.fd; events = c.events; revents = 0 }

  abbrev grown : UPoll
  grown = record (set_index ch c (some n) u) {
    plfds = u.plfds ++ pfd ∷ [];
    fd_channels = put c.fd ch u.fd_channels;
  }

  -- No other channel has the slot or the descriptor.
  not_new :
      (k : ℕ) (d : PolledChannel) {i : ℕ} → find k u.channels ≡ some d → d.index ≡ some i → ch ≢ k
  not_new k d e x is = cc (subst (λ j. find j u.channels ≡ some c) is there, e, x, new)

  grown-slot :
      (k i : ℕ) (d : PolledChannel)
      → find k grown.channels ≡ some d
      → d.index ≡ some i
      → (find d.fd grown.fd_channels ≡ some k)
        × (p : PollFd) × (get_elem? grown.plfds i ≡ some p)
        × (names d.fd p.fd ≡ true)
  grown-slot k i d e x = elim (Bool-cases (ch == k)) [
    | inl same ↦
        let is : ch ≡ k = ground (arith, same) in
        let d_is : listed ≡ d = cc (find-put-same k ch listed u.channels is, e) in
        let at_end : n ≡ i = cc (ap (λ (y : PolledChannel). y.index) d_is, x) in
        subst
          (λ (y : PolledChannel).
            (find y.fd grown.fd_channels ≡ some k)
            × (p : PollFd) × (get_elem? grown.plfds i ≡ some p)
            × (names y.fd p.fd ≡ true))
          d_is
          (
            find-put-same c.fd c.fd ch u.fd_channels refl ∙ ap some is,
            pfd,
            subst (λ m. get_elem? grown.plfds m ≡ some pfd) at_end (get_elem?-end u.plfds pfd),
            ground arith,
          )
    | inr other ↦
        let old = sym (find-put-other k ch listed u.channels (ground (arith, other))) ∙ e in
        let (known, p, at, named) = r.slot k i d old x in
        let apart : c.fd ≢ d.fd =
          λ is. cc (subst (λ f. find f u.fd_channels ≡ none) is unmapped, known) in
        (
          find-put-other d.fd c.fd ch u.fd_channels apart ∙ known,
          p,
          get_elem?-before u.plfds pfd i (get_elem?-bound u.plfds i at) ∙ at,
          named,
        )
  ]

  grown-owner :
      (i : ℕ) (p : PollFd)
      → get_elem? grown.plfds i ≡ some p
      → (k : ℕ) × (d : PolledChannel) × (find k grown.channels ≡ some d) × (d.index ≡ some i)
  grown-owner i p e = elim (get_elem?-behind u.plfds pfd i e) [
    | inr at_end ↦ (ch, listed, find-put-same ch ch listed u.channels refl, ap some (sym at_end))
    | inl before ↦
        let (k, d, known, index) = r.owner i p before in
        (k, d, find-put-other k ch listed u.channels (not_new k d known index) ∙ known, index)
  ]

  grown-mapped :
      (fd k : ℕ)
      → find fd grown.fd_channels ≡ some k
      → (d : PolledChannel) × (i : ℕ) × (find k grown.channels ≡ some d)
        × (d.fd ≡ fd)
        × (d.index ≡ some i)
  grown-mapped fd k e = elim (Bool-cases (c.fd == fd)) [
    | inl same ↦
        let is : c.fd ≡ fd = ground (arith, same) in
        let mine : ch ≡ k = cc (find-put-same fd c.fd ch u.fd_channels is, e) in
        (listed, n, find-put-same k ch listed u.channels mine, is, refl)
    | inr other ↦
        let old = sym (find-put-other fd c.fd ch u.fd_channels (ground (arith, other))) ∙ e in
        let (d, i, known, same_fd, index) = r.mapped fd k old in
        (
          d,
          i,
          find-put-other k ch listed u.channels (not_new k d known index) ∙ known,
          same_fd,
          index,
        )
  ]

  pub add_channel-IsSlotted : (u' : UPoll) × (add_channel ch c u ≡ ok u') × IsSlotted u'
  unfolding add_channel
  add_channel-IsSlotted = (
    grown,
    ap (λ o. add_slot o ch c u) unmapped,
    record { slot = grown-slot; owner = grown-owner; mapped = grown-mapped },
  )

update_channel-IsSlotted :
    (u : UPoll) (ch : ℕ) (c : PolledChannel)
    → IsSlotted u
    → find ch u.channels ≡ some c
    → (c.index ≡ none → find c.fd u.fd_channels ≡ none)
    → (u' : UPoll) × (update_channel ch u ≡ ok u') × IsSlotted u'
unfolding update_channel
update_channel-IsSlotted u ch c r there unmapped = elim (Option-cases c.index) [
  | inl new ↦
      let (u', added, r') = add_channel-IsSlotted u ch c r there new (unmapped new) in
      (u', simp (there, new) added, r')
  | inr (i, index) ↦
      let (known, pfd, held, named) = r.slot ch i c there index in
      let has : HasSlot u ch i c pfd = record {
        stored = there;
        indexed = index;
        mapped = known;
        held = held;
        named = named;
      } in
      (
        record u { plfds = set_elem i (refresh c pfd) u.plfds },
        update_channel-lem has,
        refresh-IsSlotted u ch i c pfd r there index held,
      )
]

-- Where slots, map and channels agree, `Update` of a channel behind a change of its events fails no
-- assertion, and they agree again, if the map has no channel under the descriptor of a channel that is
-- new.
pub set_events-IsSlotted :
    (u : UPoll) (ch events : ℕ) (c : PolledChannel)
    → IsSlotted u
    → find ch u.channels ≡ some c
    → (c.index ≡ none → find c.fd u.fd_channels ≡ none)
    → (u' : UPoll) × (set_events ch events u ≡ ok u') × IsSlotted u'
unfolding set_events
set_events-IsSlotted u ch events c r there unmapped =
    let c' = record c { events = events } in
    let (u', updated, r') =
      update_channel-IsSlotted (record u { channels = put ch c' u.channels }) ch c'
        (recolour u ch events c r there) (find-put-same ch ch c' u.channels refl) unmapped in
    (u', simp there updated, r')
