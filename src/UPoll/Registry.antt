-- ===== src/UPoll/Registry.antt =====
-- The slots, the map and the channels of src/unix_poll.cc agree.
use anoii.Prelude.{ℕ, ◌≡◌, inl, inr, sym, ap, ◌∙◌, true, Bool-cases, some, arith, ◌==◌}
use mathlib.Core.Path.{subst}
use anoii.UPoll.{UPoll, PollFd, PolledChannel, find, put, get_elem?, set_elem, names, refresh}
use anoii.UPoll.Maps.{find-put-same, find-put-other}
use anoii.UPoll.Slots.{names-flip}
use anoii.UPoll.Vectors.{get_elem?-bound, set_elem-here, set_elem-other}

-- A channel with an index has the slot there, with its descriptor, negated or not, and the map has it
-- under its descriptor; every slot is that of a channel with its index; and what the map has under a
-- descriptor is a channel with that descriptor and an index.
pub record IsSlotted (u : UPoll) : Type 0 where
  pub slot :
      (ch i : ℕ) (c : PolledChannel)
      → find ch u.channels ≡ some c
      → c.index ≡ some i
      → (find c.fd u.fd_channels ≡ some ch)
        × (pfd : PollFd) × (get_elem? u.plfds i ≡ some pfd)
        × (names c.fd pfd.fd ≡ true)
  pub owner :
      (i : ℕ) (pfd : PollFd)
      → get_elem? u.plfds i ≡ some pfd
      → (ch : ℕ) × (c : PolledChannel) × (find ch u.channels ≡ some c) × (c.index ≡ some i)
  pub mapped :
      (fd ch : ℕ)
      → find fd u.fd_channels ≡ some ch
      → (c : PolledChannel) × (i : ℕ) × (find ch u.channels ≡ some c)
        × (c.fd ≡ fd)
        × (c.index ≡ some i)

-- A change of the events of a channel.
pub recolour :
    (u : UPoll) (ch events : ℕ) (c : PolledChannel)
    → IsSlotted u
    → find ch u.channels ≡ some c
    → IsSlotted (record u { channels = put ch (record c { events = events }) u.channels })
recolour u ch events c r there =
    let c' = record c { events = events } in
    record {
      slot = λ k i d e x. elim (Bool-cases (ch == k)) [
        | inl same ↦
            let is : ch ≡ k = ground (arith, same) in
            let d_is : c' ≡ d = cc (find-put-same k ch c' u.channels is, e) in
            subst
              (λ (y : PolledChannel).
                (find y.fd u.fd_channels ≡ some k)
                × (pfd : PollFd) × (get_elem? u.plfds i ≡ some pfd)
                × (names y.fd pfd.fd ≡ true))
              d_is
              (r.slot k i c (subst (λ j. find j u.channels ≡ some c) is there)
                (ap (λ (y : PolledChannel). y.index) d_is ∙ x))
        | inr other ↦
            r.slot k i d (sym (find-put-other k ch c' u.channels (ground (arith, other))) ∙ e) x
      ];
      owner = λ i pfd e.
          let (k, d, known, index) = r.owner i pfd e in
          elim (Bool-cases (ch == k)) [
            | inl same ↦
                let is : ch ≡ k = ground (arith, same) in
                let d_is : c ≡ d = cc (subst (λ j. find j u.channels ≡ some c) is there, known) in
                (
                  k,
                  c',
                  find-put-same k ch c' u.channels is,
                  ap (λ (y : PolledChannel). y.index) d_is ∙ index,
                )
            | inr other ↦
                (k, d, find-put-other k ch c' u.channels (ground (arith, other)) ∙ known, index)
          ];
      mapped = λ fd k e.
          let (d, i, known, same_fd, index) = r.mapped fd k e in
          elim (Bool-cases (ch == k)) [
            | inl same ↦
                let is : ch ≡ k = ground (arith, same) in
                let d_is : c ≡ d = cc (subst (λ j. find j u.channels ≡ some c) is there, known) in
                (
                  c',
                  i,
                  find-put-same k ch c' u.channels is,
                  ap (λ (y : PolledChannel). y.fd) d_is ∙ same_fd,
                  ap (λ (y : PolledChannel). y.index) d_is ∙ index,
                )
            | inr other ↦ (
              d,
              i,
              find-put-other k ch c' u.channels (ground (arith, other)) ∙ known,
              same_fd,
              index,
            )
          ];
    }

names-refreshed :
    (fd : ℕ) (c : PolledChannel) (pfd : PollFd)
    → names fd pfd.fd ≡ true
    → names fd (refresh c pfd).fd ≡ true
unfolding refresh
names-refreshed fd c pfd h = elim (Bool-cases (c.events == 0)) [
  | inl quiet ↦ rw quiet (names-flip fd pfd.fd ∙ h)
  | inr wants ↦ rw wants h
]

-- An update of a channel that has a slot.
pub refresh-IsSlotted :
    (u : UPoll) (ch i : ℕ) (c : PolledChannel) (pfd : PollFd)
    → IsSlotted u
    → find ch u.channels ≡ some c
    → c.index ≡ some i
    → get_elem? u.plfds i ≡ some pfd
    → IsSlotted (record u { plfds = set_elem i (refresh c pfd) u.plfds })
refresh-IsSlotted u ch i c pfd r there index held =
    let bound = get_elem?-bound u.plfds i held in
    record {
      slot = λ k j d e x.
          let (known, p, at, named) = r.slot k j d e x in
          elim (Bool-cases (i == j)) [
            | inl same ↦
                let is : i ≡ j = ground (arith, same) in
                let (mine, p', at', named') = r.slot ch i c there index in
                let p_is : pfd ≡ p = cc (subst (λ n. get_elem? u.plfds n ≡ some pfd) is held, at) in
                (
                  known,
                  refresh c pfd,
                  subst
                      (λ n. get_elem? (set_elem i (refresh c pfd) u.plfds) n ≡ some (refresh c pfd))
                      is (set_elem-here u.plfds i (refresh c pfd) bound),
                  names-refreshed d.fd c pfd (ap (λ (y : PollFd). names d.fd y.fd) p_is ∙ named),
                )
            | inr other ↦ (
              known,
              p,
              set_elem-other u.plfds i j (refresh c pfd) (ground (arith, other)) ∙ at,
              named,
            )
          ];
      owner = λ j p e. elim (Bool-cases (i == j)) [
        | inl same ↦ let is : i ≡ j = ground (arith, same) in (ch, c, there, index ∙ ap some is)
        | inr other ↦
            r.owner j p
              (sym (set_elem-other u.plfds i j (refresh c pfd) (ground (arith, other))) ∙ e)
      ];
      mapped = r.mapped;
    }
