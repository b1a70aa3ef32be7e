-- ===== src/UPoll/Swapping.antt =====
-- `UPoll::RemoveChannel` of src/unix_poll.cc where the last slot takes the place of the removed one.
use anoii.Prelude.{
  ℕ, suc, ◌<◌, ◌≡◌, ◌≢◌, inl, inr, refl, sym, ap, ◌∙◌, true, Bool-cases, none, some, arith, ◌==◌,
  length,
}
use mathlib.Core.Path.{subst}
use anoii.UPoll.{
  UPoll, PollFd, PolledChannel, find, put, erase, get_elem?, set_elem, names, pop_back,
}
use anoii.UPoll.Maps.{find-put-same, find-put-other, find-erase, find-erase-other}
use anoii.UPoll.Registry.{IsSlotted}
use anoii.UPoll.Vectors.{
  get_elem?-bound, set_elem-here, set_elem-other, length-set_elem, pop_back-before, pop_back-some,
}
use anoii.UPoll.Removal.{same_slot, same_fd}

-- The channel at `ch` has the slot `i`, and the one at `last_ch` the last slot, `n`.
module _ (u : UPoll) (ch i n : ℕ) (c : PolledChannel) (r : IsSlotted u)
    (there : find ch u.channels ≡ some c) (index : c.index ≡ some i)
    (sized : length u.plfds ≡ suc n) (before : i < n) (last_ch : ℕ) (d : PolledChannel) (p : PollFd)
    (last_there : find last_ch u.channels ≡ some d) (last_index : d.index ≡ some n)
    (last_held : get_elem? u.plfds n ≡ some p) where
  abbrev left : PolledChannel
  left = record c { index = none }

  abbrev moved : PolledChannel
  moved = record d { index = some i }

  abbrev pub swapped : UPoll
  swapped = record {
    plfds = pop_back (set_elem i p u.plfds);
    fd_channels = erase c.fd u.fd_channels;
    channels = put ch left (put last_ch moved u.channels);
  }

  -- The two are different, and so are their descriptors.
  index_of :
      (k j : ℕ) (e : PolledChannel) → ch ≡ k → find k u.channels ≡ some e → e.index ≡ some j → i ≡ j
  index_of k j e is known x =
      let e_is : c ≡ e = cc (subst (λ m. find m u.channels ≡ some c) is there, known) in
      cc (index, ap (λ (y : PolledChannel). y.index) e_is, x)

  last_index_of :
      (k j : ℕ) (e : PolledChannel)
      → last_ch ≡ k
      → find k u.channels ≡ some e
      → e.index ≡ some j
      → n ≡ j
  last_index_of k j e is known x =
      let e_is : d ≡ e = cc (subst (λ m. find m u.channels ≡ some d) is last_there, known) in
      cc (last_index, ap (λ (y : PolledChannel). y.index) e_is, x)

  two : ch ≢ last_ch
  two is = omega (arith, before, index_of last_ch n d is last_there last_index)

  -- A third channel stays as it was.
  third : (k : ℕ) → ch ≢ k → last_ch ≢ k → find k swapped.channels ≡ find k u.channels
  third k a b =
      find-put-other k ch left (put last_ch moved u.channels) a
      ∙ find-put-other k last_ch moved u.channels b

  found_last : find last_ch swapped.channels ≡ some moved
  found_last =
      find-put-other last_ch ch left (put last_ch moved u.channels) two
      ∙ find-put-same last_ch last_ch moved u.channels refl

  long : length (set_elem i p u.plfds) ≡ suc n
  long = length-set_elem u.plfds i p ∙ sized

  held_here : get_elem? swapped.plfds i ≡ some p
  held_here =
      pop_back-before (set_elem i p u.plfds) i (omega (arith, long, before))
      ∙ set_elem-here u.plfds i p (omega (arith, sized, before))

  held_other : (j : ℕ) → i ≢ j → j < n → get_elem? swapped.plfds j ≡ get_elem? u.plfds j
  held_other j differ below =
      pop_back-before (set_elem i p u.plfds) j (omega (arith, long, below))
      ∙ set_elem-other u.plfds i j p differ

  swapped-slot :
      (k j : ℕ) (e : PolledChannel)
      → find k swapped.channels ≡ some e
      → e.index ≡ some j
      → (find e.fd swapped.fd_channels ≡ some k)
        × (q : PollFd) × (get_elem? swapped.plfds j ≡ some q)
        × (names e.fd q.fd ≡ true)
  swapped-slot k j e known x = elim (Bool-cases (ch == k)) [
    | inl same ↦
        let is : ch ≡ k = ground (arith, same) in
        let e_is : left ≡ e =
          cc (find-put-same k ch left (put last_ch moved u.channels) is, known) in
        absurd (cc (ap (λ (y : PolledChannel). y.index) e_is, x))
    | inr other ↦
        let a : ch ≢ k = ground (arith, other) in
        elim (Bool-cases (last_ch == k)) [
          | inl same ↦
              let is : last_ch ≡ k = ground (arith, same) in
              let e_is : moved ≡ e =
                cc (subst (λ m. find m swapped.channels ≡ some moved) is found_last, known) in
              let j_is : i ≡ j = cc (ap (λ (y : PolledChannel). y.index) e_is, x) in
              let (mine, q, at, named) = r.slot last_ch n d last_there last_index in
              let q_is : q ≡ p = cc (at, last_held) in
              let apart : c.fd ≢ d.fd =
                λ f. two (same_fd u r ch last_ch i n c d there last_there index last_index f) in
              subst
                (λ (y : PolledChannel).
                  (find y.fd swapped.fd_channels ≡ some k)
                  × (q : PollFd) × (get_elem? swapped.plfds j ≡ some q)
                  × (names y.fd q.fd ≡ true))
                e_is
                (
                  find-erase-other d.fd c.fd u.fd_channels apart ∙ mine ∙ ap some is,
                  p,
                  subst (λ m. get_elem? swapped.plfds m ≡ some p) j_is held_here,
                  ap (λ (y : PollFd). names d.fd y.fd) (sym q_is) ∙ named,
                )
          | inr other' ↦
              let b : last_ch ≢ k = ground (arith, other') in
              let old = sym (third k a b) ∙ known in
              let (mine, q, at, named) = r.slot k j e old x in
              let not_i : i ≢ j =
                λ is. a (same_slot u r ch k i c e there old index (x ∙ ap some (sym is))) in
              let not_n : n ≢ j = λ is.
                b (
                  same_slot u r last_ch k n d e last_there old last_index (x ∙ ap some (sym is))) in
              let below : j < n = omega (arith, not_n, sized, get_elem?-bound u.plfds j at) in
              let apart : c.fd ≢ e.fd = λ f. a (same_fd u r ch k i j c e there old index x f) in
              (
                find-erase-other e.fd c.fd u.fd_channels apart ∙ mine,
                q,
                held_other j not_i below ∙ at,
                named,
              )
        ]
  ]

  swapped-owner :
      (j : ℕ) (q : PollFd)
      → get_elem? swapped.plfds j ≡ some q
      → (k : ℕ) × (e : PolledChannel) × (find k swapped.channels ≡ some e) × (e.index ≡ some j)
  swapped-owner j q held =
      let (bound, at) = pop_back-some (set_elem i p u.plfds) j held in
      elim (Bool-cases (i == j)) [
        | inl same ↦ (last_ch, moved, found_last, ap some (ground (arith, same)))
        | inr other ↦
            let not_i : i ≢ j = ground (arith, other) in
            let (k, e, known, x) = r.owner j q (sym (set_elem-other u.plfds i j p not_i) ∙ at) in
            let a : ch ≢ k = λ is. not_i (index_of k j e is known x) in
            let b : last_ch ≢ k =
              λ is. omega (arith, last_index_of k j e is known x, bound, long) in
            (k, e, third k a b ∙ known, x)
      ]

  swapped-mapped :
      (fd k : ℕ)
      → find fd swapped.fd_channels ≡ some k
      → (e : PolledChannel) × (j : ℕ) × (find k swapped.channels ≡ some e)
        × (e.fd ≡ fd)
        × (e.index ≡ some j)
  swapped-mapped fd k mine = elim (Bool-cases (c.fd == fd)) [
    | inl same ↦
        let is : c.fd ≡ fd = ground (arith, same) in
        absurd (
          cc (
            subst (λ f. find f (erase c.fd u.fd_channels) ≡ none) is
                (find-erase c.fd u.fd_channels),
            mine,
          ))
    | inr other ↦
        let apart : c.fd ≢ fd = ground (arith, other) in
        let (e, j, known, fd_is, x) =
          r.mapped fd k (sym (find-erase-other fd c.fd u.fd_channels apart) ∙ mine) in
        let a : ch ≢ k = λ is.
          let e_is : c ≡ e = cc (subst (λ m. find m u.channels ≡ some c) is there, known) in
          apart (ap (λ (y : PolledChannel). y.fd) e_is ∙ fd_is) in
        elim (Bool-cases (last_ch == k)) [
          | inl same ↦
              let is : last_ch ≡ k = ground (arith, same) in
              let e_is : d ≡ e =
                cc (subst (λ m. find m u.channels ≡ some d) is last_there, known) in
              (
                moved,
                i,
                subst (λ m. find m swapped.channels ≡ some moved) is found_last,
                ap (λ (y : PolledChannel). y.fd) e_is ∙ fd_is,
                refl,
              )
          | inr other' ↦ (e, j, third k a (ground (arith, other')) ∙ known, fd_is, x)
        ]
  ]

  pub swapped-IsSlotted : IsSlotted swapped
  swapped-IsSlotted = record { slot = swapped-slot; owner = swapped-owner; mapped = swapped-mapped }
