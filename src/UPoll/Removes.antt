-- ===== src/UPoll/Removes.antt =====
-- `UPoll::RemoveChannel` of src/unix_poll.cc, on every slot and with every last slot.
use anoii.Prelude.{
  pos, pos, ℕ, suc, ◌+◌, ◌-◌, ◌<◌, ◌≡◌, ◌≢◌, ◌⊎◌, inl, inr, sym, ap, ◌∙◌, Bool, true, false,
  Bool-cases, none, some, arith, ltb, ◌==◌, length, Result, ok, err, assertion, ◌>>=◌,
}
use mathlib.Core.Path.{subst}
use anoii.UPoll.{
  UPoll, PollFd, PolledChannel, find, erase, get_elem?, set_elem, names, end_fd, back, pop_back,
  slot_of, move_last, remove_channel, set_index,
}
use anoii.UPoll.Maps.{find-erase, find-erase-other}
use anoii.UPoll.Registry.{IsSlotted}
use anoii.UPoll.Vectors.{get_elem?-bound, get_elem?-some, back-lem}
use anoii.UPoll.Removal.{end_fd-names, shorter, shorter-IsSlotted, same_fd}
use anoii.UPoll.Swapping.{swapped, swapped-IsSlotted}

module _ (u : UPoll) (ch i : ℕ) (c : PolledChannel) (r : IsSlotted u)
    (there : find ch u.channels ≡ some c) (index : c.index ≡ some i) (quiet : c.events ≡ 0) where
  abbrev unmapped : UPoll
  unmapped = record u { fd_channels = erase c.fd u.fd_channels }

  slot_found : (pfd : PollFd) × (slot_of ch c i u ≡ ok pfd) × (get_elem? u.plfds i ≡ some pfd)
  unfolding slot_of
  slot_found =
      let (known, pfd, held, named) = r.slot ch i c there index in
      let own : (ch == ch) ≡ true = ground arith in (pfd, simp (known, own, held, named), held)

  -- Behind the assertions: what the last slot makes of it.
  abbrev rest : Result UPoll → Result (UPoll × Bool)
  rest m = do u ← m; let u = set_index ch c none u; ok (record u { plfds = pop_back u.plfds }, true)

  remove_channel-moves : remove_channel ch u ≡ rest (move_last i unmapped)
  unfolding remove_channel
  remove_channel-moves = let (pfd, found, held) = slot_found in simp (there, index, quiet, found)

  move_last-last : i + 1 ≡ length u.plfds → move_last i unmapped ≡ ok unmapped
  unfolding move_last
  move_last-last e = let no : ltb (i + 1) (length u.plfds) ≡ false = ground (arith, e) in simp no

  module _ (p : PollFd) (n : ℕ) (last : back u.plfds ≡ some p) (below : i < n)
      (sized : length u.plfds ≡ suc n) where
    more : ltb (i + 1) (length u.plfds) ≡ true
    more = ground (arith, below, sized)

    move_last-asserts : p.fd ≡ pos 0 → move_last i unmapped ≡ err assertion
    unfolding move_last
    move_last-asserts e = simp (more, last, e)

    move_last-moves :
        (other : ℕ) (d : PolledChannel)
        → end_fd p.fd ≡ pos d.fd
        → find d.fd (erase c.fd u.fd_channels) ≡ some other
        → find other u.channels ≡ some d
        → move_last i unmapped
          ≡ ok (record (set_index other d (some i) unmapped) { plfds = set_elem i p u.plfds })
    unfolding move_last
    move_last-moves other d ends mapped known = simp (more, last, ends, mapped, known)

  -- It has the last slot.
  removes_last :
      (n : ℕ)
      → length u.plfds ≡ suc n
      → i ≡ n
      → (u' : UPoll) × (remove_channel ch u ≡ ok (u', true))
        × IsSlotted u'
        × (find c.fd u'.fd_channels ≡ none)
  removes_last n sized e = (
    shorter u ch i n c r there index sized e,
    remove_channel-moves ∙ ap rest (move_last-last (omega (arith, sized, e))),
    shorter-IsSlotted u ch i n c r there index sized e,
    find-erase c.fd u.fd_channels,
  )

  -- Another slot is the last one, and is named by its descriptor.
  removes_before :
      (p : PollFd) (n : ℕ)
      → back u.plfds ≡ some p
      → length u.plfds ≡ suc n
      → i < n
      → p.fd ≢ pos 0
      → (u' : UPoll) × (remove_channel ch u ≡ ok (u', true))
        × IsSlotted u'
        × (find c.fd u'.fd_channels ≡ none)
  removes_before p n last sized below positive =
      let (q, at) = get_elem?-some u.plfds n (omega (arith, sized)) in
      let q_is : q ≡ p = cc (back-lem u.plfds n (omega (arith, sized)) at, last) in
      let held : get_elem? u.plfds n ≡ some p = at ∙ ap some q_is in
      let (k, d, known, x) = r.owner n p held in
      let (mine, q', at', named) = r.slot k n d known x in
      let q'_is : q' ≡ p = cc (at', held) in
      let ends : end_fd p.fd ≡ pos d.fd =
        end_fd-names d.fd p.fd (ap (λ (y : PollFd). names d.fd y.fd) (sym q'_is) ∙ named)
          positive in
      let differ : ch ≢ k = λ is.
        let d_is : c ≡ d = cc (subst (λ m. find m u.channels ≡ some c) is there, known) in
        let i_is : i ≡ n = cc (index, ap (λ (y : PolledChannel). y.index) d_is, x) in
        omega (arith, i_is, below) in
      let apart : c.fd ≢ d.fd = λ f. differ (same_fd u r ch k i n c d there known index x f) in
      let mapped = find-erase-other d.fd c.fd u.fd_channels apart ∙ mine in
      (
        swapped u ch i n c r there index sized below k d p known x held,
        remove_channel-moves ∙ ap rest (move_last-moves p n last below sized k d ends mapped known),
        swapped-IsSlotted u ch i n c r there index sized below k d p known x held,
        find-erase c.fd u.fd_channels,
      )

  -- Where slots, map and channels agree, RemoveChannel of a channel that wants no event and has a
  -- slot succeeds, they agree again and the map has nothing under its descriptor, if it has the
  -- last slot or the last slot does not watch the descriptor 0; the last slot takes its place. If
  -- another slot is the last one and watches the descriptor 0, an assertion fails: the code takes
  -- the descriptor for -1.
  pub remove_channel-IsSlotted :
      (p : PollFd)
      → back u.plfds ≡ some p
      → ((i + 1 ≡ length u.plfds) ⊎ (p.fd ≢ pos 0)
          → (u' : UPoll) × (remove_channel ch u ≡ ok (u', true))
            × IsSlotted u'
            × (find c.fd u'.fd_channels ≡ none))
        × (i + 1 < length u.plfds → p.fd ≡ pos 0 → remove_channel ch u ≡ err assertion)
  remove_channel-IsSlotted p last =
      let (pfd, found, held) = slot_found in
      let bound = get_elem?-bound u.plfds i held in
      let n = length u.plfds - 1 in
      let sized : length u.plfds ≡ suc n = omega (arith, bound) in
      (
        λ allowed. elim (Bool-cases (ltb i n)) [
          | inr outside ↦ removes_last n sized (ground (arith, outside, bound, sized))
          | inl inside ↦ elim allowed [
            | inl at_end ↦ absurd (ground (arith, inside, at_end, sized))
            | inr positive ↦ removes_before p n last sized (ground (arith, inside)) positive
          ]
        ],
        λ below zero_fd.
            remove_channel-moves
            ∙ ap rest (move_last-asserts p n last (omega (arith, below, sized)) sized zero_fd),
      )
