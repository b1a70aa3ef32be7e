-- ===== src/UPoll/Removal.antt =====
-- `UPoll::RemoveChannel` of src/unix_poll.cc on all slots.
use anoii.Prelude.{
  pos, negsuc, ℤ, ℤ, pos, ℕ, zero, suc, ◌<◌, ◌≡◌, ◌≢◌, inl, inr, refl, sym, ap, ◌∙◌, true,
  Bool-cases, none, some, arith, ◌==◌, length,
}
use mathlib.Core.Path.{subst}
use anoii.UPoll.{UPoll, PollFd, PolledChannel, find, put, erase, names, end_fd, pop_back}
use anoii.UPoll.Maps.{find-put-same, find-put-other, find-erase, find-erase-other}
use anoii.UPoll.Registry.{IsSlotted}
use anoii.UPoll.Vectors.{get_elem?-bound, pop_back-before, pop_back-some}

-- A slot names one descriptor.
names_unique : (a b : ℕ) (slot : ℤ) → names a slot ≡ true → names b slot ≡ true → a ≡ b
names_unique a b (pos n) h k = ground arith
names_unique a b (negsuc n) h k = ground arith

-- The descriptor of the last slot, unless the code takes it for -1.
pub end_fd-names : (fd : ℕ) (slot : ℤ) → names fd slot ≡ true → slot ≢ pos 0 → end_fd slot ≡ pos fd
end_fd-names fd (pos zero) h k = absurd (k refl)
end_fd-names fd (pos (suc n)) h k = ap pos (ground arith)
end_fd-names fd (negsuc n) h k = ap pos (ground arith)

module _ (u : UPoll) (r : IsSlotted u) where
  -- Two channels do not share a slot.
  pub same_slot :
      (a b i : ℕ) (c d : PolledChannel)
      → find a u.channels ≡ some c
      → find b u.channels ≡ some d
      → c.index ≡ some i
      → d.index ≡ some i
      → a ≡ b
  same_slot a b i c d ea eb xa xb =
      let (ma, p, at, na) = r.slot a i c ea xa in
      let (mb, q, at', nb) = r.slot b i d eb xb in
      let p_is : q ≡ p = cc (at, at') in
      let fd_is : c.fd ≡ d.fd =
        names_unique c.fd d.fd p.fd na (ap (λ (y : PollFd). names d.fd y.fd) (sym p_is) ∙ nb) in
      cc (ma, fd_is, mb)

  -- Nor a descriptor.
  pub same_fd :
      (a b i j : ℕ) (c d : PolledChannel)
      → find a u.channels ≡ some c
      → find b u.channels ≡ some d
      → c.index ≡ some i
      → d.index ≡ some j
      → c.fd ≡ d.fd
      → a ≡ b
  same_fd a b i j c d ea eb xa xb is =
      let (ma, p, at, na) = r.slot a i c ea xa in
      let (mb, q, at', nb) = r.slot b j d eb xb in cc (ma, is, mb)

-- A channel that wants no event and has a slot is removed: the slot at `i`, of a vector of `suc n`.
module _ (u : UPoll) (ch i n : ℕ) (c : PolledChannel) (r : IsSlotted u)
    (there : find ch u.channels ≡ some c) (index : c.index ≡ some i)
    (sized : length u.plfds ≡ suc n) where
  abbrev pub gone : PolledChannel
  gone = record c { index = none }

  -- It has the last slot.
  module _ (is_last : i ≡ n) where
    abbrev pub shorter : UPoll
    shorter = record {
      plfds = pop_back u.plfds;
      fd_channels = erase c.fd u.fd_channels;
      channels = put ch gone u.channels;
    }

    kept :
        (k j : ℕ) (d : PolledChannel)
        → ch ≢ k
        → find k u.channels ≡ some d
        → d.index ≡ some j
        → j < n
    kept k j d other e x =
        let (known, p, at, named) = r.slot k j d e x in
        let bound = get_elem?-bound u.plfds j at in
        let apart : j ≢ n =
          λ is. other (same_slot u r ch k i c d there e index (x ∙ ap some (is ∙ sym is_last))) in
        omega (arith, bound, sized, apart)

    pub shorter-IsSlotted : IsSlotted shorter
    shorter-IsSlotted = record {
      slot = λ k j d e x. elim (Bool-cases (ch == k)) [
        | inl same ↦
            let is : ch ≡ k = ground (arith, same) in
            let d_is : gone ≡ d = cc (find-put-same k ch gone u.channels is, e) in
            absurd (cc (ap (λ (y : PolledChannel). y.index) d_is, x))
        | inr other ↦
            let differ : ch ≢ k = ground (arith, other) in
            let old = sym (find-put-other k ch gone u.channels differ) ∙ e in
            let (known, p, at, named) = r.slot k j d old x in
            let below = kept k j d differ old x in
            let apart : c.fd ≢ d.fd =
              λ is. differ (same_fd u r ch k i j c d there old index x is) in
            (
              find-erase-other d.fd c.fd u.fd_channels apart ∙ known,
              p,
              pop_back-before u.plfds j (omega (arith, below, sized)) ∙ at,
              named,
            )
      ];
      owner = λ j p e.
          let (bound, at) = pop_back-some u.plfds j e in
          let (k, d, known, x) = r.owner j p at in
          let differ : ch ≢ k = λ is.
            let d_is : c ≡ d = cc (subst (λ m. find m u.channels ≡ some c) is there, known) in
            let j_is : i ≡ j = cc (index, ap (λ (y : PolledChannel). y.index) d_is, x) in
            omega (arith, j_is, is_last, bound, sized) in
          (k, d, find-put-other k ch gone u.channels differ ∙ known, x);
      mapped = λ fd k e. elim (Bool-cases (c.fd == fd)) [
        | inl same ↦
            let is : c.fd ≡ fd = ground (arith, same) in
            absurd (
              cc (
                subst (λ f. find f (erase c.fd u.fd_channels) ≡ none) is
                    (find-erase c.fd u.fd_channels),
                e,
              ))
        | inr other ↦
            let apart : c.fd ≢ fd = ground (arith, other) in
            let (d, j, known, fd_is, x) =
              r.mapped fd k (sym (find-erase-other fd c.fd u.fd_channels apart) ∙ e) in
            let differ : ch ≢ k = λ is.
              let d_is : c ≡ d = cc (subst (λ m. find m u.channels ≡ some c) is there, known) in
              apart (ap (λ (y : PolledChannel). y.fd) d_is ∙ fd_is) in
            (d, j, find-put-other k ch gone u.channels differ ∙ known, fd_is, x)
      ];
    }
