-- ===== src/UPoll/Tests.antt =====
-- A poller at concrete channels, and its theorems there.
use anoii.Prelude.{
  ◌⊎◌, inl, inr, Bool-cases, ◌==◌, ℕ, List, length, ◌+◌, ◌<◌, ◌≢◌, true, ◌>>=◌, negsuc, pos, ◌≡◌,
  refl, none, some, [], ◌∷◌, arith, ok, err, assertion,
}
use anoii.UPoll.{
  UPoll, update_channel, set_events, remove_channel, fill_actived_channels, get_elem?,
}
use mathlib.Core.Path.{subst}
use anoii.UPoll.{poll_until, PolledChannel, PollFd, find}
use anoii.UPoll.Slots.{HasSlot, set_events_ignored}
use anoii.UPoll.Registry.{IsSlotted}
use anoii.UPoll.Updates.{set_events-IsSlotted}
use anoii.UPoll.Removes.{remove_channel-IsSlotted}
use anoii.UPoll.Ready.{poll_until-active}

-- Two channels, at the addresses 70 and 80, the second one of descriptor 0.
abbrev new_channels : UPoll
new_channels = record {
  plfds = [];
  fd_channels = [];
  channels =
      (70, record { fd = 7; index = none; events = 3 })
      ∷ (80, record { fd = 0; index = none; events = 3 })
      ∷ [];
}

abbrev both : UPoll
both = record {
  plfds =
      record { fd = pos 7; events = 3; revents = 0 }
      ∷ record { fd = pos 0; events = 3; revents = 0 }
      ∷ [];
  fd_channels = (7, 70) ∷ (0, 80) ∷ [];
  channels =
      (70, record { fd = 7; index = some 0; events = 3 })
      ∷ (80, record { fd = 0; index = some 1; events = 3 })
      ∷ [];
}

added_test : (do u ← update_channel 70 new_channels; update_channel 80 u) ≡ ok both
unfolding update_channel
added_test = refl

-- The last slot is that of descriptor 0, which `back().fd > 0` takes for a negated one.
removed_test : (do u ← set_events 70 0 both; remove_channel 70 u) ≡ err assertion
unfolding set_events remove_channel
removed_test = refl

active_test :
    fill_actived_channels 1
      (record { fd = negsuc 7; events = 0; revents = 1 }
        ∷ record { fd = pos 0; events = 3; revents = 1 }
        ∷ [])
      both
    ≡ ok ((80, 1) ∷ [])
unfolding fill_actived_channels
active_test = refl

both-HasSlot :
    HasSlot both 70 0
      (record { fd = 7; index = some 0; events = 3 })
      (record { fd = pos 7; events = 3; revents = 0 })
both-HasSlot = record { stored = refl; indexed = refl; mapped = refl; held = refl; named = refl }

set_events_ignored_example :
    (u' u'' : UPoll) × (set_events 70 0 both ≡ ok u')
    × (set_events 70 3 u' ≡ ok u'')
    × (get_elem? u''.plfds 0 ≡ some (record { fd = negsuc 7; events = 3; revents = 0 }))
set_events_ignored_example = set_events_ignored 3 both-HasSlot refl (omega arith)

-- The channels have no slots yet.
no_index :
    (k i : ℕ) (d : PolledChannel) → find k new_channels.channels ≡ some d → d.index ≡ some i → ⊥
no_index k i d e x = elim (Bool-cases (70 == k)) [
  | inl same ↦ ground (arith, same, e, x)
  | inr other ↦ elim (Bool-cases (80 == k)) [
    | inl same ↦ ground (arith, other, same, e, x)
    | inr other' ↦ ground (arith, other, other', e, x)
  ]
]

new_channels-IsSlotted : IsSlotted new_channels
new_channels-IsSlotted = record {
  slot = λ k i d e x. absurd (no_index k i d e x);
  owner = λ i p e. cc e;
  mapped = λ fd k e. cc e;
}

abbrev first : UPoll
first = record new_channels {
  plfds = record { fd = pos 7; events = 3; revents = 0 } ∷ [];
  fd_channels = (7, 70) ∷ [];
  channels =
      (70, record { fd = 7; index = some 0; events = 3 })
      ∷ (80, record { fd = 0; index = none; events = 3 })
      ∷ [];
}

first-IsSlotted : IsSlotted first
unfolding set_events
first-IsSlotted =
    let (u, e, r) =
      set_events-IsSlotted new_channels 70 3 (record { fd = 7; index = none; events = 3 })
        new_channels-IsSlotted refl (λ new. refl) in
    let is : ok first ≡ ok u = e in subst IsSlotted (cc is) r

both-IsSlotted : IsSlotted both
unfolding set_events
both-IsSlotted =
    let (u, e, r) =
      set_events-IsSlotted first 80 3 (record { fd = 0; index = none; events = 3 }) first-IsSlotted
        refl (λ new. refl) in
    let is : ok both ≡ ok u = e in subst IsSlotted (cc is) r

abbrev quiet_both : UPoll
quiet_both = record both {
  plfds =
      record { fd = negsuc 7; events = 0; revents = 0 }
      ∷ record { fd = pos 0; events = 3; revents = 0 }
      ∷ [];
  channels =
      (70, record { fd = 7; index = some 0; events = 0 })
      ∷ (80, record { fd = 0; index = some 1; events = 3 })
      ∷ [];
}

set_events-IsSlotted_example : (u : UPoll) × (set_events 70 0 both ≡ ok u) × IsSlotted u
set_events-IsSlotted_example =
    set_events-IsSlotted both 70 0 (record { fd = 7; index = some 0; events = 3 }) both-IsSlotted
      refl (λ new. cc new)

quiet_both-IsSlotted : IsSlotted quiet_both
unfolding set_events
quiet_both-IsSlotted =
    let (u, e, r) =
      set_events-IsSlotted both 70 0 (record { fd = 7; index = some 0; events = 3 }) both-IsSlotted
        refl (λ new. cc new) in
    let is : ok quiet_both ≡ ok u = e in subst IsSlotted (cc is) r

remove_channel-IsSlotted_example :
    ((0 + 1 ≡ length quiet_both.plfds) ⊎ (pos 0 ≢ pos 0)
      → (u' : UPoll) × (remove_channel 70 quiet_both ≡ ok (u', true))
        × IsSlotted u'
        × (find 7 u'.fd_channels ≡ none))
    × (0 + 1 < length quiet_both.plfds
        → pos 0 ≡ pos 0
        → remove_channel 70 quiet_both ≡ err assertion)
remove_channel-IsSlotted_example =
    remove_channel-IsSlotted quiet_both 70 0 (record { fd = 7; index = some 0; events = 0 })
      quiet_both-IsSlotted refl refl refl (record { fd = pos 0; events = 3; revents = 0 }) refl

abbrev answered : List PollFd
answered =
    record { fd = negsuc 7; events = 0; revents = 0 }
    ∷ record { fd = pos 0; events = 3; revents = 1 }
    ∷ []

poll_until-active_example :
    poll_until (pos 1) answered quiet_both
    ≡ ok (record quiet_both { plfds = answered }, (80, 1) ∷ [])
poll_until-active_example =
    poll_until-active quiet_both answered quiet_both-IsSlotted (refl, (refl, tt))
