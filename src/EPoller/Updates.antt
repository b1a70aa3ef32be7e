-- ===== src/EPoller/Updates.antt =====
-- `EPoller::UpdateChannel` of src/epoller.cc on the registry.
use anoii.Prelude.{
  ℕ, ◌≡◌, refl, ap, ◌∙◌, true, false, Option, none, some, [], ◌∷◌, ◌++◌, arith, ◌==◌, ok,
  out_of_bounds, ◌>>=◌,
}
use anoii.UPoll.{PolledChannel, need}
use anoii.EPoller.{
  EPoller, EpollCtl, Operation, ctl_add, ctl_mod, set, update_channel, has_channel, present,
  set_events,
}
use anoii.EPoller.Registry.{
  Agrees, IsRegistry, set-same, set-other, IsRegistry-change, IsRegistry-change, with_call,
  IsRegistry-call, known, unknown,
}

has_channel-step :
    (p : EPoller) {ch : ℕ} {c : PolledChannel}
    → p.channels ch ≡ some c
    → has_channel ch p ≡ present ch c.index (p.fd_channels c.fd)
unfolding has_channel
has_channel-step p {ch} stored =
    ap (λ q. need out_of_bounds q >>= λ x. present ch x.index (p.fd_channels x.fd)) stored

pub has_channel-known :
    (p : EPoller) {ch : ℕ} {c : PolledChannel}
    → p.channels ch ≡ some c
    → c.index ≡ some 1
    → p.fd_channels c.fd ≡ some ch
    → has_channel ch p ≡ ok true
unfolding present
has_channel-known p {ch} {c} stored i h =
    let own : (ch == ch) ≡ true = ground arith in
    let held : present ch (some 1) (some ch) ≡ ok true = simp own in
    has_channel-step p stored
    ∙ ap (λ x. present ch x (p.fd_channels c.fd)) i
    ∙ ap (present ch (some 1)) h
    ∙ held

pub has_channel-unknown :
    (p : EPoller) {ch : ℕ} {c : PolledChannel}
    → p.channels ch ≡ some c
    → c.index ≡ none
    → p.fd_channels c.fd ≡ none
    → has_channel ch p ≡ ok false
unfolding present
has_channel-unknown p {ch} {c} stored i h =
    has_channel-step p stored
    ∙ ap (λ x. present ch x (p.fd_channels c.fd)) i
    ∙ ap (present ch none) h

abbrev pub operation_for : Option ℕ → Operation
operation_for none = ctl_add
operation_for (some i) = ctl_mod

-- An update of a channel that the poller is to have, or has.
update_channel-IsRegistry :
    {p : EPoller} {ch : ℕ} {c : PolledChannel}
    → IsRegistry p
    → p.channels ch ≡ some c
    → (p' : EPoller) × (update_channel ch p ≡ ok p')
      × IsRegistry p'
      × (has_channel ch p' ≡ ok true)
      × (p'.calls
          ≡ p.calls
            ++ record { operation = operation_for c.index; fd = c.fd; events = c.events } ∷ [])
unfolding update_channel
update_channel-IsRegistry {p} {ch} {c} r stored = elim (r.agree ch c stored) [
  | known i h ↦
      let own : (ch == ch) ≡ true = ground arith in
      let call : EpollCtl = record { operation = ctl_mod; fd = c.fd; events = c.events } in
      (
        with_call call p,
        simp (stored, i, h, own),
        IsRegistry-call call r,
        has_channel-known (with_call call p) stored i h,
        simp i,
      )
  | unknown i h ↦
      let own : (ch == ch) ≡ true = ground arith in
      let call : EpollCtl = record { operation = ctl_add; fd = c.fd; events = c.events } in
      let c' = record c { index = some 1 } in
      let m' = set c.fd (some ch) p.fd_channels in
      let p' : EPoller = record {
        fd_channels = m';
        channels = set ch (some c') p.channels;
        calls = p.calls ++ call ∷ [];
      } in
      (
        p',
        simp (stored, i, h),
        IsRegistry-change c' m' _ r stored refl (known refl (set-same c.fd (some ch) p.fd_channels))
            (λ j away. set-other c.fd (some ch) p.fd_channels j away),
        has_channel-known p' (set-same ch (some c') p.channels) refl
            (set-same c.fd (some ch) p.fd_channels),
        simp i,
      )
]

-- `Update` behind a change of a channel's events, in a poller whose channels and map agree and
-- where no two channels share a descriptor: no assertion fails, they still agree, the poller has
-- the channel, and `epoll_ctl` is told the new events, as an addition exactly if the poller did not
-- have the channel before.
pub set_events-IsRegistry :
    {p : EPoller} {ch : ℕ} {c : PolledChannel} (events : ℕ)
    → IsRegistry p
    → p.channels ch ≡ some c
    → (p' : EPoller) × (set_events ch events p ≡ ok p')
      × IsRegistry p'
      × (has_channel ch p' ≡ ok true)
      × (p'.calls
          ≡ p.calls
            ++ record { operation = operation_for c.index; fd = c.fd; events = events } ∷ [])
unfolding set_events
set_events-IsRegistry {p} {ch} {c} events r stored =
    let c' = record c { events = events } in
    let a : Agrees p.fd_channels ch c' = elim (r.agree ch c stored) [
      | known i h ↦ known i h
      | unknown i h ↦ unknown i h
    ] in
    let r' = IsRegistry-change c' p.fd_channels p.calls r stored refl a (λ j away. refl) in
    let (p', e, k, there, called) =
      update_channel-IsRegistry r' (set-same ch (some c') p.channels) in
    let step =
      ap
        (λ q. need out_of_bounds q >>= λ x.
          update_channel ch
            (record p { channels = set ch (some (record x { events = events })) p.channels }))
        stored in
    (p', step ∙ e, k, there, called)
