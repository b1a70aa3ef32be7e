-- ===== src/EPoller/Removal.antt =====
-- `EPoller::RemoveChannel` of src/epoller.cc on the registry.
use anoii.Prelude.{
  ℕ, ◌≡◌, refl, sym, Bool, true, false, none, some, [], ◌∷◌, ◌++◌, arith, ◌==◌, if◌then◌else◌, ok,
}
use mathlib.Core.List.{append-nil}
use anoii.UPoll.{PolledChannel}
use anoii.EPoller.{EPoller, EpollCtl, ctl_del, set, remove_channel, has_channel}
use anoii.EPoller.Registry.{
  IsRegistry, set-same, set-other, IsRegistry-change, IsRegistry-change, known, unknown,
}
use anoii.EPoller.Updates.{has_channel-known, has_channel-unknown}

-- `RemoveChannel` of a channel that wants no event, in a poller whose channels and map agree and
-- where no two channels share a descriptor: no assertion fails, they still agree, and the poller
-- does not have the channel. The result tells whether it had it, and only then `epoll_ctl` is
-- called.
pub remove_channel-IsRegistry :
    {p : EPoller} {ch : ℕ} {c : PolledChannel}
    → IsRegistry p
    → p.channels ch ≡ some c
    → c.events ≡ 0
    → (p' : EPoller) × (had : Bool) × (remove_channel ch p ≡ ok (p', had))
      × IsRegistry p'
      × (has_channel ch p' ≡ ok false)
      × (has_channel ch p ≡ ok had)
      × (p'.calls
          ≡ p.calls
            ++ (if had then record { operation = ctl_del; fd = c.fd; events = 0 } ∷ [] else []))
unfolding remove_channel
remove_channel-IsRegistry {p} {ch} {c} r stored quiet = elim (r.agree ch c stored) [
  | unknown i h ↦ (
    p,
    false,
    simp (stored, h),
    r,
    has_channel-unknown p stored i h,
    has_channel-unknown p stored i h,
    sym (append-nil p.calls),
  )
  | known i h ↦
      let own : (ch == ch) ≡ true = ground arith in
      let call : EpollCtl = record { operation = ctl_del; fd = c.fd; events = 0 } in
      let c' = record c { index = none } in
      let m' = set c.fd none p.fd_channels in
      let p' : EPoller = record {
        fd_channels = m';
        channels = set ch (some c') p.channels;
        calls = p.calls ++ call ∷ [];
      } in
      (
        p',
        true,
        simp (stored, i, h, own, quiet),
        IsRegistry-change c' m' _ r stored refl (unknown refl (set-same c.fd none p.fd_channels))
            (λ j away. set-other c.fd none p.fd_channels j away),
        has_channel-unknown p' (set-same ch (some c') p.channels) refl
            (set-same c.fd none p.fd_channels),
        has_channel-known p stored i h,
        refl,
      )
]
