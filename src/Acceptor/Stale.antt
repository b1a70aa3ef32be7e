-- ===== src/Acceptor/Stale.antt =====
-- The channel of a destroyed acceptor of src/acceptor.cc, in the poller of src/epoller.cc.
use anoii.Prelude.{
  ℕ, ◌≡◌, sym, ap, ◌∙◌, true, none, some, [], ◌∷◌, ◌++◌, arith, ◌==◌, ok, err, assertion,
  out_of_bounds, ◌>>=◌,
}
use anoii.Acceptor.{Acceptor, destruct, destruct_acceptor}
use anoii.Acceptor.Descriptors.{Holds, destruct_closes}
use anoii.UPoll.{PolledChannel, need}
use anoii.EPoller.{EPoller, ctl_mod, set, update_channel, set_events}
use anoii.EPoller.Registry.{IsRegistry, known, unknown}

-- A channel that is new at an address, under a descriptor that the map still has.
stale_clashes :
    (p : EPoller) (ch dh events : ℕ) (d : PolledChannel)
    → p.fd_channels d.fd ≡ some ch
    → d.index ≡ none
    → set_events dh events (record p { channels = set dh (some d) p.channels }) ≡ err assertion
unfolding set_events update_channel
stale_clashes p ch dh events d h new =
    let own : (dh == dh) ≡ true = ground arith in simp (own, new, h)

-- The destructor of an acceptor closes what it has open, disables the events of its channel and does
-- not remove it: the map of the poller keeps its descriptor, which is closed, and the next channel
-- under that number, whoever makes it, fails the assertion of the poller as soon as it wants an event.
pub stale_channel :
    {a : Acceptor} {p : EPoller} {ch : ℕ} {c : PolledChannel}
    → Holds a
    → c.fd ≡ a.fd
    → IsRegistry p
    → p.channels ch ≡ some c
    → c.index ≡ some 1
    → (a' : Acceptor) × (p' : EPoller) × (destruct_acceptor ch a p ≡ ok (a', p'))
      × (a'.opened ≡ [])
      × (a'.strays ≡ [])
      × ((dh events : ℕ) (d : PolledChannel)
          → d.fd ≡ a.fd
          → d.index ≡ none
          → set_events dh events (record p' { channels = set dh (some d) p'.channels })
            ≡ err assertion)
unfolding destruct_acceptor set_events update_channel
stale_channel {a} {p} {ch} {c} held own_fd r stored i = elim (r.agree ch c stored) [
  | unknown j h ↦ cc (sym i ∙ j)
  | known j h ↦
      let own : (ch == ch) ≡ true = ground arith in
      let c' = record c { events = 0 } in
      let p' : EPoller = record {
        fd_channels = p.fd_channels;
        channels = set ch (some c') p.channels;
        calls = p.calls ++ record { operation = ctl_mod; fd = c.fd; events = 0 } ∷ [];
      } in
      let step : set_events ch 0 p ≡ ok p' =
        ap
          (λ q. need out_of_bounds q >>= λ x.
            update_channel ch
              (record p { channels = set ch (some (record x { events = 0 })) p.channels }))
          stored
        ∙ simp (own, j, h) in
      (
        destruct a,
        p',
        ap (λ r. r >>= λ q. ok (destruct a, q)) step,
        (destruct_closes held).0,
        (destruct_closes held).1,
        λ dh events d same new.
            stale_clashes p' ch dh events d (ap p.fd_channels (same ∙ sym own_fd) ∙ h) new,
      )
]
