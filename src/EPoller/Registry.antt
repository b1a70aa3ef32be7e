-- ===== src/EPoller/Registry.antt =====
-- The registry of src/epoller.cc: which channels it has.
use anoii.Prelude.{
  ℕ, ◌≡◌, ◌≢◌, inl, inr, refl, sym, ap, ◌∙◌, true, false, Bool-cases, Option, none, some, List, [],
  ◌∷◌, ◌++◌, arith, ◌==◌,
}
use mathlib.Core.Path.{subst}
use anoii.UPoll.{PolledChannel}
use anoii.EPoller.{EPoller, EpollCtl, set}

-- A channel and the map agree on whether the poller has it.
pub data Agrees (m : ℕ → Option ℕ) (ch : ℕ) (c : PolledChannel) : Type 0 where
  known : c.index ≡ some 1 → m c.fd ≡ some ch → Agrees m ch c
  unknown : c.index ≡ none → m c.fd ≡ none → Agrees m ch c

-- No two channels share a descriptor.
pub record IsRegistry (p : EPoller) : Type 0 where
  pub agree : (ch : ℕ) (c : PolledChannel) → p.channels ch ≡ some c → Agrees p.fd_channels ch c
  pub apart :
      (ch dh : ℕ) (c d : PolledChannel)
      → p.channels ch ≡ some c
      → p.channels dh ≡ some d
      → c.fd ≡ d.fd
      → ch ≡ dh

pub set-same : {V : Type 0} (k : ℕ) (v : Option V) (m : ℕ → Option V) → set k v m k ≡ v
set-same k v m = let own : (k == k) ≡ true = ground arith in simp own

pub set-other :
    {V : Type 0} (k : ℕ) (v : Option V) (m : ℕ → Option V) (j : ℕ) → j ≢ k → set k v m j ≡ m j
set-other k v m j other = let apart : (j == k) ≡ false = ground arith in simp apart

Agrees-moved :
    {m m' : ℕ → Option ℕ} {ch : ℕ} {c : PolledChannel}
    → m' c.fd ≡ m c.fd
    → Agrees m ch c
    → Agrees m' ch c
Agrees-moved e (known i h) = known i (e ∙ h)
Agrees-moved e (unknown i h) = unknown i (e ∙ h)

-- What the store held where it holds `a` now.
set-before :
    (p : EPoller) {ch : ℕ} {c : PolledChannel} (c' : PolledChannel)
    → p.channels ch ≡ some c
    → c'.fd ≡ c.fd
    → (x : ℕ) (a : PolledChannel) → set ch (some c') p.channels x ≡ some a
    → (b : PolledChannel) × (p.channels x ≡ some b) × (b.fd ≡ a.fd)
set-before p {ch} {c} c' stored fd x a h = elim (Bool-cases (x == ch)) [
  | inl same ↦
      let key : x ≡ ch = ground arith in
      let value : c' ≡ a = ground arith in
      (c, ap p.channels key ∙ stored, sym fd ∙ ap (λ q. q.fd) value)
  | inr other ↦ (a, ground arith, refl)
]

pub IsRegistry-change :
    {p : EPoller} {ch : ℕ} {c : PolledChannel} (c' : PolledChannel) (m' : ℕ → Option ℕ)
    (calls : List EpollCtl)
    → IsRegistry p
    → p.channels ch ≡ some c
    → c'.fd ≡ c.fd
    → Agrees m' ch c'
    → ((j : ℕ) → j ≢ c.fd → m' j ≡ p.fd_channels j)
    → IsRegistry
        (record { fd_channels = m'; channels = set ch (some c') p.channels; calls = calls })
IsRegistry-change {p} {ch} {c} c' m' calls r stored fd a rest = record {
  agree = λ x d h. elim (Bool-cases (x == ch)) [
    | inl same ↦
        let key : ch ≡ x = ground arith in
        let value : c' ≡ d = ground arith in
        subst (λ k. Agrees m' k d) key (subst (λ q. Agrees m' ch q) value a)
    | inr other ↦
        let old : p.channels x ≡ some d = ground arith in
        let away : d.fd ≢ c.fd = λ e. absurd (ground (arith, r.apart x ch d c old stored e)) in
        Agrees-moved (rest d.fd away) (r.agree x d old)
  ];
  apart = λ x y d e h k same.
      let (d0, h0, l) = set-before p c' stored fd x d h in
      let (e0, k0, n) = set-before p c' stored fd y e k in
      r.apart x y d0 e0 h0 k0 (l ∙ same ∙ sym n);
}

abbrev pub with_call : EpollCtl → EPoller → EPoller
with_call call p = record p { calls = p.calls ++ call ∷ [] }

pub IsRegistry-call : {p : EPoller} (call : EpollCtl) → IsRegistry p → IsRegistry (with_call call p)
IsRegistry-call call r = record { agree = r.agree; apart = r.apart }

only_channel :
    (ch : ℕ) (c : PolledChannel) (x : ℕ) (d : PolledChannel)
    → set ch (some c) (λ y. none) x ≡ some d
    → (x ≡ ch) × (c ≡ d)
only_channel ch c x d h = elim (Bool-cases (x == ch)) [
  | inl same ↦ (ground arith, ground arith)
  | inr other ↦ absurd (ground arith)
]

-- A poller with one channel.
pub IsRegistry-single :
    (ch : ℕ) (c : PolledChannel) (calls : List EpollCtl)
    → c.index ≡ some 1
    → IsRegistry (record {
      fd_channels = set c.fd (some ch) (λ fd. none);
      channels = set ch (some c) (λ x. none);
      calls = calls;
    })
IsRegistry-single ch c calls there = record {
  agree = λ x d h.
      let (k, v) = only_channel ch c x d h in
      known (sym (ap (λ q. q.index) v) ∙ there) (
        ap (λ q. set c.fd (some ch) (λ fd. none) q.fd) (sym v)
        ∙ set-same c.fd (some ch) (λ fd. none)
        ∙ ap some (sym k));
  apart = λ x y d e h k same. (only_channel ch c x d h).0 ∙ sym (only_channel ch c y e k).0;
}
