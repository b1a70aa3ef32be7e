-- ===== src/TcpServer/Tables.antt =====
-- The tables of a server of src/tcp_server.cc: the connections in its map and those that wait for
-- their destruction.
use anoii.Prelude.{
  false, ℕ, suc, ◌<◌, ◌≡◌, ◌≢◌, inl, inr, ap, ◌∙◌, Bool-cases, some, List, [], ◌∷◌, ◌++◌, arith,
  ◌==◌,
}
use mathlib.Core.Path.{subst}
use anoii.UPoll.{find, put, erase}
use anoii.TcpConnection.{TcpConnection, connecting, disconnected}
use anoii.TcpConnection.Sound.{Sound}
use anoii.TcpServer.{TcpServer}

-- A connection in the map.
pub record Live (next_id : ℕ) (entry : ℕ × TcpConnection) : Type 0 where
  pub known : entry.0 < next_id
  pub sound : Sound entry.1
  pub past : entry.1.state ≢ connecting
  pub alive : entry.1.state ≢ disconnected

abbrev pub AllLive : ℕ → List (ℕ × TcpConnection) → Type 0
AllLive n [] = Unit {0}
AllLive n (e ∷ es) = Live n e × AllLive n es

abbrev pub AllGone : List TcpConnection → Type 0
AllGone [] = Unit {0}
AllGone (c ∷ cs) =
    (Sound c × (c.state ≡ disconnected) × (c.channel.is_handling_events ≡ false)) × AllGone cs

pub record IsServing (srv : TcpServer) : Type 0 where
  pub live : AllLive srv.next_id srv.id_conn
  pub gone : AllGone srv.pedding

pub Live-later : {n : ℕ} {e : ℕ × TcpConnection} → Live n e → Live (suc n) e
Live-later l = record {
  known = omega (arith, l.known);
  sound = l.sound;
  past = l.past;
  alive = l.alive;
}

pub AllLive-later : (n : ℕ) (es : List (ℕ × TcpConnection)) → AllLive n es → AllLive (suc n) es
AllLive-later n [] a = tt
AllLive-later n (e ∷ es) a = (Live-later a.0, AllLive-later n es a.1)

pub AllLive-put :
    {n : ℕ} (id : ℕ) (c : TcpConnection) (es : List (ℕ × TcpConnection))
    → Live n (id, c)
    → AllLive n es
    → AllLive n (put id c es)
AllLive-put id c [] l a = (l, tt)
AllLive-put id c ((j, d) ∷ es) l a = elim (Bool-cases (j == id)) [
  | inl same ↦ rw same (l, a.1)
  | inr other ↦ rw other (a.0, AllLive-put id c es l a.1)
]

pub AllLive-erase :
    (n id : ℕ) (es : List (ℕ × TcpConnection)) → AllLive n es → AllLive n (erase id es)
AllLive-erase n id [] a = tt
AllLive-erase n id ((j, d) ∷ es) a = elim (Bool-cases (j == id)) [
  | inl same ↦ rw same (AllLive-erase n id es a.1)
  | inr other ↦ rw other (a.0, AllLive-erase n id es a.1)
]

pub AllLive-find :
    {n : ℕ} (id : ℕ) (es : List (ℕ × TcpConnection)) {c : TcpConnection}
    → AllLive n es
    → find id es ≡ some c
    → Live n (id, c)
AllLive-find id [] a e = cc e
AllLive-find {n} id ((j, d) ∷ es) {c} a e = elim (Bool-cases (j == id)) [
  | inl same ↦
      let key : j ≡ id = ground arith in
      let value : d ≡ c = ground arith in
      subst (λ x. Live n x) (ap (λ k. (k, d)) key ∙ ap (λ v. (id, v)) value) a.0
  | inr other ↦ AllLive-find id es a.1 (ground arith)
]

pub AllGone-append :
    (cs : List TcpConnection) (c : TcpConnection)
    → AllGone cs
    → Sound c
    → c.state ≡ disconnected
    → c.channel.is_handling_events ≡ false
    → AllGone (cs ++ c ∷ [])
AllGone-append [] c a s e unused = ((s, e, unused), tt)
AllGone-append (d ∷ cs) c a s e unused = (a.0, AllGone-append cs c a.1 s e unused)
