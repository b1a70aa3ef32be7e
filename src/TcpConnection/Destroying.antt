-- ===== src/TcpConnection/Destroying.antt =====
-- `TcpConnection::DestroyConnection` and the destructors behind it, src/tcp_connection.cc.
use anoii.Prelude.{
  ◌⊎◌, ◌≡◌, inl, inr, refl, ap, ◌∙◌, true, false, Bool-cases, ok, err, assertion, ◌>>=◌,
}
use anoii.Channel.{disable_all, destroy_channel, Channel, has_events, remove_channel}
use anoii.TcpConnection.{
  established, destruct, TcpConnection, half_shutdown, disconnected, abandon, destroy_connection,
}
use anoii.TcpConnection.Sound.{Sound}
use anoii.TcpConnection.Reach.{bind-eq-err}

abbrev with_channel : Channel → TcpConnection → TcpConnection
with_channel ch c = record c { channel = ch }

destroy_connection-step :
    (c : TcpConnection) (ch : Channel)
    → abandon c ≡ c
    → remove_channel (abandon c).channel ≡ ok ch
    → destroy_connection c ≡ ok (with_channel ch c)
unfolding destroy_connection
destroy_connection-step c ch kept r =
    ap (λ q. q >>= λ x. ok (with_channel x (abandon c))) r ∙ ap (λ x. ok (with_channel ch x)) kept

pub destruct-returns :
    (d : TcpConnection)
    → d.state ≡ disconnected
    → has_events d.channel ≡ false
    → d.channel.is_handling_events ≡ false
    → destruct d ≡ ok tt
unfolding destruct
destruct-returns d e idle unused =
    let last : destruct d ≡ destroy_channel d.channel = rw e refl in
    let free : destroy_channel d.channel ≡ ok tt = simp (idle, unused) in last ∙ free

-- The end of a connection that is disconnected.
pub destroy_connection-returns :
    (c : TcpConnection)
    → Sound c
    → c.state ≡ disconnected
    → c.channel.is_handling_events ≡ false
    → (d : TcpConnection) × (destroy_connection c ≡ ok d) × (destruct d ≡ ok tt)
unfolding destroy_connection abandon
destroy_connection-returns c s e unused =
    let kept : abandon c ≡ c = rw e refl in
    let idle = s.quiet e in
    elim (Bool-cases c.channel.registered) [
      | inr out ↦
          let r : remove_channel (abandon c).channel ≡ ok c.channel =
            ap (λ x. remove_channel x.channel) kept ∙ simp out in
          (c, destroy_connection-step c c.channel kept r, destruct-returns c e idle unused)
      | inl there ↦
          let freed = record c { channel = record c.channel { registered = false } } in
          let r : remove_channel (abandon c).channel ≡ ok freed.channel =
            ap (λ x. remove_channel x.channel) kept ∙ simp (there, idle) in
          (
            freed,
            destroy_connection-step c freed.channel kept r,
            destruct-returns freed e idle unused,
          )
    ]

-- `DestroyConnection` of a half shut connection that is still read fails the poller's assertion, since
-- only an established one has its events disabled first.
destroy_connection_asserts :
    (c : TcpConnection)
    → c.state ≡ half_shutdown
    → c.channel.registered ≡ true
    → c.channel.events.pollin ≡ true
    → destroy_connection c ≡ err assertion
unfolding destroy_connection abandon
destroy_connection_asserts c e h k =
    let kept : abandon c ≡ c = rw e refl in
    let refused : remove_channel c.channel ≡ err assertion = simp (h, k) in
    bind-eq-err _ (ap (λ x. remove_channel x.channel) kept ∙ refused)

-- An established connection is disconnected, and freed.
pub destroys-established :
    (c : TcpConnection)
    → c.state ≡ established
    → c.channel.is_handling_events ≡ false
    → (d : TcpConnection) × (destroy_connection c ≡ ok d) × (destruct d ≡ ok tt)
unfolding destroy_connection abandon
destroys-established c e unused =
    let ended = record c { state = disconnected; channel = disable_all c.channel } in
    let gone : abandon c ≡ ended = rw e refl in
    let freed = with_channel (record ended.channel { registered = false }) ended in
    let removed : remove_channel ended.channel ≡ ok freed.channel = refl in
    (
      freed,
      ap (λ x. remove_channel x.channel >>= λ ch. ok (with_channel ch x)) gone
          ∙ ap (λ r. r >>= λ ch. ok (with_channel ch ended)) removed,
      destruct-returns freed refl refl unused,
    )

remove_channel-cases :
    (ch : Channel)
    → (remove_channel ch ≡ err assertion) ⊎ ((left : Channel) × (remove_channel ch ≡ ok left))
remove_channel-cases ch = elim (Bool-cases ch.registered) [
  | inr out ↦ inr (ch, rw out refl)
  | inl there ↦ elim (Bool-cases (has_events ch)) [
    | inl busy ↦ inl (simp (there, busy))
    | inr idle ↦ inr (record ch { registered = false }, simp (there, idle))
  ]
]

destruct-half_shutdown : (d : TcpConnection) → d.state ≡ half_shutdown → destruct d ≡ err assertion
unfolding destruct
destruct-half_shutdown d e = rw e refl

-- A half shut one fails the assertion of the poller or that of its destructor.
pub destroys-half_shutdown :
    (c : TcpConnection)
    → c.state ≡ half_shutdown
    → (destroy_connection c >>= λ d. destruct d) ≡ err assertion
unfolding destroy_connection abandon destruct
destroys-half_shutdown c e =
    let kept : abandon c ≡ c = rw e refl in
    let stays : destroy_connection c ≡ (remove_channel c.channel >>= λ ch. ok (with_channel ch c)) =
      ap (λ x. remove_channel x.channel >>= λ ch. ok (with_channel ch x)) kept in
    ap (λ r. r >>= λ d. destruct d) stays ∙ elim (remove_channel-cases c.channel) [
      | inl refused ↦ ap (λ r. (r >>= λ ch. ok (with_channel ch c)) >>= λ d. destruct d) refused
      | inr (left, removed) ↦
          ap (λ r. (r >>= λ ch. ok (with_channel ch c)) >>= λ d. destruct d) removed
          ∙ destruct-half_shutdown (with_channel left c) e
    ]
