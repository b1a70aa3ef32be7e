-- ===== src/TcpConnection/Sending.antt =====
-- `TcpConnection::Send` of src/tcp_connection.cc, and the stream of the bytes that it accepts.
use anoii.Prelude.{
  ℕ, ◌≤◌, ◌≡◌, inl, inr, refl, ap, ◌∙◌, Bool, true, false, not, Bool-cases, List, [], arith, ◌==◌,
  if◌then◌else◌, length, ok, ◌>>=◌,
}
use anoii.Buffer.{is_empty, append}
use anoii.TcpConnection.{
  TcpConnection, connecting, established, half_shutdown, disconnected, Written, refused, took,
  eagain, send_now, send_unsafe, send,
}
use anoii.TcpConnection.Sound.{
  Sound, After-refl, Survives, returns, which, is_connecting, is_established, is_half_shutdown,
  is_disconnected, survives,
}
use anoii.TcpConnection.Holding.{append-Survives, send_rest-Survives, not_gone, appended}

-- A write that the kernel answers with a count takes no more than there is.
abbrev pub Fits : Written → List ℕ → Type 0
Fits (refused e) bytes = Unit {0}
Fits (took n) bytes = n ≤ length bytes

-- What a call of `Send` lets into the stream: nothing if the connection is not established, or if
-- the kernel refuses the bytes for another reason than a full socket while nothing waits.
abbrev taken_of : Written → List ℕ → List ℕ
taken_of (refused e) bytes = if e == eagain then bytes else []
taken_of (took n) bytes = bytes

abbrev pub accepted : Written → List ℕ → TcpConnection → List ℕ
accepted result bytes c = elim c.state [
  | established ↦ if is_empty c.output then taken_of result bytes else bytes
  | connecting ↦ []
  | half_shutdown ↦ []
  | disconnected ↦ []
]

send_now-Survives :
    {c : TcpConnection} (spare : ℕ) (result : Written) (bytes : List ℕ)
    → Sound c
    → c.state ≡ established
    → is_empty c.output ≡ true
    → Fits result bytes
    → Survives (taken_of result bytes) c (send_now spare result bytes c)
unfolding send_now
send_now-Survives {c} spare (took n) bytes s e empty fits =
    send_rest-Survives spare n bytes s e empty fits
send_now-Survives {c} spare (refused r) bytes s e empty fits = elim (Bool-cases (r == eagain)) [
  | inl full ↦ rw full (send_rest-Survives spare 0 bytes s e empty (omega arith))
  | inr hard ↦ rw hard (returns c refl (After-refl s))
]

send_unsafe-Survives :
    {c : TcpConnection} (spare : ℕ) (result : Written) (bytes : List ℕ)
    → Sound c
    → c.state ≡ established
    → Fits result bytes
    → Survives
        (if is_empty c.output then taken_of result bytes else bytes)
        c
        (send_unsafe spare result bytes c)
unfolding send_unsafe
send_unsafe-Survives {c} spare result bytes s e fits = go c.channel.events.pollout refl
  where
    go :
        (b : Bool)
        → c.channel.events.pollout ≡ b
        → Survives
            (if is_empty c.output then taken_of result bytes else bytes)
            c
            (send_unsafe spare result bytes c)
    go true waits =
        let some_left : is_empty c.output ≡ false = s.interest (not_gone e) ∙ ap not waits in
        let eq : send_unsafe spare result bytes c
            ≡ (do output ← append spare bytes c.output; ok (appended output c)) =
          simp (waits) in
        survives (rw some_left refl) eq (append-Survives spare bytes s e waits)
    go false idle =
        let none_left : is_empty c.output ≡ true = s.interest (not_gone e) ∙ ap not idle in
        let eq : send_unsafe spare result bytes c ≡ send_now spare result bytes c =
          simp (idle, none_left) in
        survives (rw none_left refl) eq (send_now-Survives spare result bytes s e none_left fits)

ignored :
    {c : TcpConnection} (spare : ℕ) (result : Written) (bytes : List ℕ)
    → Sound c
    → send spare result bytes c ≡ ok c
    → accepted result bytes c ≡ []
    → Survives (accepted result bytes c) c (send spare result bytes c)
ignored {c} spare result bytes s sent nothing =
    survives nothing sent (returns c refl (After-refl s))

-- `Send` on the loop's thread loses, repeats and reorders nothing: on a sound connection it lets the
-- bytes that it accepts into the stream of what was written and what waits, in order and whole,
-- whatever part of them the kernel takes at once; it keeps the invariant, and no assertion fails,
-- unless a size leaves `int`.
pub send-Survives :
    {c : TcpConnection} (spare : ℕ) (result : Written) (bytes : List ℕ)
    → Sound c
    → Fits result bytes
    → Survives (accepted result bytes c) c (send spare result bytes c)
unfolding send
send-Survives {c} spare result bytes s fits = elim (which c.state) [
  | is_connecting e ↦ ignored spare result bytes s (rw e refl) (rw e refl)
  | is_half_shutdown e ↦ ignored spare result bytes s (rw e refl) (rw e refl)
  | is_disconnected e ↦ ignored spare result bytes s (rw e refl) (rw e refl)
  | is_established e ↦
      let eq : send spare result bytes c ≡ send_unsafe spare result bytes c = rw e refl in
      let acc : accepted result bytes c
          ≡ (if is_empty c.output then taken_of result bytes else bytes) =
        rw e refl in
      survives acc eq (send_unsafe-Survives spare result bytes s e fits)
]
