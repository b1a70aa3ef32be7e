-- ===== src/Http/Server/Download.antt =====
-- `HttpServer::WriteCb` on a file that is served, contrib/http/http_server.cc.
use anoii.Prelude.{
  take-all, take-append-drop, ℕ, zero, suc, ◌≤◌, ◌<◌, ◌≡◌, refl, sym, ap, ◌∙◌, Bool, true, false,
  some, List, [], ◌∷◌, ◌++◌, arith, if◌then◌else◌, ltb, length, take, drop, length-drop,
}
use mathlib.Core.List.{append-nil, append_assoc}
use anoii.Http.Utils.{Bytes}
use anoii.Http.Response.{OpenFile, load_data, load_file, read_chunk, chunk}
use anoii.Http.Server.{Served, write_cb, send_held, say}

abbrev pub flat : List Bytes → Bytes
flat [] = []
flat (b ∷ bs) = b ++ flat bs

-- The write callback comes each time that what was sent has left.
abbrev pub writes : ℕ → Served → Served
writes zero c = c
writes (suc n) c = writes n (write_cb c)

abbrev pub serving : Served → OpenFile → Served
serving c f = record c { response = record c.response { buf = []; file = some f } }

pub flat-append : (bs : List Bytes) (b : Bytes) → flat (bs ++ b ∷ []) ≡ flat bs ++ b
flat-append [] b = append-nil b
flat-append (x ∷ bs) b = ap (λ l. x ++ l) (flat-append bs b) ∙ sym (append_assoc x (flat bs) b)

pub flat-say :
    (bytes : Bytes) (c : Served) → c.shut ≡ false → flat (say bytes c).sent ≡ flat c.sent ++ bytes
flat-say bytes c unshut =
    ap (λ (b : Bool). flat (if b then c.sent else c.sent ++ bytes ∷ [])) unshut
    ∙ flat-append c.sent bytes

write_cb-chunk :
    (c : Served) (r : Bytes)
    → write_cb (serving c (record { remaining = r; eof = false }))
      ≡ serving (say (take chunk r) c) (read_chunk (record { remaining = r; eof = false }))
unfolding write_cb load_data load_file send_held
write_cb-chunk c r = refl

writes-stop :
    (n : ℕ) (c : Served) (r : Bytes)
    → writes n (serving c (record { remaining = r; eof = true }))
      ≡ serving c (record { remaining = r; eof = true })
unfolding write_cb
writes-stop zero c r = refl
writes-stop (suc n) c r = writes-stop n c r

ltb-true : (a b : ℕ) → ltb a b ≡ true → a ≤ b
ltb-true a b e = ground arith

ltb-false : (a b : ℕ) → ltb a b ≡ false → b ≤ a
ltb-false a b e = ground arith

-- What is left after a chunk.
writes-sent :
    (n : ℕ) (c : Served) (r : Bytes)
    → length r < n
    → c.shut ≡ false
    → (eof : Bool) → ltb (length r) chunk ≡ eof
    → flat (writes n (serving c (record { remaining = r; eof = false }))).sent ≡ flat c.sent ++ r
writes-sent zero c r h unshut eof e = absurd (omega arith)
writes-sent (suc n) c r h unshut true e =
    let ended : serving (say (take chunk r) c) (read_chunk (record { remaining = r; eof = false }))
        ≡ serving (say (take chunk r) c) (record { remaining = drop chunk r; eof = true }) =
      ap (λ b. serving (say (take chunk r) c) (record { remaining = drop chunk r; eof = b })) e in
    ap (λ s. flat (writes n s).sent) (write_cb-chunk c r ∙ ended)
    ∙ ap (λ s. flat s.sent) (writes-stop n (say (take chunk r) c) (drop chunk r))
    ∙ flat-say (take chunk r) c unshut
    ∙ ap (λ l. flat c.sent ++ l) (take-all chunk r (ltb-true (length r) chunk e))
writes-sent (suc n) c r h unshut false e =
    let goes_on : serving (say (take chunk r) c)
          (read_chunk (record { remaining = r; eof = false }))
        ≡ serving (say (take chunk r) c) (record { remaining = drop chunk r; eof = false }) =
      ap (λ b. serving (say (take chunk r) c) (record { remaining = drop chunk r; eof = b })) e in
    let large : chunk ≤ length r = ltb-false (length r) chunk e in
    let rest =
      writes-sent n (say (take chunk r) c) (drop chunk r)
        (omega (arith, length-drop chunk r, large, h)) unshut (ltb (length (drop chunk r)) chunk)
        refl in
    ap (λ s. flat (writes n s).sent) (write_cb-chunk c r ∙ goes_on)
    ∙ rest
    ∙ ap (λ l. l ++ drop chunk r) (flat-say (take chunk r) c unshut)
    ∙ append_assoc (flat c.sent) (take chunk r) (drop chunk r)
    ∙ ap (λ l. flat c.sent ++ l) (take-append-drop chunk r)

-- On a connection that is not shut a file response that has sent what it holds sends the whole file, in order and once, when the write
-- callback has come more often than the file has bytes left; further calls send nothing.
pub writes-download :
    (n : ℕ) (c : Served) (r : Bytes)
    → length r < n
    → c.shut ≡ false
    → flat (writes n (serving c (record { remaining = r; eof = false }))).sent ≡ flat c.sent ++ r
writes-download n c r h unshut = writes-sent n c r h unshut (ltb (length r) chunk) refl
