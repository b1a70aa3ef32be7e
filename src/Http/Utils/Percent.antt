-- ===== src/Http/Utils/Percent.antt =====
-- `ParsePercentEncoding` against the grammar of percent-encoded text.
use mathlib.Core.Path.{subst}
use anoii.Prelude.{
  leb, ◌≤◌, ℕ, ◌+◌, ◌*◌, ◌≡◌, ◌≢◌, ◌↔◌, refl, inl, inr, Option, none, some, [], ◌∷◌, ◌++◌,
  Bool-cases, Option-cases, ◌-◌, ◌&&◌, ◌==◌, arith, Result, ok, err, out_of_bounds,
}
use anoii.Http.Utils.{
  lower, Bytes, parse_hex_digit, hex_pair, parse_percent_encoding, push_decoded, escape,
}

-- A hexadecimal digit and its value.
pub data Digit : ℕ → ℕ → Type 0 where
  decimal_digit : {c v : ℕ} → v ≤ 9 → c ≡ b'0' + v → Digit c v
  small_letter : {c v : ℕ} → v ≤ 5 → c ≡ b'a' + v → Digit c (10 + v)
  capital_letter : {c v : ℕ} → v ≤ 5 → c ≡ b'A' + v → Digit c (10 + v)

parse-Digit : {c v : ℕ} → Digit c v → parse_hex_digit c ≡ some v
unfolding parse_hex_digit lower
parse-Digit (decimal_digit small e) = ground arith
parse-Digit (small_letter small e) = ground arith
parse-Digit (capital_letter small e) = ground arith

Digit-eq : {c v w : ℕ} → v ≡ w → Digit c v → Digit c w
Digit-eq {c} e d = subst (Digit c) e d

Digit-parse : (c v : ℕ) → parse_hex_digit c ≡ some v → Digit c v
unfolding parse_hex_digit lower
Digit-parse c v e = elim (Bool-cases (leb b'0' (lower c) && leb (lower c) b'9')) [
  | inl number ↦ decimal_digit {c = c} {v = v} (ground arith) (ground arith)
  | inr other ↦ elim (Bool-cases (leb b'a' c)) [
    | inl small ↦
        Digit-eq {c = c} {v = 10 + (v - 10)} (ground arith)
          (small_letter {v = v - 10} (ground arith) (ground arith))
    | inr capital ↦
        Digit-eq {c = c} {v = 10 + (v - 10)} (ground arith)
          (capital_letter {v = v - 10} (ground arith) (ground arith))
  ]
]

-- `Encodes text bytes`: `text` is a percent-encoding of `bytes`.
pub data Encodes : Bytes → Bytes → Type 0 where
  nil : Encodes [] []
  plain :
      {c : ℕ} {text bytes : Bytes} → c ≢ b'%' → Encodes text bytes → Encodes (c ∷ text) (c ∷ bytes)
  escaped :
      {c h l hi lo : ℕ} {text bytes : Bytes}
      → c ≡ b'%'
      → Digit h hi
      → Digit l lo
      → Encodes text bytes
      → Encodes (c ∷ h ∷ l ∷ text) ((hi * 16 + lo) ∷ bytes)

parse-plain :
    (c : ℕ) (cs : Bytes)
    → c ≢ b'%'
    → parse_percent_encoding (c ∷ cs) ≡ push_decoded c (parse_percent_encoding cs)
unfolding parse_percent_encoding
parse-plain c [] ne = ground arith
parse-plain c (h ∷ []) ne = ground arith
parse-plain c (h ∷ l ∷ cs) ne = ground arith

parse-escaped :
    (c h l : ℕ) (cs : Bytes)
    → c ≡ b'%'
    → parse_percent_encoding (c ∷ h ∷ l ∷ cs)
      ≡ escape (hex_pair (parse_hex_digit h) (parse_hex_digit l)) (parse_percent_encoding cs)
unfolding parse_percent_encoding
parse-escaped c h l cs e = ground arith

parse-alone : (c : ℕ) → c ≡ b'%' → parse_percent_encoding (c ∷ []) ≡ ok none
unfolding parse_percent_encoding
parse-alone c e = ground arith

parse-cut : (c h : ℕ) → c ≡ b'%' → parse_percent_encoding (c ∷ h ∷ []) ≡ err out_of_bounds
unfolding parse_percent_encoding
parse-cut c h e = ground arith

parse-Encodes :
    {text bytes : Bytes} → Encodes text bytes → parse_percent_encoding text ≡ ok (some bytes)
unfolding push_decoded escape hex_pair
parse-Encodes nil = unfold parse_percent_encoding in refl
parse-Encodes (plain {c} {text} ne e) = rw (parse-plain c text ne, parse-Encodes e) refl
parse-Encodes (escaped {c} {h} {l} {hi} {lo} {text} p dh dl e) =
    rw (parse-escaped c h l text p, parse-Digit dh, parse-Digit dl, parse-Encodes e) refl

-- What a decoded result says about the text.
push_decoded-eq-some :
    (c : ℕ) (r : Result (Option Bytes)) (bytes : Bytes)
    → push_decoded c r ≡ ok (some bytes)
    → (rest : Bytes) × (r ≡ ok (some rest)) × (bytes ≡ c ∷ rest)
unfolding push_decoded
push_decoded-eq-some c (err f) bytes h = cc
push_decoded-eq-some c (ok none) bytes h = cc
push_decoded-eq-some c (ok (some rest)) bytes h = (rest, refl, cc)

hex_pair-eq-some :
    (h l : Option ℕ) (b : ℕ)
    → hex_pair h l ≡ some b
    → (hi : ℕ) × (lo : ℕ) × (h ≡ some hi) × (l ≡ some lo) × (b ≡ hi * 16 + lo)
unfolding hex_pair
hex_pair-eq-some none l b e = cc
hex_pair-eq-some (some hi) none b e = cc
hex_pair-eq-some (some hi) (some lo) b e = (hi, lo, refl, refl, ground arith)

Encodes-plain :
    (c : ℕ) (cs : Bytes)
    → ((rest : Bytes) → parse_percent_encoding cs ≡ ok (some rest) → Encodes cs rest)
    → c ≢ b'%'
    → (bytes : Bytes) → parse_percent_encoding (c ∷ cs) ≡ ok (some bytes)
    → Encodes (c ∷ cs) bytes
Encodes-plain c cs ih ne bytes h =
    let (rest, e, b) = push_decoded-eq-some c _ bytes (rw (parse-plain c cs ne) at h) in
    rw b (plain ne (ih rest e))

Encodes-escaped :
    (c h l : ℕ) (cs : Bytes)
    → ((rest : Bytes) → parse_percent_encoding cs ≡ ok (some rest) → Encodes cs rest)
    → c ≡ b'%'
    → (bytes : Bytes) → parse_percent_encoding (c ∷ h ∷ l ∷ cs) ≡ ok (some bytes)
    → Encodes (c ∷ h ∷ l ∷ cs) bytes
unfolding escape
Encodes-escaped c h l cs ih p bytes e =
    elim (Option-cases (hex_pair (parse_hex_digit h) (parse_hex_digit l))) [
      | inl missing ↦ cc (rw (parse-escaped c h l cs p, missing) at e)
      | inr (b, pair) ↦
          let (hi, lo, dh, dl, eb) = hex_pair-eq-some _ _ b pair in
          let (rest, er, ebs) =
            push_decoded-eq-some b (parse_percent_encoding cs) bytes
              (rw (parse-escaped c h l cs p, pair) at e) in
          rw (ebs, eb) (escaped p (Digit-parse h hi dh) (Digit-parse l lo dl) (ih rest er))
    ]

Encodes-parse :
    (text bytes : Bytes) → parse_percent_encoding text ≡ ok (some bytes) → Encodes text bytes
Encodes-parse [] bytes e = unfold parse_percent_encoding in (rw (empty bytes e) nil)
  where
    empty : (bytes : Bytes) → parse_percent_encoding [] ≡ ok (some bytes) → bytes ≡ []
    empty bytes e = unfold parse_percent_encoding in cc e
Encodes-parse (c ∷ []) bytes e = elim (Bool-cases (c == b'%')) [
  | inl percent ↦ cc (parse-alone c (ground arith), e)
  | inr other ↦ Encodes-plain c [] (Encodes-parse []) (ground arith) bytes e
]
Encodes-parse (c ∷ h ∷ []) bytes e = elim (Bool-cases (c == b'%')) [
  | inl percent ↦ cc (parse-cut c h (ground arith), e)
  | inr other ↦ Encodes-plain c (h ∷ []) (Encodes-parse (h ∷ [])) (ground arith) bytes e
]
Encodes-parse (c ∷ h ∷ l ∷ cs) bytes e = elim (Bool-cases (c == b'%')) [
  | inl percent ↦ Encodes-escaped c h l cs (Encodes-parse cs) (ground arith) bytes e
  | inr other ↦ Encodes-plain c (h ∷ l ∷ cs) (Encodes-parse (h ∷ l ∷ cs)) (ground arith) bytes e
]

-- `ParsePercentEncoding` gives the bytes of a text exactly if the text is a percent-encoding of
-- those bytes: every byte but `%` stands for itself, and a byte is 16 times the value of the first
-- hexadecimal digit behind a `%`, and that of the second one.
pub parse_percent_encoding_iff :
    (text bytes : Bytes) → (parse_percent_encoding text ≡ ok (some bytes)) ↔ Encodes text bytes
parse_percent_encoding_iff text bytes = (Encodes-parse text bytes, parse-Encodes)

-- A text that ends in a `%` and one more byte, behind a well-formed part, makes
-- `ParsePercentEncoding` read behind the end of the text.
parse_percent_encoding_overruns :
    {text bytes : Bytes} (h : ℕ)
    → Encodes text bytes
    → parse_percent_encoding (text ++ b'%' ∷ h ∷ []) ≡ err out_of_bounds
unfolding push_decoded escape hex_pair
parse_percent_encoding_overruns h nil = parse-cut b'%' h refl
parse_percent_encoding_overruns h (plain {c} {text} ne e) =
    rw (parse-plain c (text ++ b'%' ∷ h ∷ []) ne, parse_percent_encoding_overruns h e) refl
parse_percent_encoding_overruns h (escaped {c} {h = d} {l} {text} p dh dl e) =
    rw
      (
        parse-escaped c d l (text ++ b'%' ∷ h ∷ []) p,
        parse-Digit dh,
        parse-Digit dl,
        parse_percent_encoding_overruns h e,
      )
      refl
