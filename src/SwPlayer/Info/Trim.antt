-- ===== src/SwPlayer/Info/Trim.antt =====
-- The spaces that `GetAllLufs` of src/tools/swplayer/main.cc takes off a value.
use anoii.Prelude.{ℕ, ◌≡◌, ◌≢◌, sym, ap, ◌∙◌, false, [], ◌∷◌, ◌++◌, arith, ◌==◌}
use anoii.Http.Utils.{Bytes}
use anoii.SwPlayer.Info.{trim_front, trim_back, trim, unless_empty}

-- A text that neither begins nor ends with a space.
pub record IsClean (v : Bytes) : Type 0 where
  pub first : ℕ
  pub rest : Bytes
  pub starts : v ≡ first ∷ rest
  pub no_space : first ≢ b' '
  pub front : Bytes
  pub last : ℕ
  pub ends : v ≡ front ++ last ∷ []
  pub no_space_behind : last ≢ b' '

trim_back-cons : (c y : ℕ) (xs ys : Bytes) → trim_back xs ≡ y ∷ ys → trim_back (c ∷ xs) ≡ c ∷ y ∷ ys
unfolding trim_back
trim_back-cons c y xs ys e = simp e

trim_back_one : (b : ℕ) → b ≢ b' ' → trim_back (b ∷ []) ≡ b ∷ []
unfolding trim_back
trim_back_one b h = let other : (b == b' ') ≡ false = ground arith in simp other

trim_back-end : (front : Bytes) (b : ℕ) → b ≢ b' ' → trim_back (front ++ b ∷ []) ≡ front ++ b ∷ []
trim_back-end [] b h = trim_back_one b h
trim_back-end (c ∷ []) b h = trim_back-cons c b (b ∷ []) [] (trim_back_one b h)
trim_back-end (c ∷ d ∷ cs) b h =
    trim_back-cons c d (d ∷ (cs ++ b ∷ [])) (cs ++ b ∷ []) (trim_back-end (d ∷ cs) b h)

trim_front-clean : (a : ℕ) (rest : Bytes) → a ≢ b' ' → trim_front (b' ' ∷ a ∷ rest) ≡ a ∷ rest
unfolding trim_front
trim_front-clean a rest h = let other : (a == b' ') ≡ false = ground arith in simp other

trim-step :
    (v v' : Bytes) (c : ℕ) (cs : Bytes)
    → trim_front v ≡ v'
    → trim_back v' ≡ c ∷ cs
    → trim v ≡ c ∷ cs
unfolding trim
trim-step v v' c cs e h = ap (λ q. unless_empty q v) (ap trim_back e ∙ h)

pub trim-IsClean : {v : Bytes} → IsClean v → trim (b' ' ∷ v) ≡ v
trim-IsClean {v} c =
    let starts : trim_front (b' ' ∷ v) ≡ v =
      rw c.starts (trim_front-clean c.first c.rest c.no_space) in
    let ends : trim_back v ≡ v =
      ap trim_back c.ends ∙ trim_back-end c.front c.last c.no_space_behind ∙ sym c.ends in
    trim-step (b' ' ∷ v) v c.first c.rest starts (ends ∙ c.starts) ∙ sym c.starts
