-- ===== src/Connector/Backoff.antt =====
-- The delays between the attempts of `Connector`, src/connector.cc.
use anoii.Prelude.{ℕ, zero, suc, ◌*◌, ◌≡◌, ap, ◌∙◌, arith, leb, if◌then◌else◌, ◌^◌}
use anoii.Connector.{Connector, next_delay, retry}

abbrev pub retries : ℕ → Connector → Connector
unfolding retry
retries zero c = c
retries (suc k) c = retry (retries k c)

-- The delay after `k` retries, without the recursion: 500 doubled `k` times, but 30000 at most.
abbrev pub delay : ℕ → ℕ
delay k = if leb 30000 (500 * 2 ^ k) then 30000 else 500 * 2 ^ k

next_delay-delay : (k : ℕ) → next_delay (delay k) ≡ delay (suc k)
next_delay-delay k = let twice : 2 ^ suc k ≡ 2 ^ k * 2 = omega arith in ground arith

-- The delay doubles from half a second up to half a minute and stays there.
retries-delay : (k : ℕ) (c : Connector) → c.retry_ms ≡ 500 → (retries k c).retry_ms ≡ delay k
unfolding retry
retries-delay zero c e = e
retries-delay (suc k) c e = ap next_delay (retries-delay k c e) ∙ next_delay-delay k
