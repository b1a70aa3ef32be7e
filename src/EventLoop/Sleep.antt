-- ===== src/EventLoop/Sleep.antt =====
-- How long `EventLoop::Loop` lets poll sleep, src/event_loop.cc.
use anoii.Prelude.{
  ◌^◌, negsuc, ◌%◌, ℤ, pos, ℕ, ◌+◌, ◌-◌, ◌≤◌, ◌<◌, ◌≡◌, ◌≢◌, refl, ap, true, false, List, [], ◌∷◌,
  arith, ltb, if◌then◌else◌,
}
use anoii.TimerQueue.{sleep_time, take_expired}

-- `static_cast<int>` of a number of 64 bits.
unfoldable pub narrowed : ℤ → ℤ
narrowed (pos n) =
    let word = n % 2 ^ 32 in if ltb word (2 ^ 31) then pos word else negsuc (2 ^ 32 - 1 - word)
narrowed (negsuc n) =
    let word = n % 2 ^ 32 in if ltb word (2 ^ 31) then negsuc word else pos (2 ^ 32 - 1 - word)

-- What `poll` is given, at a time and with the timers.
unfoldable pub poll_timeout : ℕ → List (ℕ × ℕ) → ℤ
unfolding narrowed
poll_timeout now timers = narrowed (sleep_time now timers)

narrowed-small : (n : ℕ) → n < 2147483648 → narrowed (pos n) ≡ pos n
unfolding narrowed
narrowed-small n h =
    let same : n % 4294967296 ≡ n = ground (arith, h) in
    let less : ltb (n % 4294967296) 2147483648 ≡ true = ground (arith, same, h) in
    rw less (ap pos same)

narrowed-large :
    (n : ℕ) → 2147483648 ≤ n → n < 4294967296 → narrowed (pos n) ≡ negsuc (4294967295 - n)
unfolding narrowed
narrowed-large n h k =
    let same : n % 4294967296 ≡ n = ground (arith, k) in
    let more : ltb (n % 4294967296) 2147483648 ≡ false = ground (arith, same, h) in
    rw more (ap (λ w. negsuc (4294967295 - w)) same)

-- With timers, of which the first is due at `when`: if that is less than 2^31 milliseconds ahead, poll
-- is given the time that is left, none if it is past; no timer is due before that time, and one is
-- then. If it is 2^31 milliseconds ahead, about 25 days, or more, and less than 2^32, poll is given a
-- negative time, which it takes for no limit.
pub poll_timeout-lem :
    (now when timer : ℕ) (us : List (ℕ × ℕ))
    → (when - now < 2147483648
        → (poll_timeout now ((when, timer) ∷ us) ≡ pos (when - now))
          × ((later : ℕ)
              → now ≤ later
              → later < now + (when - now)
              → (take_expired later ((when, timer) ∷ us)).0 ≡ [])
          × ((take_expired (now + (when - now)) ((when, timer) ∷ us)).0 ≢ []))
      × (2147483648 ≤ when - now
          → when - now < 4294967296
          → (k : ℕ) × (poll_timeout now ((when, timer) ∷ us) ≡ negsuc k))
unfolding poll_timeout sleep_time take_expired
poll_timeout-lem now when timer us = (
  λ small. (
    narrowed-small (when - now) small,
    λ later h k. let waits : ltb later when ≡ true = ground arith in rw waits refl,
    λ e. let due : ltb (now + (when - now)) when ≡ false = ground arith in cc (due, e),
  ),
  λ large below. (4294967295 - (when - now), narrowed-large (when - now) large below),
)
