-- ===== src/Time/Never.antt =====
-- When an item never expires, by `time_reltime` of IQ-Twemcached/src/mc_time.c.
use rejig.Prelude.{ℕ, suc, ◌+◌, ◌<◌, ◌^◌, ◌≡◌, ◌↔◌, arith, ℤ, pos, negsuc}
use rejig.Time.{reltime, time_maxdelta}

-- An expiry less than 2^32 seconds after the start; below 0, at most 2^31.
unfoldable pub Fits : ℕ → ℤ → Type 0
Fits process_started (pos n) = n < process_started + 2 ^ 32
Fits process_started (negsuc n) = n < 2 ^ 31

-- The expiry 0, and the one that takes the clock back to 0.
pub NeverExpires : ℕ → ℤ → Type 0
NeverExpires now (pos n) = n ≡ 0
NeverExpires now (negsuc n) = suc n ≡ now

-- Time_reltime returns 0, which stands for no expiry, exactly for the expiry 0 and for the
-- negative expiry that takes the clock back to 0. The clock leaves room for a delta of thirty
-- days below 2^32, and the expiry is less than 2^32 seconds after the start and at least -2^31.
pub reltime_zero :
    (process_started now : ℕ)
    → (exptime : ℤ) → now + time_maxdelta < 2 ^ 32
    → Fits process_started exptime
    → (reltime process_started now exptime ≡ 0) ↔ NeverExpires now exptime
unfolding reltime Fits NeverExpires
reltime_zero process_started now (pos n) h k = ground arith
reltime_zero process_started now (negsuc n) h k = ground arith
