-- ===== src/Time.antt =====
-- `time_reltime` of IQ-Twemcached/src/mc_time.c.
mod Tests
pub mod Never
use rejig.Prelude.{ℕ, ◌+◌, ◌-◌, ◌*◌, ◌%◌, ◌^◌, ltb, leb, ◌==◌, if◌then◌else◌, ℤ, pos, negsuc}

abbrev pub time_maxdelta : ℕ
time_maxdelta = 60 * 60 * 24 * 30

-- An expiry time from the protocol as seconds after `process_started`. `time_t` is signed, and
-- `rel_time_t` is uint32_t: an expiry below 0 is added to the clock like a short one, and the sum
-- wraps.
unfoldable pub reltime : ℕ → ℕ → ℤ → ℕ
reltime process_started now (pos n) =
    if n == 0
    then 0
    else (if ltb time_maxdelta n
        then (if leb n process_started then 1 else (n - process_started) % 2 ^ 32)
        else (n + now) % 2 ^ 32)
reltime process_started now (negsuc n) = (now + 2 ^ 32 - 1 - n % 2 ^ 32) % 2 ^ 32
