-- ===== src/Time/Tests.antt =====
-- `time_reltime` at an expiry of a minute, and at one below 0.
use rejig.Prelude.{◌≡◌, ◌↔◌, refl, arith, ℤ, pos, negsuc}
use rejig.Time.{reltime}
use rejig.Time.Never.{Fits, NeverExpires, reltime_zero}

abbrev minute : ℤ
minute = pos 60

abbrev five_back : ℤ
five_back = negsuc 4

reltime-five_back : reltime 1000 5 five_back ≡ 0
unfolding reltime
reltime-five_back = refl

five_back-Fits : Fits 1000 five_back
unfolding Fits
five_back-Fits = omega arith

reltime_zero_example : (reltime 1000 5 five_back ≡ 0) ↔ NeverExpires 5 five_back
reltime_zero_example = reltime_zero 1000 5 five_back (omega arith) five_back-Fits
