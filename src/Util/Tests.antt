-- ===== src/Util/Tests.antt =====
-- Runs of the reader of numbers of IQ-Twemcached/src/mc_util.c, and the theorem at the limit.
use rejig.Prelude.{◌-◌, ◌≡◌, refl, [], ◌∷◌, arith, none, some, ◌^◌}
use rejig.Util.{strtoull_len, print_uint64}
use rejig.Util.RoundTrip.{strtoull_len-print_uint64}

reads_between_blanks : strtoull_len (b' ' ∷ b'4' ∷ b'2' ∷ 13 ∷ 10 ∷ []) ≡ some 42
unfolding strtoull_len
reads_between_blanks = refl

-- A text of blanks alone reads as 0.
reads_blanks : strtoull_len (b' ' ∷ []) ≡ some 0
unfolding strtoull_len
reads_blanks = refl

refuses_letters : strtoull_len (b'4' ∷ b'x' ∷ []) ≡ none
unfolding strtoull_len
refuses_letters = refl

strtoull_len-print_uint64_example : strtoull_len (print_uint64 (2 ^ 64 - 1)) ≡ none
strtoull_len-print_uint64_example = strtoull_len-print_uint64 (2 ^ 64 - 1) (omega arith)

-- A text of one letter.
pub no_number : strtoull_len (b'v' ∷ []) ≡ none
unfolding strtoull_len
no_number = refl
