-- ===== src/Util.antt =====
-- Numbers in text: `mc_strtoull_len` of IQ-Twemcached/src/mc_util.c, which reads the token of a
-- lease and the operand of an increment, beside the `%llu` that wrote them.
pub mod RoundTrip
pub mod Tests
use rejig.Prelude.{
  ℕ, zero, suc, ◌+◌, ◌-◌, ◌*◌, ◌/◌, ◌%◌, ◌^◌, Bool, true, false, Option, none, some, List, [], ◌∷◌,
  ◌++◌, ltb, leb, ◌==◌, ◌&&◌, ◌||◌, if◌then◌else◌,
}

abbrev pub uint64_max : ℕ
uint64_max = 2 ^ 64 - 1

-- `isspace`: the blank, and the codes 9 to 13.
is_space : ℕ → Bool
is_space c = c == b' ' || (leb 9 c && leb c 13)

is_digit : ℕ → Bool
is_digit c = leb b'0' c && leb c b'9'

-- `mc_skip_space`
skip_space : List ℕ → List ℕ
skip_space [] = []
skip_space (c ∷ str) = let rest = skip_space str in if is_space c then rest else c ∷ str

-- The text after the digits and what they say; `none` where the next digit might overflow.
read_digits : ℕ → List ℕ → Option (ℕ × List ℕ)
read_digits out [] = some (out, [])
read_digits out (c ∷ str) =
    let rest = read_digits ((out * 10 + c - b'0') % 2 ^ 64) str in
    if is_digit c then (if leb (uint64_max / 10) out then none else rest) else some (out, c ∷ str)

ends : ℕ × List ℕ → Option ℕ
ends (out, []) = some out
ends (out, c ∷ str) = none

-- `none` where the call returns false.
unfoldable pub strtoull_len : List ℕ → Option ℕ
unfolding skip_space read_digits ends is_space is_digit
strtoull_len [] = none
strtoull_len (c ∷ str) = elim (read_digits 0 (skip_space (c ∷ str))) [
  | none ↦ none
  | some (out, rest) ↦ ends (out, skip_space rest)
]

-- `snprintf(buf, INCR_MAX_STORAGE_LEN, "%llu", value)`: twenty digits are enough.
unfoldable pub print_digits : ℕ → ℕ → List ℕ → List ℕ
print_digits zero value digits = digits
print_digits (suc fuel) value digits =
    let more = print_digits fuel (value / 10) ((b'0' + value % 10) ∷ digits) in
    if ltb value 10 then (b'0' + value) ∷ digits else more

unfoldable pub print_uint64 : ℕ → List ℕ
unfolding print_digits
print_uint64 value = print_digits 20 value []
