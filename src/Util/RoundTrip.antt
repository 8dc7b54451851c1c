-- ===== src/Util/RoundTrip.antt =====
-- What `%llu` prints is read back by `mc_strtoull_len` of IQ-Twemcached/src/mc_util.c.
use native.Mathlib.Nat.{pow-suc}
use rejig.Prelude.{
  none, leb, leb→le, if◌then◌else◌, ap, ℕ, zero, suc, ◌+◌, ◌-◌, ◌*◌, ◌/◌, ◌%◌, ◌^◌, ◌<◌, ◌≤◌, ◌≡◌,
  ◌∙◌, true, false, some, List, [], ◌∷◌, ltb, arith, Bool-cases, inl, inr, ltb→lt,
}
use rejig.Util.{
  uint64_max, is_space, is_digit, read_digits, strtoull_len, print_digits, print_uint64,
}

digit_lem : (d : ℕ) → d < 10 → (is_digit (b'0' + d) ≡ true) × (is_space (b'0' + d) ≡ false)
unfolding is_digit is_space
digit_lem d h = ground arith

-- One more digit of a number that stays below the limit.
read_digit :
    (out d : ℕ) (str : List ℕ)
    → d < 10
    → out < uint64_max / 10
    → read_digits out ((b'0' + d) ∷ str) ≡ read_digits (out * 10 + d) str
unfolding read_digits
read_digit out d str h small =
    let e : (out * 10 + (b'0' + d) - b'0') % 2 ^ 64 ≡ out * 10 + d = omega arith in
    rw ((digit_lem d h).0, e) (ground arith)

-- Reading the digits of `value` and then `digits` is reading `digits` from `value`.
read_digits-print_digits :
    (fuel value : ℕ) (digits : List ℕ)
    → value < 10 ^ fuel
    → 0 < value + fuel
    → value < 2 ^ 64 - 6
    → read_digits 0 (print_digits fuel value digits) ≡ read_digits value digits
unfolding print_digits
read_digits-print_digits zero value digits h pos small = absurd (omega arith)
read_digits-print_digits (suc fuel) value digits h pos small = elim (Bool-cases (ltb value 10)) [
  | inl e ↦
      let z : 0 * 10 + value ≡ value = omega arith in
      rw e (
        read_digit 0 value digits (ltb→lt value 10 e) (omega arith)
        ∙ ap (λ n. read_digits n digits) z)
  | inr e ↦
      let big : 10 ≤ value = ground arith in
      let z : value / 10 * 10 + value % 10 ≡ value = omega arith in
      let d = (b'0' + value % 10) ∷ digits in
      rw e (
        read_digits-print_digits fuel (value / 10) d (omega (arith, pow-suc)) (omega arith)
          (omega arith)
        ∙ read_digit (value / 10) (value % 10) digits (omega arith) (omega arith)
        ∙ ap (λ n. read_digits n digits) z)
]

-- The text starts with a digit.
print_digits-cons :
    (fuel value : ℕ) (digits : List ℕ)
    → (d : ℕ) × (str : List ℕ) × (d < 10)
      × (print_digits (suc fuel) value digits ≡ (b'0' + d) ∷ str)
unfolding print_digits
print_digits-cons zero value digits = elim (Bool-cases (ltb value 10)) [
  | inl e ↦ (value, digits, ltb→lt value 10 e, rw e)
  | inr e ↦ (value % 10, digits, omega arith, rw e)
]
print_digits-cons (suc fuel) value digits = elim (Bool-cases (ltb value 10)) [
  | inl e ↦ (value, digits, ltb→lt value 10 e, rw e)
  | inr e ↦
      let (d, str, h, p) = print_digits-cons fuel (value / 10) ((b'0' + value % 10) ∷ digits) in
      (d, str, h, rw e p)
]

read_text :
    (d : ℕ) (str : List ℕ) (value : ℕ)
    → d < 10
    → read_digits 0 ((b'0' + d) ∷ str) ≡ some (value, [])
    → strtoull_len ((b'0' + d) ∷ str) ≡ some value
unfolding strtoull_len
read_text d str value h e = ground (arith, digit_lem d h)

strtoull_len-print_digits :
    (fuel value : ℕ)
    → value < 10 ^ suc fuel
    → value < 2 ^ 64 - 6
    → strtoull_len (print_digits (suc fuel) value []) ≡ some value
unfolding read_digits
strtoull_len-print_digits fuel value h small =
    let (d, str, hd, p) = print_digits-cons fuel value [] in
    let q = read_digits-print_digits (suc fuel) value [] h (omega arith) small in
    rw p (read_text d str value hd (rw p at q))

read_digit_over :
    (out d : ℕ) (str : List ℕ)
    → d < 10
    → uint64_max / 10 ≤ out
    → read_digits out ((b'0' + d) ∷ str) ≡ none
unfolding read_digits
read_digit_over out d str h big = rw (digit_lem d h).0 (ground arith)

read_text_over :
    (d : ℕ) (str : List ℕ)
    → d < 10
    → read_digits 0 ((b'0' + d) ∷ str) ≡ none
    → strtoull_len ((b'0' + d) ∷ str) ≡ none
unfolding strtoull_len
read_text_over d str h e = ground (arith, digit_lem d h)

strtoull_len-print_digits_over :
    (fuel value : ℕ)
    → value < 10 ^ suc (suc fuel)
    → uint64_max - 6 < value
    → value ≤ uint64_max
    → strtoull_len (print_digits (suc (suc fuel)) value []) ≡ none
unfolding print_digits
strtoull_len-print_digits_over fuel value h big small =
    let (d, str, hd, p) = print_digits-cons (suc fuel) value [] in
    let long : ltb value 10 ≡ false = ground arith in
    let last = (b'0' + value % 10) ∷ [] in
    let q : read_digits 0 (print_digits (suc (suc fuel)) value []) ≡ none = rw long (
      read_digits-print_digits (suc fuel) (value / 10) last (omega (arith, pow-suc)) (omega arith)
        (omega arith)
      ∙ read_digit_over (value / 10) (value % 10) [] (omega arith) (omega arith)) in
    rw p (read_text_over d str hd (rw p at q))

-- The text of an unsigned 64-bit number is read back as that number up to the limit that the code
-- names, UINT64_MAX - 6, and is refused above it.
pub strtoull_len-print_uint64 :
    (value : ℕ)
    → value ≤ uint64_max
    → strtoull_len (print_uint64 value) ≡ (if leb value (uint64_max - 6) then some value else none)
unfolding print_uint64
strtoull_len-print_uint64 value h = elim (Bool-cases (leb value (uint64_max - 6))) [
  | inl e ↦
      let small = leb→le value _ e in
      rw e (strtoull_len-print_digits 19 value (omega arith) (omega arith))
  | inr e ↦
      let big : uint64_max - 6 < value = ground arith in
      rw e (strtoull_len-print_digits_over 18 value (omega arith) big h)
]
