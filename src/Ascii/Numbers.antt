-- ===== src/Ascii/Numbers.antt =====
-- Numbers in a request: `mc_strtol`, `mc_strtoul`, `mc_strtoll` and `mc_strtoull` of
-- IQ-Twemcached/src/mc_util.c, over the functions of libc that they call.
use rejig.Prelude.{
  ℕ, ◌-◌, ◌%◌, ◌^◌, Bool, false, ◌&&◌, ◌||◌, not, Option, none, some, List, [], ◌∷◌, ◌==◌, ltb, leb,
  length, if◌then◌else◌, ℤ, pos, negsuc,
}

-- What a call leaves: is `errno` ERANGE, the value, and the text from `*endptr` on.
pub record Conversion (A : Type 0) : Type 0 where
  pub erange : Bool
  pub value : A
  pub rest : List ℕ

-- `strtol`, `strtoll`, `strtoul` and `strtoull` of libc in base 10; `long` has 64 bits.
pub record Libc : Type 0 where
  pub strtol : List ℕ → Conversion ℤ
  pub strtoll : List ℕ → Conversion ℤ
  pub strtoul : List ℕ → Conversion ℕ
  pub strtoull : List ℕ → Conversion ℕ
  pub isspace : ℕ → Bool

-- The cast to int32_t, with two's complement.
unfoldable pub to_int32 : ℤ → ℤ
to_int32 (pos n) = let u = n % 2 ^ 32 in if ltb u (2 ^ 31) then pos u else negsuc (2 ^ 32 - 1 - u)
to_int32 (negsuc n) =
    let u = n % 2 ^ 32 in if ltb u (2 ^ 31) then negsuc u else pos (2 ^ 32 - 1 - u)

-- The cast of an int64_t to uint64_t.
unfoldable pub to_uint64 : ℤ → ℕ
to_uint64 (pos n) = n % 2 ^ 64
to_uint64 (negsuc n) = 2 ^ 64 - 1 - n % 2 ^ 64

-- `strchr(str, '-') != NULL`
pub has_minus : List ℕ → Bool
has_minus [] = false
has_minus (c ∷ str) = c == b'-' || has_minus str

module _ (libc : Libc) where
  -- The test on `*endptr`.
  unfoldable pub ends_well : List ℕ → List ℕ → Bool
  ends_well str [] = not (length str == 0)
  ends_well str (c ∷ rest) = libc.isspace c

  -- `mc_strtol`: an int32_t.
  unfoldable pub mc_strtol : List ℕ → Option ℤ
  mc_strtol str =
      let l = libc.strtol str in
      if not l.erange && ends_well str l.rest then some (to_int32 l.value) else none

  -- `mc_strtoll`
  unfoldable pub mc_strtoll : List ℕ → Option ℤ
  mc_strtoll str =
      let ll = libc.strtoll str in
      if not ll.erange && ends_well str ll.rest then some ll.value else none

  -- `mc_strtoull`, which looks for a '-' anywhere in the rest of the request.
  unfoldable pub mc_strtoull : List ℕ → Option ℕ
  unfolding has_minus
  mc_strtoull str =
      let ull = libc.strtoull str in
      if not ull.erange && ends_well str ull.rest
      then (if leb (2 ^ 63) ull.value && has_minus str then none else some ull.value)
      else none

  -- `mc_strtoul`: a uint32_t.
  unfoldable pub mc_strtoul : List ℕ → Option ℕ
  unfolding has_minus
  mc_strtoul str =
      let l = libc.strtoul str in
      if not l.erange && ends_well str l.rest
      then (if leb (2 ^ 63) l.value && has_minus str then none else some (l.value % 2 ^ 32))
      else none
