-- ===== src/Keylist/Codec.antt =====
-- Lists of keys as the bytes of a key list, and each loop of IQ-Twemcached/src/mc_sqltrig.c on
-- such bytes.
use rejig.Prelude.{
  ℕ, zero, suc, ◌+◌, ◌≤◌, ◌≡◌, refl, List, [], ◌∷◌, ◌++◌, arith, length, ◌⊎◌, inl, inr, some,
  take-append_length, drop-append_length, length-append,
}
use rejig.Keylist.{
  compare_entry, compare_key, Key, ok, not_found, read_key, size_keylist_loop, size_keylist,
  check_keylist_loop, check_keylist,
}
use rejig.Keylist.Order.{
  IsSorted, Has, compare_key_eq, compare_key-cases, not-Has_of_lt, not-Has_of_gt,
}

abbrev pub encode_key : Key → List ℕ → List ℕ
encode_key k rest = length k ∷ k ++ rest

abbrev pub encode : List Key → List ℕ
encode [] = []
encode (k ∷ ks) = encode_key k (encode ks)

pub read_key-encode : (k : Key) (rest : List ℕ) → read_key (encode_key k rest) ≡ some (k, rest)
unfolding read_key
read_key-encode k rest =
    ground (arith, length-append k rest, take-append_length k rest, drop-append_length k rest)

pub compare_entry-encode :
    (x k : Key) (rest : List ℕ) → compare_entry (length x) (x ++ rest) k ≡ some (compare_key x k)
unfolding compare_entry compare_key
compare_entry-encode x k rest = ground (arith, length-append x rest, take-append_length x rest)

pub length-le-encode : (ks : List Key) → length ks ≤ length (encode ks)
length-le-encode [] = omega arith
length-le-encode (k ∷ ks) = omega (arith, length-le-encode ks, length-append k (encode ks))

size_keylist_loop-encode :
    (fuel : ℕ) (ks : List Key) (cnt : ℕ)
    → length ks ≤ fuel
    → size_keylist_loop fuel (encode ks) cnt ≡ some (cnt + length ks)
unfolding size_keylist_loop
size_keylist_loop-encode fuel [] cnt h = ground arith
size_keylist_loop-encode zero (k ∷ ks) cnt h = absurd (omega arith)
size_keylist_loop-encode (suc fuel) (k ∷ ks) cnt h =
    ground (arith, drop-append_length k (encode ks), size_keylist_loop-encode fuel ks (cnt + 1))

-- The function trig_size_keylist ends on the bytes of every list, with the number of its keys.
pub size_keylist-encode : (ks : List Key) → size_keylist (encode ks) ≡ some (length ks)
unfolding size_keylist
size_keylist-encode ks =
    ground (arith, size_keylist_loop-encode (length (encode ks)) ks 0, length-le-encode ks)

check_keylist_loop-encode :
    (fuel : ℕ) (ks : List Key) (k : Key)
    → length ks ≤ fuel
    → IsSorted ks
    → (Has k ks × (check_keylist_loop fuel (encode ks) k ≡ some ok))
      ⊎ ((¬ Has k ks) × (check_keylist_loop fuel (encode ks) k ≡ some not_found))
unfolding check_keylist_loop
check_keylist_loop-encode zero [] k h s = inr ((λ x. x), refl)
check_keylist_loop-encode (suc fuel) [] k h s = inr ((λ x. x), refl)
check_keylist_loop-encode zero (x ∷ ks) k h s = absurd (omega arith)
check_keylist_loop-encode (suc fuel) (x ∷ ks) k h s = elim (compare_key-cases x k) [
  | inl e ↦ inl (
    inl (compare_key_eq x k e),
    ground (arith, compare_entry-encode x k (encode ks), drop-append_length x (encode ks)),
  )
  | inr (inl e) ↦ inr (
    not-Has_of_lt x ks k s e,
    ground (arith, compare_entry-encode x k (encode ks), drop-append_length x (encode ks)),
  )
  | inr (inr e) ↦ elim (check_keylist_loop-encode fuel ks k (omega arith) s.1) [
    | inl (has, run) ↦ inl (
      inr has,
      ground (arith, compare_entry-encode x k (encode ks), drop-append_length x (encode ks)),
    )
    | inr (no_key, run) ↦ inr (
      not-Has_of_gt x ks k e no_key,
      ground (arith, compare_entry-encode x k (encode ks), drop-append_length x (encode ks)),
    )
  ]
]

-- On the bytes of a sorted list, trig_check_keylist ends and returns TRIG_OK exactly for the keys
-- of the list, and TRIG_NOTFOUND for all others.
pub check_keylist-encode :
    (ks : List Key) (k : Key)
    → IsSorted ks
    → (Has k ks × (check_keylist (encode ks) k ≡ some ok))
      ⊎ ((¬ Has k ks) × (check_keylist (encode ks) k ≡ some not_found))
unfolding check_keylist
check_keylist-encode ks k s =
    check_keylist_loop-encode (length (encode ks)) ks k (length-le-encode ks) s
