-- ===== src/Keylist/Tests.antt =====
-- Runs of the key list functions of IQ-Twemcached/src/mc_sqltrig.c, and the theorems on them at
-- a list of three keys.
use rejig.Prelude.{
  ap, get_or, ◌↔◌, ℕ, ◌+◌, ◌≡◌, refl, List, [], ◌∷◌, ◌++◌, arith, length, inl, inr, some, take,
  drop, replicate, ◌⊎◌,
}
use rejig.Keylist.{
  Key, ok, not_found, check_keylist, addkey, rmvkey, size_keylist, Written, new_keylist_size,
  compare_entry, read_key, compare_key, memcmp, write, check_keylist_loop, size_keylist_loop,
  find_key, remove_at, find_place, add_at,
}
use rejig.Keylist.Order.{IsSorted, Has}
use rejig.Keylist.Codec.{encode, check_keylist-encode, size_keylist-encode}
use rejig.Keylist.Add.{addkey-Adds}
use rejig.Keylist.Remove.{erase, rmvkey-encode, rmvkey-addkey}
use rejig.Keylist.Cursor.{keys_of, keys_of-encode}

-- "b", "a" and "ab", in the order of a list.
abbrev b_a_ab : List Key
b_a_ab = (b'b' ∷ []) ∷ (b'a' ∷ []) ∷ (b'a' ∷ b'b' ∷ []) ∷ []

abbrev zeros : List ℕ
zeros = replicate 12 0

program : Unit {0}
unfolding check_keylist check_keylist_loop size_keylist size_keylist_loop rmvkey find_key remove_at
    addkey find_place add_at write compare_entry read_key compare_key memcmp new_keylist_size
program = tt

b_a_ab-IsSorted : IsSorted b_a_ab
unfolding program
b_a_ab-IsSorted = ((refl, (refl, tt)), ((refl, tt), (tt, tt)))

abbrev aa : Key
aa = b'a' ∷ b'a' ∷ []

-- The first letters of keys of two lengths, and the second ones of "ab" and "aa", differ.
aa-not-Has : ¬ Has aa b_a_ab
aa-not-Has h = elim h [
  | inl e ↦ absurd (omega (arith, ap length e))
  | inr (inl e) ↦ absurd (omega (arith, ap length e))
  | inr (inr (inl e)) ↦ absurd (omega (arith, ap (λ k. get_or k 1 0) e))
  | inr (inr (inr e)) ↦ e
]

check_finds : check_keylist (encode b_a_ab) (b'a' ∷ []) ≡ some ok
unfolding program
check_finds = refl

-- Out of order, a key can be missed: the scan stops at the first key that is past it.
check_unsorted :
    check_keylist (encode ((b'a' ∷ b'b' ∷ []) ∷ (b'a' ∷ []) ∷ [])) (b'a' ∷ []) ≡ some not_found
unfolding program
check_unsorted = refl

check_keylist-encode_example :
    (Has aa b_a_ab × (check_keylist (encode b_a_ab) aa ≡ some ok))
    ⊎ ((¬ Has aa b_a_ab) × (check_keylist (encode b_a_ab) aa ≡ some not_found))
check_keylist-encode_example = check_keylist-encode b_a_ab aa b_a_ab-IsSorted

size_keylist-encode_example : size_keylist (encode b_a_ab) ≡ some 3
size_keylist-encode_example = size_keylist-encode b_a_ab

keys_of-encode_example : keys_of (encode b_a_ab) ≡ some b_a_ab
keys_of-encode_example = keys_of-encode b_a_ab

addkey-Adds_example :
    (w : Written) × (ks' : List Key) × (addkey zeros 0 (encode b_a_ab) aa ≡ some w)
    × (w.status ≡ ok)
    × (take w.dest_listlen w.dest ≡ encode ks')
    × IsSorted ks'
    × ((j : Key) → Has j ks' ↔ ((aa ≡ j) ⊎ Has j b_a_ab))
addkey-Adds_example = addkey-Adds zeros 0 b_a_ab aa b_a_ab-IsSorted aa-not-Has (omega arith)

rmvkey-encode_example :
    rmvkey zeros 0 (encode b_a_ab) (b'a' ∷ [])
    ≡ some (record {
      status = ok;
      dest =
          encode (erase (b'a' ∷ []) b_a_ab)
          ++ drop (length (encode (erase (b'a' ∷ []) b_a_ab))) zeros;
      dest_listlen = length (encode (erase (b'a' ∷ []) b_a_ab));
    })
unfolding new_keylist_size
rmvkey-encode_example =
    rmvkey-encode zeros 0 b_a_ab (b'a' ∷ []) (inr (inl refl)) (omega arith) (omega arith)

rmvkey-addkey_example :
    (w : Written) × (addkey zeros 0 (encode b_a_ab) aa ≡ some w)
    × (w.dest_listlen ≡ length (encode b_a_ab) + new_keylist_size aa)
    × (rmvkey zeros 7 (take w.dest_listlen w.dest) aa
        ≡ some (record { status = ok; dest = encode b_a_ab ++ drop 7 zeros; dest_listlen = 7 }))
unfolding new_keylist_size
rmvkey-addkey_example =
    rmvkey-addkey zeros zeros 0 7 b_a_ab aa aa-not-Has (omega arith) (omega arith) (omega arith)
