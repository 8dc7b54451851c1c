-- ===== src/Keylist/Remove.antt =====
-- `trig_keylist_rmvkey` of IQ-Twemcached/src/mc_sqltrig.c against erasing a key from a list.
use rejig.Prelude.{
  take-append_length, ◌≢◌, ℕ, zero, suc, ◌+◌, ◌≤◌, ◌<◌, ◌%◌, ◌-◌, ◌^◌, Ordering, ◌≡◌, refl, List,
  [], ◌∷◌, ◌++◌, arith, length, ◌⊎◌, inl, inr, ap, ◌∙◌, some, take, drop, drop-append_length,
  length-append, append_assoc, take-append_add, drop-append_add, lt→ltb,
}
use rejig.Keylist.{
  addkey, Written, new_keylist_size, Key, ok, compare_key, find_key, remove_at, rmvkey,
}
use rejig.Keylist.Codec.{encode, compare_entry-encode, length-le-encode}
use rejig.Keylist.Add.{
  insert, write-room, insert_gt, insert_le, insert_nil, Before-cases, length-insert, added,
  addkey-encode, Has-to_insert,
}
use rejig.Keylist.Order.{Has, compare_key_eq, compare_key-cases, compare_key_refl}

-- The first copy of `k` taken out.
pub erase : Key → List Key → List Key
erase k [] = []
erase k (x ∷ xs) = elim (compare_key x k) [ Ordering.eq ↦ xs | _ ↦ x ∷ erase k xs ]

spot : Key → List Key → ℕ
spot k [] = 0
spot k (x ∷ xs) = elim (compare_key x k) [ Ordering.eq ↦ 0 | _ ↦ suc (length x + spot k xs) ]

Same-cases : (x k : Key) → (x ≡ k) ⊎ (x ≢ k)
Same-cases x k = elim (compare_key-cases x k) [
  | inl e ↦ inl (compare_key_eq x k e)
  | inr (inl e) ↦ inr (λ p. cc (compare_key_refl x, ap (compare_key x) p))
  | inr (inr e) ↦ inr (λ p. cc (compare_key_refl x, ap (compare_key x) p))
]

module _ (k x : Key) (xs : List Key) where
  erase_eq : x ≡ k → erase k (x ∷ xs) ≡ xs
  unfolding erase
  erase_eq p = ground (arith, compare_key_refl x, ap (compare_key x) p)

  erase_ne : x ≢ k → erase k (x ∷ xs) ≡ x ∷ erase k xs
  unfolding erase
  erase_ne p = ground (arith, compare_key_eq x k)

  spot_eq : x ≡ k → spot k (x ∷ xs) ≡ 0
  unfolding spot
  spot_eq p = ground (arith, compare_key_refl x, ap (compare_key x) p)

  spot_ne : x ≢ k → spot k (x ∷ xs) ≡ suc (length x + spot k xs)
  unfolding spot
  spot_ne p = ground (arith, compare_key_eq x k)

find_key-encode :
    (fuel : ℕ) (ks : List Key) (k : Key) (pos : ℕ)
    → length ks ≤ fuel
    → find_key fuel (encode ks) k pos ≡ some (pos + spot k ks)
unfolding find_key spot
find_key-encode zero [] k pos h = ground arith
find_key-encode (suc fuel) [] k pos h = ground arith
find_key-encode zero (x ∷ ks) k pos h = absurd (omega arith)
find_key-encode (suc fuel) (x ∷ ks) k pos h = ground (
  arith,
  compare_entry-encode x k (encode ks),
  drop-append_length x (encode ks),
  find_key-encode fuel ks k (pos + (1 + length x)) (omega arith),
)

found_key :
    (x : Key) (ks : List Key) (k : Key)
    → find_key (length (encode (x ∷ ks))) (encode (x ∷ ks)) k 0 ≡ some (spot k (x ∷ ks))
found_key x ks k =
    let e : 0 + spot k (x ∷ ks) ≡ spot k (x ∷ ks) = omega arith in
    find_key-encode _ (x ∷ ks) k 0 (length-le-encode (x ∷ ks)) ∙ ap some e

-- The key's bytes stand at its spot, and the rest is the list without it.
take-spot :
    (k : Key) (ks : List Key)
    → Has k ks
    → take (spot k ks) (encode ks) ++ drop (spot k ks + (1 + length k)) (encode ks)
      ≡ encode (erase k ks)
take-spot k [] h = elim h [ ]
take-spot k (x ∷ xs) h = elim (Same-cases x k) [
  | inl p ↦
      let e : 0 + (1 + length k) ≡ suc (length x) = omega (arith, ap length p) in
      rw (erase_eq k x xs p, spot_eq k x xs p, e, drop-append_length)
  | inr p ↦
      let t : Has k xs = elim h [ inl e ↦ absurd (p e) | inr t ↦ t ] in
      let e : suc (length x + spot k xs) + (1 + length k)
          ≡ suc (length x + (spot k xs + (1 + length k))) =
        omega arith in
      rw (
        erase_ne k x xs p,
        spot_ne k x xs p,
        take-append_add,
        e,
        drop-append_add,
        append_assoc,
        take-spot k xs t,
      )
]

length-erase :
    (k : Key) (ks : List Key)
    → Has k ks
    → (length (encode (erase k ks)) + (length k + 1) ≡ length (encode ks))
      × (spot k ks < length (encode ks))
length-erase k [] h = elim h [ ]
length-erase k (x ∷ xs) h = elim (Same-cases x k) [
  | inl p ↦ rw (erase_eq k x xs p, spot_eq k x xs p) (ground (arith, length-append x (encode xs)))
  | inr p ↦
      let t : Has k xs = elim h [ inl e ↦ absurd (p e) | inr t ↦ t ] in
      rw (erase_ne k x xs p, spot_ne k x xs p)
        (ground (
          arith,
          length-append x (encode xs),
          length-append x (encode (erase k xs)),
          length-erase k xs t,
        ))
]

abbrev removed : List ℕ → List Key → Written
removed dest ks = record {
  status = ok;
  dest = encode ks ++ drop (length (encode ks)) dest;
  dest_listlen = length (encode ks);
}

remove_at-spot :
    (dest : List ℕ) (ks : List Key) (k : Key)
    → Has k ks
    → length (encode ks) < 2 ^ 32
    → length (encode ks) ≤ length dest + new_keylist_size k
    → remove_at dest (spot k ks) (encode ks) k ≡ some (removed dest (erase k ks))
unfolding remove_at new_keylist_size
remove_at-spot dest ks k h small room =
    let (len, inside) = length-erase k ks h in
    let kept = write-room dest (encode (erase k ks)) (omega arith) in
    let e : (length (encode ks) + 2 ^ 32 - (length k + 1)) % 2 ^ 32 ≡ length (encode (erase k ks)) =
      omega arith in
    rw (lt→ltb _ _ inside, take-spot k ks h, kept, e, remove_at) (ground arith)

-- Removing a key that a list of less than 2^32 bytes holds, to a destination with room for the
-- rest, writes the list without the key, leaves the bytes behind it, and returns its length.
pub rmvkey-encode :
    (dest : List ℕ) (listlen : ℕ) (ks : List Key) (k : Key)
    → Has k ks
    → length (encode ks) < 2 ^ 32
    → length (encode ks) ≤ length dest + new_keylist_size k
    → rmvkey dest listlen (encode ks) k
      ≡ some (record {
        status = ok;
        dest = encode (erase k ks) ++ drop (length (encode (erase k ks))) dest;
        dest_listlen = length (encode (erase k ks));
      })
unfolding rmvkey
rmvkey-encode dest listlen [] k h small room = elim h [ ]
rmvkey-encode dest listlen (x ∷ ks) k h small room =
    rw (found_key x ks k, rmvkey) (remove_at-spot dest (x ∷ ks) k h small room)

-- Erasing a key undoes its insertion into a list that lacks it.
pub erase-insert : (k : Key) (ks : List Key) → ¬ Has k ks → erase k (insert k ks) ≡ ks
erase-insert k [] n = rw (insert_nil k) (erase_eq k k [] refl)
erase-insert k (x ∷ xs) n = elim (Before-cases x k) [
  | inr e ↦ rw (insert_le k x xs e) (erase_eq k k (x ∷ xs) refl)
  | inl e ↦ rw (
    insert_gt k x xs e,
    erase_ne k x (insert k xs) (λ p. n (inl p)),
    erase-insert k xs (λ h. n (inr h)),
  )
]

-- A key that a list lacks, added and then removed, leaves the bytes of the old list, whatever the
-- two destinations held, where these have room and the longer list has less than 2^32 bytes; the
-- list is longer by the size of the key in between.
pub rmvkey-addkey :
    (dest dest' : List ℕ) (listlen listlen' : ℕ) (ks : List Key) (k : Key)
    → ¬ Has k ks
    → length (encode ks) + new_keylist_size k ≤ length dest
    → length (encode ks) + new_keylist_size k < 2 ^ 32
    → length (encode ks) ≤ length dest'
    → (w : Written) × (addkey dest listlen (encode ks) k ≡ some w)
      × (w.dest_listlen ≡ length (encode ks) + new_keylist_size k)
      × (rmvkey dest' listlen' (take w.dest_listlen w.dest) k ≡ some (removed dest' ks))
unfolding new_keylist_size
rmvkey-addkey dest dest' listlen listlen' ks k n room small room' =
    let len = length-insert k ks in
    let e : take (length (encode (insert k ks))) (added dest (insert k ks)).dest
        ≡ encode (insert k ks) =
      take-append_length (encode (insert k ks)) _ in
    let back =
      rmvkey-encode dest' listlen' (insert k ks) k (Has-to_insert k k ks (inl refl)) (omega arith)
        (unfold new_keylist_size in omega arith) in
    (
      added dest (insert k ks),
      addkey-encode dest listlen ks k n (omega arith),
      len,
      rw e (rw (erase-insert k ks n) at back),
    )
