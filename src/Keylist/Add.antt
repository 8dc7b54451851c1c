-- ===== src/Keylist/Add.antt =====
-- `trig_keylist_addkey` of IQ-Twemcached/src/mc_sqltrig.c against insertion into a sorted list.
use rejig.Prelude.{
  drop-append_length, take-append_length, ℕ, zero, suc, ◌+◌, ◌≤◌, Ordering, ◌≡◌, refl, List, [],
  ◌∷◌, ◌++◌, arith, length, ◌⊎◌, inl, inr, ◌↔◌, ap, ◌∙◌, some, take, drop, length-append,
  append_assoc, append-nil, take-append_add, drop-append_add,
}
use rejig.Keylist.{Key, ok, compare_key, write, find_place, add_at, addkey, Written}
use rejig.Keylist.Codec.{encode_key, encode, compare_entry-encode, length-le-encode}
use rejig.Keylist.Order.{
  Before, BeforeAll, IsSorted, Has, compare_key_eq, compare_key-cases, BeforeAll-trans,
  compare_key_unswap,
}

-- The insertion that the order asks for.
pub insert : Key → List Key → List Key
insert k [] = k ∷ []
insert k (x ∷ xs) = elim (compare_key x k) [ Ordering.gt ↦ x ∷ insert k xs | _ ↦ k ∷ x ∷ xs ]

-- Where the bytes of `k` go.
place : Key → List Key → ℕ
place k [] = 0
place k (x ∷ xs) = elim (compare_key x k) [ Ordering.gt ↦ suc (length x + place k xs) | _ ↦ 0 ]

BeforeAll-insert :
    (j k : Key) (ks : List Key) → Before j k → BeforeAll j ks → BeforeAll j (insert k ks)
unfolding insert
BeforeAll-insert j k [] h all = (h, tt)
BeforeAll-insert j k (x ∷ xs) h all = ground (arith, BeforeAll-insert j k xs)

pub insert-IsSorted : (k : Key) (ks : List Key) → IsSorted ks → ¬ Has k ks → IsSorted (insert k ks)
unfolding insert
insert-IsSorted k [] s h = (tt, tt)
insert-IsSorted k (x ∷ xs) s h = elim (compare_key-cases x k) [
  | inl e ↦ absurd (h (inl (compare_key_eq x k e)))
  | inr (inl e) ↦ let b = compare_key_unswap x k e in ground (arith, BeforeAll-trans k x xs b s.0)
  | inr (inr e) ↦
      ground (arith, BeforeAll-insert x k xs e s.0, insert-IsSorted k xs s.1 (λ i. h (inr i)))
]

pub insert_nil : (k : Key) → insert k [] ≡ k ∷ []
unfolding insert
insert_nil k = refl

pub insert_gt : (k x : Key) (xs : List Key) → Before x k → insert k (x ∷ xs) ≡ x ∷ insert k xs
unfolding insert
insert_gt k x xs e = ground arith

pub insert_le : (k x : Key) (xs : List Key) → ¬ Before x k → insert k (x ∷ xs) ≡ k ∷ x ∷ xs
unfolding insert
insert_le k x xs e = ground arith

pub Before-cases : (x k : Key) → Before x k ⊎ (¬ Before x k)
Before-cases x k = elim (compare_key-cases x k) [
  | inl e ↦ inr (λ h. cc)
  | inr (inl e) ↦ inr (λ h. cc)
  | inr (inr e) ↦ inl e
]

Has-of_insert : (j k : Key) (ks : List Key) → Has j (insert k ks) → (k ≡ j) ⊎ Has j ks
unfolding insert
Has-of_insert j k [] h = h
Has-of_insert j k (x ∷ xs) h = elim (Before-cases x k) [
  | inr e ↦ rw (insert_le k x xs e) at h
  | inl e ↦
      let h' : Has j (x ∷ insert k xs) = rw (insert_gt k x xs e) at h in
      elim h' [
        | inl p ↦ inr (inl p)
        | inr t ↦ elim (Has-of_insert j k xs t) [ inl p ↦ inl p | inr q ↦ inr (inr q) ]
      ]
]

pub Has-to_insert : (j k : Key) (ks : List Key) → (k ≡ j) ⊎ Has j ks → Has j (insert k ks)
unfolding insert
Has-to_insert j k [] h = h
Has-to_insert j k (x ∷ xs) h = elim (Before-cases x k) [
  | inr e ↦ rw (insert_le k x xs e) h
  | inl e ↦ rw (insert_gt k x xs e) (elim h [
    | inl p ↦ inr (Has-to_insert j k xs (inl p))
    | inr (inl p) ↦ inl p
    | inr (inr t) ↦ inr (Has-to_insert j k xs (inr t))
  ])
]

pub Has-insert : (j k : Key) (ks : List Key) → Has j (insert k ks) ↔ ((k ≡ j) ⊎ Has j ks)
Has-insert j k ks = (Has-of_insert j k ks, Has-to_insert j k ks)

place_gt : (k x : Key) (xs : List Key) → Before x k → place k (x ∷ xs) ≡ suc (length x + place k xs)
unfolding place
place_gt k x xs e = ground arith

place_le : (k x : Key) (xs : List Key) → ¬ Before x k → place k (x ∷ xs) ≡ 0
unfolding place
place_le k x xs e = ground arith

place-le : (k : Key) (ks : List Key) → place k ks ≤ length (encode ks)
unfolding place
place-le k [] = omega arith
place-le k (x ∷ xs) = elim (Before-cases x k) [
  | inr e ↦ rw (place_le k x xs e) (omega arith)
  | inl e ↦ rw (place_gt k x xs e) (omega (arith, place-le k xs, length-append x (encode xs)))
]

take-place :
    (k : Key) (ks : List Key)
    → take (place k ks) (encode ks) ++ encode_key k (drop (place k ks) (encode ks))
      ≡ encode (insert k ks)
unfolding insert place
take-place k [] = refl
take-place k (x ∷ xs) = elim (Before-cases x k) [
  | inr e ↦ rw (insert_le k x xs e, place_le k x xs e)
  | inl e ↦ rw (
    insert_gt k x xs e,
    place_gt k x xs e,
    take-append_add,
    drop-append_add,
    append_assoc,
    take-place k xs,
  )
]

find_place-encode :
    (fuel : ℕ) (ks : List Key) (k : Key) (pos : ℕ)
    → length ks ≤ fuel
    → ¬ Has k ks
    → find_place fuel (encode ks) k pos ≡ some (some (pos + place k ks))
unfolding find_place place
find_place-encode zero [] k pos h n = ground arith
find_place-encode (suc fuel) [] k pos h n = ground arith
find_place-encode zero (x ∷ ks) k pos h n = absurd (omega arith)
find_place-encode (suc fuel) (x ∷ ks) k pos h n = elim (compare_key-cases x k) [
  | inl e ↦ absurd (n (inl (compare_key_eq x k e)))
  | inr (inl e) ↦
      ground (arith, compare_entry-encode x k (encode ks), drop-append_length x (encode ks))
  | inr (inr e) ↦ ground (
    arith,
    compare_entry-encode x k (encode ks),
    drop-append_length x (encode ks),
    find_place-encode fuel ks k (pos + (1 + length x)) (omega arith) (λ i. n (inr i)),
  )
]

-- What is written when the destination has room.
pub write-room :
    (dest bytes : List ℕ)
    → length bytes ≤ length dest
    → write dest bytes ≡ some (bytes ++ drop (length bytes) dest)
unfolding write
write-room dest bytes h = ground arith

pub length-insert :
    (k : Key) (ks : List Key) → length (encode (insert k ks)) ≡ length (encode ks) + (length k + 1)
unfolding insert
length-insert k [] = ground (arith, append-nil k)
length-insert k (x ∷ xs) = elim (Before-cases x k) [
  | inr e ↦ rw (insert_le k x xs e) (ground (arith, length-append k (encode (x ∷ xs))))
  | inl e ↦ rw (insert_gt k x xs e) (
      ground (
        arith,
        length-append x (encode xs),
        length-append x (encode (insert k xs)),
        length-insert k xs,
      ))
]

abbrev pub added : List ℕ → List Key → Written
added dest ks = record {
  status = ok;
  dest = encode ks ++ drop (length (encode ks)) dest;
  dest_listlen = length (encode ks);
}

add_at-place :
    (dest : List ℕ) (ks : List Key) (k : Key)
    → length (encode ks) + (length k + 1) ≤ length dest
    → add_at dest (place k ks) (encode ks) k ≡ some (added dest (insert k ks))
unfolding add_at
add_at-place dest ks k h =
    let room = write-room dest (encode (insert k ks)) (omega (arith, length-insert k ks)) in
    rw (take-place k ks, room, ← length-insert k ks, add_at) (ground (arith, place-le k ks))

found_place :
    (x : Key) (ks : List Key) (k : Key)
    → ¬ Has k (x ∷ ks)
    → find_place (length (encode (x ∷ ks))) (encode (x ∷ ks)) k 0 ≡ some (some (place k (x ∷ ks)))
found_place x ks k n =
    let e : 0 + place k (x ∷ ks) ≡ place k (x ∷ ks) = omega arith in
    find_place-encode _ (x ∷ ks) k 0 (length-le-encode (x ∷ ks)) n ∙ ap (λ i. some (some i)) e

-- Adding a key that a sorted list lacks, to a destination with room, writes the sorted list with
-- the key, leaves the bytes behind it, and returns its length.
pub addkey-encode :
    (dest : List ℕ) (listlen : ℕ) (ks : List Key) (k : Key)
    → ¬ Has k ks
    → length (encode ks) + (length k + 1) ≤ length dest
    → addkey dest listlen (encode ks) k
      ≡ some (record {
        status = ok;
        dest = encode (insert k ks) ++ drop (length (encode (insert k ks))) dest;
        dest_listlen = length (encode (insert k ks));
      })
unfolding addkey
addkey-encode dest listlen [] k n h = unfold place in add_at-place dest [] k h
addkey-encode dest listlen (x ∷ ks) k n h =
    rw (found_place x ks k n, addkey) (add_at-place dest (x ∷ ks) k h)

-- Adding a key to a sorted list that lacks it, with room in the destination, succeeds; the bytes
-- that the call says it wrote are again a sorted list, with the old keys and the new one and no
-- other.
pub addkey-Adds :
    (dest : List ℕ) (listlen : ℕ) (ks : List Key) (k : Key)
    → IsSorted ks
    → ¬ Has k ks
    → length (encode ks) + (length k + 1) ≤ length dest
    → (w : Written) × (ks' : List Key) × (addkey dest listlen (encode ks) k ≡ some w)
      × (w.status ≡ ok)
      × (take w.dest_listlen w.dest ≡ encode ks')
      × IsSorted ks'
      × ((j : Key) → Has j ks' ↔ ((k ≡ j) ⊎ Has j ks))
addkey-Adds dest listlen ks k s n room = (
  added dest (insert k ks),
  insert k ks,
  addkey-encode dest listlen ks k n room,
  refl,
  take-append_length (encode (insert k ks)) _,
  insert-IsSorted k ks s n,
  λ j. Has-insert j k ks,
)
