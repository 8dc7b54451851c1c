-- ===== src/Keylist.antt =====
-- Key lists: IQ-Twemcached/src/mc_sqltrig.c, the byte strings that hold the keys of a transaction,
-- of a session or of a lease. An entry is one length byte (`trig_keylen_t` is uint8_t) and then
-- the key. A `char *` into a list is the suffix that it points to; a read past the end of the
-- list, or a write past the end of the destination, is `none`.
pub mod Order
pub mod Tests
pub mod Codec
pub mod Add
pub mod Remove
pub mod Cursor
use rejig.Prelude.{
  ◌^◌, ◌%◌, ◌-◌, ℕ, zero, suc, ◌+◌, ◌*◌, ◌≤◌, ◌<◌, compare, Ordering, ◌≡◌, refl, Bool, true, false,
  ◌&&◌, Option, none, some, List, [], ◌∷◌, ◌++◌, arith, ltb, leb, ◌==◌, if◌then◌else◌, length, take,
  drop,
}

pub data Status : Type 0 where
  ok queued error not_found : Status

abbrev pub Key : Type 0
Key = List ℕ

-- A key whose length is passed on as a uint8_t, `uint8_t nkey` or `trig_keylen_t`.
abbrev pub narrow : Key → Key
narrow key = take (length key % 2 ^ 8) key

-- `memcmp`: the first difference of two keys of one length.
unfoldable pub memcmp : Key → Key → Ordering
memcmp [] ys = Ordering.eq
memcmp (x ∷ xs) [] = Ordering.eq
memcmp (x ∷ xs) (y ∷ ys) = elim (compare x y) [
  | Ordering.lt ↦ Ordering.lt
  | Ordering.gt ↦ Ordering.gt
  | Ordering.eq ↦ memcmp xs ys
]

-- The sign of the returned int.
unfoldable pub compare_key : Key → Key → Ordering
compare_key key₁ key₂ = elim (compare (length key₂) (length key₁)) [
  | Ordering.lt ↦ Ordering.lt
  | Ordering.gt ↦ Ordering.gt
  | Ordering.eq ↦ memcmp key₁ key₂
]

-- `trig_compare_key` on the entry whose length byte is `n`, before `rest`. Its bytes are read only
-- where the lengths agree; a read past the end of the list is `none`.
unfoldable pub compare_entry : ℕ → List ℕ → Key → Option Ordering
compare_entry n rest new_key = elim (compare (length new_key) n) [
  | Ordering.lt ↦ some Ordering.lt
  | Ordering.gt ↦ some Ordering.gt
  | Ordering.eq ↦ if leb n (length rest) then some (memcmp (take n rest) new_key) else none
]

-- `memcpy` to the start of a destination; `none` if it is too small.
unfoldable pub write : List ℕ → List ℕ → Option (List ℕ)
write dest bytes =
    if leb (length bytes) (length dest) then some (bytes ++ drop (length bytes) dest) else none

size_keylist_loop : ℕ → List ℕ → ℕ → Option ℕ
size_keylist_loop fuel [] cnt = some cnt
size_keylist_loop zero (n ∷ rest) cnt = none
size_keylist_loop (suc fuel) (n ∷ rest) cnt = size_keylist_loop fuel (drop n rest) (cnt + 1)

-- `trig_size_keylist`. A round of any of the loops takes a byte at least, so that the length of
-- the list is fuel enough.
pub size_keylist : List ℕ → Option ℕ
size_keylist list = size_keylist_loop (length list) list 0

check_keylist_loop : ℕ → List ℕ → Key → Option Status
check_keylist_loop fuel [] new_key = some not_found
check_keylist_loop zero (n ∷ rest) new_key = none
check_keylist_loop (suc fuel) (n ∷ rest) new_key = elim (compare_entry n rest new_key) [
  | none ↦ none
  | some Ordering.eq ↦ some ok
  | some Ordering.lt ↦ some not_found
  | some Ordering.gt ↦ check_keylist_loop fuel (drop n rest) new_key
]

-- `trig_check_keylist`
pub check_keylist : List ℕ → Key → Option Status
check_keylist list new_key = check_keylist_loop (length list) list new_key

-- The loop of `trig_keylist_rmvkey`: `ins_pos` at the key, or at the end.
find_key : ℕ → List ℕ → Key → ℕ → Option ℕ
find_key fuel [] new_key ins_pos = some ins_pos
find_key zero (n ∷ rest) new_key ins_pos = none
find_key (suc fuel) (n ∷ rest) new_key ins_pos = elim (compare_entry n rest new_key) [
  | none ↦ none
  | some Ordering.eq ↦ some ins_pos
  | some Ordering.lt ↦ find_key fuel (drop n rest) new_key (ins_pos + (1 + n))
  | some Ordering.gt ↦ find_key fuel (drop n rest) new_key (ins_pos + (1 + n))
]

-- What a call leaves: its status, the destination and `*dest_listlen`.
pub record Written : Type 0 where
  pub status : Status
  pub dest : List ℕ
  pub dest_listlen : ℕ

-- The copies into the destination; `none` where they read past the old list.
remove_at : List ℕ → ℕ → List ℕ → Key → Option Written
remove_at dest ins_pos old new_key =
    let tail = if ltb ins_pos (length old) then drop (ins_pos + (1 + length new_key)) old else [] in
    let written = elim (write dest (take ins_pos old ++ tail)) as (λ x. Option Written) [
      | none ↦ none
      | some dest' ↦ some (record {
        status = ok;
        dest = dest';
        dest_listlen = (length old + 2 ^ 32 - (length new_key + 1)) % 2 ^ 32;
      })
    ] in
    if leb ins_pos (length old) then written else none

-- `trig_keylist_rmvkey`, with a destination apart from the old list.
pub rmvkey : List ℕ → ℕ → List ℕ → Key → Option Written
rmvkey dest listlen [] new_key = some (record { status = ok; dest = dest; dest_listlen = listlen })
rmvkey dest listlen (n ∷ rest) new_key = elim (find_key (length (n ∷ rest)) (n ∷ rest) new_key 0) [
  | none ↦ none
  | some ins_pos ↦ remove_at dest ins_pos (n ∷ rest) new_key
]

-- The loop of `trig_keylist_addkey`: `some none` where the key is already there.
find_place : ℕ → List ℕ → Key → ℕ → Option (Option ℕ)
find_place fuel [] new_key ins_pos = some (some ins_pos)
find_place zero (n ∷ rest) new_key ins_pos = none
find_place (suc fuel) (n ∷ rest) new_key ins_pos = elim (compare_entry n rest new_key) [
  | none ↦ none
  | some Ordering.lt ↦ some (some ins_pos)
  | some Ordering.gt ↦ find_place fuel (drop n rest) new_key (ins_pos + (1 + n))
  | some Ordering.eq ↦ some none
]

-- The copies into the destination; `none` where they read past the old list.
add_at : List ℕ → ℕ → List ℕ → Key → Option Written
add_at dest ins_pos old new_key =
    let bytes = take ins_pos old ++ (length new_key ∷ new_key ++ drop ins_pos old) in
    let written = elim (write dest bytes) as (λ x. Option Written) [
      | none ↦ none
      | some dest' ↦
          some
            (record { status = ok; dest = dest'; dest_listlen = length old + (length new_key + 1) })
    ] in
    if leb ins_pos (length old) then written else none

-- `trig_keylist_addkey`. With no old list the new key is the list; a key that is there leaves
-- the destination and its length as they were.
pub addkey : List ℕ → ℕ → List ℕ → Key → Option Written
addkey dest listlen [] new_key = add_at dest 0 [] new_key
addkey dest listlen (n ∷ rest) new_key =
    elim (find_place (length (n ∷ rest)) (n ∷ rest) new_key 0) [
      | none ↦ none
      | some none ↦ some (record { status = ok; dest = dest; dest_listlen = listlen })
      | some (some ins_pos) ↦ add_at dest ins_pos (n ∷ rest) new_key
    ]

-- `trig_new_keylist_size`
pub new_keylist_size : Key → ℕ
new_keylist_size key = length key + 1

-- The key under the cursor.
unfoldable pub read_key : List ℕ → Option (Key × List ℕ)
read_key [] = none
read_key (n ∷ rest) = if leb n (length rest) then some (take n rest, drop n rest) else none

-- `*delete_cursor` moved on: to the head at first, then past the key that it points to.
move_cursor : List ℕ → Option (List ℕ) → Option (List ℕ)
move_cursor list none = some list
move_cursor list (some []) = none
move_cursor list (some (n ∷ rest)) = some (drop n rest)

-- `trig_keylist_next`: the status, the cursor and `*key` with `*nkey`.
pub next : List ℕ → Option (List ℕ) → Option (Status × Option (List ℕ) × Option Key)
next [] cursor = some (not_found, cursor, none)
next (m ∷ list) cursor = elim (move_cursor (m ∷ list) cursor) [
  | none ↦ none
  | some [] ↦ some (not_found, some [], none)
  | some (n ∷ rest) ↦ elim (read_key (n ∷ rest)) [
    | none ↦ none
    | some (key, _) ↦ some (ok, some (n ∷ rest), some key)
  ]
]
