-- ===== src/Keylist/Cursor.antt =====
-- The cursor of `trig_keylist_next` of IQ-Twemcached/src/mc_sqltrig.c, and the loop in which every
-- commit and release walks a key list: `while (trig_keylist_next(...) == TRIG_OK)`.
use rejig.Prelude.{
  ℕ, zero, suc, ◌<◌, ◌≡◌, refl, List, [], ◌∷◌, ◌++◌, arith, length, Option, none, some,
  drop-append_length, length-append,
}
use rejig.Keylist.{Key, ok, queued, error, not_found, move_cursor, next}
use rejig.Keylist.Codec.{encode, read_key-encode, length-le-encode}

-- The keys that the loop sees from a cursor on. A round moves the cursor by a byte at least.
pub walk : ℕ → List ℕ → Option (List ℕ) → Option (List Key)
walk zero list cursor = none
walk (suc fuel) list cursor = elim (next list cursor) [
  | some (ok, cursor', some key) ↦ elim (walk fuel list cursor') [
    | none ↦ none
    | some keys ↦ some (key ∷ keys)
  ]
  | some (ok, cursor', none) ↦ none
  | some (queued, cursor', key) ↦ some []
  | some (error, cursor', key) ↦ some []
  | some (not_found, cursor', key) ↦ some []
  | none ↦ none
]

pub keys_of : List ℕ → Option (List Key)
keys_of list = walk (suc (length list)) list none

-- At a cursor on the key `k`, the loop goes on with the keys behind it.
walk-encode :
    (fuel : ℕ) (n : ℕ) (list : List ℕ) (k : Key) (ks : List Key)
    → length ks < fuel
    → walk fuel (n ∷ list) (some (encode (k ∷ ks))) ≡ some ks
unfolding walk next move_cursor
walk-encode zero n list k ks h = absurd (omega arith)
walk-encode (suc fuel) n list k [] h = ground (arith, drop-append_length k [])
walk-encode (suc fuel) n list k (x ∷ ks) h = ground (
  arith,
  drop-append_length k (encode (x ∷ ks)),
  read_key-encode x (encode ks),
  walk-encode fuel n list x ks (omega arith),
)

-- The loop over trig_keylist_next sees each key of a list once, in the order of the list, and
-- ends.
pub keys_of-encode : (ks : List Key) → keys_of (encode ks) ≡ some ks
unfolding keys_of walk next move_cursor
keys_of-encode [] = refl
keys_of-encode (k ∷ ks) = ground (
  arith,
  read_key-encode k (encode ks),
  walk-encode (length (encode (k ∷ ks))) (length k) (k ++ encode ks) k ks
      (omega (arith, length-le-encode ks, length-append k (encode ks))),
)
