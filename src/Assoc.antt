-- ===== src/Assoc.antt =====
-- The hash of IQ-Twemcached/src/mc_assoc.c: chains of items that move to a table of twice the size
-- one bucket after the other. An item in a chain is its key and its address. The hash function is
-- a parameter, a mask of n bits is the remainder by 2 ^ n, and a table is a function from indices.
pub mod Expand
mod Tests
pub mod Ends
pub mod Chains
pub mod Sound
pub mod Refine
pub mod Map
use rejig.Prelude.{
  ℕ, zero, suc, ◌+◌, ◌-◌, ◌*◌, ◌/◌, ◌%◌, ◌^◌, Bool, true, false, not, ◌&&◌, Option, none, some,
  List, [], ◌∷◌, ltb, leb, ◌==◌, key_eq, if◌then◌else◌,
}

abbrev pub Bucket : Type 0
Bucket = List (List ℕ × ℕ)

-- The static variables, with `settings.hash_power`, which is 0 for a table that may grow.
pub record Table : Type 0 where
  pub primary_hashtable : ℕ → Bucket
  pub old_hashtable : ℕ → Bucket
  pub hash_power : ℕ
  pub expanding : Bool
  pub expand_bucket : ℕ
  pub nhash_item : ℕ
  pub fixed_power : ℕ

-- The walk along a chain.
unfoldable pub walk : List ℕ → Bucket → Option ℕ
walk key [] = none
walk key ((k, a) ∷ bucket) = let rest = walk key bucket in if key_eq k key then some a else rest

abbrev pub push : (ℕ → Bucket) → ℕ → List ℕ × ℕ → ℕ → Bucket
push table i it j = if j == i then it ∷ table j else table j

module _ (hash : List ℕ → ℕ) where
  -- `assoc_get_bucket`: is it a bucket of the old table?
  abbrev pub in_old : Table → List ℕ → Bool
  in_old t key = t.expanding && leb t.expand_bucket (hash key % 2 ^ (t.hash_power - 1))

  unfoldable pub assoc_get_bucket : Table → List ℕ → Bucket
  assoc_get_bucket t key =
      if in_old t key
      then t.old_hashtable (hash key % 2 ^ (t.hash_power - 1))
      else t.primary_hashtable (hash key % 2 ^ t.hash_power)

  -- `assoc_find`
  unfoldable pub assoc_find : Table → List ℕ → Option ℕ
  assoc_find t key = walk key (assoc_get_bucket t key)

  -- The moves of one old bucket to the new table.
  unfoldable pub move_items : ℕ → Bucket → (ℕ → Bucket) → ℕ → Bucket
  move_items power [] table = table
  move_items power ((k, a) ∷ bucket) table =
      move_items power bucket (push table (hash k % 2 ^ power) (k, a))

  -- A round of the loop of `assoc_maintenance_thread`, entered while `expanding` is 1.
  unfoldable pub move_bucket : Table → Table
  move_bucket t = record t {
    primary_hashtable =
        move_items t.hash_power (t.old_hashtable t.expand_bucket) t.primary_hashtable;
    old_hashtable = λ j. if j == t.expand_bucket then [] else t.old_hashtable j;
    expand_bucket = t.expand_bucket + 1;
    expanding = not (t.expand_bucket + 1 == 2 ^ (t.hash_power - 1));
  }

  -- The rounds of `assoc_maintenance_thread`, until the expansion is over or the rounds are.
  unfoldable pub maintain : ℕ → Table → Table
  maintain zero t = t
  maintain (suc rounds) t =
      let moved = maintain rounds (move_bucket t) in if t.expanding then moved else t

-- `assoc_expand_needed`
unfoldable pub assoc_expand_needed : Table → Bool
assoc_expand_needed t =
    t.fixed_power == 0 && not t.expanding && ltb (2 ^ t.hash_power * 3 / 2) t.nhash_item

-- `assoc_expand`, where the new table can be allocated.
unfoldable pub assoc_expand : Table → Table
assoc_expand t = record t {
  primary_hashtable = λ i. [];
  old_hashtable = t.primary_hashtable;
  hash_power = t.hash_power + 1;
  expanding = true;
  expand_bucket = 0;
}

-- A chain without the item that the walk finds.
unfoldable pub unchain : List ℕ → Bucket → Bucket
unchain key [] = []
unchain key ((k, a) ∷ bucket) =
    let rest = unchain key bucket in if key_eq k key then bucket else (k, a) ∷ rest

module _ (hash : List ℕ → ℕ) where
  -- The table with another chain in the place that `assoc_get_bucket` finds.
  abbrev pub with_bucket : Table → List ℕ → Bucket → Table
  with_bucket t key bucket =
      if in_old hash t key
      then record t {
        old_hashtable =
            λ j. if j == hash key % 2 ^ (t.hash_power - 1) then bucket else t.old_hashtable j;
      }
      else record t {
        primary_hashtable =
            λ j. if j == hash key % 2 ^ t.hash_power then bucket else t.primary_hashtable j;
      }

  -- `assoc_insert`; `none` where its ASSERT fails.
  unfoldable pub assoc_insert : Table → List ℕ → ℕ → Option Table
  assoc_insert t key a = elim (assoc_find hash t key) [
    | some b ↦ none
    | none ↦
        let put = with_bucket t key ((key, a) ∷ assoc_get_bucket hash t key) in
        let counted = record put { nhash_item = put.nhash_item + 1 } in
        some (if assoc_expand_needed counted then assoc_expand counted else counted)
  ]

  -- `assoc_delete`; `none` where its ASSERT fails.
  unfoldable pub assoc_delete : Table → List ℕ → Option Table
  assoc_delete t key = elim (assoc_find hash t key) [
    | none ↦ none
    | some a ↦
        let cut = with_bucket t key (unchain key (assoc_get_bucket hash t key)) in
        some (record cut { nhash_item = cut.nhash_item - 1 })
  ]
