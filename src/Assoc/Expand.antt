-- ===== src/Assoc/Expand.antt =====
-- Lookups while the hash of IQ-Twemcached/src/mc_assoc.c grows.
use native.Mathlib.Nat.{mod-lt}
use mathlib.Core.Path.{subst}
use rejig.Prelude.{
  ap, sym, ◌+◌, &&_false, arith, compare-cases, leb, ◌-◌, ◌≤◌, true, ◌<◌, key_eq_refl, ==_refl, inr,
  key_eq_iff, inl, Bool-cases, ◌^◌, ◌%◌, key_eq, Option, List, ℕ, ◌==◌, ◌≡◌, refl, false, none,
  some, ◌∙◌, [], ◌∷◌,
}
use rejig.Assoc.{
  in_old, assoc_get_bucket, move_bucket, Table, assoc_find, push, move_items, Bucket, walk,
}

-- No key stands twice in a chain.
unfoldable pub Unique : Bucket → Type 0
Unique [] = Unit {0}
Unique ((k, a) ∷ bucket) = (walk k bucket ≡ none) × Unique bucket

abbrev or_else : Option ℕ → Option ℕ → Option ℕ
or_else none o = o
or_else (some a) o = some a

module _ (hash : List ℕ → ℕ) where
  pub walk-push :
      (table : ℕ → Bucket) (power : ℕ) (k key : List ℕ) (a : ℕ)
      → key_eq k key ≡ false
      → walk key (push table (hash k % 2 ^ power) (k, a) (hash key % 2 ^ power))
        ≡ walk key (table (hash key % 2 ^ power))
  unfolding walk
  walk-push table power k key a n = elim (Bool-cases (hash key % 2 ^ power == hash k % 2 ^ power)) [
    | inl t ↦ rw (t, n)
    | inr f ↦ rw f
  ]

  walk-move_items :
      (power : ℕ) (bucket : Bucket) (table : ℕ → Bucket) (key : List ℕ)
      → Unique bucket
      → walk key (move_items hash power bucket table (hash key % 2 ^ power))
        ≡ or_else (walk key bucket) (walk key (table (hash key % 2 ^ power)))
  unfolding walk move_items Unique
  walk-move_items power [] table key u = refl
  walk-move_items power ((k, a) ∷ bucket) table key u = elim (Bool-cases (key_eq k key)) [
    | inl t ↦
        let p : k ≡ key = (key_eq_iff k key).0 t in
        let alone : walk key bucket ≡ none = subst (λ x. walk x bucket ≡ none) p u.0 in
        walk-move_items power bucket _ key u.1
        ∙ rw (alone, t, p, ==_refl (hash key % 2 ^ power), key_eq_refl key)
    | inr f ↦
        walk-move_items power bucket (push table (hash k % 2 ^ power) (k, a)) key u.1
        ∙ rw (f, walk-push table power k key a f)
  ]

  -- A chain of the old table has the keys that belong there, each once, and what belongs to one
  -- that is still to move is not in the new table.
  pub record Growing (t : Table) : Type 0 where
    pub unmoved : t.expand_bucket < 2 ^ (t.hash_power - 1)
    pub unique : (j : ℕ) → Unique (t.old_hashtable j)
    pub placed :
        (j : ℕ) (key : List ℕ)
        → (hash key % 2 ^ (t.hash_power - 1) == j) ≡ false
        → walk key (t.old_hashtable j) ≡ none
    pub fresh :
        (key : List ℕ)
        → t.expand_bucket ≤ hash key % 2 ^ (t.hash_power - 1)
        → walk key (t.primary_hashtable (hash key % 2 ^ t.hash_power)) ≡ none

  pub moved-primary :
      (t : Table) (key : List ℕ)
      → Growing t
      → walk key ((move_bucket hash t).primary_hashtable (hash key % 2 ^ t.hash_power))
        ≡ or_else
            (walk key (t.old_hashtable t.expand_bucket))
            (walk key (t.primary_hashtable (hash key % 2 ^ t.hash_power)))
  unfolding move_bucket
  moved-primary t key g =
      walk-move_items t.hash_power (t.old_hashtable t.expand_bucket) t.primary_hashtable key
        (g.unique t.expand_bucket)

  -- The lookup by the place of the key.
  find_old :
      (t : Table) (key : List ℕ)
      → t.expanding ≡ true
      → t.expand_bucket ≤ hash key % 2 ^ (t.hash_power - 1)
      → assoc_find hash t key ≡ walk key (t.old_hashtable (hash key % 2 ^ (t.hash_power - 1)))
  unfolding assoc_find assoc_get_bucket
  find_old t key e l =
      let b : leb t.expand_bucket (hash key % 2 ^ (t.hash_power - 1)) ≡ true = ground (arith, l) in
      rw (e, b)

  find_new :
      (t : Table) (key : List ℕ)
      → in_old hash t key ≡ false
      → assoc_find hash t key ≡ walk key (t.primary_hashtable (hash key % 2 ^ t.hash_power))
  unfolding assoc_find assoc_get_bucket
  find_new t key n = rw n

  or_else-none : (o : Option ℕ) → or_else o none ≡ o
  or_else-none none = refl
  or_else-none (some a) = refl

  moved_new :
      (t : Table) (key : List ℕ)
      → hash key % 2 ^ (t.hash_power - 1) ≤ t.expand_bucket
      → Growing t
      → assoc_find hash (move_bucket hash t) key
        ≡ or_else
            (walk key (t.old_hashtable t.expand_bucket))
            (walk key (t.primary_hashtable (hash key % 2 ^ t.hash_power)))
  unfolding move_bucket
  moved_new t key l g =
      let past : leb (t.expand_bucket + 1) (hash key % 2 ^ (t.hash_power - 1)) ≡ false =
        ground (arith, l) in
      let n : in_old hash (move_bucket hash t) key ≡ false = rw (past, &&_false) in
      find_new (move_bucket hash t) key n ∙ moved-primary t key g

  still_expanding :
      (t : Table) (key : List ℕ)
      → t.expand_bucket < hash key % 2 ^ (t.hash_power - 1)
      → Growing t
      → (move_bucket hash t).expanding ≡ true
  unfolding move_bucket
  still_expanding t key l g =
      let bound : hash key % 2 ^ (t.hash_power - 1) < 2 ^ (t.hash_power - 1) =
        mod-lt (hash key) (omega (arith, g.unmoved)) in
      ground (arith, bound, l)

  -- In the middle of an expansion a round of the maintenance thread, which moves one bucket,
  -- changes the result of no lookup. The old chains have the keys that belong there, each once, and
  -- what is still to move is not in the new table.
  pub assoc_find-move_bucket :
      (t : Table) (key : List ℕ)
      → t.expanding ≡ true
      → Growing t
      → assoc_find hash (move_bucket hash t) key ≡ assoc_find hash t key
  unfolding move_bucket
  assoc_find-move_bucket t key e g =
      let old = hash key % 2 ^ (t.hash_power - 1) in
      elim (compare-cases old t.expand_bucket) [
        | inl less ↦
            let before : leb t.expand_bucket old ≡ false = ground (arith, less) in
            let n : in_old hash t key ≡ false = rw (before, &&_false) in
            let other : (old == t.expand_bucket) ≡ false = ground (arith, less) in
            moved_new t key (omega (arith, less)) g
            ∙ rw (g.placed t.expand_bucket key other) (sym (find_new t key n))
        | inr (inl same) ↦
            moved_new t key (omega (arith, same)) g
            ∙ rw (g.fresh key (omega (arith, same))) (
                or_else-none _
                ∙ ap (λ j. walk key (t.old_hashtable j)) (sym same)
                ∙ sym (find_old t key e (omega (arith, same))))
        | inr (inr more) ↦
            let other : (old == t.expand_bucket) ≡ false = ground (arith, more) in
            find_old (move_bucket hash t) key (still_expanding t key more g) (omega (arith, more))
            ∙ rw other (sym (find_old t key e (omega (arith, more))))
      ]
