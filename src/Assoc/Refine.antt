-- ===== src/Assoc/Refine.antt =====
-- The hash of IQ-Twemcached/src/mc_assoc.c implements a partial map: what its calls, and the rounds
-- of its maintenance thread between them, do to the chains, a map that has no chains does at once.
use rejig.Prelude.{
  zero, suc, suc, ◌<◌, ℕ, ◌-◌, ◌%◌, ◌^◌, Option, none, List, ◌∷◌, ◌==◌, ◌≡◌, refl, true, false, sym,
  ap, ◌∙◌, inl, inr, Bool-cases, key_eq, key_eq_iff, ==_refl, ==_iff, arith, &&_left,
}
use rejig.Assoc.{
  Bucket, Table, walk, unchain, in_old, assoc_get_bucket, assoc_find, with_bucket, move_bucket,
  assoc_expand,
}
use rejig.Assoc.Expand.{Unique}
use rejig.Assoc.Ends.{move_bucket-Growing, Stable, assoc_expand-Growing}
use rejig.Assoc.Chains.{
  move_items-Unique, walk-move_items_elsewhere, walk-unchain_other, unchain-Unique, Apart,
}
use rejig.Assoc.Sound.{Sound, Edit}
use rejig.Items.Refcount.{update_assoc}

two_pow-positive : (n : ℕ) → 0 < 2 ^ n
two_pow-positive zero = omega arith
two_pow-positive (suc n) = omega (arith, two_pow-positive n)

module _ (hash : List ℕ → ℕ) where
  update-same :
      (m : List ℕ → Option ℕ) (k j : List ℕ) (o : Option ℕ)
      → key_eq k j ≡ true
      → update_assoc m k o j ≡ o
  update-same m k j o t = rw t

  update-other :
      (m : List ℕ → Option ℕ) (k j : List ℕ) (o : Option ℕ)
      → key_eq k j ≡ false
      → update_assoc m k o j ≡ m j
  update-other m k j o n = rw n

  find_self :
      (t : Table) (key : List ℕ) (bucket : Bucket)
      → assoc_find hash (with_bucket hash t key bucket) key ≡ walk key bucket
  unfolding assoc_find assoc_get_bucket
  find_self t key bucket = elim (Bool-cases (in_old hash t key)) [
    | inl e ↦ rw (e, e, ==_refl (hash key % 2 ^ (t.hash_power - 1)))
    | inr e ↦ rw (e, e, ==_refl (hash key % 2 ^ t.hash_power))
  ]

  find_other :
      (t : Table) (key j : List ℕ) (bucket : Bucket)
      → Edit hash t key bucket
      → key_eq key j ≡ false
      → assoc_find hash (with_bucket hash t key bucket) j ≡ assoc_find hash t j
  unfolding assoc_find assoc_get_bucket
  find_other t key j bucket d n =
      let old = 2 ^ (t.hash_power - 1) in
      let new = 2 ^ t.hash_power in
      elim (Bool-cases (in_old hash t key)) [
        | inl e ↦ elim (Bool-cases (in_old hash t j)) [
          | inr f ↦ rw (e, f)
          | inl f ↦ elim (Bool-cases (hash j % old == hash key % old)) [
            | inr o ↦ rw (e, f, o)
            | inl m ↦
                let p = (==_iff (hash j % old) (hash key % old)).0 m in
                rw (e, f, m) ((rw e at d.others j n) ∙ ap (λ x. walk j (t.old_hashtable x)) (sym p))
          ]
        ]
        | inr e ↦ elim (Bool-cases (in_old hash t j)) [
          | inl f ↦ rw (e, f)
          | inr f ↦ elim (Bool-cases (hash j % new == hash key % new)) [
            | inr o ↦ rw (e, f, o)
            | inl m ↦
                let p = (==_iff (hash j % new) (hash key % new)).0 m in
                rw (e, f, m)
                  ((rw e at d.others j n) ∙ ap (λ x. walk j (t.primary_hashtable x)) (sym p))
          ]
        ]
      ]

  pub find-with_bucket :
      (t : Table) (key j : List ℕ) (bucket : Bucket)
      → Edit hash t key bucket
      → assoc_find hash (with_bucket hash t key bucket) j
        ≡ update_assoc (assoc_find hash t) key (walk key bucket) j
  find-with_bucket t key j bucket d = elim (Bool-cases (key_eq key j)) [
    | inr n ↦ rw n (find_other t key j bucket d n)
    | inl m ↦ rw m (
        ap (assoc_find hash (with_bucket hash t key bucket)) (sym ((key_eq_iff key j).0 m))
        ∙ find_self t key bucket)
  ]

  pub bucket-Unique :
      (t : Table) (key : List ℕ) → Sound hash t → Unique (assoc_get_bucket hash t key)
  unfolding assoc_get_bucket
  bucket-Unique t key s = elim (Bool-cases (in_old hash t key)) [
    | inr e ↦ rw e (s.unique_new _)
    | inl e ↦ rw e ((s.growing (&&_left t.expanding _ e)).unique _)
  ]

  pub insert-Edit :
      (t : Table) (key : List ℕ) (a : ℕ)
      → Sound hash t
      → assoc_find hash t key ≡ none
      → Edit hash t key ((key, a) ∷ assoc_get_bucket hash t key)
  unfolding assoc_find walk Unique
  insert-Edit t key a s e = record { unique = (e, bucket-Unique t key s); others = λ j n. rw n }

  pub delete-Edit :
      (t : Table) (key : List ℕ)
      → Sound hash t
      → Edit hash t key (unchain key (assoc_get_bucket hash t key))
  delete-Edit t key s = record {
    unique = unchain-Unique key _ (bucket-Unique t key s);
    others = λ j n. walk-unchain_other key j _ n;
  }

  -- The count of the items and the size of the table are not in the map.
  pub count-Sound : (t : Table) (n : ℕ) → Sound hash t → Sound hash (record t { nhash_item = n })
  count-Sound t n s = record {
    unique_new = s.unique_new;
    placed_new = s.placed_new;
    growing = λ g.
        let w = s.growing g in
        record { unmoved = w.unmoved; unique = w.unique; placed = w.placed; fresh = w.fresh };
  }

  pub Sound-Stable : (t : Table) → t.expanding ≡ false → Sound hash t → Stable hash t
  Sound-Stable t e s = record { idle = e; unique = s.unique_new; placed = s.placed_new }

  pub expand-Sound : (t : Table) → t.expanding ≡ false → Sound hash t → Sound hash (assoc_expand t)
  unfolding assoc_expand
  expand-Sound t e s = record {
    unique_new = λ j. (unfold Unique in tt);
    placed_new = λ j key n. (unfold walk in refl);
    growing = λ g. assoc_expand-Growing hash t (two_pow-positive t.hash_power) (Sound-Stable t e s);
  }

  pub move-Sound : (t : Table) → t.expanding ≡ true → Sound hash t → Sound hash (move_bucket hash t)
  unfolding move_bucket
  move-Sound t e s =
      let g = s.growing e in
      let old = 2 ^ (t.hash_power - 1) in
      let apart : Apart hash t.hash_power (t.old_hashtable t.expand_bucket) t.primary_hashtable =
        λ key. elim (Bool-cases (hash key % old == t.expand_bucket)) [
          | inr n ↦ inl (g.placed t.expand_bucket key n)
          | inl m ↦ inr (g.fresh key (ground (arith, m)))
        ] in
      record {
        unique_new =
            move_items-Unique hash t.hash_power _ _ (g.unique t.expand_bucket) apart s.unique_new;
        placed_new = λ j key n.
            walk-move_items_elsewhere hash t.hash_power _ _ j key n (s.placed_new j key n);
        growing = λ more. move_bucket-Growing hash t more g;
      }
