-- ===== src/Assoc/Sound.antt =====
-- The chains of IQ-Twemcached/src/mc_assoc.c at any stage of an expansion: the invariant, and that
-- an edit of one chain keeps it and changes one key.
use rejig.Prelude.{
  ℕ, ◌-◌, ◌%◌, ◌^◌, ◌≤◌, none, List, ◌==◌, ◌≡◌, true, false, leb, sym, ap, ◌∙◌, inl, inr,
  Bool-cases, key_eq, key_eq_iff, ==_iff, false-true, arith, if◌then◌else◌,
}
use rejig.Assoc.{Bucket, Table, walk, in_old, assoc_get_bucket, with_bucket}
use rejig.Assoc.Expand.{Unique, Growing}

module _ (hash : List ℕ → ℕ) where
  -- A chain has the keys that belong there, each once; in an expansion the old chains too.
  pub record Sound (t : Table) : Type 0 where
    pub unique_new : (j : ℕ) → Unique (t.primary_hashtable j)
    pub placed_new :
        (j : ℕ) (key : List ℕ)
        → (hash key % 2 ^ t.hash_power == j) ≡ false
        → walk key (t.primary_hashtable j) ≡ none
    pub growing : t.expanding ≡ true → Growing hash t

  -- Another chain for a key: it has each key once, and of the other keys those that were there.
  pub record Edit (t : Table) (key : List ℕ) (bucket : Bucket) : Type 0 where
    pub unique : Unique bucket
    pub others :
        (j : List ℕ) → key_eq key j ≡ false → walk j bucket ≡ walk j (assoc_get_bucket hash t key)

  bucket_old :
      (t : Table) (key : List ℕ)
      → in_old hash t key ≡ true
      → assoc_get_bucket hash t key ≡ t.old_hashtable (hash key % 2 ^ (t.hash_power - 1))
  unfolding assoc_get_bucket
  bucket_old t key e = rw e

  bucket_new :
      (t : Table) (key : List ℕ)
      → in_old hash t key ≡ false
      → assoc_get_bucket hash t key ≡ t.primary_hashtable (hash key % 2 ^ t.hash_power)
  unfolding assoc_get_bucket
  bucket_new t key e = rw e

  -- Keys of different places are different.
  apart :
      (m i : ℕ) (key j : List ℕ)
      → i ≡ hash key % m
      → (hash j % m == i) ≡ false
      → key_eq key j ≡ false
  apart m i key j p n = elim (Bool-cases (key_eq key j)) [
    | inr f ↦ f
    | inl t ↦
        let q : hash j % m ≡ i = ap (λ x. hash x % m) (sym ((key_eq_iff key j).0 t)) ∙ sym p in
        absurd (false-true (sym n ∙ (==_iff (hash j % m) i).1 q))
  ]

  edited_old-Sound :
      (t : Table) (key : List ℕ) (bucket : Bucket)
      → in_old hash t key ≡ true
      → Sound t
      → Edit t key bucket
      → Sound (record t {
        old_hashtable =
            λ j. if j == hash key % 2 ^ (t.hash_power - 1) then bucket else t.old_hashtable j;
      })
  edited_old-Sound t key bucket e s d =
      let place = hash key % 2 ^ (t.hash_power - 1) in
      record {
        unique_new = s.unique_new;
        placed_new = s.placed_new;
        growing = λ g.
            let w = s.growing g in
            record {
              unmoved = w.unmoved;
              unique = λ j. elim (Bool-cases (j == place)) [
                | inl m ↦ rw m d.unique
                | inr n ↦ rw n (w.unique j)
              ];
              placed = λ i j n. elim (Bool-cases (i == place)) [
                | inr o ↦ rw o (w.placed i j n)
                | inl m ↦
                    let p = (==_iff i place).0 m in
                    let at : walk j (t.old_hashtable place) ≡ none =
                      w.placed place j
                        (ap (λ x. hash j % 2 ^ (t.hash_power - 1) == x) (sym p) ∙ n) in
                    rw m (
                      d.others j (apart (2 ^ (t.hash_power - 1)) i key j p n)
                      ∙ ap (walk j) (bucket_old t key e)
                      ∙ at)
              ];
              fresh = w.fresh;
            };
      }

  edited_new-Sound :
      (t : Table) (key : List ℕ) (bucket : Bucket)
      → in_old hash t key ≡ false
      → Sound t
      → Edit t key bucket
      → Sound (record t {
        primary_hashtable =
            λ j. if j == hash key % 2 ^ t.hash_power then bucket else t.primary_hashtable j;
      })
  edited_new-Sound t key bucket e s d =
      let place = hash key % 2 ^ t.hash_power in
      record {
        unique_new = λ j. elim (Bool-cases (j == place)) [
          | inl m ↦ rw m d.unique
          | inr n ↦ rw n (s.unique_new j)
        ];
        placed_new = λ i j n. elim (Bool-cases (i == place)) [
          | inr o ↦ rw o (s.placed_new i j n)
          | inl m ↦
              let p = (==_iff i place).0 m in
              let at : walk j (t.primary_hashtable place) ≡ none =
                s.placed_new place j (ap (λ x. hash j % 2 ^ t.hash_power == x) (sym p) ∙ n) in
              rw m (
                d.others j (apart (2 ^ t.hash_power) i key j p n)
                ∙ ap (walk j) (bucket_new t key e)
                ∙ at)
        ];
        growing = λ g.
            let w = s.growing g in
            record {
              unmoved = w.unmoved;
              unique = w.unique;
              placed = w.placed;
              fresh = λ j l. elim (Bool-cases (hash j % 2 ^ t.hash_power == place)) [
                | inr o ↦ rw o (w.fresh j l)
                | inl m ↦
                    let p = (==_iff (hash j % 2 ^ t.hash_power) place).0 m in
                    let n : key_eq key j ≡ false = unmoved_apart t key j e g l in
                    let at : walk j (t.primary_hashtable place) ≡ none =
                      ap (λ x. walk j (t.primary_hashtable x)) (sym p) ∙ w.fresh j l in
                    rw m (d.others j n ∙ ap (walk j) (bucket_new t key e) ∙ at)
              ];
            };
      }
    where
      -- A key that is still to move is not one that is looked up in the new table.
      unmoved_apart :
          (t : Table) (key j : List ℕ)
          → in_old hash t key ≡ false
          → t.expanding ≡ true
          → t.expand_bucket ≤ hash j % 2 ^ (t.hash_power - 1)
          → key_eq key j ≡ false
      unmoved_apart t key j e g l = elim (Bool-cases (key_eq key j)) [
        | inr f ↦ f
        | inl k ↦
            let b : leb t.expand_bucket (hash j % 2 ^ (t.hash_power - 1)) ≡ true =
              ground (arith, l) in
            let q : in_old hash t key ≡ true =
              ap (λ x. in_old hash t x) ((key_eq_iff key j).0 k) ∙ rw (g, b) in
            absurd (false-true (sym e ∙ q))
      ]

  pub with_bucket-Sound :
      (t : Table) (key : List ℕ) (bucket : Bucket)
      → Sound t
      → Edit t key bucket
      → Sound (with_bucket hash t key bucket)
  with_bucket-Sound t key bucket s d = elim (Bool-cases (in_old hash t key)) [
    | inl e ↦ rw e (edited_old-Sound t key bucket e s d)
    | inr e ↦ rw e (edited_new-Sound t key bucket e s d)
  ]
