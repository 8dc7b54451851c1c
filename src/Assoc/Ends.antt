-- ===== src/Assoc/Ends.antt =====
-- The expansion of the hash of IQ-Twemcached/src/mc_assoc.c comes to an end.
use rejig.Prelude.{
  leb, if◌then◌else◌, ◌<◌, inr, inl, ◌-◌, Bool-cases, ◌+◌, ◌^◌, arith, ◌%◌, List, ℕ, zero, suc,
  ◌==◌, ◌≡◌, refl, true, false, none, ap, ◌∙◌,
}
use rejig.Assoc.{assoc_get_bucket, assoc_expand, assoc_find, walk, maintain, move_bucket, Table}
use rejig.Assoc.Expand.{assoc_find-move_bucket, moved-primary, Growing, Unique}

-- While no expansion is under way, a chain has the keys that belong there, each once.
pub record Stable (hash : List ℕ → ℕ) (t : Table) : Type 0 where
  pub idle : t.expanding ≡ false
  pub unique : (j : ℕ) → Unique (t.primary_hashtable j)
  pub placed :
      (j : ℕ) (key : List ℕ)
      → (hash key % 2 ^ t.hash_power == j) ≡ false
      → walk key (t.primary_hashtable j) ≡ none

module _ (hash : List ℕ → ℕ) where
  pub move_bucket-Growing :
      (t : Table)
      → (move_bucket hash t).expanding ≡ true
      → Growing hash t
      → Growing hash (move_bucket hash t)
  unfolding move_bucket
  move_bucket-Growing t e g = record {
    unmoved = ground (arith, g.unmoved, e);
    unique = λ j. elim (Bool-cases (j == t.expand_bucket)) [
      | inl m ↦ rw m (unfold Unique in tt)
      | inr n ↦ rw n (g.unique j)
    ];
    placed = λ j key n. elim (Bool-cases (j == t.expand_bucket)) [
      | inl m ↦ rw m (unfold walk in refl)
      | inr o ↦ rw o (g.placed j key n)
    ];
    fresh = λ key l.
        let other : (hash key % 2 ^ (t.hash_power - 1) == t.expand_bucket) ≡ false =
          ground (arith, l) in
        moved-primary hash t key g
        ∙ rw (g.placed t.expand_bucket key other) (g.fresh key (omega (arith, l)));
  }

  maintain-idle : (n : ℕ) (t : Table) → t.expanding ≡ false → maintain hash n t ≡ t
  unfolding maintain
  maintain-idle zero t e = refl
  maintain-idle (suc n) t e = rw e

  maintain-moves :
      (n : ℕ) (t : Table)
      → t.expanding ≡ true
      → maintain hash (suc n) t ≡ maintain hash n (move_bucket hash t)
  unfolding maintain
  maintain-moves n t e = ap (λ v. if v then maintain hash n (move_bucket hash t) else t) e

  maintain-Growing :
      (n : ℕ) (t : Table)
      → t.expanding ≡ true
      → Growing hash t
      → n + t.expand_bucket ≡ 2 ^ (t.hash_power - 1)
      → ((maintain hash n t).expanding ≡ false)
        × ((key : List ℕ) → assoc_find hash (maintain hash n t) key ≡ assoc_find hash t key)
  unfolding move_bucket
  maintain-Growing zero t e g n = absurd (omega (arith, g.unmoved, n))
  maintain-Growing (suc k) t e g n = elim (Bool-cases (move_bucket hash t).expanding) [
    | inr done ↦
        let p = maintain-moves k t e ∙ maintain-idle k (move_bucket hash t) done in
        (
          ap (λ x. x.expanding) p ∙ done,
          λ key. ap (λ x. assoc_find hash x key) p ∙ assoc_find-move_bucket hash t key e g,
        )
    | inl more ↦
        let p = maintain-moves k t e in
        let (over, same) =
          maintain-Growing k (move_bucket hash t) more (move_bucket-Growing t more g)
            (omega (arith, n)) in
        (
          ap (λ x. x.expanding) p ∙ over,
          λ key.
              ap (λ x. assoc_find hash x key) p ∙ same key ∙ assoc_find-move_bucket hash t key e g,
        )
  ]

  pub assoc_expand-Growing :
      (t : Table) → 0 < 2 ^ t.hash_power → Stable hash t → Growing hash (assoc_expand t)
  unfolding assoc_expand
  assoc_expand-Growing t pos s =
      let p : t.hash_power + 1 - 1 ≡ t.hash_power = omega arith in
      record {
        unmoved = rw p pos;
        unique = s.unique;
        placed = λ j key n. s.placed j key (rw p at n);
        fresh = λ key l. (unfold walk in refl);
      }

  pub find-expand :
      (t : Table) (key : List ℕ)
      → Stable hash t
      → assoc_find hash (assoc_expand t) key ≡ assoc_find hash t key
  unfolding assoc_expand assoc_find assoc_get_bucket
  find-expand t key s =
      let p : t.hash_power + 1 - 1 ≡ t.hash_power = omega arith in
      let z : leb 0 (hash key % 2 ^ t.hash_power) ≡ true = ground arith in rw (p, z, s.idle)

  -- The growth of the hash ends: from a table at rest, whose chains have the keys that belong
  -- there, each once, the rounds of the maintenance thread, one for each old bucket, end the
  -- expansion, and every lookup finds afterwards what it found before.
  pub maintain-expand :
      (t : Table)
      → 0 < 2 ^ t.hash_power
      → Stable hash t
      → ((maintain hash (2 ^ t.hash_power) (assoc_expand t)).expanding ≡ false)
        × ((key : List ℕ)
            → assoc_find hash (maintain hash (2 ^ t.hash_power) (assoc_expand t)) key
              ≡ assoc_find hash t key)
  maintain-expand t pos s =
      let q : 2 ^ t.hash_power + (assoc_expand t).expand_bucket
          ≡ 2 ^ ((assoc_expand t).hash_power - 1) =
        unfold assoc_expand in
        let p : t.hash_power + 1 - 1 ≡ t.hash_power = omega arith in
        omega (arith, ap (λ n. 2 ^ n) p) in
      let (over, same) =
        maintain-Growing (2 ^ t.hash_power) (assoc_expand t) (unfold assoc_expand in refl)
          (assoc_expand-Growing t pos s) q in
      (over, λ key. same key ∙ find-expand t key s)
