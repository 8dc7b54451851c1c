-- ===== src/Assoc/Chains.antt =====
-- Chains of IQ-Twemcached/src/mc_assoc.c: what a removal leaves, and what the moves of a bucket do
-- to the chains that they reach.
use mathlib.Core.Path.{subst}
use rejig.Prelude.{
  false-true, none-some, ℕ, ◌%◌, ◌^◌, none, List, [], ◌∷◌, ◌==◌, ◌≡◌, refl, false, sym, ap, ◌∙◌,
  ◌⊎◌, inl, inr, Bool-cases, key_eq, key_eq_iff, key_eq_refl, ==_iff,
}
use rejig.Assoc.{Bucket, walk, push, move_items, unchain}
use rejig.Assoc.Expand.{Unique, walk-push}

pub key_eq-sym : (j k : List ℕ) → key_eq j k ≡ false → key_eq k j ≡ false
key_eq-sym j k n = elim (Bool-cases (key_eq k j)) [
  | inr f ↦ f
  | inl t ↦ absurd (false-true (sym n ∙ (key_eq_iff j k).1 (sym ((key_eq_iff k j).0 t))))
]

pub walk-unchain_other :
    (key j : List ℕ) (bucket : Bucket)
    → key_eq key j ≡ false
    → walk j (unchain key bucket) ≡ walk j bucket
unfolding walk unchain
walk-unchain_other key j [] n = refl
walk-unchain_other key j ((k, a) ∷ rest) n = elim (Bool-cases (key_eq k key)) [
  | inr f ↦ rw (f, walk-unchain_other key j rest n)
  | inl t ↦
      let p : key_eq k j ≡ false = ap (λ x. key_eq x j) ((key_eq_iff k key).0 t) ∙ n in rw (t, p)
]

pub walk-unchain_self :
    (key : List ℕ) (bucket : Bucket) → Unique bucket → walk key (unchain key bucket) ≡ none
unfolding walk unchain Unique
walk-unchain_self key [] u = refl
walk-unchain_self key ((k, a) ∷ rest) u = elim (Bool-cases (key_eq k key)) [
  | inr f ↦ rw (f, f, walk-unchain_self key rest u.1)
  | inl t ↦ rw t (subst (λ x. walk x rest ≡ none) ((key_eq_iff k key).0 t) u.0)
]

pub unchain-Unique : (key : List ℕ) (bucket : Bucket) → Unique bucket → Unique (unchain key bucket)
unfolding walk unchain Unique
unchain-Unique key [] u = tt
unchain-Unique key ((k, a) ∷ rest) u = elim (Bool-cases (key_eq k key)) [
  | inl t ↦ rw t u.1
  | inr f ↦
      rw f (walk-unchain_other key k rest (key_eq-sym k key f) ∙ u.0, unchain-Unique key rest u.1)
]

module _ (hash : List ℕ → ℕ) (power : ℕ) where
  -- No key of the bucket is in the chain that it moves to.
  abbrev pub Apart : Bucket → (ℕ → Bucket) → Type 0
  Apart bucket table =
      (key : List ℕ) → (walk key bucket ≡ none) ⊎ (walk key (table (hash key % 2 ^ power)) ≡ none)

  Apart-push :
      (k : List ℕ) (a : ℕ) (bucket : Bucket) (table : ℕ → Bucket)
      → walk k bucket ≡ none
      → Apart ((k, a) ∷ bucket) table
      → Apart bucket (push table (hash k % 2 ^ power) (k, a))
  unfolding walk
  Apart-push k a bucket table u apart key = elim (Bool-cases (key_eq k key)) [
    | inl t ↦ inl (subst (λ x. walk x bucket ≡ none) ((key_eq_iff k key).0 t) u)
    | inr f ↦ elim (apart key) [
      | inl e ↦ inl (rw f at e)
      | inr e ↦ inr (walk-push hash table power k key a f ∙ e)
    ]
  ]

  pub move_items-Unique :
      (bucket : Bucket) (table : ℕ → Bucket)
      → Unique bucket
      → Apart bucket table
      → ((j : ℕ) → Unique (table j))
      → (j : ℕ) → Unique (move_items hash power bucket table j)
  unfolding walk move_items Unique
  move_items-Unique [] table u apart each j = each j
  move_items-Unique ((k, a) ∷ rest) table u apart each j =
      let fresh : walk k (table (hash k % 2 ^ power)) ≡ none = elim (apart k) [
        | inr e ↦ e
        | inl e ↦ absurd (none-some a (sym (rw (key_eq_refl k) at e)))
      ] in
      move_items-Unique rest (push table (hash k % 2 ^ power) (k, a)) u.1
        (Apart-push k a rest table u.0 apart)
        (λ i. elim (Bool-cases (i == hash k % 2 ^ power)) [
          | inr n ↦ rw n (each i)
          | inl t ↦
              rw t
                (ap (λ x. walk k (table x)) ((==_iff i (hash k % 2 ^ power)).0 t) ∙ fresh, each i)
        ])
        j

  pub walk-move_items_elsewhere :
      (bucket : Bucket) (table : ℕ → Bucket) (j : ℕ) (key : List ℕ)
      → (hash key % 2 ^ power == j) ≡ false
      → walk key (table j) ≡ none
      → walk key (move_items hash power bucket table j) ≡ none
  unfolding walk move_items
  walk-move_items_elsewhere [] table j key n e = e
  walk-move_items_elsewhere ((k, a) ∷ rest) table j key n e =
      let at : walk key (push table (hash k % 2 ^ power) (k, a) j) ≡ none =
        elim (Bool-cases (j == hash k % 2 ^ power)) [
          | inr f ↦ rw (f, e)
          | inl t ↦ elim (Bool-cases (key_eq k key)) [
            | inr f ↦ rw (t, f, e)
            | inl s ↦
                let p : j ≡ hash key % 2 ^ power =
                  (==_iff j (hash k % 2 ^ power)).0 t
                  ∙ ap (λ x. hash x % 2 ^ power) ((key_eq_iff k key).0 s) in
                absurd (false-true (sym n ∙ (==_iff (hash key % 2 ^ power) j).1 (sym p)))
          ]
        ] in
      walk-move_items_elsewhere rest (push table (hash k % 2 ^ power) (k, a)) j key n at
