-- ===== src/Items/Coherent/Hash.antt =====
-- The hash and the items still agree when the hash gains or loses one key, as `assoc_insert` and
-- `assoc_delete` have it (IQ-Twemcached/src/mc_items.c).
use mathlib.Core.Path.{subst}
use rejig.Prelude.{
  none-some, false-true, ℕ, some, none, true, false, ◌≡◌, inl, inr, refl, Bool-cases, ◌==◌, sym, ap,
  ◌∙◌, ==_iff, key_eq, key_eq_iff, key_eq_refl,
}
use rejig.Items.{Item, Cache}
use rejig.Items.Refcount.{update_assoc}
use rejig.Items.Spared.{some-address}
use rejig.Items.Coherent.{Coheres, Coherent}

other_than :
    (c : Cache) (a b : ℕ) → (c.heap a).linked ≡ false → (c.heap b).linked ≡ true → (b == a) ≡ false
other_than c a b u m = elim (Bool-cases (b == a)) [
  | inl t ↦ absurd (false-true (sym u ∙ (ap (λ z. (c.heap z).linked) (sym ((==_iff b a).0 t)) ∙ m)))
  | inr n ↦ n
]

-- The hash gains the key of an item that was not linked; the heap changes at the item alone.
pub linked-Coheres :
    (c : Cache) (a : ℕ) (heap : ℕ → Item)
    → Coherent c
    → (c.heap a).linked ≡ false
    → ((b : ℕ) → (b == a) ≡ false → heap b ≡ c.heap b)
    → (heap a).linked ≡ true
    → (heap a).slabbed ≡ false
    → c.assoc (heap a).key ≡ none
    → Coheres heap (update_assoc c.assoc (heap a).key (some a))
unfolding Coherent
linked-Coheres c a heap p u rest l s absent =
    let key = (heap a).key in
    let other : (b : ℕ) → (c.heap b).linked ≡ true → (b == a) ≡ false =
      λ b m. other_than c a b u m in
    record {
      indexed = λ k b e. elim (Bool-cases (key_eq key k)) [
        | inl t ↦
            let q : a ≡ b = some-address (rw t at e) in
            (
              ap (λ z. (heap z).linked) (sym q) ∙ l,
              ap (λ z. (heap z).key) (sym q) ∙ (key_eq_iff key k).0 t,
            )
        | inr n ↦
            let (m, j) = p.indexed k b (rw n at e) in
            let h = rest b (other b m) in (ap (λ i. i.linked) h ∙ m, ap (λ i. i.key) h ∙ j)
      ];
      owned = λ b m. elim (Bool-cases (b == a)) [
        | inl t ↦
            let q = (==_iff b a).0 t in
            subst (λ z. update_assoc c.assoc key (some a) (heap z).key ≡ some z) (sym q)
              (rw (key_eq_refl key) refl)
        | inr n ↦
            let h = rest b n in
            let o = p.owned b (ap (λ i. i.linked) (sym h) ∙ m) in
            elim (Bool-cases (key_eq key (heap b).key)) [
              | inl t ↦
                  let k : key ≡ (c.heap b).key =
                    (key_eq_iff key (heap b).key).0 t ∙ ap (λ i. i.key) h in
                  absurd (none-some b (sym absent ∙ (ap c.assoc k ∙ o)))
              | inr n' ↦ rw n' (ap (λ i. c.assoc i.key) h ∙ o)
            ]
      ];
      unslabbed = λ b m. elim (Bool-cases (b == a)) [
        | inl t ↦ ap (λ z. (heap z).slabbed) ((==_iff b a).0 t) ∙ s
        | inr n ↦
            let h = rest b n in
            ap (λ i. i.slabbed) h ∙ p.unslabbed b (ap (λ i. i.linked) (sym h) ∙ m)
      ];
    }

-- The hash loses the key of a linked item; the heap changes at the item alone.
pub unlinked-Coheres :
    (c : Cache) (a : ℕ) (heap : ℕ → Item)
    → Coherent c
    → (c.heap a).linked ≡ true
    → ((b : ℕ) → (b == a) ≡ false → heap b ≡ c.heap b)
    → (heap a).linked ≡ false
    → Coheres heap (update_assoc c.assoc (c.heap a).key none)
unfolding Coherent
unlinked-Coheres c a heap p l rest u =
    let key = (c.heap a).key in
    record {
      indexed = λ k b e. elim (Bool-cases (key_eq key k)) [
        | inl t ↦ absurd (none-some b (rw t at e))
        | inr n ↦
            let (m, j) = p.indexed k b (rw n at e) in
            elim (Bool-cases (b == a)) [
              | inl t ↦
                  let q : key ≡ k = ap (λ z. (c.heap z).key) (sym ((==_iff b a).0 t)) ∙ j in
                  absurd (false-true (sym n ∙ (key_eq_iff key k).1 q))
              | inr n' ↦ let h = rest b n' in (ap (λ i. i.linked) h ∙ m, ap (λ i. i.key) h ∙ j)
            ]
      ];
      owned = λ b m. elim (Bool-cases (b == a)) [
        | inl t ↦
            absurd (false-true (sym u ∙ (ap (λ z. (heap z).linked) (sym ((==_iff b a).0 t)) ∙ m)))
        | inr n ↦
            let h = rest b n in
            let o = p.owned b (ap (λ i. i.linked) (sym h) ∙ m) in
            elim (Bool-cases (key_eq key (heap b).key)) [
              | inl t ↦
                  let k : key ≡ (c.heap b).key =
                    (key_eq_iff key (heap b).key).0 t ∙ ap (λ i. i.key) h in
                  let q : a ≡ b = some-address (sym (p.owned a l) ∙ (ap c.assoc k ∙ o)) in
                  absurd (false-true (sym n ∙ (==_iff b a).1 (sym q)))
              | inr n' ↦ rw n' (ap (λ i. c.assoc i.key) h ∙ o)
            ]
      ];
      unslabbed = λ b m. elim (Bool-cases (b == a)) [
        | inl t ↦
            absurd (false-true (sym u ∙ (ap (λ z. (heap z).linked) (sym ((==_iff b a).0 t)) ∙ m)))
        | inr n ↦
            let h = rest b n in
            ap (λ i. i.slabbed) h ∙ p.unslabbed b (ap (λ i. i.linked) (sym h) ∙ m)
      ];
    }
