-- ===== src/Items/Coherent/Lookup.antt =====
-- What a look-up returns in a cache that IQ-Twemcached comes to: `_item_get` of
-- IQ-Twemcached/src/mc_items.c.
use mathlib.Core.Path.{subst}
use rejig.Prelude.{
  none-some, ℕ, List, Option, some, none, true, false, ◌≡◌, ◌+◌, ◌%◌, ◌^◌, ◌==◌, sym, ◌∙◌, ap, refl,
  inl, inr, Bool-cases, Option-cases, ==_refl,
}
use rejig.Items.{Cache}
use rejig.Items.Monad.{◌>>◌, update_heap}
use rejig.Items.Refcount.{acquire_refcount, item_unlink}
use rejig.Items.Get.{item_get, is_dead}
use rejig.Items.Reach.{Reachable}
use rejig.Items.Pins.{run-cache}
use rejig.Items.Spared.{some-address}
use rejig.Items.Coherent.{Coherent}
use rejig.Items.Coherent.Reached.{Reachable-Coherent}

-- The item that a caller is given: that of its key, which carries the caller's reference.
pub record Given (key : List ℕ) (a : ℕ) (c d : Cache) : Type 0 where
  pub indexed : d.assoc key ≡ some a
  pub linked : (d.heap a).linked ≡ true
  pub own_key : (d.heap a).key ≡ key
  pub unslabbed : (d.heap a).slabbed ≡ false
  pub same_value : (d.heap a).value ≡ (c.heap a).value
  pub referred : (d.heap a).refcount ≡ ((c.heap a).refcount + 1) % 2 ^ 16
  pub assoc_same : d.assoc ≡ c.assoc
  pub heap_rest : (b : ℕ) → (b == a) ≡ false → d.heap b ≡ c.heap b
  pub alive : is_dead c (c.heap a) ≡ false

result_of :
    {c d : Cache} {r : Option (Option ℕ × Cache)} {o : Option ℕ} {a : ℕ}
    → r ≡ some (o, c)
    → r ≡ some (some a, d)
    → o ≡ some a
result_of {o = o} p q = ap (λ z. elim z as (λ _. Option ℕ) [ none ↦ o | some w ↦ w.0 ]) (sym p ∙ q)

Coherent-Given :
    (c : Cache) (key : List ℕ) (a : ℕ)
    → Coherent c
    → c.assoc key ≡ some a
    → is_dead c (c.heap a) ≡ false
    → Given key a c (record c {
      heap =
          update_heap c.heap a
            (record (c.heap a) { refcount = ((c.heap a).refcount + 1) % 2 ^ 16 });
    })
unfolding Coherent
Coherent-Given c key a p e n =
    let (l, k) = p.indexed key a e in
    record {
      indexed = e;
      linked = rw (==_refl a) l;
      own_key = rw (==_refl a) k;
      unslabbed = rw (==_refl a) (p.unslabbed a l);
      same_value = rw (==_refl a) refl;
      referred = rw (==_refl a) refl;
      assoc_same = refl;
      heap_rest = λ b m. rw m refl;
      alive = n;
    }

given :
    (c d : Cache) (key : List ℕ) (a : ℕ)
    → Coherent c
    → item_get key c ≡ some (some a, d)
    → Given key a c d
unfolding item_get acquire_refcount
given c d key a p e = elim (Option-cases (c.assoc key)) [
  | inl n ↦ absurd (none-some a (result_of refl (rw n at e)))
  | inr (b, f) ↦ elim (Bool-cases (is_dead c (c.heap b))) [
    | inl t ↦ elim (Option-cases (item_unlink b c)) [
      | inl x ↦ absurd (none-some _ (rw (f, t, ◌>>◌, x) at e))
      | inr ((y, c'), x) ↦ absurd (none-some a (result_of refl (rw (f, t, ◌>>◌, x) at e)))
    ]
    | inr t ↦
        let e' = rw (f, t) at e in
        let q : b ≡ a = some-address (result_of refl e') in
        subst (λ z. Given key z c d) q
          (subst (Given key b c) (run-cache refl e') (Coherent-Given c key b p f t))
  ]
]

-- In a cache that calls come to from an empty one, whatever the slab allocator decides within the
-- laws of a Decision, a look-up that returns an item returns the item of its key: the hash still
-- has it, it is linked, has that key and is on no free queue, has not expired, has the bytes it
-- had, and carries one more reference, modulo 2^16. The hash and all other items are as they
-- were.
pub item_get-Given :
    (c d : Cache) (key : List ℕ) (a : ℕ)
    → Reachable c
    → item_get key c ≡ some (some a, d)
    → Given key a c d
item_get-Given c d key a r e = given c d key a (Reachable-Coherent c r) e
