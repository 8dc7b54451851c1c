-- ===== src/Items/Tests/Allocator.antt =====
-- Allocators that give one free item, or evict and carve one slab, for runs of `_item_alloc_config`
-- (IQ-Twemcached/src/mc_items.c).
use mathlib.Core.Path.{subst}
use rejig.Prelude.{
  [], ◌∷◌, ◌==◌, inl, inr, Bool-cases, ℕ, Bool, true, false, Option, none, some, List, ◌≡◌, refl,
  sym, ap, ◌∙◌, none-some, false-true, if◌then◌else◌,
}
use rejig.Items.{Answer, Decision, elem}
use rejig.Items.Spared.{some-address}

-- The allocator gives the item at one address, off the free queue, as long as it is not linked.
abbrev given : Bool → ℕ → Answer
given linked a = if linked then Answer.refused else Answer.free_item a

address_of : Answer → Option ℕ
address_of Answer.refused = none
address_of (Answer.free_item a) = some a
address_of (Answer.carved evicted items a) = none

carves : Answer → Bool
carves Answer.refused = false
carves (Answer.free_item a) = false
carves (Answer.carved evicted items a) = true

pub given-apart : (linked : Bool) (b a : ℕ) → given linked b ≡ Answer.free_item a → a ≡ b
unfolding address_of
given-apart true b a e = absurd (none-some a (ap address_of e))
given-apart false b a e = some-address (sym (ap address_of e))

pub given-linked : (linked : Bool) (b a : ℕ) → given linked b ≡ Answer.free_item a → linked ≡ false
unfolding address_of
given-linked true b a e = absurd (none-some a (ap address_of e))
given-linked false b a e = refl

pub given-carved :
    (linked : Bool) (b : ℕ) (evicted items : List ℕ) (a : ℕ)
    → given linked b ≡ Answer.carved evicted items a
    → false ≡ true
unfolding carves
given-carved true b evicted items a e = ap carves e
given-carved false b evicted items a e = ap carves e

abbrev pub free_at : ℕ → Decision
free_at b = record {
  decide = λ heap. given (heap b).linked b;
  free_unlinked = λ heap a e.
      ap (λ z. (heap z).linked) (given-apart (heap b).linked b a e)
      ∙ given-linked (heap b).linked b a e;
  carves_apart = λ heap evicted items a e.
      absurd (false-true (given-carved (heap b).linked b evicted items a e));
}

evicted_of : Answer → List ℕ
evicted_of Answer.refused = []
evicted_of (Answer.free_item a) = []
evicted_of (Answer.carved evicted items a) = evicted

taken_of : Answer → List ℕ
taken_of Answer.refused = []
taken_of (Answer.free_item a) = []
taken_of (Answer.carved evicted items a) = a ∷ items

elem_twice : (b a : ℕ) → elem b (a ∷ a ∷ []) ≡ true → elem b (a ∷ []) ≡ true
elem_twice b a m = elim (Bool-cases (b == a)) [
  | inl t ↦ rw t refl
  | inr n ↦ absurd (false-true (rw n at m))
]

pub recarved-free :
    (b a : ℕ) → Answer.carved (b ∷ []) (b ∷ []) b ≡ Answer.free_item a → true ≡ false
unfolding carves
recarved-free b a e = ap carves e

pub recarved-apart :
    (a : ℕ) (evicted items : List ℕ) (a' : ℕ)
    → Answer.carved (a ∷ []) (a ∷ []) a ≡ Answer.carved evicted items a'
    → (b : ℕ) → elem b (a' ∷ items) ≡ true
    → elem b evicted ≡ true
unfolding evicted_of taken_of
recarved-apart a evicted items a' e b m =
    subst (λ z. elem b z ≡ true) (ap evicted_of e)
      (elem_twice b a (subst (λ z. elem b z ≡ true) (sym (ap taken_of e)) m))

-- The slab of the one item at an address is evicted, and the item carved anew.
abbrev pub recarve_at : ℕ → Decision
recarve_at a = record {
  decide = λ heap. Answer.carved (a ∷ []) (a ∷ []) a;
  free_unlinked = λ heap b e. absurd (false-true (sym (recarved-free a b e)));
  carves_apart = λ heap evicted items a' e b l. recarved-apart a evicted items a' e b;
}
