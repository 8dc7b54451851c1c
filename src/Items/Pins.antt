-- ===== src/Items/Pins.antt =====
-- What allocation leaves alone: the functions of Items.Alloc, which model `_item_alloc_config` of
-- IQ-Twemcached/src/mc_items.c and what it calls, on an item that somebody refers to.
use rejig.Items.Alloc.{item_reuse}
use rejig.Items.Frame.{release_refcount-run, released}
use mathlib.Core.Path.{subst}
use rejig.Items.Unlink.{assoc_delete-run, dequeued-Only, delinked, deleted, dequeued}
use rejig.Items.Refcount.{release_refcount, is_lease_holder, unlink_q, update_assoc, assoc_delete}
use rejig.Prelude.{
  none-some, false-true, &&_right, arith, ltb, ◌&&◌, not, if◌then◌else◌, Option, sym, Bool-cases,
  ==_refl, ℕ, ◌==◌, ◌≡◌, refl, Bool, true, false, none, some, ap, ◌∙◌, Option-cases, inl, inr,
}
use rejig.Items.{Cache}
use rejig.Items.Monad.{when, store, load, M, ◌>>=◌, ◌>>◌, check}

-- Every run that ends keeps the property.
abbrev pub Keeps : {A : Type 0} → M A → (Cache → Type 0) → Type 0
Keeps {A} m P = (c : Cache) (x : A) (d : Cache) → P c → m c ≡ some (x, d) → P d

pub bind-Keeps :
    {A B : Type 0} (m : M A) (f : A → M B) (P : Cache → Type 0)
    → Keeps m P
    → ((x : A) → Keeps (f x) P)
    → Keeps (m >>= f) P
bind-Keeps m f P k h c y d p e = elim (Option-cases (m c)) [
  | inl n ↦ absurd (none-some _ (rw (◌>>=◌, n) at e))
  | inr ((x, c'), s) ↦ h x c' y d (k c x c' p s) (rw (◌>>=◌, s) at e)
]

-- What a check lets pass.
pub check-true :
    {B : Type 0} (b : Bool) (k : M B) (c d : Cache) (y : B)
    → (check b >> k) c ≡ some (y, d)
    → (b ≡ true) × (k c ≡ some (y, d))
check-true true k c d y e = (refl, e)
check-true false k c d y e = absurd (none-some _ e)

-- The other arm of a test.
pub else_run :
    {B : Type 0} (t : Bool) (m n : M B) (c : Cache) (r : Option (B × Cache))
    → t ≡ false
    → (if t then m else n) c ≡ r
    → n c ≡ r
else_run true m n c r f e = absurd (false-true (sym f))
else_run false m n c r f e = e

cache_of : {A : Type 0} → Cache → Option (A × Cache) → Cache
cache_of c none = c
cache_of c (some (x, d)) = d

-- A run has one result.
pub run-cache :
    {A : Type 0} {x y : A} {c d : Cache} {r : Option (A × Cache)}
    → r ≡ some (x, c)
    → r ≡ some (y, d)
    → c ≡ d
unfolding cache_of
run-cache {c = c} p q = ap (cache_of c) (sym p ∙ q)

-- What `item_reuse` does to the item at `a`, and to all else.
pub record Reused (a : ℕ) (c d : Cache) : Type 0 where
  pub was_linked : (c.heap a).linked ≡ true
  pub now_unlinked : (d.heap a).linked ≡ false
  pub heap_rest : (b : ℕ) → (b == a) ≡ false → d.heap b ≡ c.heap b
  pub assoc_gone : d.assoc ≡ update_assoc c.assoc (c.heap a).key none
  pub answers_kept : d.answers ≡ c.answers

abbrev cut : ℕ → M (Unit {0})
cut a = do it' ← load a; store a (record it' { linked = false }); assoc_delete a; unlink_q a

dequeued-answers : (a : ℕ) (c : Cache) → (dequeued a c).answers ≡ c.answers
dequeued-answers a c = elim (Bool-cases (is_lease_holder (c.heap a))) [
  | inl t ↦ rw t
  | inr t ↦ rw t
]

cut-run :
    (a : ℕ) (c : Cache) (b : ℕ)
    → c.assoc (c.heap a).key ≡ some b
    → cut a c ≡ some (tt, dequeued a (deleted (c.heap a).key (delinked a c)))
unfolding unlink_q
cut-run a c b e =
    let k : ((delinked a c).heap a).key ≡ (c.heap a).key = rw (==_refl a) in
    rw (◌>>◌, ◌>>=◌, assoc_delete-run a (delinked a c) (c.heap a).key b k e)

cut-Reused :
    (a : ℕ) (c : Cache)
    → (c.heap a).linked ≡ true
    → Reused a c (dequeued a (deleted (c.heap a).key (delinked a c)))
cut-Reused a c l =
    let (o, h) = dequeued-Only a (deleted (c.heap a).key (delinked a c)) in
    record {
      was_linked = l;
      now_unlinked = ap (λ f. (f a).linked) h ∙ rw (==_refl a);
      heap_rest = λ b n. ap (λ f. f b) h ∙ rw n;
      assoc_gone = o.assoc_only;
      answers_kept = dequeued-answers a (deleted (c.heap a).key (delinked a c));
    }

assoc_delete-none : (a : ℕ) (c : Cache) → c.assoc (c.heap a).key ≡ none → assoc_delete a c ≡ none
unfolding assoc_delete
assoc_delete-none a c e = rw e

-- A run that the ASSERT of `assoc_delete` does not let pass.
cut-none : (a : ℕ) (c : Cache) → c.assoc (c.heap a).key ≡ none → cut a c ≡ none
cut-none a c e =
    let e' : (delinked a c).assoc ((delinked a c).heap a).key ≡ none = rw (==_refl a) e in
    rw (◌>>◌, ◌>>=◌, assoc_delete-none a (delinked a c) e')

cut-ends :
    (a : ℕ) (c d : Cache) (x : Unit {0})
    → (c.heap a).linked ≡ true
    → cut a c ≡ some (x, d)
    → Reused a c d
cut-ends a c d x l e = elim (Option-cases (c.assoc (c.heap a).key)) [
  | inl n ↦ absurd (none-some (x, d) (sym (cut-none a c n) ∙ e))
  | inr (b, s) ↦ subst (Reused a c) (run-cache (cut-run a c b s) e) (cut-Reused a c l)
]

Reused-released : (a : ℕ) (c d : Cache) → Reused a (released a c) d → Reused a c d
Reused-released a c d r = record {
  was_linked = rw (==_refl a) at r.was_linked;
  now_unlinked = r.now_unlinked;
  heap_rest = λ b n. r.heap_rest b n ∙ rw n;
  assoc_gone = rw (==_refl a) at r.assoc_gone;
  answers_kept = r.answers_kept;
}

pub item_reuse-ends :
    (a : ℕ) (c d : Cache) (x : Unit {0}) → item_reuse a c ≡ some (x, d) → Reused a c d
unfolding item_reuse
item_reuse-ends a c d x e =
    let it = c.heap a in
    let unpinned = it.refcount == (if is_lease_holder it then 1 else 0) in
    let rest = when (is_lease_holder it) (release_refcount a) >> cut a in
    let (ok, e₁) = check-true (not it.slabbed && it.linked) (check unpinned >> rest) c d x e in
    let (counted, e₂) = check-true unpinned rest c d x e₁ in
    let l : it.linked ≡ true = &&_right (not it.slabbed) it.linked ok in
    elim (Bool-cases (is_lease_holder it)) [
      | inr t ↦ cut-ends a c d x l (rw (t, ◌>>◌) at e₂)
      | inl t ↦
          let used : ltb 0 it.refcount ≡ true = ground (arith, rw t at counted) in
          Reused-released a c d (
            cut-ends a (released a c) d x (rw (==_refl a) l)
              (rw (t, ◌>>◌, release_refcount-run a c used) at e₂))
    ]
