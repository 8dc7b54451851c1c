-- ===== src/Items/Coherent.antt =====
-- The hash and the items agree, in every cache of IQ-Twemcached/src/mc_items.c: the invariant, and
-- how runs keep it. The lemmas on the operations are in the child modules.
pub mod Hash
pub mod Linking
pub mod Allocating
pub mod Storing
pub mod Leasing
pub mod Listing
pub mod Finishing
pub mod Updating
pub mod Counting
pub mod Sessions
pub mod Reading
pub mod Writing
pub mod Ending
pub mod Marking
pub mod Reached
pub mod Lookup
pub mod Tests
use mathlib.Core.Path.{subst}
use rejig.Prelude.{
  false-true, none-some, not, ℕ, List, Option, some, none, Bool, true, false, if◌then◌else◌, ◌≡◌,
  inl, inr, Option-cases, refl, Bool-cases, ◌==◌, sym, ap, ◌∙◌, ==_iff,
}
use rejig.Items.{Answer, Settings, Item, Cache}
use rejig.Items.Monad.{
  M, ◌>>=◌, ◌>>◌, pure, fault, check, state, load, store, when, whenever, deref, update_heap,
}
use rejig.Items.Pins.{check-true, run-cache}

-- The hash has a key where a linked item has it, and no two linked items have one key.
pub record Coheres (heap : ℕ → Item) (assoc : List ℕ → Option ℕ) : Type 0 where
  pub indexed :
      (k : List ℕ) (a : ℕ) → assoc k ≡ some a → ((heap a).linked ≡ true) × ((heap a).key ≡ k)
  pub owned : (a : ℕ) → (heap a).linked ≡ true → assoc (heap a).key ≡ some a
  pub unslabbed : (a : ℕ) → (heap a).linked ≡ true → (heap a).slabbed ≡ false

unfoldable pub Coherent : Cache → Type 0
Coherent c = Coheres c.heap c.assoc

-- Where a run ends, if it ends, the invariant holds.
pub record Good {A : Type 0} (r : Option (A × Cache)) : Type 0 where
  pub good : (x : A) (d : Cache) → r ≡ some (x, d) → Coherent d

-- A run that ends keeps the invariant.
pub record Keep {A : Type 0} (m : M A) : Type 0 where
  pub call : (c : Cache) → Coherent c → Good (m c)

-- The end of a run.
pub ended : {A : Type 0} {x : A} {c : Cache} → Coherent c → Good (some (x, c))
ended p = record { good = λ y d e. subst Coherent (run-cache refl e) p }

pub failed : {A : Type 0} → Good {A = A} none
failed = record { good = λ y d e. absurd (none-some _ e) }

pub bind : {A B : Type 0} {m : M A} {f : A → M B} → Keep m → ((x : A) → Keep (f x)) → Keep (m >>= f)
bind {m = m} {f = f} k h = record {
  call = λ c p. elim (Option-cases (m c)) [
    | inl n ↦ rw (◌>>=◌, n) failed
    | inr ((x, d), s) ↦ rw (◌>>=◌, s) ((h x).call d ((k.call c p).good x d s))
  ];
}

pub next : {B : Type 0} {m : M (Unit {0})} {n : M B} → Keep m → Keep n → Keep (m >> n)
next {m = m} {n = n} k h = record {
  call = λ c p. elim (Option-cases (m c)) [
    | inl n ↦ rw (◌>>◌, n) failed
    | inr ((x, d), s) ↦ rw (◌>>◌, s) (h.call d ((k.call c p).good x d s))
  ];
}

pub pure-Keep : {A : Type 0} (x : A) → Keep (pure x)
pure-Keep x = record { call = λ c p. ended p }

pub fault-Keep : {A : Type 0} → Keep {A = A} fault
fault-Keep = record { call = λ c p. failed }

pub load-Keep : (a : ℕ) → Keep (load a)
load-Keep a = record { call = λ c p. ended p }

pub state-Keep : Keep state
state-Keep = record { call = λ c p. ended p }

pub check-Keep : (b : Bool) → Keep (check b)
check-Keep true = pure-Keep tt
check-Keep false = fault-Keep

pub when-Keep : (b : Bool) {m : M (Unit {0})} → Keep m → Keep (when b m)
when-Keep true k = k
when-Keep false k = pure-Keep tt

pub if-Keep : {A : Type 0} (b : Bool) {m n : M A} → Keep m → Keep n → Keep (if b then m else n)
if-Keep true k h = k
if-Keep false k h = h

pub whenever-Keep :
    (o : Option ℕ) {f : ℕ → M (Unit {0})} → ((a : ℕ) → Keep (f a)) → Keep (whenever o f)
whenever-Keep none k = pure-Keep tt
whenever-Keep (some a) k = k a

-- The two arms for a pointer.
abbrev pub either : {A B : Type 0} → Option A → M B → (A → M B) → M B
either o m f = elim o [ none ↦ m | some a ↦ f a ]

pub either-Keep :
    {A B : Type 0} (o : Option A) {m : M B} {f : A → M B}
    → Keep m
    → ((a : A) → Keep (f a))
    → Keep (either o m f)
either-Keep none k h = k
either-Keep (some a) k h = h a

pub deref-Keep : (o : Option ℕ) → Keep (deref o)
deref-Keep none = fault-Keep
deref-Keep (some a) = pure-Keep a

-- What a store may change of an item.
pub record Kept (it it' : Item) : Type 0 where
  pub linked : it'.linked ≡ it.linked
  pub key : it.linked ≡ true → it'.key ≡ it.key
  pub slabbed : it.linked ≡ true → it'.slabbed ≡ it.slabbed

store-Coheres :
    (heap : ℕ → Item) (assoc : List ℕ → Option ℕ) (a : ℕ) (it : Item)
    → Coheres heap assoc
    → Kept (heap a) it
    → Coheres (update_heap heap a it) assoc
store-Coheres heap assoc a it p k = record {
  indexed = λ j b e. elim (Bool-cases (b == a)) [
    | inr n ↦ rw n (p.indexed j b e)
    | inl t ↦
        let q = p.indexed j a (e ∙ ap some ((==_iff b a).0 t)) in
        rw t (k.linked ∙ q.0, k.key q.0 ∙ q.1)
  ];
  owned = λ b. elim (Bool-cases (b == a)) [
    | inr n ↦ rw n (p.owned b)
    | inl t ↦ rw t (λ e.
        let l = sym k.linked ∙ e in
        ap assoc (k.key l) ∙ p.owned a l ∙ ap some (sym ((==_iff b a).0 t)))
  ];
  unslabbed = λ b. elim (Bool-cases (b == a)) [
    | inr n ↦ rw n (p.unslabbed b)
    | inl t ↦ rw t (λ e. let l = sym k.linked ∙ e in k.slabbed l ∙ p.unslabbed a l)
  ];
}

pub kept :
    {it it' : Item}
    → it'.linked ≡ it.linked
    → it'.key ≡ it.key
    → it'.slabbed ≡ it.slabbed
    → Kept it it'
kept l k s = record { linked = l; key = λ _. k; slabbed = λ _. s }

-- An item that was not linked, and is not now.
pub free : {it it' : Item} → it.linked ≡ false → it'.linked ≡ false → Kept it it'
free u u' = record {
  linked = u' ∙ sym u;
  key = λ l. absurd (false-true (sym u ∙ l));
  slabbed = λ l. absurd (false-true (sym u ∙ l));
}

pub stored :
    (c : Cache) (a : ℕ) (it : Item)
    → Coherent c
    → Kept (c.heap a) it
    → Coherent (record c { heap = update_heap c.heap a it })
unfolding Coherent
stored c a it p k = store-Coheres c.heap c.assoc a it p k

-- A store, and what comes after it.
pub store_at :
    {B : Type 0} (c : Cache) (a : ℕ) (it : Item) {n : M B}
    → Coherent c
    → Kept (c.heap a) it
    → Keep n
    → Good ((store a it >> n) c)
store_at c a it p k h = h.call _ (stored c a it p k)
