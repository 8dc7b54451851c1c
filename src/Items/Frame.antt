-- ===== src/Items/Frame.antt =====
-- Runs that only count references and set pending marks: what the readers of
-- IQ-Twemcached/src/mc_items.c may change of a cache.
use rejig.Prelude.{
  Option, ◌&&◌, not, Bool-cases, ==_iff, inl, inr, ◌∙◌, ap, sym, ltb, ==_refl, &&_false, ◌-◌, ℕ,
  ◌≡◌, refl, true, false, none, some, List, ◌==◌,
}
use rejig.Items.{Item, Cache}
use rejig.Items.Monad.{whenever, when, ◌>>=◌, load, M, ◌>>◌, update_heap}
use rejig.Items.Refcount.{acquire_refcount, release_refcount, item_remove, item_free}
use rejig.Items.Get.{item_get, is_dead}
use rejig.Items.Iqget.{set_pending}

-- An item without its reference count and its pending mark.
unfoldable pub bare : Item → Item
bare it = record it { refcount = 0; p = 0 }

-- The caches agree on all but reference counts and pending marks.
pub record Same (c d : Cache) : Type 0 where
  pub heap_same : (b : ℕ) → bare (d.heap b) ≡ bare (c.heap b)
  pub assoc_same : d.assoc ≡ c.assoc
  pub lruq_same : d.lruq ≡ c.lruq
  pub reserved_same : d.reserved_lruq ≡ c.reserved_lruq
  pub settings_same : d.settings ≡ c.settings
  pub now_same : d.now ≡ c.now
  pub token_same : d.lease_current_token ≡ c.lease_current_token
  pub cas_same : d.cas_id ≡ c.cas_id
  pub answers_same : d.answers ≡ c.answers

pub Same-refl : (c : Cache) → Same c c
Same-refl c = record {
  heap_same = λ b. refl;
  assoc_same = refl;
  lruq_same = refl;
  reserved_same = refl;
  settings_same = refl;
  now_same = refl;
  token_same = refl;
  cas_same = refl;
  answers_same = refl;
}

pub Same-trans : {c d e : Cache} → Same c d → Same d e → Same c e
Same-trans s t = record {
  heap_same = λ b. t.heap_same b ∙ s.heap_same b;
  assoc_same = t.assoc_same ∙ s.assoc_same;
  lruq_same = t.lruq_same ∙ s.lruq_same;
  reserved_same = t.reserved_same ∙ s.reserved_same;
  settings_same = t.settings_same ∙ s.settings_same;
  now_same = t.now_same ∙ s.now_same;
  token_same = t.token_same ∙ s.token_same;
  cas_same = t.cas_same ∙ s.cas_same;
  answers_same = t.answers_same ∙ s.answers_same;
}

-- The run ends, without a fault, in such a result and cache.
abbrev pub Ends : {A : Type 0} → M A → Cache → (A → Cache → Type 0) → Type 0
Ends {A} m c P = (x : A) × (d : Cache) × (m c ≡ some (x, d)) × P x d

update_heap-bare :
    (heap : ℕ → Item) (a : ℕ) (it : Item) (b : ℕ)
    → bare it ≡ bare (heap a)
    → bare (update_heap heap a it b) ≡ bare (heap b)
update_heap-bare heap a it b e = elim (Bool-cases (b == a)) [
  | inr t ↦ rw t
  | inl t ↦ rw t (e ∙ ap (λ i. bare (heap i)) (sym ((==_iff b a).0 t)))
]

store-Same :
    (a : ℕ) (it : Item) (c : Cache)
    → bare it ≡ bare (c.heap a)
    → Same c (record c { heap = update_heap c.heap a it })
store-Same a it c e = record {
  heap_same = λ b. update_heap-bare c.heap a it b e;
  assoc_same = refl;
  lruq_same = refl;
  reserved_same = refl;
  settings_same = refl;
  now_same = refl;
  token_same = refl;
  cas_same = refl;
  answers_same = refl;
}

pub acquire_refcount-Same : (a : ℕ) (c : Cache) → Ends (acquire_refcount a) c (λ _ d. Same c d)
unfolding acquire_refcount bare
acquire_refcount-Same a c = (tt, _, refl, store-Same a _ c refl)

pub set_pending-Same : (a n : ℕ) (c : Cache) → Ends (set_pending a n) c (λ _ d. Same c d)
unfolding set_pending bare
set_pending-Same a n c = (tt, _, refl, store-Same a _ c refl)

-- The hash has the item under the key, and readers see it.
pub record Live (c : Cache) (key : List ℕ) (a : ℕ) : Type 0 where
  pub found : c.assoc key ≡ some a
  pub alive : is_dead c (c.heap a) ≡ false
  pub linked : (c.heap a).linked ≡ true
  pub unslabbed : (c.heap a).slabbed ≡ false

pub item_get-Live :
    (c : Cache) (key : List ℕ) (a : ℕ)
    → Live c key a
    → Ends (item_get key) c (λ r d. (r ≡ some a) × Same c d)
unfolding item_get
item_get-Live c key a live =
    let (_, d, e, s) = acquire_refcount-Same a c in
    (some a, d, rw (live.found, live.alive, ◌>>◌, e), (refl, s))

pub item_get-absent :
    (c : Cache) (key : List ℕ) → c.assoc key ≡ none → item_get key c ≡ some (none, c)
unfolding item_get
item_get-absent c key e = rw e

abbrev pub released : ℕ → Cache → Cache
released a c = record c {
  heap = update_heap c.heap a (record (c.heap a) { refcount = (c.heap a).refcount - 1 });
}

pub release_refcount-run :
    (a : ℕ) (c : Cache)
    → ltb 0 (c.heap a).refcount ≡ true
    → release_refcount a c ≡ some (tt, released a c)
unfolding release_refcount
release_refcount-run a c t = rw t

stays_linked :
    (a : ℕ) (c : Cache)
    → (c.heap a).linked ≡ true
    → (load a >>= (λ it. when (it.refcount == 0 && not it.linked) (item_free a))) c ≡ some (tt, c)
stays_linked a c e = rw (e, &&_false)

pub item_remove-counted :
    (a : ℕ) (c : Cache) (r : Option (Unit {0} × Cache))
    → (c.heap a).slabbed ≡ false
    → ltb 0 (c.heap a).refcount ≡ true
    → (load a >>= (λ it. when (it.refcount == 0 && not it.linked) (item_free a))) (released a c) ≡ r
    → item_remove a c ≡ r
unfolding item_remove
item_remove-counted a c r e t rest = rw (e, ◌>>◌, t, release_refcount-run a c t) rest

pub item_remove-Same :
    (c : Cache) (key : List ℕ) (a : ℕ) → Live c key a → Ends (item_remove a) c (λ _ d. Same c d)
unfolding item_remove bare
item_remove-Same c key a live = elim (Bool-cases (ltb 0 (c.heap a).refcount)) [
  | inr t ↦ (tt, c, rw (live.unslabbed, t, live.linked, &&_false), Same-refl c)
  | inl t ↦
      let l : ((released a c).heap a).linked ≡ true = rw (==_refl a) live.linked in
      (
        tt,
        released a c,
        item_remove-counted a c _ live.unslabbed t (stays_linked a (released a c) l),
        store-Same a (record (c.heap a) { refcount = (c.heap a).refcount - 1 }) c refl,
      )
]

module _ {c d : Cache} (s : Same c d) (b : ℕ) where
  pub linked-Same : (d.heap b).linked ≡ (c.heap b).linked
  unfolding bare
  linked-Same = ap (λ i. i.linked) (s.heap_same b)

  pub slabbed-Same : (d.heap b).slabbed ≡ (c.heap b).slabbed
  unfolding bare
  slabbed-Same = ap (λ i. i.slabbed) (s.heap_same b)

  pub key-Same : (d.heap b).key ≡ (c.heap b).key
  unfolding bare
  key-Same = ap (λ i. i.key) (s.heap_same b)

  pub i_lease-Same : (d.heap b).i_lease ≡ (c.heap b).i_lease
  unfolding bare
  i_lease-Same = ap (λ i. i.i_lease) (s.heap_same b)

  pub value-Same : (d.heap b).value ≡ (c.heap b).value
  unfolding bare
  value-Same = ap (λ i. i.value) (s.heap_same b)

  exptime-Same : (d.heap b).exptime ≡ (c.heap b).exptime
  unfolding bare
  exptime-Same = ap (λ i. i.exptime) (s.heap_same b)

  atime-Same : (d.heap b).atime ≡ (c.heap b).atime
  unfolding bare
  atime-Same = ap (λ i. i.atime) (s.heap_same b)

  pub Live-Same : (key : List ℕ) → Live c key b → Live d key b
  Live-Same key live = record {
    found = ap (λ f. f key) s.assoc_same ∙ live.found;
    alive = rw (s.now_same, s.settings_same, exptime-Same, atime-Same) live.alive;
    linked = linked-Same ∙ live.linked;
    unslabbed = slabbed-Same ∙ live.unslabbed;
  }

-- What a lookup found is still there.
pub data Held (c : Cache) : Option ℕ → Type 0 where
  nothing : Held c none
  one : (key : List ℕ) (a : ℕ) → Live c key a → Held c (some a)

pub Held-Same : {c d : Cache} (r : Option ℕ) → Same c d → Held c r → Held d r
Held-Same r s nothing = nothing
Held-Same r s (one key a live) = one key a (Live-Same s a key live)

pub drop-Held :
    (c : Cache) (r : Option ℕ) → Held c r → Ends (whenever r item_remove) c (λ _ d. Same c d)
drop-Held c r nothing = (tt, c, refl, Same-refl c)
drop-Held c r (one key a live) = item_remove-Same c key a live

-- Readers find the key's item, or the hash has none.
pub data Settled (c : Cache) (key : List ℕ) : Type 0 where
  absent : c.assoc key ≡ none → Settled c key
  present : (a : ℕ) → Live c key a → Settled c key

pub item_get-Settled :
    (c : Cache) (key : List ℕ) → Settled c key → Ends (item_get key) c (λ r d. Held d r × Same c d)
item_get-Settled c key (absent e) = (none, c, item_get-absent c key e, (nothing, Same-refl c))
item_get-Settled c key (present a live) =
    let (r, d, e, (is_a, s)) = item_get-Live c key a live in
    (some a, d, rw (← is_a) e, (one key a (Live-Same s a key live), s))
