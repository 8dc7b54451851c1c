-- ===== src/Items/Unlink.antt =====
-- How a lease goes: `_item_unlink` and `_item_remove` of IQ-Twemcached/src/mc_items.c on an item
-- whose kind pins it.
use rejig.Items.Frame.{item_remove-counted, Ends, release_refcount-run, released}
use rejig.Items.Refcount.{
  item_remove, without, update_queue, is_pinned_kind, item_free, update_assoc, is_lease_holder,
  item_unlink, unlink_q, assoc_delete,
}
use rejig.Prelude.{
  not, arith, ◌<◌, ◌-◌, ◌&&◌, ltb, inr, inl, none, Option, ◌==◌, if◌then◌else◌, List, Bool-cases, ℕ,
  ◌≡◌, refl, true, false, some, ap, ◌∙◌, ==_refl,
}
use rejig.Items.{Item, Cache}
use rejig.Items.Monad.{update_heap, M, ◌>>=◌, ◌>>◌, load, store, when}

-- The caches differ at one item of the heap, and in the queues.
pub record Only (a : ℕ) (c d : Cache) : Type 0 where
  pub heap_only : (b : ℕ) → (b == a) ≡ false → d.heap b ≡ c.heap b
  pub assoc_only : d.assoc ≡ c.assoc
  pub settings_only : d.settings ≡ c.settings
  pub now_only : d.now ≡ c.now

pub Only-refl : (a : ℕ) (c : Cache) → Only a c c
Only-refl a c = record {
  heap_only = λ b n. refl;
  assoc_only = refl;
  settings_only = refl;
  now_only = refl;
}

pub Only-trans : {a : ℕ} {c d e : Cache} → Only a c d → Only a d e → Only a c e
Only-trans s t = record {
  heap_only = λ b n. t.heap_only b n ∙ s.heap_only b n;
  assoc_only = t.assoc_only ∙ s.assoc_only;
  settings_only = t.settings_only ∙ s.settings_only;
  now_only = t.now_only ∙ s.now_only;
}

pub store-Only :
    (a : ℕ) (it : Item) (c : Cache) → Only a c (record c { heap = update_heap c.heap a it })
store-Only a it c = record {
  heap_only = λ b n. rw n;
  assoc_only = refl;
  settings_only = refl;
  now_only = refl;
}

abbrev pub dequeued : ℕ → Cache → Cache
dequeued a c =
    let it = c.heap a in
    if is_lease_holder it
    then record c {
      reserved_lruq = update_queue c.reserved_lruq it.id (without a (c.reserved_lruq it.id));
    }
    else record c { lruq = update_queue c.lruq it.id (without a (c.lruq it.id)) }

pub dequeued-Only : (a : ℕ) (c : Cache) → Only a c (dequeued a c) × ((dequeued a c).heap ≡ c.heap)
dequeued-Only a c = elim (Bool-cases (is_lease_holder (c.heap a))) [
  | inl t ↦ rw t (
      (
        record {
          heap_only = λ b n. refl;
          assoc_only = refl;
          settings_only = refl;
          now_only = refl;
        },
        refl,
      ))
  | inr t ↦ rw t (
      (
        record {
          heap_only = λ b n. refl;
          assoc_only = refl;
          settings_only = refl;
          now_only = refl;
        },
        refl,
      ))
]

abbrev pub delinked : ℕ → Cache → Cache
delinked a c = record c { heap = update_heap c.heap a (record (c.heap a) { linked = false }) }

abbrev pub deleted : List ℕ → Cache → Cache
deleted key c = record c { assoc = update_assoc c.assoc key none }

-- `_item_unlink` from the clearing of its flag on.
abbrev pub after_unpin : ℕ → M (Unit {0})
after_unpin a = do
  it' ← load a
  store a (record it' { linked = false })
  assoc_delete a
  unlink_q a
  when (it'.refcount == 0) (item_free a)

pub assoc_delete-run :
    (a : ℕ) (c : Cache) (key : List ℕ) (b : ℕ)
    → (c.heap a).key ≡ key
    → c.assoc key ≡ some b
    → assoc_delete a c ≡ some (tt, deleted key c)
unfolding assoc_delete
assoc_delete-run a c key b k e = rw (k, e)

after_unpin-run :
    (a : ℕ) (c : Cache) (key : List ℕ) (b : ℕ)
    → (c.heap a).key ≡ key
    → c.assoc key ≡ some b
    → ((c.heap a).refcount == 0) ≡ false
    → after_unpin a c ≡ some (tt, dequeued a (deleted key (delinked a c)))
unfolding unlink_q
after_unpin-run a c key b k e used =
    let k' : ((delinked a c).heap a).key ≡ key = rw (==_refl a) k in
    rw (◌>>◌, ◌>>=◌, assoc_delete-run a (delinked a c) key b k' e, used)

item_unlink-pinned :
    (a : ℕ) (c : Cache) (r : Option (Unit {0} × Cache))
    → (c.heap a).linked ≡ true
    → is_pinned_kind (c.heap a) ≡ true
    → ltb 0 (c.heap a).refcount ≡ true
    → after_unpin a (released a c) ≡ r
    → item_unlink a c ≡ r
unfolding item_unlink
item_unlink-pinned a c r l pinned t rest = rw (l, ◌>>◌, pinned, release_refcount-run a c t) rest

-- The hash has lost the key, and the heap changed at the item `a` alone.
pub record Gone (a : ℕ) (key : List ℕ) (c d : Cache) : Type 0 where
  pub heap_rest : (b : ℕ) → (b == a) ≡ false → d.heap b ≡ c.heap b
  pub assoc_gone : d.assoc ≡ update_assoc c.assoc key none
  pub settings_kept : d.settings ≡ c.settings
  pub now_kept : d.now ≡ c.now

pub Gone-Only :
    {a : ℕ} {key : List ℕ} {c d e : Cache} → Gone a key c d → Only a d e → Gone a key c e
Gone-Only g o = record {
  heap_rest = λ b n. o.heap_only b n ∙ g.heap_rest b n;
  assoc_gone = o.assoc_only ∙ g.assoc_gone;
  settings_kept = o.settings_only ∙ g.settings_kept;
  now_kept = o.now_only ∙ g.now_kept;
}

-- An item that the hash has and that somebody beside the hash refers to.
pub record Pinned (c : Cache) (key : List ℕ) (a : ℕ) : Type 0 where
  pub indexed : c.assoc key ≡ some a
  pub own_key : (c.heap a).key ≡ key
  pub linked : (c.heap a).linked ≡ true
  pub unslabbed : (c.heap a).slabbed ≡ false
  pub pinned : is_pinned_kind (c.heap a) ≡ true
  pub shared : 1 < (c.heap a).refcount

abbrev pub unlinked_item : Item → Item
unlinked_item it = record it { refcount = it.refcount - 1; linked = false }

pub item_unlink-Gone :
    (c : Cache) (key : List ℕ) (a : ℕ)
    → Pinned c key a
    → Ends (item_unlink a) c (λ _ d. Gone a key c d × (d.heap a ≡ unlinked_item (c.heap a)))
item_unlink-Gone c key a pin =
    let c' = released a c in
    let t : ltb 0 (c.heap a).refcount ≡ true = ground (arith, pin.shared) in
    let k : (c'.heap a).key ≡ key = rw (==_refl a) pin.own_key in
    let used : ((c'.heap a).refcount == 0) ≡ false = rw (==_refl a) (ground (arith, pin.shared)) in
    let run = after_unpin-run a c' key a k pin.indexed used in
    let (o, h) = dequeued-Only a (deleted key (delinked a c')) in
    (
      tt,
      dequeued a (deleted key (delinked a c')),
      item_unlink-pinned a c _ pin.linked pin.pinned t run,
      (
        record {
          heap_rest = λ b n. ap (λ f. f b) h ∙ rw n;
          assoc_gone = o.assoc_only;
          settings_kept = o.settings_only;
          now_kept = o.now_only;
        },
        ap (λ f. f a) h ∙ rw (==_refl a),
      ),
    )

-- The end of `_item_remove2` on an unlinked item: it is free, or it stays for the others.
free_or_keep :
    (a : ℕ) (c : Cache)
    → (c.heap a).linked ≡ false
    → (c.heap a).slabbed ≡ false
    → Ends
        (load a >>= (λ it. when (it.refcount == 0 && not it.linked) (item_free a)))
        c
        (λ _ d. Only a c d)
unfolding item_free
free_or_keep a c l e = elim (Bool-cases ((c.heap a).refcount == 0)) [
  | inl t ↦ (
    tt,
    record c { heap = update_heap c.heap a (record (c.heap a) { slabbed = true }) },
    rw (t, l, l, e, t),
    store-Only a _ c,
  )
  | inr t ↦ (tt, c, rw t, Only-refl a c)
]

-- The caller's reference to an unlinked item is given back.
pub item_remove-Only :
    (a : ℕ) (c : Cache)
    → (c.heap a).linked ≡ false
    → (c.heap a).slabbed ≡ false
    → ltb 0 (c.heap a).refcount ≡ true
    → Ends (item_remove a) c (λ _ d. Only a c d)
item_remove-Only a c l e t =
    let l' : ((released a c).heap a).linked ≡ false = rw (==_refl a) l in
    let e' : ((released a c).heap a).slabbed ≡ false = rw (==_refl a) e in
    let (_, d, run, o) = free_or_keep a (released a c) l' e' in
    (tt, d, item_remove-counted a c _ e t run, Only-trans (store-Only a _ c) o)

-- Unlinking a pinned item and giving the caller's reference back takes its key out of the hash and
-- touches no other item.
pub drop-Pinned :
    {A : Type 0} (c : Cache) (key : List ℕ) (a : ℕ) (k : M A)
    → Pinned c key a
    → (d : Cache) × ((item_unlink a >> (item_remove a >> k)) c ≡ k d) × Gone a key c d
drop-Pinned c key a k pin =
    let (_, d, e, (gone, is)) = item_unlink-Gone c key a pin in
    let l : (d.heap a).linked ≡ false = ap (λ i. i.linked) is in
    let s : (d.heap a).slabbed ≡ false = ap (λ i. i.slabbed) is ∙ pin.unslabbed in
    let t : ltb 0 (d.heap a).refcount ≡ true =
      rw (ap (λ i. i.refcount) is) (ground (arith, pin.shared)) in
    let (_, d', e', o) = item_remove-Only a d l s t in (d', rw (◌>>◌, e, e'), Gone-Only gone o)
