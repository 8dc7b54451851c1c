-- ===== src/Items/Spend.antt =====
-- A lease is used up: `_item_store` for iqset with the right token, and the voiding of an I lease
-- in `item_quarantine_and_register` (IQ-Twemcached/src/mc_items.c).
use rejig.Items.Iqset.{iqset_arm}
use rejig.Items.Link.{item_link-Linked, content}
use rejig.Items.Store.{
  Req, stored, finish_store, item_store, not_stored, take_pending, Choice, choose_iqset,
}
use rejig.Items.Refcount.{update_assoc, acquire_refcount}
use rejig.Items.Unlink.{
  item_remove-Only, item_unlink-Gone, unlinked_item, drop-Pinned, Gone, Pinned,
}
use rejig.Items.Frame.{item_get-absent, Live, Ends}
use rejig.Items.Trans.{void_i_lease}
use rejig.Items.Get.{pending_key, lease_value, get_lease, lease_key, item_get}
use rejig.Prelude.{
  key_eq_iff, key_eq_refl, inl, inr, ap, key_eq, ◌||◌, length, not, Bool-cases, ltb, Option, refl,
  ◌∙◌, arith, none, true, ==_refl, some, false, List, ℕ, ◌+◌, ◌%◌, ◌^◌, ◌<◌, ◌==◌, ◌≡◌,
}
use rejig.Items.{Cache}
use rejig.Items.Monad.{◌>>◌, pure, update_heap, ◌>>=◌}

-- The I lease on a key, as the hash has it: alive, pinned, and with room for a reader's reference.
pub record Lease (c : Cache) (key : List ℕ) (l : ℕ) : Type 0 where
  pub live : Live c (lease_key key) l
  pub own_key : (c.heap l).key ≡ lease_key key
  pub is_i_lease : (c.heap l).i_lease ≡ true
  pub pinned : 0 < (c.heap l).refcount
  pub room : (c.heap l).refcount + 1 < 2 ^ 16

abbrev acquired : ℕ → Cache → Cache
acquired a c = record c {
  heap = update_heap c.heap a (record (c.heap a) { refcount = ((c.heap a).refcount + 1) % 2 ^ 16 });
}

item_get-acquired :
    (c : Cache) (key : List ℕ) (a : ℕ) → Live c key a → item_get key c ≡ some (some a, acquired a c)
unfolding item_get acquire_refcount
item_get-acquired c key a live = rw (live.found, live.alive)

acquired-Pinned :
    (c : Cache) (key : List ℕ) (l : ℕ) → Lease c key l → Pinned (acquired l c) (lease_key key) l
acquired-Pinned c key l lease = record {
  indexed = lease.live.found;
  own_key = rw (==_refl l) lease.own_key;
  linked = rw (==_refl l) lease.live.linked;
  unslabbed = rw (==_refl l) lease.live.unslabbed;
  pinned = rw (==_refl l, lease.is_i_lease);
  shared = rw (==_refl l) (omega (arith, lease.pinned, lease.room));
}

acquired-rest : (c : Cache) (l b : ℕ) → (b == l) ≡ false → (acquired l c).heap b ≡ c.heap b
acquired-rest c l b n = rw n

-- The step of a registration that looks up the I lease of a key and voids it ends; after it the
-- hash has no lease on the key, and all other keys and all other items are as they were. The
-- lease is alive, pinned, and has room for a reference.
pub void_i_lease-Gone :
    (c : Cache) (key : List ℕ) (l : ℕ)
    → Lease c key l
    → Ends (get_lease key >>= void_i_lease) c (λ r d. (r ≡ none) × Gone l (lease_key key) c d)
unfolding void_i_lease
void_i_lease-Gone c key l lease =
    let c' = acquired l c in
    let (d, run, gone) =
      drop-Pinned {A = Option ℕ} c' (lease_key key) l (pure none) (acquired-Pinned c key l lease) in
    let i : (c'.heap l).i_lease ≡ true = rw (==_refl l) lease.is_i_lease in
    (
      none,
      d,
      rw (◌>>=◌, item_get-acquired c (lease_key key) l lease.live, i) run,
      (
        refl,
        record {
          heap_rest = λ b n. gone.heap_rest b n ∙ acquired-rest c l b n;
          assoc_gone = gone.assoc_gone;
          settings_kept = gone.settings_kept;
          now_kept = gone.now_kept;
        },
      ),
    )

-- What the arm of iqset leaves for the right token.
abbrev acceptance : ℕ → ℕ → Choice
acceptance a l = record {
  result = not_stored;
  store_it = true;
  it = a;
  nit = none;
  lease_it = some l;
}

pub update_assoc-none :
    (assoc : List ℕ → Option ℕ) (k j : List ℕ) → assoc j ≡ none → update_assoc assoc k none j ≡ none
update_assoc-none assoc k j e = elim (Bool-cases (key_eq k j)) [ inl t ↦ rw t | inr t ↦ rw t e ]

take_pending-absent :
    (a : ℕ) (key : List ℕ) (c : Cache)
    → c.assoc (pending_key key) ≡ none
    → take_pending a key c ≡ some (tt, c)
unfolding take_pending
take_pending-absent a key c e = rw (◌>>=◌, item_get-absent c (pending_key key) e)

-- A stored value for the key of an item, with its lease on the key.
pub record Entitled (c : Cache) (a l token : ℕ) : Type 0 where
  pub lease : Lease c (c.heap a).key l
  pub is_token : (lease_value (c.heap l) == token) ≡ true
  pub apart : (a == l) ≡ false
  pub unmarked : c.assoc (pending_key (c.heap a).key) ≡ none
  pub full : ltb 0 (length (c.heap a).value) ≡ true

choose_iqset-accepted :
    (c : Cache) (a l token : ℕ)
    → Entitled c a l token
    → Ends (choose_iqset a token) c (λ ch d.
      (ch ≡ acceptance a l)
      × Gone l (lease_key (c.heap a).key) c d
      × (d.heap l ≡ unlinked_item ((acquired l c).heap l)))
unfolding choose_iqset lease_value
choose_iqset-accepted c a l token en =
    let key = (c.heap a).key in
    let c' = acquired l c in
    let (_, d, gone_l, (gone, is)) =
      item_unlink-Gone c' (lease_key key) l (acquired-Pinned c key l en.lease) in
    let right : (not (c'.heap l).i_lease || not (lease_value (c'.heap l) == token)) ≡ false =
      rw (==_refl l, en.lease.is_i_lease, en.is_token) in
    let unmarked : d.assoc (pending_key key) ≡ none =
      ap (λ f. f (pending_key key)) gone.assoc_gone
      ∙ update_assoc-none c.assoc (lease_key key) (pending_key key) en.unmarked in
    (
      acceptance a l,
      d,
      rw (
        ◌>>=◌,
        item_get-acquired c (lease_key key) l en.lease.live,
        right,
        ◌>>◌,
        gone_l,
        en.full,
        take_pending-absent a key d unmarked,
        en.full,
      ),
      (
        refl,
        record {
          heap_rest = λ b n. gone.heap_rest b n ∙ acquired-rest c l b n;
          assoc_gone = gone.assoc_gone;
          settings_kept = gone.settings_kept;
          now_kept = gone.now_kept;
        },
        is,
      ),
    )

-- From the switches to the return, for the right token: the item is linked, the lease given back.
finish_store-accepted :
    (c : Cache) (a l : ℕ) (key : List ℕ)
    → (c.heap a).key ≡ key
    → (c.heap a).linked ≡ false
    → (c.heap a).slabbed ≡ false
    → c.assoc key ≡ none
    → (a == l) ≡ false
    → (l == a) ≡ false
    → (c.heap l).linked ≡ false
    → (c.heap l).slabbed ≡ false
    → ltb 0 (c.heap l).refcount ≡ true
    → Ends (finish_store none (acceptance a l)) c (λ r d.
      (r ≡ stored)
      × (d.assoc ≡ update_assoc c.assoc key (some a))
      × (content (d.heap a) ≡ content (record (c.heap a) { linked = true })))
unfolding finish_store
finish_store-accepted c a l key k fresh unslabbed absent a_l l_a gone unslabbed_l used =
    let (_, d, e, link) = item_link-Linked a c key k fresh unslabbed absent in
    let at_l = link.heap_rest l l_a in
    let (_, d', e', o) =
      item_remove-Only l d (ap (λ i. i.linked) at_l ∙ gone) (ap (λ i. i.slabbed) at_l ∙ unslabbed_l)
        (rw (ap (λ i. i.refcount) at_l) used) in
    (
      stored,
      d',
      rw (◌>>◌, e, e'),
      (
        refl,
        o.assoc_only ∙ link.assoc_linked,
        ap content (o.heap_only a a_l) ∙ link.content_linked,
      ),
    )

key_eq-lease_key : (key : List ℕ) → key_eq key (lease_key key) ≡ false
key_eq-lease_key key = elim (Bool-cases (key_eq key (lease_key key))) [
  | inr n ↦ n
  | inl t ↦
      let p : key ≡ lease_key key = (key_eq_iff key (lease_key key)).0 t in
      absurd (omega (arith, ap length p))
]

pub update_assoc-key :
    (assoc : List ℕ → Option ℕ) (key : List ℕ) (a : Option ℕ) → update_assoc assoc key a key ≡ a
update_assoc-key assoc key a = rw (key_eq_refl key)

-- An iqset of a new item, not empty, with the token of the I lease on its key, which has no value
-- and no pending mark yet, ends and stores: the hash has the item under the key, with its bytes
-- as they were, and the lease is used up. The lease is alive, pinned, and has room for a
-- reference.
pub item_store-accepted :
    (c : Cache) (a l token : ℕ)
    → Entitled c a l token
    → (c.heap a).linked ≡ false
    → (c.heap a).slabbed ≡ false
    → c.assoc (c.heap a).key ≡ none
    → Ends (item_store a Req.iqset token) c (λ r d.
      (r ≡ stored)
      × (d.assoc (c.heap a).key ≡ some a)
      × (d.assoc (lease_key (c.heap a).key) ≡ none)
      × (content (d.heap a) ≡ content (record (c.heap a) { linked = true })))
unfolding item_store
item_store-accepted c a l token en fresh unslabbed absent =
    let key = (c.heap a).key in
    let lease = en.lease in
    let full : (length (c.heap a).value == 0) ≡ false = ground (arith, en.full) in
    let (ch, d, chosen, (accepted, gone, is)) = choose_iqset-accepted c a l token en in
    let at_a = gone.heap_rest a en.apart in
    let l_a : (l == a) ≡ false = ground (arith, en.apart) in
    let empty : d.assoc key ≡ none =
      ap (λ f. f key) gone.assoc_gone ∙ update_assoc-none c.assoc (lease_key key) key absent in
    let used : ltb 0 (d.heap l).refcount ≡ true =
      rw (ap (λ i. i.refcount) is, ==_refl l) (ground (arith, lease.pinned, lease.room)) in
    let unslabbed_l : (d.heap l).slabbed ≡ false =
      rw (ap (λ i. i.slabbed) is, ==_refl l) lease.live.unslabbed in
    let (r, d', e, (is_stored, index, same)) =
      finish_store-accepted d a l key (ap (λ i. i.key) at_a) (ap (λ i. i.linked) at_a ∙ fresh)
        (ap (λ i. i.slabbed) at_a ∙ unslabbed) empty en.apart l_a (ap (λ i. i.linked) is)
        unslabbed_l used in
    (
      r,
      d',
      rw (full, ◌>>=◌, item_get-absent c key absent, iqset_arm a token none, chosen, accepted) e,
      (
        is_stored,
        ap (λ f. f key) index ∙ update_assoc-key d.assoc key (some a),
        ap (λ f. f (lease_key key)) index
            ∙ rw (key_eq-lease_key key) (
                ap (λ f. f (lease_key key)) gone.assoc_gone
                ∙ update_assoc-key c.assoc (lease_key key) none),
        same ∙ ap (λ i. content (record i { linked = true })) at_a,
      ),
    )
