-- ===== src/Items/Alloc.antt =====
-- How an item comes to be: `item_reuse`, `item_get_from_lruq` and `_item_alloc_config` of
-- IQ-Twemcached/src/mc_items.c. What the slab allocator of mc_slabs.c decides is the next of the
-- cache's decisions; what it does to items, eviction with its guard and headers, is done here.
use rejig.Prelude.{
  true, ℕ, zero, suc, Bool, false, not, ◌&&◌, Option, none, some, List, [], ◌∷◌, ◌==◌, ltb, leb, ℤ,
  negsuc, replicate, if◌then◌else◌,
}
use rejig.Slabs.{slab_id, item_ntotal}
use rejig.Items.{Item, Answer, Settings}
use rejig.Items.Monad.{M, ◌>>=◌, ◌>>◌, pure, fault, check, state, put, load, store, when}
use rejig.Items.Refcount.{
  is_lease_holder, acquire_refcount, release_refcount, assoc_delete, unlink_q,
}

-- `item_expired`
abbrev pub expired : ℕ → Item → Bool
expired now it = ltb 0 it.exptime && ltb it.exptime now

-- `item_reuse`
unfoldable pub item_reuse : ℕ → M (Unit {0})
item_reuse a = do
  it ← load a
  check (not it.slabbed && it.linked)
  check (it.refcount == (if is_lease_holder it then 1 else 0))
  when (is_lease_holder it) (release_refcount a)
  it' ← load a
  store a (record it' { linked = false })
  assoc_delete a
  unlink_q a

-- The loop of `item_get_from_lruq`: the first item of the queue that nobody refers to, among as
-- many as there are tries. It is taken whether it has expired or not.
unfoldable pub first_unused : ℕ → (ℕ → Item) → List ℕ → Option ℕ
first_unused zero heap q = none
first_unused (suc tries) heap [] = none
first_unused (suc tries) heap (a ∷ q) =
    let later = first_unused tries heap q in if (heap a).refcount == 0 then some a else later

abbrev pub item_lruq_max_tries : ℕ
item_lruq_max_tries = 50

unfoldable pub get_from_lruq : Bool → ℕ → M (Option ℕ)
get_from_lruq reserved id = do
  c ← state
  let q = if reserved then c.reserved_lruq id else c.lruq id
  pure (if c.settings.use_lruq then first_unused item_lruq_max_tries c.heap q else none)

-- A round of the loop of `slab_evict_one`. Where the item is not slabbed the mark stays cleared.
unfoldable pub evict_one : ℕ → M (Unit {0})
evict_one a = do
  it ← load a
  (if it.linked then item_reuse a else store a (record it { slabbed = false }))

-- `slab_evict_one`, for the items of the slab
unfoldable pub evict_items : List ℕ → M (Unit {0})
evict_items [] = pure tt
evict_items (a ∷ rest) = do evict_one a; evict_items rest

-- `slab->refcount == 0`, the guard of `slab_evict_rand` and `slab_evict_lru`: the count of a slab
-- is that of the references to its items (`slab_acquire_refcount`, `slab_release_refcount`).
unfoldable pub all_unused : (ℕ → Item) → List ℕ → Bool
all_unused heap [] = true
all_unused heap (a ∷ rest) = (heap a).refcount == 0 && all_unused heap rest

-- `item_hdr_init`, for each item of a new slab. It clears all of `flags`, and leaves `coflags`.
abbrev pub hdr_init : ℕ → Item → Item
hdr_init id it = record it {
  id = id;
  refcount = 0;
  linked = false;
  cas = false;
  slabbed = false;
  raligned = false;
  i_lease = false;
  q_inv_lease = false;
  q_ref_lease = false;
  q_inc_lease = false;
}

unfoldable pub init_items : ℕ → List ℕ → M (Unit {0})
init_items id [] = pure tt
init_items id (a ∷ rest) = do it ← load a; store a (hdr_init id it); init_items id rest

-- An answer of the allocator carried out: `slab_get_item`, `slab_get_reserved_item`, and the two
-- that evict a slab. The next item of a slab that was carved before is the answer with no items to
-- carve.
unfoldable pub carry_out : ℕ → Answer → M (Option ℕ)
carry_out id Answer.refused = pure none
carry_out id (Answer.free_item a) = do
  it ← load a
  store a (record it { slabbed = false })
  pure (some a)
carry_out id (Answer.carved evicted items a) = do
  c ← state
  (if all_unused c.heap evicted
      then (evict_items evicted >> (init_items id items >> pure (some a)))
      else pure none)

-- The allocator decides from the items as they are.
unfoldable pub slab_get : ℕ → M (Option ℕ)
slab_get id = do
  c ← state
  elim c.answers [
    | [] ↦ pure none
    | f ∷ rest ↦ do put (record c { answers = rest }); carry_out id (f.decide c.heap)
  ]

-- What `_item_alloc_config` writes at its label `done`. The value is not yet written.
abbrev pub fresh_item : Settings → Item → List ℕ → ℕ → ℕ → ℕ → ℤ → Item
fresh_item settings it key dataflags exptime nbyte config_num = record it {
  key = key;
  value = replicate nbyte 0;
  exptime = exptime;
  dataflags = dataflags;
  linked = false;
  cas = settings.use_cas;
  slabbed = false;
  raligned = false;
  i_lease = false;
  q_inv_lease = false;
  q_ref_lease = false;
  q_inc_lease = false;
  c_lease = false;
  o_lease_inv = false;
  o_lease_ref = false;
  ptrans = false;
  hk = false;
  sess = false;
  p = 0;
  aborted = false;
  config_number = config_num;
}

-- From the label `done`, with its ASSERTs.
unfoldable pub finish_alloc : ℕ → ℕ → List ℕ → ℕ → ℕ → ℕ → ℤ → M (Option ℕ)
finish_alloc a id key dataflags exptime nbyte config_num = do
  c ← state
  it ← load a
  check (it.id == id && not it.linked && not it.slabbed && it.refcount == 0)
  acquire_refcount a
  it' ← load a
  store a (fresh_item c.settings it' key dataflags exptime nbyte config_num)
  pure (some a)

-- Steps 2) to 4) of `_item_alloc_config`, with the least recently used item that may be reused.
unfoldable pub take_slot : ℕ → Option ℕ → M (Option ℕ)
take_slot id uit = do
  c ← state
  slot ← slab_get id
  elim slot [
    | some a ↦ pure (some a)
    | none ↦ elim uit [
      | some a ↦ do item_reuse a; pure (some a)
      | none ↦ if c.settings.evict_any then slab_get id else pure none
    ]
  ]

-- `_item_alloc_config`
unfoldable pub item_alloc_config : Bool → ℕ → List ℕ → ℕ → ℕ → ℕ → ℤ → M (Option ℕ)
item_alloc_config reserved id key dataflags exptime nbyte config_num = do
  c ← state
  check (leb 1 id && leb id 254)
  found ← get_from_lruq reserved id
  slot ← elim found [
    | none ↦ take_slot id none
    | some a ↦ do
      it ← load a
      (if expired c.now it
          then (item_reuse a >> pure (some a))
          else take_slot id (if c.settings.evict_lru then some a else none))
  ]
  elim slot [ none ↦ pure none | some a ↦ finish_alloc a id key dataflags exptime nbyte config_num ]

-- `_item_alloc`
abbrev pub item_alloc : Bool → ℕ → List ℕ → ℕ → ℕ → ℕ → M (Option ℕ)
item_alloc reserved id key dataflags exptime nbyte =
    item_alloc_config reserved id key dataflags exptime nbyte (negsuc 0)

-- `item_slabid`
unfoldable pub item_slabid : ℕ → ℕ → M ℕ
item_slabid nkey nbyte = do
  c ← state
  let size = item_ntotal c.settings.item_hdr_size nkey nbyte c.settings.use_cas
  elim (slab_id c.settings.profile c.settings.profile_last_id size) [
    | none ↦ fault
    | some id ↦ pure id
  ]
