-- ===== src/Items/Refcount.antt =====
-- Reference counts, the lru queues, and linking: the functions of IQ-Twemcached/src/mc_items.c
-- that move an item between the hash, a queue and the free items.
use rejig.Prelude.{
  ℕ, ◌+◌, ◌-◌, ◌%◌, ◌^◌, Bool, true, false, not, ◌&&◌, ◌||◌, Option, none, some, List, [], ◌∷◌,
  ◌++◌, ◌==◌, ltb, leb, key_eq, if◌then◌else◌,
}
use rejig.Items.{Item}
use rejig.Items.Monad.{M, ◌>>=◌, ◌>>◌, pure, check, state, put, load, store, when}

abbrev pub is_lease_holder : Item → Bool
is_lease_holder it = it.i_lease || it.q_inv_lease || it.q_ref_lease || it.q_inc_lease

abbrev pub has_q_lease : Item → Bool
has_q_lease it = it.q_inv_lease || it.q_ref_lease || it.q_inc_lease

abbrev pub has_co_lease : Item → Bool
has_co_lease it = it.c_lease || it.o_lease_inv || it.o_lease_ref

-- `item_acquire_refcount` and `item_set_pinned`: `refcount` is uint16_t.
unfoldable pub acquire_refcount : ℕ → M (Unit {0})
acquire_refcount a = do it ← load a; store a (record it { refcount = (it.refcount + 1) % 2 ^ 16 })

-- `item_release_refcount` and `item_unset_pinned`
unfoldable pub release_refcount : ℕ → M (Unit {0})
release_refcount a = do
  it ← load a
  check (ltb 0 it.refcount)
  store a (record it { refcount = it.refcount - 1 })

abbrev pub update_queue : (ℕ → List ℕ) → ℕ → List ℕ → ℕ → List ℕ
update_queue lruq id q j = if j == id then q else lruq j

-- `TAILQ_REMOVE`
pub without : ℕ → List ℕ → List ℕ
without a [] = []
without a (b ∷ q) = if b == a then q else b ∷ without a q

unfoldable pub link_q : ℕ → M (Unit {0})
link_q a = do
  c ← state
  it ← load a
  check (not it.slabbed)
  store a (record it { atime = c.now })
  c' ← state
  put (
      if is_lease_holder it
      then record c' {
        reserved_lruq = update_queue c'.reserved_lruq it.id (c'.reserved_lruq it.id ++ a ∷ []);
      }
      else record c' { lruq = update_queue c'.lruq it.id (c'.lruq it.id ++ a ∷ []) })

unfoldable pub unlink_q : ℕ → M (Unit {0})
unlink_q a = do
  c ← state
  it ← load a
  put (
      if is_lease_holder it
      then record c {
        reserved_lruq = update_queue c.reserved_lruq it.id (without a (c.reserved_lruq it.id));
      }
      else record c { lruq = update_queue c.lruq it.id (without a (c.lruq it.id)) })

abbrev pub update_assoc : (List ℕ → Option ℕ) → List ℕ → Option ℕ → List ℕ → Option ℕ
update_assoc assoc k a j = if key_eq k j then a else assoc j

abbrev pub is_some : Option ℕ → Bool
is_some none = false
is_some (some a) = true

-- `assoc_insert`, whose ASSERT wants the key to be absent.
unfoldable pub assoc_insert : ℕ → M (Unit {0})
assoc_insert a = do
  c ← state
  it ← load a
  check (not (is_some (c.assoc it.key)))
  put (record c { assoc = update_assoc c.assoc it.key (some a) })

-- `assoc_delete`, whose ASSERT wants the key to be there.
unfoldable pub assoc_delete : ℕ → M (Unit {0})
assoc_delete a = do
  c ← state
  it ← load a
  check (is_some (c.assoc it.key))
  put (record c { assoc = update_assoc c.assoc it.key none })

-- `item_free`: the allocator puts the item on a free queue and marks it.
unfoldable pub item_free : ℕ → M (Unit {0})
item_free a = do
  it ← load a
  check (not it.linked && not it.slabbed && it.refcount == 0)
  store a (record it { slabbed = true })

-- `item_next_cas`
unfoldable pub item_next_cas : M ℕ
item_next_cas = do
  c ← state
  let next = (c.cas_id + 1) % 2 ^ 64
  put (if c.settings.use_cas then record c { cas_id = next } else c)
  pure (if c.settings.use_cas then next else 0)

-- `item_set_cas`
unfoldable pub item_set_cas : ℕ → ℕ → M (Unit {0})
item_set_cas a cas = do it ← load a; store a (if it.cas then record it { cas_value = cas } else it)

-- `_item_link`
unfoldable pub item_link : ℕ → M (Unit {0})
item_link a = do
  it ← load a
  check (not it.linked && not it.slabbed)
  store a (record it { linked = true })
  cas ← item_next_cas
  item_set_cas a cas
  assoc_insert a
  link_q a

abbrev pub is_pinned_kind : Item → Bool
is_pinned_kind it = is_lease_holder it || has_co_lease it || it.ptrans || it.hk

-- `_item_unlink`
unfoldable pub item_unlink : ℕ → M (Unit {0})
item_unlink a = do
  it ← load a
  check it.linked
  when (is_pinned_kind it) (release_refcount a)
  it' ← load a
  store a (record it' { linked = false })
  assoc_delete a
  unlink_q a
  when (it'.refcount == 0) (item_free a)

-- `_item_remove2`, `_item_remove`
unfoldable pub item_remove : ℕ → M (Unit {0})
item_remove a = do
  it ← load a
  check (not it.slabbed)
  when (ltb 0 it.refcount) (release_refcount a)
  it' ← load a
  when (it'.refcount == 0 && not it'.linked) (item_free a)

-- `_item_replace`
unfoldable pub item_replace : ℕ → ℕ → M (Unit {0})
item_replace a nit = do item_unlink a; item_link nit

-- `item_delete`
unfoldable pub item_delete : ℕ → M (Unit {0})
item_delete a = do item_unlink a; item_remove a

abbrev pub item_update_interval : ℕ
item_update_interval = 60

-- `_item_touch`: `rel_time_t` is unsigned, so that the difference wraps.
unfoldable pub item_touch : ℕ → M (Unit {0})
item_touch a = do
  c ← state
  it ← load a
  check (not it.slabbed)
  let recent = leb ((c.now + 2 ^ 32 - item_update_interval) % 2 ^ 32) it.atime
  when (not recent && it.linked) (unlink_q a >> link_q a)
