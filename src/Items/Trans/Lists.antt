-- ===== src/Items/Trans/Lists.antt =====
-- The items whose values are key lists: the keys of a transaction under its tid, and the
-- transactions that hold a Q lease for invalidation under the lease key
-- (IQ-Twemcached/src/mc_items.c).
use rejig.Prelude.{
  ℕ, ◌+◌, ◌-◌, Bool, true, false, not, Option, none, some, List, [], ◌==◌, length, if◌then◌else◌,
}
use rejig.Keylist
use rejig.Keylist.{check_keylist, addkey, rmvkey, new_keylist_size, narrow}
use rejig.Items.{Item}
use rejig.Items.Monad.{M, ◌>>=◌, ◌>>◌, pure, fault, load, store, when, whenever, deref}
use rejig.Items.Refcount.{
  is_some, has_q_lease, has_co_lease, release_refcount, item_unlink, item_remove,
}
use rejig.Items.Get.{lease_key, create_reserved_item}
use rejig.Items.Store.{item_store, Req}

-- The value of an item, or nothing where there is no item: `NULL, 0`.
abbrev pub list_of : Option ℕ → M (List ℕ)
list_of none = pure []
list_of (some a) = do it ← load a; pure it.value

-- `trig_check_keylist(…) == TRIG_NOTFOUND`; a list that runs past its end is a fault.
unfoldable pub lacks : List ℕ → List ℕ → M Bool
lacks list key = elim (check_keylist list (narrow key)) [
  | none ↦ fault
  | some Keylist.not_found ↦ pure true
  | some Keylist.ok ↦ pure false
  | some Keylist.queued ↦ pure false
  | some Keylist.error ↦ pure false
]

-- `trig_keylist_addkey` into the data of a new item.
unfoldable pub add_to_item : ℕ → List ℕ → List ℕ → M (Unit {0})
add_to_item a old key = do
  it ← load a
  elim (addkey it.value 0 old (narrow key)) [
    | none ↦ fault
    | some w ↦ store a (record it { value = w.dest })
  ]

-- `item_set_sess`
unfoldable pub set_sess : ℕ → M (Unit {0})
set_sess a = do it ← load a; store a (record it { sess = true })

-- `item_set_q_inv_lease`
unfoldable pub set_q_inv_lease : ℕ → M (Unit {0})
set_q_inv_lease a = do it ← load a; store a (record it { q_inv_lease = true })

-- `_item_assoc_key_tid`
unfoldable pub assoc_key_tid : Option ℕ → List ℕ → List ℕ → M (Unit {0})
assoc_key_tid trans_it key tid = do
  old ← list_of trans_it
  absent ← (if is_some trans_it then lacks old key else pure true)
  when absent (do
    created ← create_reserved_item tid (length old + new_keylist_size (narrow key))
    new_trans_it ← deref created
    set_sess new_trans_it
    add_to_item new_trans_it old key
    whenever trans_it release_refcount
    _ ← item_store new_trans_it Req.set 0
    item_remove new_trans_it)

-- `_item_assoc_tid_lease`
unfoldable pub assoc_tid_lease : Option ℕ → List ℕ → List ℕ → M (Unit {0})
assoc_tid_lease lease_it key tid = do
  old ← list_of lease_it
  absent ← (if is_some lease_it then lacks old tid else pure true)
  when absent (do
    created ← create_reserved_item (lease_key key) (length old + new_keylist_size (narrow tid))
    new_lease_it ← deref created
    set_q_inv_lease new_lease_it
    add_to_item new_lease_it old tid
    _ ← item_store new_lease_it Req.set 0
    item_remove new_lease_it)

-- The flags that the shortened list takes from the old one.
unfoldable pub copy_lease_flags : Item → ℕ → M (Unit {0})
copy_lease_flags it a = do
  new ← load a
  store a (
      if has_co_lease it
      then record new {
        c_lease = it.c_lease;
        o_lease_inv = it.o_lease_inv;
        o_lease_ref = it.o_lease_ref;
        ptrans = it.ptrans;
        hk = it.hk;
        sess = it.sess;
      }
      else (if has_q_lease it then record new { q_inv_lease = true } else new))

-- `trig_keylist_rmvkey` into the data of a new item.
unfoldable pub remove_to_item : ℕ → List ℕ → List ℕ → M (Unit {0})
remove_to_item a old key = do
  it ← load a
  elim (rmvkey it.value 0 old (narrow key)) [
    | none ↦ fault
    | some w ↦ store a (record it { value = w.dest })
  ]

-- `_item_remove_entry_from_list`
unfoldable pub remove_entry_from_list : Option ℕ → List ℕ → List ℕ → M (Unit {0})
remove_entry_from_list none key entry_id = pure tt
remove_entry_from_list (some a) key entry_id = do
  it ← load a
  absent ← lacks it.value entry_id
  when (not absent) (
      if length it.value == new_keylist_size (narrow entry_id) then item_unlink a else (do
        created ← create_reserved_item key (length it.value - new_keylist_size (narrow entry_id))
        new_it ← deref created
        copy_lease_flags it new_it
        remove_to_item new_it it.value entry_id
        _ ← item_store new_it Req.set 0
        item_remove new_it))

-- `_item_remove_tid_lease`
abbrev pub remove_tid_lease : Option ℕ → List ℕ → List ℕ → M (Unit {0})
remove_tid_lease lease_it key tid = remove_entry_from_list lease_it (lease_key key) tid
