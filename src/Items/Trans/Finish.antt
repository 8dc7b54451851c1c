-- ===== src/Items/Trans/Finish.antt =====
-- How a transaction ends: `item_delete_and_release`, `item_commit` and `item_release` of
-- IQ-Twemcached/src/mc_items.c. The keys are those that the list of the transaction's item holds
-- when the walk begins; the item is referred to throughout, and nobody writes its bytes.
use rejig.Prelude.{
  ◌==◌, not, List, [], ◌∷◌, ℤ, Bool, true, false, Option, none, some, ℕ, ◌||◌, length,
  if◌then◌else◌, ◌%◌, ◌^◌,
}
use rejig.Keylist.{Key}
use rejig.Keylist.Cursor.{keys_of}
use rejig.Items.Monad.{M, ◌>>=◌, ◌>>◌, pure, fault, check, load, when, whenever, deref}
use rejig.Items.Refcount.{is_some, has_q_lease, release_refcount, item_unlink, item_remove}
use rejig.Items.Alloc.{item_alloc_config, item_slabid}
use rejig.Items.Get.{item_get, get_lease, get_pending, get_pending_version, pending_key, copy_data}
use rejig.Items.Store.{item_store, Req}
use rejig.Items.Iqget.{IqResult, ok, not_found, set_pending}
use rejig.Items.Trans.{drop_item}
use rejig.Items.Trans.Lists.{remove_tid_lease}

-- The loop over the keys of a list.
unfoldable pub for_each : List Key → (Key → M (Unit {0})) → M (Unit {0})
for_each [] body = pure tt
for_each (key ∷ rest) body = body key >> for_each rest body

unfoldable pub for_keys : ℕ → (Key → M (Unit {0})) → M (Unit {0})
for_keys a body = do
  it ← load a
  elim (keys_of it.value) [ none ↦ fault | some keys ↦ for_each keys body ]

-- The transaction's item goes, with its pin.
unfoldable pub end_trans : ℕ → M (Unit {0})
end_trans t = do release_refcount t; item_unlink t; item_remove t

-- One round of the loop of `item_delete_and_release`.
unfoldable pub delete_key : List ℕ → Key → M (Unit {0})
delete_key tid key = do
  it ← item_get key
  drop_item it
  lease_it ← get_lease key
  whenever lease_it (λ l. do
    li ← load l
    (if li.q_inv_lease
        then (remove_tid_lease (some l) key tid >> item_remove l)
        else (item_unlink l >> item_remove l)))

-- `item_delete_and_release`; `false` is MC_INVALID.
unfoldable pub delete_and_release : List ℕ → M Bool
delete_and_release tid = do
  trans_it ← item_get tid
  elim trans_it [
    | none ↦ pure false
    | some t ↦ do
      for_keys t (delete_key tid)
      item_unlink t
      release_refcount t
      item_remove t
      pure true
  ]

-- `ASSERT(pv_it == NULL)`
abbrev pub no_version : Option ℕ → M (Unit {0})
no_version pv_it = check (not (is_some pv_it))

-- The pending version becomes the value of the key.
unfoldable pub apply_version : Key → ℕ → ℕ → ℤ → M (Unit {0})
apply_version key pv pending server_cfg_id = do
  pi ← load pv
  id ← item_slabid (length key) (length pi.value)
  created ← item_alloc_config false id key pi.dataflags 0 (length pi.value) server_cfg_id
  new_it ← deref created
  pi' ← load pv
  copy_data new_it pi'.value
  set_pending new_it (pending % 2 ^ 8)
  _ ← item_store new_it Req.set 0
  item_remove new_it

-- The pending item of a key that has no value, after a commit.
unfoldable pub settle_pending : Key → Option ℕ → ℕ → ℤ → M (Unit {0})
settle_pending key none pending server_cfg_id = when (pending == 1) (do
  id ← item_slabid (length (pending_key key)) 1
  created ← item_alloc_config false id (pending_key key) 0 0 1 server_cfg_id
  pd ← deref created
  _ ← item_store pd Req.set 0
  item_remove pd)
settle_pending key (some pd) pending server_cfg_id = do
  when (pending == 0) (item_unlink pd)
  item_remove pd

-- From the test for a pending version to the end of a round of `item_commit`.
unfoldable pub commit_value : Key → ℕ → Option ℕ → ℕ → ℤ → M (Unit {0})
commit_value key l pv_it pending server_cfg_id = do
  whenever pv_it (λ pv. apply_version key pv pending server_cfg_id)
  it ← item_get key
  li ← load l
  whenever it (λ a. when (not (is_some pv_it) || li.q_inv_lease) (item_unlink a))
  pending_it ← get_pending key
  (if is_some it then drop_item pending_it else settle_pending key pending_it pending server_cfg_id)
  whenever it item_remove
  drop_item pv_it

-- One round of the loop of `item_commit`.
unfoldable pub commit_key : List ℕ → ℕ → ℤ → Key → M (Unit {0})
commit_key tid pending server_cfg_id key = do
  lease_it ← get_lease key
  pv_it ← get_pending_version key
  elim lease_it [
    | none ↦ no_version pv_it
    | some l ↦ do
      li ← load l
      (if not (has_q_lease li) then (no_version pv_it >> item_remove l) else (do
        (if li.q_inv_lease
            then (no_version pv_it >> remove_tid_lease (some l) key tid)
            else item_unlink l)
        item_remove l
        commit_value key l pv_it pending server_cfg_id))
  ]

-- `item_commit`
unfoldable pub item_commit : List ℕ → ℕ → ℤ → M IqResult
item_commit tid pending server_cfg_id = do
  trans_it ← item_get tid
  elim trans_it [
    | none ↦ pure not_found
    | some t ↦ do for_keys t (commit_key tid pending server_cfg_id); end_trans t; pure ok
  ]

-- One round of the loop of `item_release`. The list that it takes the tid off is that of the
-- transaction; the lease goes in any case.
unfoldable pub release_key : List ℕ → ℕ → Key → M (Unit {0})
release_key tid t key = do
  lease_it ← get_lease key
  pv_it ← get_pending_version key
  elim lease_it [
    | none ↦ no_version pv_it
    | some l ↦ do
      li ← load l
      (if not (has_q_lease li) then (no_version pv_it >> item_remove l) else (do
        when li.q_inv_lease (no_version pv_it >> remove_tid_lease (some t) key tid)
        item_unlink l
        item_remove l
        drop_item pv_it))
  ]

-- `item_release`
unfoldable pub item_release : List ℕ → M IqResult
item_release tid = do
  trans_it ← item_get tid
  elim trans_it [
    | none ↦ pure not_found
    | some t ↦ do for_keys t (release_key tid t); end_trans t; pure ok
  ]
