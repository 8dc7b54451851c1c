-- ===== src/Items/Coherent/Finishing.antt =====
-- The ends of a transaction keep the hash and the items in agreement: `item_delete_and_release`,
-- `item_commit` and `item_release` of IQ-Twemcached/src/mc_items.c.
use rejig.Prelude.{
  ℕ, List, [], ◌∷◌, Option, some, none, true, false, not, ◌||◌, ◌%◌, ◌^◌, ◌==◌, length, ℤ,
}
use rejig.Keylist.{Key}
use rejig.Keylist.Cursor.{keys_of}
use rejig.Items.Monad.{M}
use rejig.Items.Refcount.{is_some, has_q_lease}
use rejig.Items.Get.{lease_key, version_key, pending_key}
use rejig.Items.Store.{Req}
use rejig.Items.Iqget.{ok, not_found}
use rejig.Items.Trans.Finish.{
  for_each, for_keys, end_trans, delete_key, delete_and_release, no_version, apply_version,
  settle_pending, commit_value, commit_key, item_commit, release_key, item_release,
}
use rejig.Items.Coherent.{
  Keep, next, bind, check-Keep, when-Keep, whenever-Keep, load-Keep, pure-Keep, fault-Keep, if-Keep,
  either-Keep, deref-Keep,
}
use rejig.Items.Coherent.Linking.{release_refcount-Keep, item_unlink-Keep, item_remove-Keep}
use rejig.Items.Coherent.Allocating.{item_alloc_config-Keep, item_slabid-Keep}
use rejig.Items.Coherent.Storing.{item_get-Keep, item_store-Keep, copy_data-Keep}
use rejig.Items.Coherent.Leasing.{set_pending-Keep}
use rejig.Items.Coherent.Listing.{drop_item-Keep, remove_entry_from_list-Keep}

for_each-Keep :
    (keys : List Key) {body : Key → M (Unit {0})}
    → ((key : Key) → Keep (body key))
    → Keep (for_each keys body)
unfolding for_each
for_each-Keep [] k = pure-Keep tt
for_each-Keep (key ∷ rest) k = next (k key) (for_each-Keep rest k)

pub for_keys-Keep :
    (a : ℕ) {body : Key → M (Unit {0})} → ((key : Key) → Keep (body key)) → Keep (for_keys a body)
unfolding for_keys
for_keys-Keep a k =
    bind (load-Keep a)
      (λ it. either-Keep (keys_of it.value) fault-Keep (λ keys. for_each-Keep keys k))

end_trans-Keep : (t : ℕ) → Keep (end_trans t)
unfolding end_trans
end_trans-Keep t = next (release_refcount-Keep t) (next (item_unlink-Keep t) (item_remove-Keep t))

delete_key-Keep : (tid : List ℕ) (key : Key) → Keep (delete_key tid key)
unfolding delete_key
delete_key-Keep tid key = bind (item_get-Keep key) (λ it. next (drop_item-Keep it) (
    bind (item_get-Keep (lease_key key)) (λ lease_it. whenever-Keep lease_it (λ l.
      bind (load-Keep l) (λ li.
        if-Keep li.q_inv_lease
          (next (remove_entry_from_list-Keep (some l) (lease_key key) tid) (item_remove-Keep l))
          (next (item_unlink-Keep l) (item_remove-Keep l)))))))

pub delete_and_release-Keep : (tid : List ℕ) → Keep (delete_and_release tid)
unfolding delete_and_release
delete_and_release-Keep tid = bind (item_get-Keep tid) (λ trans_it.
    either-Keep trans_it (pure-Keep false) (λ t. next (for_keys-Keep t (delete_key-Keep tid)) (
      next (item_unlink-Keep t)
        (next (release_refcount-Keep t) (next (item_remove-Keep t) (pure-Keep true))))))

no_version-Keep : (pv_it : Option ℕ) → Keep (no_version pv_it)
no_version-Keep pv_it = check-Keep (not (is_some pv_it))

apply_version-Keep :
    (key : Key) (pv pending : ℕ) (server_cfg_id : ℤ)
    → Keep (apply_version key pv pending server_cfg_id)
unfolding apply_version
apply_version-Keep key pv pending server_cfg_id = bind (load-Keep pv) (λ pi.
    bind (item_slabid-Keep (length key) (length pi.value)) (λ id.
      bind (item_alloc_config-Keep false id key pi.dataflags 0 (length pi.value) server_cfg_id)
        (λ created. bind (deref-Keep created) (λ n. bind (load-Keep pv) (λ pi'.
          next (copy_data-Keep n pi'.value) (
            next (set_pending-Keep n (pending % 2 ^ 8))
              (bind (item_store-Keep n Req.set 0) (λ _. item_remove-Keep n))))))))

settle_pending-Keep :
    (key : Key) (o : Option ℕ) (pending : ℕ) (server_cfg_id : ℤ)
    → Keep (settle_pending key o pending server_cfg_id)
unfolding settle_pending
settle_pending-Keep key none pending server_cfg_id = when-Keep (pending == 1) (
    bind (item_slabid-Keep (length (pending_key key)) 1) (λ id.
      bind (item_alloc_config-Keep false id (pending_key key) 0 0 1 server_cfg_id) (λ created.
        bind (deref-Keep created)
          (λ pd. bind (item_store-Keep pd Req.set 0) (λ _. item_remove-Keep pd)))))
settle_pending-Keep key (some pd) pending server_cfg_id =
    next (when-Keep (pending == 0) (item_unlink-Keep pd)) (item_remove-Keep pd)

commit_value-Keep :
    (key : Key) (l : ℕ) (pv_it : Option ℕ) (pending : ℕ) (server_cfg_id : ℤ)
    → Keep (commit_value key l pv_it pending server_cfg_id)
unfolding commit_value
commit_value-Keep key l pv_it pending server_cfg_id =
    next (whenever-Keep pv_it (λ pv. apply_version-Keep key pv pending server_cfg_id)) (
      bind (item_get-Keep key) (λ it. bind (load-Keep l) (λ li.
        next
          (whenever-Keep it
            (λ a. when-Keep (not (is_some pv_it) || li.q_inv_lease) (item_unlink-Keep a)))
          (bind (item_get-Keep (pending_key key)) (λ pending_it.
            next
              (if-Keep (is_some it) (drop_item-Keep pending_it)
                (settle_pending-Keep key pending_it pending server_cfg_id))
              (next (whenever-Keep it item_remove-Keep) (drop_item-Keep pv_it)))))))

commit_key-Keep :
    (tid : List ℕ) (pending : ℕ) (server_cfg_id : ℤ) (key : Key)
    → Keep (commit_key tid pending server_cfg_id key)
unfolding commit_key
commit_key-Keep tid pending server_cfg_id key = bind (item_get-Keep (lease_key key)) (λ lease_it.
    bind (item_get-Keep (version_key key)) (λ pv_it.
      either-Keep lease_it (no_version-Keep pv_it) (λ l. bind (load-Keep l) (λ li.
        if-Keep (not (has_q_lease li)) (next (no_version-Keep pv_it) (item_remove-Keep l)) (
          next
            (if-Keep li.q_inv_lease
              (next (no_version-Keep pv_it)
                (remove_entry_from_list-Keep (some l) (lease_key key) tid))
              (item_unlink-Keep l))
            (next (item_remove-Keep l) (commit_value-Keep key l pv_it pending server_cfg_id)))))))

pub item_commit-Keep :
    (tid : List ℕ) (pending : ℕ) (server_cfg_id : ℤ) → Keep (item_commit tid pending server_cfg_id)
unfolding item_commit
item_commit-Keep tid pending server_cfg_id = bind (item_get-Keep tid) (λ trans_it.
    either-Keep trans_it (pure-Keep not_found) (λ t.
      next (for_keys-Keep t (commit_key-Keep tid pending server_cfg_id))
        (next (end_trans-Keep t) (pure-Keep ok))))

release_key-Keep : (tid : List ℕ) (t : ℕ) (key : Key) → Keep (release_key tid t key)
unfolding release_key
release_key-Keep tid t key = bind (item_get-Keep (lease_key key)) (λ lease_it.
    bind (item_get-Keep (version_key key)) (λ pv_it.
      either-Keep lease_it (no_version-Keep pv_it) (λ l. bind (load-Keep l) (λ li.
        if-Keep (not (has_q_lease li)) (next (no_version-Keep pv_it) (item_remove-Keep l)) (
          next
            (when-Keep li.q_inv_lease (
              next (no_version-Keep pv_it)
                (remove_entry_from_list-Keep (some t) (lease_key key) tid)))
            (next (item_unlink-Keep l) (next (item_remove-Keep l) (drop_item-Keep pv_it))))))))

pub item_release-Keep : (tid : List ℕ) → Keep (item_release tid)
unfolding item_release
item_release-Keep tid = bind (item_get-Keep tid) (λ trans_it.
    either-Keep trans_it (pure-Keep not_found) (λ t.
      next (for_keys-Keep t (release_key-Keep tid t)) (next (end_trans-Keep t) (pure-Keep ok))))
