-- ===== src/Items/Coherent/Ending.antt =====
-- The ends of a session keep the hash and the items in agreement: `item_dcommit`, `item_validate`
-- and `item_co_unlease` of IQ-Twemcached/src/mc_items.c.
use rejig.Prelude.{ℕ, true, false, Option, some, List, [], ◌∷◌, length, if◌then◌else◌, refl, negsuc}
use rejig.Keylist.{Key}
use rejig.Keylist.Cursor.{keys_of}
use rejig.Items.Get.{lease_key, version_key, co_lease_key}
use rejig.Items.Store.{Req}
use rejig.Items.Session.{co_ok, co_abort, co_not_found}
use rejig.Items.Session.Finish.{
  promote_version, never_expire, commit_leased, dcommit_key, item_dcommit, valid_keys,
  item_validate, item_co_unlease,
}
use rejig.Items.Coherent.{
  Keep, stored, kept, ended, next, bind, when-Keep, whenever-Keep, load-Keep, pure-Keep, fault-Keep,
  if-Keep, either-Keep, deref-Keep,
}
use rejig.Items.Coherent.Linking.{item_unlink-Keep, item_remove-Keep}
use rejig.Items.Coherent.Allocating.{item_alloc_config-Keep, item_slabid-Keep}
use rejig.Items.Coherent.Storing.{item_get-Keep, item_store-Keep, copy_data-Keep}
use rejig.Items.Coherent.Leasing.{lists_key-Keep}
use rejig.Items.Coherent.Listing.{drop_item-Keep, remove_entry_from_list-Keep}
use rejig.Items.Coherent.Finishing.{for_keys-Keep}
use rejig.Items.Coherent.Sessions.{drop_session-Keep, clean_key-Keep, clean_session-Keep}

promote_version-Keep : (key : Key) (pv : ℕ) → Keep (promote_version key pv)
unfolding promote_version
promote_version-Keep key pv = bind (load-Keep pv) (λ pi.
    bind (item_slabid-Keep (length key) (length pi.value)) (λ id.
      bind (item_alloc_config-Keep false id key pi.dataflags 0 (length pi.value) (negsuc 0))
        (λ created. bind (deref-Keep created) (λ n. bind (load-Keep pv) (λ pi'.
          next (copy_data-Keep n pi'.value) (
            bind (item_store-Keep n Req.set 0) (λ _.
              next (item_remove-Keep n) (next (item_unlink-Keep pv) (item_remove-Keep pv)))))))))

never_expire-Keep : (a : ℕ) → Keep (never_expire a)
unfolding never_expire
never_expire-Keep a = record { call = λ c p. ended (stored c a _ p (kept refl refl refl)) }

commit_leased-Keep : (key : Key) (it : Option ℕ) (o : ℕ) → Keep (commit_leased key it o)
unfolding commit_leased
commit_leased-Keep key it o = bind (load-Keep o) (λ oi.
    if-Keep oi.o_lease_inv (whenever-Keep it item_unlink-Keep) (
      if-Keep oi.o_lease_ref
        (bind (item_get-Keep (version_key key)) (λ pv_it.
          either-Keep pv_it (whenever-Keep it item_unlink-Keep) (promote_version-Keep key)))
        (when-Keep oi.c_lease (whenever-Keep it never_expire-Keep))))

dcommit_key-Keep : (sid : List ℕ) (key : Key) → Keep (dcommit_key sid key)
unfolding dcommit_key
dcommit_key-Keep sid key = bind (item_get-Keep key) (λ it.
    bind (item_get-Keep (lease_key key)) (λ lease_it. next (drop_item-Keep lease_it) (
      bind (item_get-Keep (co_lease_key key)) (λ colease_it.
        next
          (whenever-Keep colease_it (λ o. next (commit_leased-Keep key it o) (
            next (remove_entry_from_list-Keep (some o) (co_lease_key key) sid)
              (item_remove-Keep o))))
          (whenever-Keep it item_remove-Keep)))))

pub item_dcommit-Keep : (sid : List ℕ) → Keep (item_dcommit sid)
unfolding item_dcommit
item_dcommit-Keep sid = bind (item_get-Keep sid) (λ sess_it.
    either-Keep sess_it (pure-Keep co_not_found) (λ s. bind (load-Keep s) (λ si.
      if-Keep si.aborted (next (drop_session-Keep s) (pure-Keep co_abort)) (
        next (for_keys-Keep s (dcommit_key-Keep sid))
          (next (item_unlink-Keep s) (next (item_remove-Keep s) (pure-Keep co_ok)))))))

valid_keys-Keep : (sid : List ℕ) (keys : List Key) → Keep (valid_keys sid keys)
unfolding valid_keys
valid_keys-Keep sid [] = pure-Keep true
valid_keys-Keep sid (key ∷ rest) = bind (item_get-Keep (co_lease_key key)) (λ colease_it.
    bind (either-Keep colease_it (pure-Keep true) (λ o. lists_key-Keep (some o) sid)) (λ listed.
      next (whenever-Keep colease_it item_remove-Keep)
        (bind (valid_keys-Keep sid rest) (λ valid. pure-Keep (if listed then valid else false)))))

pub item_validate-Keep : (sid : List ℕ) → Keep (item_validate sid)
unfolding item_validate
item_validate-Keep sid = bind (item_get-Keep sid) (λ sess_it.
    either-Keep sess_it (pure-Keep co_abort) (λ s. bind (load-Keep s) (λ si.
      if-Keep si.aborted (next (drop_session-Keep s) (pure-Keep co_abort)) (
        next (item_remove-Keep s) (
          bind (load-Keep s) (λ si'. either-Keep (keys_of si'.value) fault-Keep (λ keys.
            bind (valid_keys-Keep sid keys) (λ valid.
              if-Keep valid (pure-Keep co_ok)
                (next (clean_session-Keep sid) (pure-Keep co_abort))))))))))

pub item_co_unlease-Keep : (sid : List ℕ) → Keep (item_co_unlease sid)
unfolding item_co_unlease
item_co_unlease-Keep sid = bind (item_get-Keep sid) (λ sess_it.
    either-Keep sess_it (pure-Keep co_not_found) (λ s. bind (load-Keep s) (λ si.
      if-Keep si.aborted (next (drop_session-Keep s) (pure-Keep co_abort)) (
        next (for_keys-Keep s (clean_key-Keep sid))
          (next (drop_session-Keep s) (pure-Keep co_ok))))))
