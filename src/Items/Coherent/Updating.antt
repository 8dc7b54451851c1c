-- ===== src/Items/Coherent/Updating.antt =====
-- Updates under a Q lease keep the hash and the items in agreement: `item_quarantine_and_read`, the
-- swaps, the increments and the appends of IQ-Twemcached/src/mc_items.c.
use rejig.Prelude.{
  ℕ, List, Option, some, none, false, ◌&&◌, ◌||◌, if◌then◌else◌, ◌==◌, length, refl,
}
use rejig.Items.Refcount.{is_some, has_q_lease}
use rejig.Items.Get.{lease_key, version_key, pending_key, lease_value}
use rejig.Items.Store.{Req, stored, not_found, store_error}
use rejig.Items.Iqget.{hotmiss}
use rejig.Items.Trans.Swap.{
  set_q_ref_lease, meet_q_lease, copy_version, quarantine, quarantine_and_read, is_token_of,
  swap_value, swap_and_release, take_mark, swap_version, item_swap,
}
use rejig.Items.Coherent
use rejig.Items.Coherent.{
  Keep, kept, ended, next, bind, check-Keep, when-Keep, whenever-Keep, load-Keep, pure-Keep,
  fault-Keep, if-Keep, either-Keep, deref-Keep,
}
use rejig.Items.Coherent.Linking.{item_remove-Keep, item_replace-Keep}
use rejig.Items.Coherent.Storing.{
  item_get-Keep, item_store-Keep, copy_data-Keep, create_lease-Keep, create_pending_version-Keep,
}
use rejig.Items.Coherent.Leasing.{set_pending-Keep, pending_mark-Keep}
use rejig.Items.Coherent.Listing.{drop_item-Keep, copy_exptime-Keep, assoc_key_tid-Keep}

pub set_q_ref_lease-Keep : (a : ℕ) → Keep (set_q_ref_lease a)
unfolding set_q_ref_lease
set_q_ref_lease-Keep a = record {
  call = λ c p. ended (Coherent.stored c a _ p (kept refl refl refl));
}

meet_q_lease-Keep : (key : List ℕ) (l lease_token : ℕ) → Keep (meet_q_lease key l lease_token)
unfolding meet_q_lease
meet_q_lease-Keep key l lease_token = bind (load-Keep l) (λ li.
    if-Keep ((li.q_ref_lease || li.q_inc_lease) && lease_value li == lease_token)
      (bind (item_get-Keep (version_key key)) (λ pv_it.
        bind (pending_mark-Keep key pv_it) (λ pending. pure-Keep (record {
          item = pv_it;
          new_token = lease_token;
          pending = pending;
          lease_it = some l;
        }))))
      (pure-Keep (record { item = none; new_token = hotmiss; pending = 0; lease_it = some l })))

pub copy_version-Keep : (orig l : ℕ) → Keep (copy_version orig l)
unfolding copy_version
copy_version-Keep orig l = bind (create_pending_version-Keep orig) (λ created.
    bind (deref-Keep created) (λ pv. bind (load-Keep orig) (λ oi. next (set_pending-Keep pv oi.p) (
      next (copy_exptime-Keep pv l) (
        bind (load-Keep orig) (λ oi'.
          next (copy_data-Keep pv oi'.value)
            (bind (item_store-Keep pv Req.set 0) (λ _. pure-Keep pv))))))))

quarantine-Keep : (tid key : List ℕ) (trans_it : Option ℕ) → Keep (quarantine tid key trans_it)
unfolding quarantine
quarantine-Keep tid key trans_it = bind (create_lease-Keep key) (λ (created, token).
    bind (deref-Keep created) (λ l. next (set_q_ref_lease-Keep l) (
      bind (item_store-Keep l Req.qaread 0) (λ _. bind (item_get-Keep key) (λ orig_it.
        bind (pending_mark-Keep key orig_it) (λ pending.
          bind
            (either-Keep orig_it (pure-Keep none) (λ orig. bind (copy_version-Keep orig l) (λ pv.
              next (item_remove-Keep orig) (next (copy_exptime-Keep pv l) (pure-Keep (some pv))))))
            (λ pv_it. next (assoc_key_tid-Keep trans_it key tid) (
              pure-Keep (record {
                item = pv_it;
                new_token = token;
                pending = pending;
                lease_it = some l;
              })))))))))

pub quarantine_and_read-Keep :
    (tid key : List ℕ) (lease_token : ℕ) → Keep (quarantine_and_read tid key lease_token)
unfolding quarantine_and_read
quarantine_and_read-Keep tid key lease_token = bind (item_get-Keep tid) (λ trans_it.
    bind (item_get-Keep (lease_key key)) (λ lease_it.
      bind
        (either-Keep lease_it (quarantine-Keep tid key trans_it) (λ l. bind (load-Keep l) (λ li.
          if-Keep (has_q_lease li) (meet_q_lease-Keep key l lease_token)
            (quarantine-Keep tid key trans_it))))
        (λ q.
          next (whenever-Keep q.lease_it item_remove-Keep)
            (next (whenever-Keep trans_it item_remove-Keep) (pure-Keep q)))))

is_token_of-Keep : (token : ℕ) (o : Option ℕ) → Keep (is_token_of token o)
unfolding is_token_of
is_token_of-Keep token none = pure-Keep false
is_token_of-Keep token (some l) = bind (load-Keep l) (λ li. pure-Keep (lease_value li == token))

swap_value-Keep : (a : ℕ) → Keep (swap_value a)
unfolding swap_value
swap_value-Keep a = bind (load-Keep a) (λ it.
    if-Keep (length it.value == 0) (pure-Keep store_error) (
      bind (item_get-Keep it.key) (λ oit.
        next
          (either-Keep oit (bind (item_store-Keep a Req.set 0) (λ _. pure-Keep tt))
            (λ o. item_replace-Keep o a))
          (next (whenever-Keep oit item_remove-Keep) (pure-Keep stored)))))

pub swap_and_release-Keep : (a conn_token : ℕ) → Keep (swap_and_release a conn_token)
unfolding swap_and_release
swap_and_release-Keep a conn_token = bind (load-Keep a) (λ it.
    bind (item_get-Keep (lease_key it.key)) (λ lease_it.
      bind (is_token_of-Keep conn_token lease_it) (λ own.
        if-Keep own (next (drop_item-Keep lease_it) (swap_value-Keep a))
          (next (whenever-Keep lease_it item_remove-Keep) (pure-Keep not_found)))))

take_mark-Keep : (key : List ℕ) → Keep (take_mark key)
unfolding take_mark
take_mark-Keep key = bind (item_get-Keep (version_key key)) (λ pv_it.
    either-Keep pv_it
      (bind (item_get-Keep (pending_key key)) (λ pending_it.
        next (drop_item-Keep pending_it) (pure-Keep (if is_some pending_it then 1 else 0))))
      (λ pv. bind (load-Keep pv) (λ pi. next (drop_item-Keep (some pv)) (pure-Keep pi.p))))

swap_version-Keep : (a : ℕ) → Keep (swap_version a)
unfolding swap_version
swap_version-Keep a = bind (load-Keep a) (λ it. if-Keep (length it.value == 0) (pure-Keep stored) (
    bind (take_mark-Keep it.key) (λ pending. bind (create_pending_version-Keep a) (λ created.
      bind (deref-Keep created) (λ pv. bind (load-Keep a) (λ it'.
        next (copy_data-Keep pv it'.value) (
          next (set_pending-Keep pv pending) (
            bind (item_store-Keep pv Req.set 0)
              (λ _. next (item_remove-Keep pv) (pure-Keep stored))))))))))

pub item_swap-Keep : (a conn_token : ℕ) → Keep (item_swap a conn_token)
unfolding item_swap
item_swap-Keep a conn_token = bind (load-Keep a) (λ it.
    bind (item_get-Keep (lease_key it.key)) (λ lease_it.
      bind (is_token_of-Keep conn_token lease_it) (λ own.
        next (whenever-Keep lease_it item_remove-Keep)
          (if-Keep own (swap_version-Keep a) (pure-Keep not_found)))))
