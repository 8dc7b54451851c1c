-- ===== src/Items/Coherent/Counting.antt =====
-- Increments and appends keep the hash and the items in agreement: `_item_add_delta`,
-- `_item_iqincr_iqdecr` and `item_iqappend_iqprepend` of IQ-Twemcached/src/mc_items.c.
use rejig.Prelude.{
  ℕ, List, Option, some, none, Bool, true, false, not, ◌+◌, ◌++◌, if◌then◌else◌, ltb, length, refl,
  negsuc, inl, inr, Bool-cases,
}
use rejig.Util.{strtoull_len, print_uint64}
use rejig.Items.Monad.{load, store, ◌>>=◌, ◌>>◌, pure}
use rejig.Items.Refcount.{item_remove, has_q_lease, item_set_cas}
use rejig.Items.Get.{lease_key, version_key, lease_value}
use rejig.Items.Store.{Req}
use rejig.Items.Iqget.{lease, lease_no_value, abort, server_error}
use rejig.Items.Trans.Incr.{
  DeltaResult, Update, add_delta, append, prepend, Updated, apply_delta, write_number,
  item_add_delta, iq_of_delta, join_version, update_version, set_q_inc_lease, is_refused,
  start_version, take_q_inc_lease, use_q_lease, void_for, other_lease_for, choose_update,
  item_iqupdate,
}
use rejig.Items.Coherent
use rejig.Items.Coherent.{
  Keep, kept, ended, next, bind, check-Keep, when-Keep, whenever-Keep, load-Keep, pure-Keep,
  fault-Keep, if-Keep, either-Keep, deref-Keep,
}
use rejig.Items.Coherent.Linking.{
  item_next_cas-Keep, item_unlink-Keep, item_remove-Keep, item_replace-Keep,
}
use rejig.Items.Coherent.Allocating.{item_alloc_config-Keep, item_slabid-Keep}
use rejig.Items.Coherent.Storing.{item_get-Keep, item_store-Keep, copy_data-Keep, create_lease-Keep}
use rejig.Items.Coherent.Leasing.{set_pending-Keep, pending_mark-Keep, lists_key-Keep}
use rejig.Items.Coherent.Listing.{assoc_key_tid-Keep}
use rejig.Items.Coherent.Updating.{copy_version-Keep}

pub item_set_cas-Keep : (a cas : ℕ) → Keep (item_set_cas a cas)
unfolding item_set_cas
item_set_cas-Keep a cas = record {
  call = λ c p. elim (Bool-cases (c.heap a).cas) [
    | inl t ↦ rw t (ended (Coherent.stored c a _ p (kept refl refl refl)))
    | inr n ↦ rw n (ended (Coherent.stored c a _ p (kept refl refl refl)))
  ];
}

set_value-Keep :
    (a : ℕ) (buf : List ℕ)
    → Keep (
        load a
        >>= (λ it'. store a (record it' { value = buf }) >> (item_remove a >> pure DeltaResult.ok)))
set_value-Keep a buf = record {
  call = λ c p.
      Coherent.store_at c a _ p (kept refl refl refl)
        (next (item_remove-Keep a) (pure-Keep DeltaResult.ok));
}

write_number-Keep : (a : ℕ) (buf : List ℕ) → Keep (write_number a buf)
unfolding write_number
write_number-Keep a buf = bind (load-Keep a) (λ it.
    if-Keep (ltb (length it.value) (length buf))
      (bind (item_slabid-Keep (length it.key) (length buf)) (λ id.
        bind
          (item_alloc_config-Keep false id it.key it.dataflags it.exptime (length buf) (negsuc 0))
          (λ created.
            either-Keep created (next (item_remove-Keep a) (pure-Keep DeltaResult.eom)) (λ n.
              next (copy_data-Keep n buf) (
                bind (load-Keep a) (λ it'. next (set_pending-Keep n it'.p) (
                  next (item_replace-Keep a n) (
                    next (item_remove-Keep n)
                      (next (item_remove-Keep a) (pure-Keep DeltaResult.ok))))))))))
      (bind item_next_cas-Keep (λ cas. next (item_set_cas-Keep a cas) (set_value-Keep a buf))))

pub item_add_delta-Keep :
    (key : List ℕ) (incr : Bool) (delta : ℕ) → Keep (item_add_delta key incr delta)
unfolding item_add_delta
item_add_delta-Keep key incr delta = bind (item_get-Keep key) (λ found.
    either-Keep found (pure-Keep DeltaResult.not_found) (λ a. bind (load-Keep a) (λ it.
      either-Keep (strtoull_len it.value)
        (next (item_remove-Keep a) (pure-Keep DeltaResult.non_numeric))
        (λ value. write_number-Keep a (print_uint64 (apply_delta incr value delta))))))

join_version-Keep : (right : Bool) (pv : ℕ) (bytes : List ℕ) → Keep (join_version right pv bytes)
unfolding join_version
join_version-Keep right pv bytes = bind (load-Keep pv) (λ pi.
    next (check-Keep (ltb 0 (length pi.value))) (
      bind (item_slabid-Keep (length pi.key) (length pi.value + length bytes)) (λ id.
        bind
          (item_alloc_config-Keep false id pi.key pi.dataflags pi.exptime
            (length pi.value + length bytes) (negsuc 0))
          (λ created. bind (deref-Keep created) (λ n. bind (load-Keep pv) (λ pi'.
            next (set_pending-Keep n pi'.p) (
              next (copy_data-Keep n (if right then bytes ++ pi'.value else pi'.value ++ bytes)) (
                bind (item_store-Keep n Req.set 0)
                  (λ _. next (item_remove-Keep n) (pure-Keep lease))))))))))

update_version-Keep :
    (key : List ℕ) (pv : ℕ) (update : Update) → Keep (update_version key pv update)
unfolding update_version
update_version-Keep key pv (add_delta incr delta) =
    bind (item_add_delta-Keep (version_key key) incr delta) (λ r. pure-Keep (iq_of_delta r))
update_version-Keep key pv (append bytes) = join_version-Keep false pv bytes
update_version-Keep key pv (prepend bytes) = join_version-Keep true pv bytes

set_q_inc_lease-Keep : (a : ℕ) → Keep (set_q_inc_lease a)
unfolding set_q_inc_lease
set_q_inc_lease-Keep a = record {
  call = λ c p. ended (Coherent.stored c a _ p (kept refl refl refl));
}

-- A run that ends with a record of what it found.
reported-Keep : (r : Updated) → Keep (pure r)
reported-Keep r = pure-Keep r

start_version-Keep :
    (tid key : List ℕ) (it trans_it : Option ℕ) (l token : ℕ) (update : Update)
    → Keep (start_version tid key it trans_it l token update)
unfolding start_version
start_version-Keep tid key it trans_it l token update = next (assoc_key_tid-Keep trans_it key tid) (
    bind (pending_mark-Keep key it) (λ pending.
      either-Keep it
        (reported-Keep (record {
          status = lease_no_value;
          pending = pending;
          new_token = some token;
          pv_it = none;
          lease_it = some l;
        }))
        (λ a. bind (load-Keep a) (λ i. next (check-Keep (ltb 0 (length i.value))) (
          bind (copy_version-Keep a l) (λ pv. bind (update_version-Keep key pv update) (λ status.
            reported-Keep (record {
              status = status;
              pending = pending;
              new_token = some token;
              pv_it = some pv;
              lease_it = some l;
            }))))))))

take_q_inc_lease-Keep :
    (tid key : List ℕ) (it trans_it : Option ℕ) (update : Update)
    → Keep (take_q_inc_lease tid key it trans_it update)
unfolding take_q_inc_lease
take_q_inc_lease-Keep tid key it trans_it update = bind (create_lease-Keep key) (λ (created, token).
    bind (deref-Keep created) (λ l. next (set_q_inc_lease-Keep l) (
      bind (item_store-Keep l Req.set 0) (λ kept.
        if-Keep (is_refused kept)
          (reported-Keep (record {
            status = server_error;
            pending = 0;
            new_token = some token;
            pv_it = none;
            lease_it = some l;
          }))
          (start_version-Keep tid key it trans_it l token update)))))

use_q_lease-Keep :
    (key : List ℕ) (trans_it : Option ℕ) (l : ℕ) (update : Update)
    → Keep (use_q_lease key trans_it l update)
unfolding use_q_lease
use_q_lease-Keep key trans_it l update = bind (lists_key-Keep trans_it key) (λ own.
    if-Keep (not own)
      (reported-Keep
        (record { status = abort; pending = 0; new_token = none; pv_it = none; lease_it = some l }))
      (bind (load-Keep l) (λ li. bind (item_get-Keep (version_key key)) (λ pv_it.
        bind (pending_mark-Keep key pv_it) (λ pending.
          bind
            (either-Keep pv_it (pure-Keep lease_no_value) (λ pv. update_version-Keep key pv update))
            (λ status. reported-Keep (record {
              status = status;
              pending = pending;
              new_token = some (lease_value li);
              pv_it = pv_it;
              lease_it = some l;
            })))))))

void_for-Keep : (update : Update) (l : ℕ) → Keep (void_for update l)
unfolding void_for
void_for-Keep (add_delta incr delta) l = item_unlink-Keep l
void_for-Keep (append bytes) l = next (item_unlink-Keep l) (item_remove-Keep l)
void_for-Keep (prepend bytes) l = next (item_unlink-Keep l) (item_remove-Keep l)

other_lease_for-Keep : (update : Update) (l : ℕ) → Keep (other_lease_for update l)
unfolding other_lease_for
other_lease_for-Keep (add_delta incr delta) l =
    reported-Keep
      (record { status = lease; pending = 0; new_token = none; pv_it = none; lease_it = some l })
other_lease_for-Keep (append bytes) l = fault-Keep
other_lease_for-Keep (prepend bytes) l = fault-Keep

choose_update-Keep :
    (tid key : List ℕ) (it trans_it lease_it : Option ℕ) (update : Update)
    → Keep (choose_update tid key it trans_it lease_it update)
unfolding choose_update
choose_update-Keep tid key it trans_it none update =
    take_q_inc_lease-Keep tid key it trans_it update
choose_update-Keep tid key it trans_it (some l) update = bind (load-Keep l) (λ li.
    if-Keep li.i_lease
      (next (void_for-Keep update l) (take_q_inc_lease-Keep tid key it trans_it update))
      (if-Keep (has_q_lease li) (use_q_lease-Keep key trans_it l update)
        (other_lease_for-Keep update l)))

pub item_iqupdate-Keep : (tid key : List ℕ) (update : Update) → Keep (item_iqupdate tid key update)
unfolding item_iqupdate
item_iqupdate-Keep tid key update = bind (item_get-Keep key) (λ it.
    bind (item_get-Keep tid) (λ trans_it. bind (item_get-Keep (lease_key key)) (λ lease_it.
      bind (choose_update-Keep tid key it trans_it lease_it update) (λ r.
        next (whenever-Keep it item_remove-Keep) (
          next (whenever-Keep trans_it item_remove-Keep) (
            next (whenever-Keep r.pv_it item_remove-Keep)
              (next (whenever-Keep r.lease_it item_remove-Keep) (pure-Keep r))))))))
