-- ===== src/Items/Trans/Incr.antt =====
-- Increments and appends: `_item_add_delta`, and under a Q lease for increment
-- `_item_iqincr_iqdecr` and `item_iqappend_iqprepend` of IQ-Twemcached/src/mc_items.c.
use rejig.Prelude.{
  ◌+◌, ◌-◌, ◌++◌, ◌%◌, ◌^◌, ltb, not, List, Bool, true, false, Option, none, some, ℕ, length,
  if◌then◌else◌,
}
use rejig.Util.{strtoull_len, print_uint64}
use rejig.Items.Monad.{M, ◌>>=◌, ◌>>◌, pure, fault, check, load, store, whenever, deref}
use rejig.Items.Refcount.{
  has_q_lease, item_next_cas, item_set_cas, item_unlink, item_remove, item_replace,
}
use rejig.Items.Alloc.{item_alloc, item_slabid}
use rejig.Items.Get.{
  item_get, get_lease, get_pending_version, version_key, copy_data, create_lease, lease_value,
}
use rejig.Items.Store.{item_store, Req, StoreResult, stored, not_stored, exists, store_error}
use rejig.Items.Iqget.{
  IqResult, lease, lease_no_value, abort, server_error, client_error, lists_key, set_pending,
  pending_mark,
}
use rejig.Items.Trans.Lists.{assoc_key_tid}
use rejig.Items.Trans.Swap.{copy_version}

pub data DeltaResult : Type 0 where
  ok not_found non_numeric eom : DeltaResult

-- The new number of `_item_add_delta`: `value` and `delta` as uint64_t.
unfoldable pub apply_delta : Bool → ℕ → ℕ → ℕ
apply_delta true value delta = (value + delta) % 2 ^ 64
apply_delta false value delta = value - delta

-- The new text takes the place of the old: in the item if it fits, else in a new item.
unfoldable pub write_number : ℕ → List ℕ → M DeltaResult
write_number a buf = do
  it ← load a
  (if ltb (length it.value) (length buf)
      then (do
        id ← item_slabid (length it.key) (length buf)
        created ← item_alloc false id it.key it.dataflags it.exptime (length buf)
        elim created [
          | none ↦ do item_remove a; pure DeltaResult.eom
          | some n ↦ do
            copy_data n buf
            it' ← load a
            set_pending n it'.p
            item_replace a n
            item_remove n
            item_remove a
            pure DeltaResult.ok
        ])
      else (do
        cas ← item_next_cas
        item_set_cas a cas
        it' ← load a
        store a (record it' { value = buf })
        item_remove a
        pure DeltaResult.ok))

-- `_item_add_delta`
unfoldable pub item_add_delta : List ℕ → Bool → ℕ → M DeltaResult
item_add_delta key incr delta = do
  found ← item_get key
  elim found [
    | none ↦ pure DeltaResult.not_found
    | some a ↦ do
      it ← load a
      elim (strtoull_len it.value) [
        | none ↦ do item_remove a; pure DeltaResult.non_numeric
        | some value ↦ write_number a (print_uint64 (apply_delta incr value delta))
      ]
  ]

-- The operations that a Q lease for increment allows on the pending version.
pub data Update : Type 0 where
  add_delta : Bool → ℕ → Update
  append prepend : List ℕ → Update

abbrev pub iq_of_delta : DeltaResult → IqResult
iq_of_delta DeltaResult.eom = server_error
iq_of_delta DeltaResult.non_numeric = client_error
iq_of_delta DeltaResult.ok = lease
iq_of_delta DeltaResult.not_found = abort

-- `_item_append_prepend_iq`, which writes through the new item before it tests for NULL.
unfoldable pub join_version : Bool → ℕ → List ℕ → M IqResult
join_version right pv bytes = do
  pi ← load pv
  check (ltb 0 (length pi.value))
  id ← item_slabid (length pi.key) (length pi.value + length bytes)
  created ← item_alloc false id pi.key pi.dataflags pi.exptime (length pi.value + length bytes)
  nit ← deref created
  pi' ← load pv
  set_pending nit pi'.p
  copy_data nit (if right then bytes ++ pi'.value else pi'.value ++ bytes)
  _ ← item_store nit Req.set 0
  item_remove nit
  pure lease

-- `_item_add_delta_iq`, or `_item_append_prepend_iq`
unfoldable pub update_version : List ℕ → ℕ → Update → M IqResult
update_version key pv (add_delta incr delta) = do
  r ← item_add_delta (version_key key) incr delta
  pure (iq_of_delta r)
update_version key pv (append bytes) = join_version false pv bytes
update_version key pv (prepend bytes) = join_version true pv bytes

-- What the two branches leave in `ret`, `*pending`, `*new_lease_token`, `pv_it` and `lease_it`.
pub record Updated : Type 0 where
  pub status : IqResult
  pub pending : ℕ
  pub new_token : Option ℕ
  pub pv_it : Option ℕ
  pub lease_it : Option ℕ

-- `item_set_q_inc_lease`
unfoldable pub set_q_inc_lease : ℕ → M (Unit {0})
set_q_inc_lease a = do it ← load a; store a (record it { q_inc_lease = true })

abbrev pub is_refused : StoreResult → Bool
is_refused not_stored = true
is_refused stored = false
is_refused exists = false
is_refused StoreResult.not_found = false
is_refused store_error = false

-- The new lease is stored: the key joins the transaction, and its value gets a pending version.
unfoldable pub start_version : List ℕ → List ℕ → Option ℕ → Option ℕ → ℕ → ℕ → Update → M Updated
start_version tid key it trans_it l token update = do
  assoc_key_tid trans_it key tid
  pending ← pending_mark key it
  elim it [
    | none ↦ pure (record {
      status = lease_no_value;
      pending = pending;
      new_token = some token;
      pv_it = none;
      lease_it = some l;
    })
    | some a ↦ do
      i ← load a
      check (ltb 0 (length i.value))
      pv ← copy_version a l
      status ← update_version key pv update
      pure (record {
        status = status;
        pending = pending;
        new_token = some token;
        pv_it = some pv;
        lease_it = some l;
      })
  ]

-- No lease, or an I lease that has been unlinked: a Q lease for increment is made.
unfoldable pub take_q_inc_lease : List ℕ → List ℕ → Option ℕ → Option ℕ → Update → M Updated
take_q_inc_lease tid key it trans_it update = do
  (created, token) ← create_lease key
  l ← deref created
  set_q_inc_lease l
  kept ← item_store l Req.set 0
  (if is_refused kept
      then pure (record {
        status = server_error;
        pending = 0;
        new_token = some token;
        pv_it = none;
        lease_it = some l;
      })
      else start_version tid key it trans_it l token update)

-- There is a Q lease on the key: the caller's transaction must have the key.
unfoldable pub use_q_lease : List ℕ → Option ℕ → ℕ → Update → M Updated
use_q_lease key trans_it l update = do
  own ← lists_key trans_it key
  (if not own
      then pure (record {
        status = abort;
        pending = 0;
        new_token = none;
        pv_it = none;
        lease_it = some l;
      })
      else (do
        li ← load l
        pv_it ← get_pending_version key
        pending ← pending_mark key pv_it
        status ← elim pv_it [ none ↦ pure lease_no_value | some pv ↦ update_version key pv update ]
        pure (record {
          status = status;
          pending = pending;
          new_token = some (lease_value li);
          pv_it = pv_it;
          lease_it = some l;
        })))

-- The I lease of a key goes. The increments do not give back the reference of the look-up.
unfoldable pub void_for : Update → ℕ → M (Unit {0})
void_for (add_delta incr delta) l = item_unlink l
void_for (append bytes) l = item_unlink l >> item_remove l
void_for (prepend bytes) l = item_unlink l >> item_remove l

-- A lease that is neither an I lease nor a Q lease: an ASSERT of the appends.
unfoldable pub other_lease_for : Update → ℕ → M Updated
other_lease_for (add_delta incr delta) l =
    pure (record { status = lease; pending = 0; new_token = none; pv_it = none; lease_it = some l })
other_lease_for (append bytes) l = fault
other_lease_for (prepend bytes) l = fault

unfoldable pub choose_update : List ℕ → List ℕ → Option ℕ → Option ℕ → Option ℕ → Update → M Updated
choose_update tid key it trans_it none update = take_q_inc_lease tid key it trans_it update
choose_update tid key it trans_it (some l) update = do
  li ← load l
  (if li.i_lease
      then (void_for update l >> take_q_inc_lease tid key it trans_it update)
      else (if has_q_lease li then use_q_lease key trans_it l update else other_lease_for update l))

-- `_item_iqincr_iqdecr`, and `item_iqappend_iqprepend`, which takes the same steps.
unfoldable pub item_iqupdate : List ℕ → List ℕ → Update → M Updated
item_iqupdate tid key update = do
  it ← item_get key
  trans_it ← item_get tid
  lease_it ← get_lease key
  r ← choose_update tid key it trans_it lease_it update
  whenever it item_remove
  whenever trans_it item_remove
  whenever r.pv_it item_remove
  whenever r.lease_it item_remove
  pure r
