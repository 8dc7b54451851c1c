-- ===== src/Items/Trans/Swap.antt =====
-- Updates under a Q lease for refresh: `item_quarantine_and_read`, `item_swap` and
-- `item_swap_and_release` of IQ-Twemcached/src/mc_items.c. Each swap has an item, as its only
-- caller in mc_ascii.c gives it.
use rejig.Prelude.{
  ◌==◌, ◌&&◌, ◌||◌, List, Bool, true, false, Option, none, some, ℕ, length, if◌then◌else◌,
}
use rejig.Items.Monad.{M, ◌>>=◌, ◌>>◌, pure, load, store, whenever, deref}
use rejig.Items.Refcount.{is_some, has_q_lease, item_remove, item_replace}
use rejig.Items.Get.{
  item_get, get_lease, get_pending, get_pending_version, copy_data, create_lease, lease_value,
  create_pending_version,
}
use rejig.Items.Store.{item_store, Req, StoreResult, stored, not_found, store_error}
use rejig.Items.Iqget.{set_pending, pending_mark, hotmiss}
use rejig.Items.Trans.{drop_item, copy_exptime}
use rejig.Items.Trans.Lists.{assoc_key_tid}

-- `item_set_q_ref_lease`
unfoldable pub set_q_ref_lease : ℕ → M (Unit {0})
set_q_ref_lease a = do it ← load a; store a (record it { q_ref_lease = true })

-- What `item_quarantine_and_read` leaves in `*it`, `*new_lease_token`, `*pending` and `lease_it`.
pub record Quarantined : Type 0 where
  pub item : Option ℕ
  pub new_token : ℕ
  pub pending : ℕ
  pub lease_it : Option ℕ

-- There is a Q lease on the key: its holder reads the pending version.
unfoldable pub meet_q_lease : List ℕ → ℕ → ℕ → M Quarantined
meet_q_lease key l lease_token = do
  li ← load l
  (if (li.q_ref_lease || li.q_inc_lease) && lease_value li == lease_token
      then (do
        pv_it ← get_pending_version key
        pending ← pending_mark key pv_it
        pure (record {
          item = pv_it;
          new_token = lease_token;
          pending = pending;
          lease_it = some l;
        }))
      else pure (record { item = none; new_token = hotmiss; pending = 0; lease_it = some l }))

-- A pending version with the bytes and the mark of the value, which expires with the lease.
unfoldable pub copy_version : ℕ → ℕ → M ℕ
copy_version orig l = do
  created ← create_pending_version orig
  pv ← deref created
  oi ← load orig
  set_pending pv oi.p
  copy_exptime pv l
  oi' ← load orig
  copy_data pv oi'.value
  _ ← item_store pv Req.set 0
  pure pv

-- There is none: a new one is made; an I lease that was there is replaced by it.
unfoldable pub quarantine : List ℕ → List ℕ → Option ℕ → M Quarantined
quarantine tid key trans_it = do
  (created, token) ← create_lease key
  l ← deref created
  set_q_ref_lease l
  _ ← item_store l Req.qaread 0
  orig_it ← item_get key
  pending ← pending_mark key orig_it
  pv_it ← elim orig_it [
    | none ↦ pure none
    | some orig ↦ do pv ← copy_version orig l; item_remove orig; copy_exptime pv l; pure (some pv)
  ]
  assoc_key_tid trans_it key tid
  pure (record { item = pv_it; new_token = token; pending = pending; lease_it = some l })

-- `item_quarantine_and_read`; its status is MC_OK on every path.
unfoldable pub quarantine_and_read : List ℕ → List ℕ → ℕ → M Quarantined
quarantine_and_read tid key lease_token = do
  trans_it ← item_get tid
  lease_it ← get_lease key
  q ← elim lease_it [
    | none ↦ quarantine tid key trans_it
    | some l ↦ do
      li ← load l
      (if has_q_lease li then meet_q_lease key l lease_token else quarantine tid key trans_it)
  ]
  whenever q.lease_it item_remove
  whenever trans_it item_remove
  pure q

-- Does the lease found hold the connection's token?
unfoldable pub is_token_of : ℕ → Option ℕ → M Bool
is_token_of token none = pure false
is_token_of token (some l) = do li ← load l; pure (lease_value li == token)

-- The end of `item_swap_and_release`.
unfoldable pub swap_value : ℕ → M StoreResult
swap_value a = do
  it ← load a
  (if length it.value == 0 then pure store_error else (do
    oit ← item_get it.key
    elim oit [ none ↦ do _ ← item_store a Req.set 0; pure tt | some o ↦ item_replace o a ]
    whenever oit item_remove
    pure stored))

-- `item_swap_and_release`
unfoldable pub swap_and_release : ℕ → ℕ → M StoreResult
swap_and_release a conn_token = do
  it ← load a
  lease_it ← get_lease it.key
  own ← is_token_of conn_token lease_it
  (if own
      then (drop_item lease_it >> swap_value a)
      else (whenever lease_it item_remove >> pure not_found))

-- The mark of a key goes with its pending version, or with the item that stands for it.
unfoldable pub take_mark : List ℕ → M ℕ
take_mark key = do
  pv_it ← get_pending_version key
  elim pv_it [
    | some pv ↦ do pi ← load pv; drop_item (some pv); pure pi.p
    | none ↦ do
      pending_it ← get_pending key
      drop_item pending_it
      pure (if is_some pending_it then 1 else 0)
  ]

-- The end of `item_swap`.
unfoldable pub swap_version : ℕ → M StoreResult
swap_version a = do
  it ← load a
  (if length it.value == 0 then pure stored else (do
    pending ← take_mark it.key
    created ← create_pending_version a
    pv ← deref created
    it' ← load a
    copy_data pv it'.value
    set_pending pv pending
    _ ← item_store pv Req.set 0
    item_remove pv
    pure stored))

-- `item_swap`
unfoldable pub item_swap : ℕ → ℕ → M StoreResult
item_swap a conn_token = do
  it ← load a
  lease_it ← get_lease it.key
  own ← is_token_of conn_token lease_it
  whenever lease_it item_remove
  (if own then swap_version a else pure not_found)
