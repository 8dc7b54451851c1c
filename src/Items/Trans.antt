-- ===== src/Items/Trans.antt =====
-- Transactions of IQ-Twemcached/src/mc_items.c: the Q leases for invalidation that
-- `item_quarantine_and_register` takes, and the commit and the release that end them.
pub mod Lists
pub mod Finish
pub mod Swap
pub mod Incr
use rejig.Prelude.{
  ℕ, zero, suc, ◌+◌, ◌-◌, Bool, true, false, not, ◌&&◌, ◌||◌, Option, none, some, List, [], ◌∷◌,
  ◌==◌, ltb, leb, length, if◌then◌else◌,
}
use rejig.Items.{Item, Cache}
use rejig.Items.Monad.{M, ◌>>=◌, ◌>>◌, pure, fault, check, load, store, when, whenever, deref}
use rejig.Items.Refcount.{is_some, item_unlink, item_remove}
use rejig.Items.Get.{item_get, get_lease, get_pending_version, lease_value, get_co_lease}
use rejig.Items.Trans.Lists.{assoc_tid_lease, assoc_key_tid, remove_tid_lease}
use rejig.Items.Store.{StoreResult, exists, not_found}

-- An item found is unlinked and given back.
abbrev pub drop_item : Option ℕ → M (Unit {0})
drop_item it = whenever it (λ a. item_unlink a >> item_remove a)

-- The update of the expiry at the end of `item_quarantine_and_register`.
unfoldable pub copy_exptime : ℕ → ℕ → M (Unit {0})
copy_exptime a l = do it ← load a; li ← load l; store a (record it { exptime = li.exptime })

-- An I lease on the key is voided; a Q lease is kept.
unfoldable pub void_i_lease : Option ℕ → M (Option ℕ)
void_i_lease none = pure none
void_i_lease (some l) = do
  li ← load l
  (if li.i_lease then (item_unlink l >> (item_remove l >> pure none)) else pure (some l))

-- `item_quarantine_and_register`: `*markedVal` is 1 and the status is MC_OK on every path.
unfoldable pub quarantine_and_register : List ℕ → List ℕ → M (Unit {0})
quarantine_and_register tid key = do
  trans_it ← item_get tid
  found ← get_lease key
  lease_it ← void_i_lease found
  assoc_tid_lease lease_it key tid
  assoc_key_tid trans_it key tid
  whenever lease_it item_remove
  it ← item_get key
  lease_it' ← get_lease key
  whenever it (λ a. whenever lease_it' (copy_exptime a) >> item_remove a)
  whenever lease_it' item_remove
  whenever trans_it item_remove

-- `item_get_and_unlease`: the lease with that token goes.
unfoldable pub get_and_unlease : List ℕ → ℕ → M (Unit {0})
get_and_unlease key token_val = do
  lease_it ← get_lease key
  elim lease_it [
    | none ↦ pure tt
    | some l ↦ do
      li ← load l
      (if lease_value li == token_val
          then (do
            check (not li.q_inv_lease)
            check (not li.q_inc_lease)
            item_unlink l
            item_remove l)
          else item_remove l)
  ]

-- `item_get_and_delete`
unfoldable pub get_and_delete : List ℕ → Bool → M StoreResult
get_and_delete key delete_lease = do
  when delete_lease (do
    lease_it ← get_lease key
    drop_item lease_it
    pv_it ← get_pending_version key
    drop_item pv_it
    colease_it ← get_co_lease key
    drop_item colease_it)
  it ← item_get key
  drop_item it
  pure (if is_some it then exists else not_found)
