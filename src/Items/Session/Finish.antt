-- ===== src/Items/Session/Finish.antt =====
-- How a session ends: `item_dcommit`, `item_validate` and `item_co_unlease` of
-- IQ-Twemcached/src/mc_items.c.
use rejig.Prelude.{ℕ, Bool, true, false, Option, none, some, List, [], ◌∷◌, length, if◌then◌else◌}
use rejig.Keylist.{Key}
use rejig.Keylist.Cursor.{keys_of}
use rejig.Items.Monad.{M, ◌>>=◌, ◌>>◌, pure, fault, load, store, when, whenever, deref}
use rejig.Items.Refcount.{item_unlink, item_remove}
use rejig.Items.Alloc.{item_alloc, item_slabid}
use rejig.Items.Get.{item_get, get_lease, get_co_lease, get_pending_version, copy_data}
use rejig.Items.Store.{item_store, Req}
use rejig.Items.Iqget.{lists_key}
use rejig.Items.Trans.{drop_item}
use rejig.Items.Trans.Finish.{for_keys}
use rejig.Items.Session.{CoResult, co_ok, co_abort, co_not_found, drop_session, remove_sid_colease}
use rejig.Items.Session.Abort.{clean_key, clean_session}

-- The pending version becomes the value, and goes.
unfoldable pub promote_version : Key → ℕ → M (Unit {0})
promote_version key pv = do
  pi ← load pv
  id ← item_slabid (length key) (length pi.value)
  created ← item_alloc false id key pi.dataflags 0 (length pi.value)
  new_it ← deref created
  pi' ← load pv
  copy_data new_it pi'.value
  _ ← item_store new_it Req.set 0
  item_remove new_it
  item_unlink pv
  item_remove pv

-- `it->exptime = 0`
unfoldable pub never_expire : ℕ → M (Unit {0})
never_expire a = do it ← load a; store a (record it { exptime = 0 })

-- What a commit does to the value, by the kind of the lease.
unfoldable pub commit_leased : Key → Option ℕ → ℕ → M (Unit {0})
commit_leased key it o = do
  oi ← load o
  (if oi.o_lease_inv
      then whenever it item_unlink
      else (if oi.o_lease_ref
          then (do
            pv_it ← get_pending_version key
            elim pv_it [ some pv ↦ promote_version key pv | none ↦ whenever it item_unlink ])
          else when oi.c_lease (whenever it never_expire)))

-- One round of the loop of `item_dcommit`.
unfoldable pub dcommit_key : List ℕ → Key → M (Unit {0})
dcommit_key sid key = do
  it ← item_get key
  lease_it ← get_lease key
  drop_item lease_it
  colease_it ← get_co_lease key
  whenever colease_it
      (λ o. do commit_leased key it o; remove_sid_colease (some o) key sid; item_remove o)
  whenever it item_remove

-- `item_dcommit`, which leaves the pin of the session's item.
unfoldable pub item_dcommit : List ℕ → M CoResult
item_dcommit sid = do
  sess_it ← item_get sid
  elim sess_it [
    | none ↦ pure co_not_found
    | some s ↦ do
      si ← load s
      (if si.aborted
          then (drop_session s >> pure co_abort)
          else (do for_keys s (dcommit_key sid); item_unlink s; item_remove s; pure co_ok))
  ]

-- The loop of `item_validate`: is the session in every lease on its keys?
unfoldable pub valid_keys : List ℕ → List Key → M Bool
valid_keys sid [] = pure true
valid_keys sid (key ∷ rest) = do
  colease_it ← get_co_lease key
  listed ← elim colease_it [ none ↦ pure true | some o ↦ lists_key (some o) sid ]
  whenever colease_it item_remove
  valid ← valid_keys sid rest
  pure (if listed then valid else false)

-- `item_validate`
unfoldable pub item_validate : List ℕ → M CoResult
item_validate sid = do
  sess_it ← item_get sid
  elim sess_it [
    | none ↦ pure co_abort
    | some s ↦ do
      si ← load s
      (if si.aborted then (drop_session s >> pure co_abort) else (do
        item_remove s
        si' ← load s
        elim (keys_of si'.value) [
          | none ↦ fault
          | some keys ↦ do
            valid ← valid_keys sid keys
            (if valid then pure co_ok else (clean_session sid >> pure co_abort))
        ]))
  ]

-- `item_co_unlease`
unfoldable pub item_co_unlease : List ℕ → M CoResult
item_co_unlease sid = do
  sess_it ← item_get sid
  elim sess_it [
    | none ↦ pure co_not_found
    | some s ↦ do
      si ← load s
      (if si.aborted
          then (drop_session s >> pure co_abort)
          else (do for_keys s (clean_key sid); drop_session s; pure co_ok))
  ]
