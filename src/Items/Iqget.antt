-- ===== src/Items/Iqget.antt =====
-- `item_iqget` of IQ-Twemcached/src/mc_items.c: a read that is given the value, or the I lease that
-- entitles to compute it, or is sent back because somebody else holds a lease.
use rejig.Prelude.{
  ℕ, Bool, true, false, ◌&&◌, ◌||◌, Option, none, some, List, ◌==◌, ltb, length, if◌then◌else◌,
}
use rejig.Keylist
use rejig.Keylist.{check_keylist, narrow}
use rejig.Items.Monad.{M, ◌>>=◌, ◌>>◌, pure, fault, check, load, store, when, whenever, deref}
use rejig.Items.Refcount.{is_some, acquire_refcount, item_unlink, item_remove, item_touch}
use rejig.Items.Get.{
  item_get, get_lease, get_pending, get_pending_version, lease_value, create_lease,
}
use rejig.Items.Store.{item_store, Req}

pub data IqResult : Type 0 where
  value no_value lease lease_no_value no_lease abort miss client_error server_error ok not_found :
      IqResult

-- `LEASE_HOTMISS`
abbrev pub hotmiss : ℕ
hotmiss = 3

-- What a branch leaves in `status`, `*item`, `*new_lease_token` and `lease_it`.
pub record Outcome : Type 0 where
  pub status : IqResult
  pub item : Option ℕ
  pub new_token : Option ℕ
  pub lease_it : Option ℕ

-- Does the key list of the item hold the key?
unfoldable pub lists_key : Option ℕ → List ℕ → M Bool
lists_key none key = pure false
lists_key (some t) key = do
  it ← load t
  elim (check_keylist it.value (narrow key)) [
    | none ↦ fault
    | some Keylist.ok ↦ pure true
    | some Keylist.queued ↦ pure false
    | some Keylist.error ↦ pure false
    | some Keylist.not_found ↦ pure false
  ]

-- `item_set_i_lease`
unfoldable pub set_i_lease : ℕ → M (Unit {0})
set_i_lease a = do it ← load a; store a (record it { i_lease = true })

-- `lease_it->p = pending`
unfoldable pub set_pending : ℕ → ℕ → M (Unit {0})
set_pending a pending = do it ← load a; store a (record it { p = pending })

-- No lease is there: an I lease is made and handed out. With `override` the item goes.
unfoldable pub grant_lease : List ℕ → Option ℕ → ℕ → M Outcome
grant_lease key old pending = do
  (created, token) ← create_lease key
  elim created [
    | none ↦
        pure
          (record { status = server_error; item = none; new_token = some token; lease_it = none })
    | some l ↦ do
      set_i_lease l
      whenever old item_unlink
      _ ← item_store l Req.set 0
      set_pending l pending
      pure (record { status = lease; item = some l; new_token = some token; lease_it = some l })
  ]

-- A lease is there: its holder is told to compute the value, all others to come back.
unfoldable pub meet_lease : ℕ → ℕ → ℕ → M Outcome
meet_lease l lease_token pending = do
  set_pending l pending
  it ← load l
  pure (
      if lease_value it == lease_token
      then record { status = no_value; item = some l; new_token = none; lease_it = some l }
      else record { status = miss; item = some l; new_token = some hotmiss; lease_it = some l })

unfoldable pub lease_or_meet : List ℕ → Option ℕ → Option ℕ → ℕ → ℕ → M Outcome
lease_or_meet key old none lease_token pending = grant_lease key old pending
lease_or_meet key old (some l) lease_token pending = meet_lease l lease_token pending

-- Is it the Q lease for refresh that the caller holds?
unfoldable pub is_own_refresh : Option ℕ → ℕ → M Bool
is_own_refresh none lease_token = pure false
is_own_refresh (some l) lease_token = do
  it ← load l
  pure (it.q_ref_lease && lease_value it == lease_token)

-- The key is none of the transaction's.
unfoldable pub iqget_apart : List ℕ → Option ℕ → ℕ → ℕ → Bool → M Outcome
iqget_apart key none lease_token pending override = do
  lease_it ← get_lease key
  lease_or_meet key none lease_it lease_token pending
iqget_apart key (some a) lease_token pending override = do
  i ← load a
  check (ltb 0 (length i.value))
  lease_it ← get_lease key
  own ← is_own_refresh lease_it lease_token
  (if own
      then pure (record { status = no_value; item = none; new_token = none; lease_it = lease_it })
      else (if override then lease_or_meet key (some a) lease_it lease_token pending else (do
        item_touch a
        pure (record { status = value; item = some a; new_token = none; lease_it = lease_it }))))

-- The transaction updates the key itself. With `foreground` the code counts the hit under
-- `it->id`, and follows `it` without a test.
unfoldable pub iqget_own : List ℕ → Option ℕ → Bool → M Outcome
iqget_own key it foreground = do
  lease_it ← get_lease key
  elim lease_it [
    | none ↦ pure (record { status = no_value; item = none; new_token = none; lease_it = none })
    | some l ↦ do
      li ← load l
      check (li.q_inv_lease || li.q_inc_lease)
      (if li.q_inv_lease
          then pure (record { status = no_value; item = none; new_token = none; lease_it = some l })
          else (do
            pv_it ← get_pending_version key
            elim pv_it [
              | none ↦
                  pure
                    (record { status = no_value; item = none; new_token = none; lease_it = some l })
              | some pv ↦ do
                pi ← load pv
                check (ltb 0 (length pi.value))
                when foreground (do _ ← deref it; pure tt)
                pure
                    (record { status = value; item = some pv; new_token = none; lease_it = some l })
            ]))
  ]

-- The pending mark of a key: of the item, or of the item that stands for it.
unfoldable pub pending_mark : List ℕ → Option ℕ → M ℕ
pending_mark key none = do
  pending_it ← get_pending key
  whenever pending_it item_remove
  pure (if is_some pending_it then 1 else 0)
pending_mark key (some a) = do it ← load a; pure it.p

-- `item_iqget`; an empty `tid` is none.
unfoldable pub item_iqget : List ℕ → ℕ → List ℕ → Bool → Bool → M Outcome
item_iqget key lease_token tid override foreground = do
  trans_it ← (if length tid == 0 then pure none else item_get tid)
  it ← item_get key
  pending ← pending_mark key it
  own ← lists_key trans_it key
  r ← (if own then iqget_own key it foreground else iqget_apart key it lease_token pending override)
  whenever r.item acquire_refcount
  whenever trans_it item_remove
  whenever it item_remove
  whenever r.lease_it item_remove
  pure r
