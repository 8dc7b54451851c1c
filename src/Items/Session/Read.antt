-- ===== src/Items/Session/Read.antt =====
-- Reads of sessions: `item_ciget` and `item_oqread` of IQ-Twemcached/src/mc_items.c.
use rejig.Prelude.{
  ℕ, zero, suc, ◌-◌, [], ◌∷◌, Ordering, drop, ◌==◌, ◌||◌, Bool, true, false, Option, none, some,
  List, length, if◌then◌else◌,
}
use rejig.Keylist
use rejig.Keylist.{compare_entry, narrow}
use rejig.Items.Monad.{M, ◌>>=◌, ◌>>◌, pure, fault, check, load, whenever, deref}
use rejig.Items.Refcount.{has_q_lease, item_unlink, item_remove}
use rejig.Items.Get.{
  item_get, get_lease, get_co_lease, get_pending_version, lease_key, lease_value, create_lease,
  create_reserved_item,
}
use rejig.Items.Store.{item_store, Req}
use rejig.Items.Iqget.{lists_key, set_i_lease}
use rejig.Items.Trans.{copy_exptime}
use rejig.Items.Trans.Swap.{set_q_ref_lease}
use rejig.Items.Session.{
  is_ok, CoResult, co_ok, co_abort, co_retry, c_lease_kind, o_lease_ref_kind, has_o_lease,
  is_aborted, assoc_key_sid, assoc_sid_colease,
}
use rejig.Items.Session.Abort.{abort_sessions, clean_session}

-- The status, `*item` and `*new_lease_token`.
pub record CoOutcome : Type 0 where
  pub status : CoResult
  pub item : Option ℕ
  pub new_token : Option ℕ

abbrev pub told_co : CoResult → Option ℕ → CoOutcome
told_co status item = record { status = status; item = item; new_token = none }

-- An O lease on the key: its holder reads the pending version.
unfoldable pub meet_o_lease : List ℕ → List ℕ → ℕ → M CoOutcome
meet_o_lease sid key o = do
  listed ← lists_key (some o) sid
  (if listed
      then (do it ← get_pending_version key; item_remove o; pure (told_co co_ok it))
      else (item_remove o >> (clean_session sid >> pure (told_co co_abort none))))

-- `trig_check_keylist` on the data of an item, where `it_listlen` is less than the data: it bounds
-- where an entry starts, and the entry is read in full. A read past the data is `none`.
pub check_first_loop : ℕ → ℕ → List ℕ → List ℕ → Option Keylist.Status
check_first_loop fuel zero bytes key = some Keylist.not_found
check_first_loop zero (suc left) bytes key = none
check_first_loop (suc fuel) (suc left) [] key = none
check_first_loop (suc fuel) (suc left) (n ∷ rest) key = elim (compare_entry n rest key) [
  | none ↦ none
  | some Ordering.eq ↦ some Keylist.ok
  | some Ordering.lt ↦ some Keylist.not_found
  | some Ordering.gt ↦ check_first_loop fuel (left - n) (drop n rest) key
]

-- A round takes a byte at least of `it_listlen`, which is fuel enough.
unfoldable pub check_first : ℕ → List ℕ → List ℕ → Option Keylist.Status
check_first it_listlen bytes key = check_first_loop it_listlen it_listlen bytes key

-- Does the session list the key in an entry that starts in its first bytes, as many as the sid has?
unfoldable pub lists_short : Option ℕ → ℕ → List ℕ → M Bool
lists_short none nsid key = pure false
lists_short (some s) nsid key = do
  it ← load s
  elim (check_first nsid it.value (narrow key)) [
    | none ↦ fault
    | some Keylist.ok ↦ pure true
    | some Keylist.queued ↦ pure false
    | some Keylist.error ↦ pure false
    | some Keylist.not_found ↦ pure false
  ]

-- A Q lease on the key: a session that has the key reads its value.
unfoldable pub meet_q : List ℕ → List ℕ → M CoOutcome
meet_q sid key = do
  sess_it ← item_get sid
  listed ← lists_short sess_it (length sid) key
  it ← (if listed then item_get key else pure none)
  whenever sess_it item_remove
  pure (told_co (if listed then co_ok else co_retry) it)

-- The value, or an I lease where there is none.
unfoldable pub value_or_lease : List ℕ → M CoOutcome
value_or_lease key = do
  it ← item_get key
  elim it [
    | some a ↦ pure (told_co co_ok (some a))
    | none ↦ do
      (created, token) ← create_lease key
      elim created [
        | none ↦ pure (record { status = co_ok; item = none; new_token = some token })
        | some l ↦ do
          set_i_lease l
          _ ← item_store l Req.set 0
          pure (record { status = co_ok; item = some l; new_token = some token })
      ]
  ]

-- A C lease is granted.
unfoldable pub grant_c_lease : List ℕ → List ℕ → Option ℕ → M CoOutcome
grant_c_lease sid key colease_it = do
  sess_it ← item_get sid
  assoc_key_sid sess_it key sid
  r ← value_or_lease key
  whenever colease_it (λ o. do oi ← load o; check oi.c_lease)
  assoc_sid_colease colease_it key sid c_lease_kind
  whenever colease_it item_remove
  whenever sess_it item_remove
  pure r

-- From the look-up of an I or a Q lease on.
unfoldable pub ciget_lease : List ℕ → List ℕ → ℕ → Option ℕ → M CoOutcome
ciget_lease sid key lease_token colease_it = do
  iqlease_it ← get_lease key
  elim iqlease_it [
    | none ↦ grant_c_lease sid key colease_it
    | some l ↦ do
      li ← load l
      (if li.i_lease
          then (do
            item_remove l
            whenever colease_it item_remove
            pure (told_co (if lease_value li == lease_token then co_ok else co_retry) none))
          else (if has_q_lease li
              then (do r ← meet_q sid key; item_remove l; whenever colease_it item_remove; pure r)
              else grant_c_lease sid key colease_it))
  ]

-- `item_ciget`
unfoldable pub item_ciget : List ℕ → List ℕ → ℕ → M CoOutcome
item_ciget sid key lease_token = do
  aborted ← is_aborted sid
  (if aborted then pure (told_co co_abort none) else (do
    colease_it ← get_co_lease key
    elim colease_it [
      | none ↦ ciget_lease sid key lease_token none
      | some o ↦ do
        oi ← load o
        (if has_o_lease oi
            then meet_o_lease sid key o
            else ciget_lease sid key lease_token (some o))
    ]))

-- The Q lease for refresh that `item_oqread` takes, and the value. A Q lease for refresh that is
-- there is given back twice.
unfoldable pub take_q_ref_lease : List ℕ → M CoOutcome
take_q_ref_lease key = do
  lease_it ← get_lease key
  found ← elim lease_it [ none ↦ pure false | some l ↦ do li ← load l; pure li.q_ref_lease ]
  (if found
      then (do
        whenever lease_it item_remove
        whenever lease_it item_remove
        pure (told_co co_abort none))
      else (do
        it ← item_get key
        created ← create_reserved_item (lease_key key) 0
        l ← deref created
        set_q_ref_lease l
        _ ← item_store l Req.set 0
        whenever it (λ a. copy_exptime a l)
        item_remove l
        pure (told_co co_ok it)))

-- From the look-up of the lease on.
unfoldable pub oqread_value : List ℕ → List ℕ → M CoOutcome
oqread_value sid key = do
  r ← take_q_ref_lease key
  (if is_ok r.status
      then (do
        sess_it ← item_get sid
        assoc_key_sid sess_it key sid
        colease_it ← get_co_lease key
        assoc_sid_colease colease_it key sid o_lease_ref_kind
        pure r)
      else pure r)

-- `item_oqread`
unfoldable pub item_oqread : List ℕ → List ℕ → M CoOutcome
item_oqread sid key = do
  aborted ← is_aborted sid
  (if aborted then pure (told_co co_abort none) else (do
    colease_it ← get_co_lease key
    elim colease_it [
      | none ↦ oqread_value sid key
      | some o ↦ do
        oi ← load o
        check (oi.c_lease || has_o_lease oi)
        (if oi.c_lease
            then (do abort_sessions o sid; item_unlink o; item_remove o; oqread_value sid key)
            else (do
              listed ← lists_key (some o) sid
              (if listed
                  then (do it ← item_get key; item_remove o; pure (told_co co_ok it))
                  else (item_remove o >> (clean_session sid >> pure (told_co co_abort none))))))
    ]))
