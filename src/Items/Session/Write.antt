-- ===== src/Items/Session/Write.antt =====
-- Writes of sessions: `item_oqswap`, `item_oqwrite`, the increments and appends, and `item_oqreg` of
-- IQ-Twemcached/src/mc_items.c.
use rejig.Prelude.{
  ℕ, ◌+◌, ◌++◌, ◌==◌, ltb, not, Bool, true, false, Option, none, some, List, length, if◌then◌else◌,
}
use rejig.Items.Monad.{M, ◌>>=◌, ◌>>◌, pure, check, load, when, whenever, deref}
use rejig.Items.Refcount.{is_some, has_co_lease, item_unlink, item_remove}
use rejig.Items.Alloc.{item_alloc, item_slabid}
use rejig.Items.Get.{
  item_get, get_lease, get_co_lease, get_pending_version, lease_key, version_key,
  create_pending_version, create_reserved_item, copy_data,
}
use rejig.Items.Store.{item_store, Req}
use rejig.Items.Iqget.{lists_key}
use rejig.Items.Trans.{drop_item}
use rejig.Items.Trans.Lists.{set_q_inv_lease}
use rejig.Items.Trans.Incr.{DeltaResult, Update, add_delta, append, prepend, item_add_delta}
use rejig.Util.{strtoull_len}
use rejig.Items.Session.{
  is_ok, co_novalue, CoResult, co_ok, co_abort, co_invalid, o_lease_inv_kind, o_lease_ref_kind,
  has_o_lease, is_aborted, assoc_key_sid, assoc_sid_colease,
}
use rejig.Items.Session.Abort.{abort_sessions, clean_session}

-- A pending version with the bytes of an item, stored; it still carries the maker's reference.
unfoldable pub make_version : ℕ → M ℕ
make_version a = do
  created ← create_pending_version a
  pv ← deref created
  it ← load a
  copy_data pv it.value
  _ ← item_store pv Req.set 0
  pure pv

-- From the look-up of the lease on, in `item_oqswap`.
unfoldable pub oqswap_value : ℕ → M CoResult
oqswap_value a = do
  it ← load a
  lease_it ← get_lease it.key
  held ← elim lease_it [ none ↦ pure false | some l ↦ do li ← load l; pure li.q_ref_lease ]
  (if held
      then (do
        drop_item lease_it
        (if length it.value == 0
            then pure co_invalid
            else (do pv ← make_version a; item_remove pv; pure co_ok)))
      else (whenever lease_it item_remove >> pure co_invalid))

-- `item_oqswap`
unfoldable pub item_oqswap : List ℕ → ℕ → M CoResult
item_oqswap sid a = do
  aborted ← is_aborted sid
  (if aborted then pure co_abort else (do
    it ← load a
    colease_it ← get_co_lease it.key
    elim colease_it [
      | none ↦ pure co_abort
      | some o ↦ do
        oi ← load o
        (if oi.c_lease
            then (item_remove o >> pure co_abort)
            else (if has_o_lease oi
                then (do
                  listed ← lists_key (some o) sid
                  (if listed
                      then (item_remove o >> oqswap_value a)
                      else (item_unlink o >> (item_remove o >> pure co_abort))))
                else (item_unlink o >> (item_remove o >> pure co_invalid))))
    ]))

-- The value of `item_oqwrite`, and the end.
unfoldable pub oqwrite_value : List ℕ → ℕ → M CoResult
oqwrite_value sid a = do
  it ← load a
  (if length it.value == 0
      then (do pv_it ← get_pending_version it.key; drop_item pv_it)
      else (do pv ← make_version a; item_remove pv))
  sess_it ← item_get sid
  assoc_key_sid sess_it it.key sid
  whenever sess_it item_remove
  pure co_ok

-- The session holds the O lease: its Q lease goes.
unfoldable pub oqwrite_held : List ℕ → ℕ → M CoResult
oqwrite_held sid a = do
  it ← load a
  lease_it ← get_lease it.key
  other ← elim lease_it [ none ↦ pure false | some l ↦ do li ← load l; pure (not li.q_ref_lease) ]
  (if other
      then (whenever lease_it item_remove >> pure co_invalid)
      else (drop_item lease_it >> oqwrite_value sid a))

-- No session holds a lease any more.
unfoldable pub oqwrite_new : List ℕ → ℕ → M CoResult
oqwrite_new sid a = do
  it ← load a
  assoc_sid_colease none it.key sid o_lease_ref_kind
  oqwrite_value sid a

-- `item_oqwrite`
unfoldable pub item_oqwrite : List ℕ → ℕ → M CoResult
item_oqwrite sid a = do
  aborted ← is_aborted sid
  (if aborted then pure co_abort else (do
    it ← load a
    colease_it ← get_co_lease it.key
    elim colease_it [
      | none ↦ oqwrite_new sid a
      | some o ↦ do
        oi ← load o
        (if oi.c_lease
            then (do
              abort_sessions o sid
              item_unlink o
              item_remove o
              lease_it ← get_lease it.key
              drop_item lease_it
              oqwrite_new sid a)
            else (do
              check (has_o_lease oi)
              listed ← lists_key (some o) sid
              item_remove o
              (if listed then oqwrite_held sid a else (clean_session sid >> pure co_abort))))
    ]))

-- `_item_append_prepend_co`
unfoldable pub join_co : Bool → ℕ → List ℕ → M CoResult
join_co right pv bytes = do
  pi ← load pv
  check (ltb 0 (length pi.value))
  id ← item_slabid (length pi.key) (length pi.value + length bytes)
  nit ← item_alloc false id pi.key pi.dataflags pi.exptime (length pi.value + length bytes)
  elim nit [
    | none ↦ pure co_abort
    | some n ↦ do
      pi' ← load pv
      copy_data n (if right then bytes ++ pi'.value else pi'.value ++ bytes)
      _ ← item_store n Req.set 0
      item_remove n
      pure co_ok
  ]

-- `_item_add_delta_co`
abbrev pub co_of_delta : DeltaResult → CoResult
co_of_delta DeltaResult.eom = co_abort
co_of_delta DeltaResult.non_numeric = co_abort
co_of_delta DeltaResult.ok = co_ok
co_of_delta DeltaResult.not_found = co_ok

-- The pending version is updated; an append has no status of its own.
unfoldable pub update_co : List ℕ → Option ℕ → Update → M CoResult
update_co key pv_it (add_delta incr delta) = do
  r ← item_add_delta (version_key key) incr delta
  pure (co_of_delta r)
update_co key pv_it (append bytes) =
    whenever pv_it (λ pv. do _ ← join_co false pv bytes; pure tt) >> pure co_ok
update_co key pv_it (prepend bytes) =
    whenever pv_it (λ pv. do _ ← join_co true pv bytes; pure tt) >> pure co_ok

-- The pending version of a key, made from its value if there is none.
unfoldable pub version_of : List ℕ → Option ℕ → M (Option ℕ)
version_of key it = do
  pv_it ← get_pending_version key
  elim pv_it [
    | some pv ↦ pure (some pv)
    | none ↦ elim it [
      | none ↦ pure none
      | some a ↦ do i ← load a; check (ltb 0 (length i.value)); pv ← make_version a; pure (some pv)
    ]
  ]

abbrev pub remove_linked : ℕ → M (Unit {0})
remove_linked a = do it ← load a; when it.linked (item_remove a)

-- From the look-up of the value on; a Q lease on the key leaves the pending version alone.
unfoldable pub oq_version : List ℕ → List ℕ → Option ℕ → Update → M CoResult
oq_version sid key colease_it update = do
  it ← item_get key
  lease_it ← get_lease key
  free ← elim lease_it [ none ↦ pure true | some l ↦ do li ← load l; pure li.i_lease ]
  when free (whenever lease_it item_unlink)
  pv_it ← (if free then version_of key it else pure none)
  ret ← (if free then update_co key pv_it update else pure co_ok)
  when (not (is_some colease_it)) (assoc_sid_colease none key sid o_lease_ref_kind)
  sess_it ← item_get sid
  assoc_key_sid sess_it key sid
  whenever sess_it item_remove
  whenever it remove_linked
  whenever pv_it remove_linked
  whenever lease_it item_remove
  whenever colease_it item_remove
  pure ret

-- `_item_oqincr_oqdecr` and `item_oqappend_oqprepend`
unfoldable pub item_oqupdate : List ℕ → List ℕ → Update → M CoResult
item_oqupdate sid key update = do
  aborted ← is_aborted sid
  (if aborted then pure co_abort else (do
    colease_it ← get_co_lease key
    elim colease_it [
      | none ↦ oq_version sid key none update
      | some o ↦ do
        oi ← load o
        check (has_co_lease oi)
        (if oi.c_lease
            then (do
              abort_sessions o sid
              item_unlink o
              item_remove o
              oq_version sid key none update)
            else (do
              listed ← lists_key (some o) sid
              (if listed
                  then oq_version sid key (some o) update
                  else (item_remove o >> (clean_session sid >> pure co_abort)))))
    ]))

-- The Q lease for invalidation that `item_oqreg` takes where there is none but an I lease.
unfoldable pub oqreg_lease : List ℕ → M (Unit {0})
oqreg_lease key = do
  lease_it ← get_lease key
  absent ← elim lease_it [ none ↦ pure true | some l ↦ do li ← load l; pure li.i_lease ]
  when absent (drop_item lease_it)
  it ← item_get key
  whenever it item_remove
  when absent (do
    created ← create_reserved_item (lease_key key) 0
    l ← deref created
    set_q_inv_lease l
    _ ← item_store l Req.set 0
    item_remove l)

-- The O lease for invalidation; the lease that the caller still refers to is returned.
unfoldable pub oqreg_colease : List ℕ → List ℕ → M (Option ℕ)
oqreg_colease sid key = do
  found ← get_co_lease key
  colease_it ← elim found [
    | some o ↦ pure (some o)
    | none ↦ (assoc_sid_colease none key sid o_lease_inv_kind >> get_co_lease key)
  ]
  o ← deref colease_it
  oi ← load o
  check (has_co_lease oi)
  (if oi.c_lease
      then (do
        abort_sessions o sid
        item_unlink o
        item_remove o
        assoc_sid_colease none key sid o_lease_inv_kind
        pure none)
      else pure (some o))

-- `item_oqreg`
unfoldable pub item_oqreg : List ℕ → List ℕ → M CoResult
item_oqreg sid key = do
  aborted ← is_aborted sid
  (if aborted then pure co_abort else (do
    oqreg_lease key
    colease_it ← oqreg_colease sid key
    sess_it ← item_get sid
    assoc_key_sid sess_it key sid
    whenever sess_it item_remove
    whenever colease_it item_remove
    pure co_ok))

-- `item_oqincr_oqdecr`: the status, and `*val` where the pending version is a number.
unfoldable pub item_oqincr : List ℕ → List ℕ → Bool → ℕ → M (CoResult × Option ℕ)
item_oqincr sid key incr delta = do
  ret ← item_oqupdate sid key (add_delta incr delta)
  pv_it ← get_pending_version key
  val ← elim pv_it [ none ↦ pure none | some pv ↦ do pi ← load pv; pure (strtoull_len pi.value) ]
  whenever pv_it item_remove
  pure (
      if not (is_ok ret)
      then (ret, none)
      else (if is_some pv_it then (ret, val) else (co_novalue, none)))
