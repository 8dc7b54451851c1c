-- ===== src/Items/Coherent/Writing.antt =====
-- Writes of sessions keep the hash and the items in agreement: `item_oqswap`, `item_oqwrite`, the
-- increments and appends, and `item_oqreg` of IQ-Twemcached/src/mc_items.c.
use rejig.Prelude.{
  ℕ, ◌+◌, ◌++◌, ◌==◌, ltb, not, Bool, true, false, Option, none, some, List, length, if◌then◌else◌,
  negsuc,
}
use rejig.Items.Refcount.{is_some, has_co_lease}
use rejig.Items.Get.{lease_key, version_key, co_lease_key}
use rejig.Items.Store.{Req}
use rejig.Items.Trans.Incr.{Update, add_delta, append, prepend}
use rejig.Util.{strtoull_len}
use rejig.Items.Session.{
  is_ok, co_novalue, co_ok, co_abort, co_invalid, o_lease_inv_kind, o_lease_ref_kind, has_o_lease,
}
use rejig.Items.Session.Write.{
  item_oqincr, make_version, oqswap_value, item_oqswap, oqwrite_value, oqwrite_held, oqwrite_new,
  item_oqwrite, join_co, co_of_delta, update_co, version_of, remove_linked, oq_version,
  item_oqupdate, oqreg_lease, oqreg_colease, item_oqreg,
}
use rejig.Items.Coherent.{
  Keep, next, bind, check-Keep, when-Keep, whenever-Keep, load-Keep, pure-Keep, if-Keep,
  either-Keep, deref-Keep,
}
use rejig.Items.Coherent.Linking.{item_unlink-Keep, item_remove-Keep}
use rejig.Items.Coherent.Allocating.{item_alloc_config-Keep, item_slabid-Keep}
use rejig.Items.Coherent.Storing.{
  item_get-Keep, item_store-Keep, copy_data-Keep, create_pending_version-Keep,
  create_reserved_item-Keep,
}
use rejig.Items.Coherent.Leasing.{lists_key-Keep}
use rejig.Items.Coherent.Listing.{drop_item-Keep, set_q_inv_lease-Keep}
use rejig.Items.Coherent.Counting.{item_add_delta-Keep}
use rejig.Items.Coherent.Sessions.{
  is_aborted-Keep, assoc_key_sid-Keep, assoc_sid_colease-Keep, abort_sessions-Keep,
  clean_session-Keep,
}

make_version-Keep : (a : ℕ) → Keep (make_version a)
unfolding make_version
make_version-Keep a = bind (create_pending_version-Keep a) (λ created.
    bind (deref-Keep created) (λ pv. bind (load-Keep a) (λ it.
      next (copy_data-Keep pv it.value) (bind (item_store-Keep pv Req.set 0) (λ _. pure-Keep pv)))))

oqswap_value-Keep : (a : ℕ) → Keep (oqswap_value a)
unfolding oqswap_value
oqswap_value-Keep a = bind (load-Keep a) (λ it. bind (item_get-Keep (lease_key it.key)) (λ lease_it.
    bind
      (either-Keep lease_it (pure-Keep false)
        (λ l. bind (load-Keep l) (λ li. pure-Keep li.q_ref_lease)))
      (λ held.
        if-Keep held
          (next (drop_item-Keep lease_it) (
            if-Keep (length it.value == 0) (pure-Keep co_invalid)
              (bind (make_version-Keep a) (λ pv. next (item_remove-Keep pv) (pure-Keep co_ok)))))
          (next (whenever-Keep lease_it item_remove-Keep) (pure-Keep co_invalid)))))

pub item_oqswap-Keep : (sid : List ℕ) (a : ℕ) → Keep (item_oqswap sid a)
unfolding item_oqswap
item_oqswap-Keep sid a = bind (is_aborted-Keep sid) (λ aborted.
    if-Keep aborted (pure-Keep co_abort) (
      bind (load-Keep a) (λ it. bind (item_get-Keep (co_lease_key it.key)) (λ colease_it.
        either-Keep colease_it (pure-Keep co_abort) (λ o. bind (load-Keep o) (λ oi.
          if-Keep oi.c_lease (next (item_remove-Keep o) (pure-Keep co_abort)) (
            if-Keep (has_o_lease oi)
              (bind (lists_key-Keep (some o) sid) (λ listed.
                if-Keep listed (next (item_remove-Keep o) (oqswap_value-Keep a))
                  (next (item_unlink-Keep o) (next (item_remove-Keep o) (pure-Keep co_abort)))))
              (next (item_unlink-Keep o) (next (item_remove-Keep o) (pure-Keep co_invalid))))))))))

oqwrite_value-Keep : (sid : List ℕ) (a : ℕ) → Keep (oqwrite_value sid a)
unfolding oqwrite_value
oqwrite_value-Keep sid a = bind (load-Keep a) (λ it.
    next
      (if-Keep (length it.value == 0) (bind (item_get-Keep (version_key it.key)) drop_item-Keep)
        (bind (make_version-Keep a) item_remove-Keep))
      (bind (item_get-Keep sid) (λ sess_it.
        next (assoc_key_sid-Keep sess_it it.key sid)
          (next (whenever-Keep sess_it item_remove-Keep) (pure-Keep co_ok)))))

oqwrite_held-Keep : (sid : List ℕ) (a : ℕ) → Keep (oqwrite_held sid a)
unfolding oqwrite_held
oqwrite_held-Keep sid a = bind (load-Keep a) (λ it.
    bind (item_get-Keep (lease_key it.key)) (λ lease_it.
      bind
        (either-Keep lease_it (pure-Keep false)
          (λ l. bind (load-Keep l) (λ li. pure-Keep (not li.q_ref_lease))))
        (λ other.
          if-Keep other (next (whenever-Keep lease_it item_remove-Keep) (pure-Keep co_invalid))
            (next (drop_item-Keep lease_it) (oqwrite_value-Keep sid a)))))

oqwrite_new-Keep : (sid : List ℕ) (a : ℕ) → Keep (oqwrite_new sid a)
unfolding oqwrite_new
oqwrite_new-Keep sid a = bind (load-Keep a) (λ it.
    next (assoc_sid_colease-Keep none it.key sid o_lease_ref_kind) (oqwrite_value-Keep sid a))

pub item_oqwrite-Keep : (sid : List ℕ) (a : ℕ) → Keep (item_oqwrite sid a)
unfolding item_oqwrite
item_oqwrite-Keep sid a = bind (is_aborted-Keep sid) (λ aborted.
    if-Keep aborted (pure-Keep co_abort) (
      bind (load-Keep a) (λ it. bind (item_get-Keep (co_lease_key it.key)) (λ colease_it.
        either-Keep colease_it (oqwrite_new-Keep sid a) (λ o. bind (load-Keep o) (λ oi.
          if-Keep oi.c_lease
            (next (abort_sessions-Keep o sid) (
              next (item_unlink-Keep o) (
                next (item_remove-Keep o) (
                  bind (item_get-Keep (lease_key it.key))
                    (λ lease_it. next (drop_item-Keep lease_it) (oqwrite_new-Keep sid a))))))
            (next (check-Keep (has_o_lease oi)) (
              bind (lists_key-Keep (some o) sid) (λ listed. next (item_remove-Keep o) (
                if-Keep listed (oqwrite_held-Keep sid a)
                  (next (clean_session-Keep sid) (pure-Keep co_abort))))))))))))

join_co-Keep : (right : Bool) (pv : ℕ) (bytes : List ℕ) → Keep (join_co right pv bytes)
unfolding join_co
join_co-Keep right pv bytes = bind (load-Keep pv) (λ pi.
    next (check-Keep (ltb 0 (length pi.value))) (
      bind (item_slabid-Keep (length pi.key) (length pi.value + length bytes)) (λ id.
        bind
          (item_alloc_config-Keep false id pi.key pi.dataflags pi.exptime
            (length pi.value + length bytes) (negsuc 0))
          (λ nit. either-Keep nit (pure-Keep co_abort) (λ n. bind (load-Keep pv) (λ pi'.
            next (copy_data-Keep n (if right then bytes ++ pi'.value else pi'.value ++ bytes)) (
              bind (item_store-Keep n Req.set 0)
                (λ _. next (item_remove-Keep n) (pure-Keep co_ok)))))))))

update_co-Keep :
    (key : List ℕ) (pv_it : Option ℕ) (update : Update) → Keep (update_co key pv_it update)
unfolding update_co
update_co-Keep key pv_it (add_delta incr delta) =
    bind (item_add_delta-Keep (version_key key) incr delta) (λ r. pure-Keep (co_of_delta r))
update_co-Keep key pv_it (append bytes) =
    next (whenever-Keep pv_it (λ pv. bind (join_co-Keep false pv bytes) (λ _. pure-Keep tt)))
      (pure-Keep co_ok)
update_co-Keep key pv_it (prepend bytes) =
    next (whenever-Keep pv_it (λ pv. bind (join_co-Keep true pv bytes) (λ _. pure-Keep tt)))
      (pure-Keep co_ok)

version_of-Keep : (key : List ℕ) (it : Option ℕ) → Keep (version_of key it)
unfolding version_of
version_of-Keep key it = bind (item_get-Keep (version_key key)) (λ pv_it.
    either-Keep pv_it
      (either-Keep it (pure-Keep none) (λ a. bind (load-Keep a) (λ i.
        next (check-Keep (ltb 0 (length i.value)))
          (bind (make_version-Keep a) (λ pv. pure-Keep (some pv))))))
      (λ pv. pure-Keep (some pv)))

remove_linked-Keep : (a : ℕ) → Keep (remove_linked a)
remove_linked-Keep a = bind (load-Keep a) (λ it. when-Keep it.linked (item_remove-Keep a))

oq_version-Keep :
    (sid key : List ℕ) (colease_it : Option ℕ) (update : Update)
    → Keep (oq_version sid key colease_it update)
unfolding oq_version
oq_version-Keep sid key colease_it update = bind (item_get-Keep key) (λ it.
    bind (item_get-Keep (lease_key key)) (λ lease_it.
      bind
        (either-Keep lease_it (pure-Keep true)
          (λ l. bind (load-Keep l) (λ li. pure-Keep li.i_lease)))
        (λ free. next (when-Keep free (whenever-Keep lease_it item_unlink-Keep)) (
          bind (if-Keep free (version_of-Keep key it) (pure-Keep none)) (λ pv_it.
            bind (if-Keep free (update_co-Keep key pv_it update) (pure-Keep co_ok)) (λ ret.
              next
                (when-Keep (not (is_some colease_it))
                  (assoc_sid_colease-Keep none key sid o_lease_ref_kind))
                (bind (item_get-Keep sid) (λ sess_it. next (assoc_key_sid-Keep sess_it key sid) (
                  next (whenever-Keep sess_it item_remove-Keep) (
                    next (whenever-Keep it remove_linked-Keep) (
                      next (whenever-Keep pv_it remove_linked-Keep) (
                        next (whenever-Keep lease_it item_remove-Keep) (
                          next (whenever-Keep colease_it item_remove-Keep)
                            (pure-Keep ret))))))))))))))

pub item_oqupdate-Keep : (sid key : List ℕ) (update : Update) → Keep (item_oqupdate sid key update)
unfolding item_oqupdate
item_oqupdate-Keep sid key update = bind (is_aborted-Keep sid) (λ aborted.
    if-Keep aborted (pure-Keep co_abort) (
      bind (item_get-Keep (co_lease_key key)) (λ colease_it.
        either-Keep colease_it (oq_version-Keep sid key none update) (λ o. bind (load-Keep o) (λ oi.
          next (check-Keep (has_co_lease oi)) (
            if-Keep oi.c_lease
              (next (abort_sessions-Keep o sid) (
                next (item_unlink-Keep o)
                  (next (item_remove-Keep o) (oq_version-Keep sid key none update))))
              (bind (lists_key-Keep (some o) sid) (λ listed.
                if-Keep listed (oq_version-Keep sid key (some o) update) (
                  next (item_remove-Keep o)
                    (next (clean_session-Keep sid) (pure-Keep co_abort)))))))))))

oqreg_lease-Keep : (key : List ℕ) → Keep (oqreg_lease key)
unfolding oqreg_lease
oqreg_lease-Keep key = bind (item_get-Keep (lease_key key)) (λ lease_it.
    bind
      (either-Keep lease_it (pure-Keep true) (λ l. bind (load-Keep l) (λ li. pure-Keep li.i_lease)))
      (λ absent. next (when-Keep absent (drop_item-Keep lease_it)) (
        bind (item_get-Keep key) (λ it. next (whenever-Keep it item_remove-Keep) (
          when-Keep absent (
            bind (create_reserved_item-Keep (lease_key key) 0) (λ created.
              bind (deref-Keep created) (λ l.
                next (set_q_inv_lease-Keep l)
                  (bind (item_store-Keep l Req.set 0) (λ _. item_remove-Keep l))))))))))

oqreg_colease-Keep : (sid key : List ℕ) → Keep (oqreg_colease sid key)
unfolding oqreg_colease
oqreg_colease-Keep sid key = bind (item_get-Keep (co_lease_key key)) (λ found.
    bind
      (either-Keep found
        (next (assoc_sid_colease-Keep none key sid o_lease_inv_kind)
          (item_get-Keep (co_lease_key key)))
        (λ o. pure-Keep (some o)))
      (λ colease_it. bind (deref-Keep colease_it) (λ o. bind (load-Keep o) (λ oi.
        next (check-Keep (has_co_lease oi)) (
          if-Keep oi.c_lease
            (next (abort_sessions-Keep o sid) (
              next (item_unlink-Keep o) (
                next (item_remove-Keep o)
                  (next (assoc_sid_colease-Keep none key sid o_lease_inv_kind) (pure-Keep none)))))
            (pure-Keep (some o)))))))

pub item_oqreg-Keep : (sid key : List ℕ) → Keep (item_oqreg sid key)
unfolding item_oqreg
item_oqreg-Keep sid key = bind (is_aborted-Keep sid) (λ aborted.
    if-Keep aborted (pure-Keep co_abort) (
      next (oqreg_lease-Keep key) (
        bind (oqreg_colease-Keep sid key) (λ colease_it. bind (item_get-Keep sid) (λ sess_it.
          next (assoc_key_sid-Keep sess_it key sid) (
            next (whenever-Keep sess_it item_remove-Keep)
              (next (whenever-Keep colease_it item_remove-Keep) (pure-Keep co_ok))))))))

pub item_oqincr-Keep :
    (sid key : List ℕ) (incr : Bool) (delta : ℕ) → Keep (item_oqincr sid key incr delta)
unfolding item_oqincr
item_oqincr-Keep sid key incr delta =
    bind (item_oqupdate-Keep sid key (add_delta incr delta)) (λ ret.
      bind (item_get-Keep (version_key key)) (λ pv_it.
        bind
          (either-Keep pv_it (pure-Keep none)
            (λ pv. bind (load-Keep pv) (λ pi. pure-Keep (strtoull_len pi.value))))
          (λ val. next (whenever-Keep pv_it item_remove-Keep) (
            pure-Keep (
              if not (is_ok ret)
              then (ret, none)
              else (if is_some pv_it then (ret, val) else (co_novalue, none)))))))
