-- ===== src/Items/Coherent/Reading.antt =====
-- Reads of sessions keep the hash and the items in agreement: `item_ciget` and `item_oqread` of
-- IQ-Twemcached/src/mc_items.c.
use rejig.Items.Session.Abort.{clean_session}
use rejig.Items.Monad.{◌>>=◌, pure, ◌>>◌}
use rejig.Items.Iqget.{set_i_lease}
use rejig.Prelude.{ℕ, ◌==◌, ◌||◌, false, Option, none, some, List, length, if◌then◌else◌}
use rejig.Keylist.{narrow}
use rejig.Items.Refcount.{item_remove, has_q_lease}
use rejig.Items.Get.{lease_key, version_key, co_lease_key, lease_value}
use rejig.Items.Store.{item_store, Req}
use rejig.Items.Session.{
  is_ok, co_ok, co_abort, co_retry, c_lease_kind, o_lease_ref_kind, has_o_lease,
}
use rejig.Items.Session.Read.{
  check_first, told_co, CoOutcome, meet_o_lease, lists_short, meet_q, value_or_lease, grant_c_lease,
  ciget_lease, item_ciget, take_q_ref_lease, oqread_value, item_oqread,
}
use rejig.Items.Coherent.{
  Keep, next, bind, check-Keep, whenever-Keep, load-Keep, pure-Keep, if-Keep, either-Keep,
  deref-Keep,
}
use rejig.Items.Coherent.Linking.{item_unlink-Keep, item_remove-Keep}
use rejig.Items.Coherent.Storing.{
  item_get-Keep, item_store-Keep, create_lease-Keep, create_reserved_item-Keep,
}
use rejig.Items.Coherent.Leasing.{lists_key-Keep, listed-Keep, set_i_lease-Keep}
use rejig.Items.Coherent.Listing.{copy_exptime-Keep}
use rejig.Items.Coherent.Updating.{set_q_ref_lease-Keep}
use rejig.Items.Coherent.Sessions.{
  is_aborted-Keep, assoc_key_sid-Keep, assoc_sid_colease-Keep, abort_sessions-Keep,
  clean_session-Keep,
}

pub turned_away-Keep :
    (sid : List ℕ) (o : ℕ) (r : CoOutcome) → Keep (item_remove o >> (clean_session sid >> pure r))
turned_away-Keep sid o r = next (item_remove-Keep o) (next (clean_session-Keep sid) (pure-Keep r))

meet_o_lease-Keep : (sid key : List ℕ) (o : ℕ) → Keep (meet_o_lease sid key o)
unfolding meet_o_lease
meet_o_lease-Keep sid key o = bind (lists_key-Keep (some o) sid) (λ listed.
    if-Keep listed
      (bind (item_get-Keep (version_key key))
        (λ it. next (item_remove-Keep o) (pure-Keep (told_co co_ok it))))
      (turned_away-Keep sid o (told_co co_abort none)))

lists_short-Keep : (s : Option ℕ) (nsid : ℕ) (key : List ℕ) → Keep (lists_short s nsid key)
unfolding lists_short
lists_short-Keep none nsid key = pure-Keep false
lists_short-Keep (some s) nsid key =
    bind (load-Keep s) (λ it. listed-Keep (check_first nsid it.value (narrow key)))

meet_q-Keep : (sid key : List ℕ) → Keep (meet_q sid key)
unfolding meet_q
meet_q-Keep sid key = bind (item_get-Keep sid) (λ sess_it.
    bind (lists_short-Keep sess_it (length sid) key) (λ listed.
      bind (if-Keep listed (item_get-Keep key) (pure-Keep none)) (λ it.
        next (whenever-Keep sess_it item_remove-Keep)
          (pure-Keep (told_co (if listed then co_ok else co_retry) it)))))

leased-Keep :
    (token l : ℕ)
    → Keep (
        set_i_lease l
        >> (item_store l Req.set 0 >>= (λ _.
            pure {A = CoOutcome}
              (record { status = co_ok; item = some l; new_token = some token }))))
leased-Keep token l =
    next (set_i_lease-Keep l) (bind (item_store-Keep l Req.set 0) (λ _. pure-Keep _))

value_or_lease-Keep : (key : List ℕ) → Keep (value_or_lease key)
unfolding value_or_lease
value_or_lease-Keep key = bind (item_get-Keep key) (λ it.
    either-Keep it
      (bind (create_lease-Keep key) (λ (created, token).
        either-Keep created
          (pure-Keep (record { status = co_ok; item = none; new_token = some token }))
          (leased-Keep token)))
      (λ a. pure-Keep (told_co co_ok (some a))))

grant_c_lease-Keep :
    (sid key : List ℕ) (colease_it : Option ℕ) → Keep (grant_c_lease sid key colease_it)
unfolding grant_c_lease
grant_c_lease-Keep sid key colease_it = bind (item_get-Keep sid) (λ sess_it.
    next (assoc_key_sid-Keep sess_it key sid) (
      bind (value_or_lease-Keep key) (λ r.
        next (whenever-Keep colease_it (λ o. bind (load-Keep o) (λ oi. check-Keep oi.c_lease))) (
          next (assoc_sid_colease-Keep colease_it key sid c_lease_kind) (
            next (whenever-Keep colease_it item_remove-Keep)
              (next (whenever-Keep sess_it item_remove-Keep) (pure-Keep r)))))))

ciget_lease-Keep :
    (sid key : List ℕ) (lease_token : ℕ) (colease_it : Option ℕ)
    → Keep (ciget_lease sid key lease_token colease_it)
unfolding ciget_lease
ciget_lease-Keep sid key lease_token colease_it =
    bind (item_get-Keep (lease_key key)) (λ iqlease_it.
      either-Keep iqlease_it (grant_c_lease-Keep sid key colease_it) (λ l. bind (load-Keep l) (λ li.
        if-Keep li.i_lease
          (next (item_remove-Keep l) (
            next (whenever-Keep colease_it item_remove-Keep) (
              pure-Keep
                (told_co (if lease_value li == lease_token then co_ok else co_retry) none))))
          (if-Keep (has_q_lease li)
            (bind (meet_q-Keep sid key) (λ r.
              next (item_remove-Keep l)
                (next (whenever-Keep colease_it item_remove-Keep) (pure-Keep r))))
            (grant_c_lease-Keep sid key colease_it)))))

pub item_ciget-Keep : (sid key : List ℕ) (lease_token : ℕ) → Keep (item_ciget sid key lease_token)
unfolding item_ciget
item_ciget-Keep sid key lease_token = bind (is_aborted-Keep sid) (λ aborted.
    if-Keep aborted (pure-Keep (told_co co_abort none)) (
      bind (item_get-Keep (co_lease_key key)) (λ colease_it.
        either-Keep colease_it (ciget_lease-Keep sid key lease_token none) (λ o.
          bind (load-Keep o) (λ oi.
            if-Keep (has_o_lease oi) (meet_o_lease-Keep sid key o)
              (ciget_lease-Keep sid key lease_token (some o)))))))

take_q_ref_lease-Keep : (key : List ℕ) → Keep (take_q_ref_lease key)
unfolding take_q_ref_lease
take_q_ref_lease-Keep key = bind (item_get-Keep (lease_key key)) (λ lease_it.
    bind
      (either-Keep lease_it (pure-Keep false)
        (λ l. bind (load-Keep l) (λ li. pure-Keep li.q_ref_lease)))
      (λ found.
        if-Keep found
          (next (whenever-Keep lease_it item_remove-Keep)
            (next (whenever-Keep lease_it item_remove-Keep) (pure-Keep (told_co co_abort none))))
          (bind (item_get-Keep key) (λ it.
            bind (create_reserved_item-Keep (lease_key key) 0) (λ created.
              bind (deref-Keep created) (λ l. next (set_q_ref_lease-Keep l) (
                bind (item_store-Keep l Req.set 0) (λ _.
                  next (whenever-Keep it (λ a. copy_exptime-Keep a l))
                    (next (item_remove-Keep l) (pure-Keep (told_co co_ok it)))))))))))

oqread_value-Keep : (sid key : List ℕ) → Keep (oqread_value sid key)
unfolding oqread_value
oqread_value-Keep sid key = bind (take_q_ref_lease-Keep key) (λ r.
    if-Keep (is_ok r.status)
      (bind (item_get-Keep sid) (λ sess_it. next (assoc_key_sid-Keep sess_it key sid) (
        bind (item_get-Keep (co_lease_key key)) (λ colease_it.
          next (assoc_sid_colease-Keep colease_it key sid o_lease_ref_kind) (pure-Keep r)))))
      (pure-Keep r))

pub item_oqread-Keep : (sid key : List ℕ) → Keep (item_oqread sid key)
unfolding item_oqread
item_oqread-Keep sid key = bind (is_aborted-Keep sid) (λ aborted.
    if-Keep aborted (pure-Keep (told_co co_abort none)) (
      bind (item_get-Keep (co_lease_key key)) (λ colease_it.
        either-Keep colease_it (oqread_value-Keep sid key) (λ o. bind (load-Keep o) (λ oi.
          next (check-Keep (oi.c_lease || has_o_lease oi)) (
            if-Keep oi.c_lease
              (next (abort_sessions-Keep o sid)
                (next (item_unlink-Keep o) (next (item_remove-Keep o) (oqread_value-Keep sid key))))
              (bind (lists_key-Keep (some o) sid) (λ listed.
                if-Keep listed
                  (bind (item_get-Keep key)
                    (λ it. next (item_remove-Keep o) (pure-Keep (told_co co_ok it))))
                  (turned_away-Keep sid o (told_co co_abort none))))))))))
