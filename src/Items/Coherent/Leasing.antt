-- ===== src/Items/Coherent/Leasing.antt =====
-- Reads under a lease keep the hash and the items in agreement: `item_iqget` of
-- IQ-Twemcached/src/mc_items.c.
use rejig.Prelude.{
  ℕ, List, Option, some, none, Bool, true, false, ◌&&◌, ◌||◌, if◌then◌else◌, ◌==◌, refl, ltb,
  length,
}
use rejig.Keylist
use rejig.Keylist.{check_keylist, narrow}
use rejig.Items.Monad.{deref, when, ◌>>◌, check, ◌>>=◌, M, pure, fault, load}
use rejig.Items.Refcount.{is_some}
use rejig.Items.Get.{lease_key, version_key, pending_key, lease_value}
use rejig.Items.Store.{Req}
use rejig.Items.Iqget.{
  Outcome, value, no_value, lease, miss, server_error, hotmiss, lists_key, set_i_lease, set_pending,
  grant_lease, meet_lease, lease_or_meet, is_own_refresh, iqget_apart, iqget_own, pending_mark,
  item_iqget,
}
use rejig.Items.Coherent.{
  Keep, stored, kept, ended, next, bind, check-Keep, when-Keep, whenever-Keep, load-Keep, pure-Keep,
  fault-Keep, if-Keep, either-Keep, deref-Keep,
}
use rejig.Items.Coherent.Linking.{
  acquire_refcount-Keep, item_unlink-Keep, item_remove-Keep, item_touch-Keep,
}
use rejig.Items.Coherent.Storing.{item_get-Keep, item_store-Keep, create_lease-Keep}

pub listed-Keep :
    (o : Option Keylist.Status)
    → Keep (elim o as (λ _. M Bool) [
      | none ↦ fault
      | some Keylist.ok ↦ pure true
      | some Keylist.queued ↦ pure false
      | some Keylist.error ↦ pure false
      | some Keylist.not_found ↦ pure false
    ])
listed-Keep none = fault-Keep
listed-Keep (some Keylist.ok) = pure-Keep true
listed-Keep (some Keylist.queued) = pure-Keep false
listed-Keep (some Keylist.error) = pure-Keep false
listed-Keep (some Keylist.not_found) = pure-Keep false

pub lists_key-Keep : (t : Option ℕ) (key : List ℕ) → Keep (lists_key t key)
unfolding lists_key
lists_key-Keep none key = pure-Keep false
lists_key-Keep (some t) key =
    bind (load-Keep t) (λ it. listed-Keep (check_keylist it.value (narrow key)))

pub set_i_lease-Keep : (a : ℕ) → Keep (set_i_lease a)
unfolding set_i_lease
set_i_lease-Keep a = record { call = λ c p. ended (stored c a _ p (kept refl refl refl)) }

pub set_pending-Keep : (a n : ℕ) → Keep (set_pending a n)
unfolding set_pending
set_pending-Keep a n = record { call = λ c p. ended (stored c a _ p (kept refl refl refl)) }

grant_lease-Keep :
    (key : List ℕ) (old : Option ℕ) (pending : ℕ) → Keep (grant_lease key old pending)
unfolding grant_lease
grant_lease-Keep key old pending = bind (create_lease-Keep key) (λ (created, token).
    either-Keep created
      (pure-Keep
        (record { status = server_error; item = none; new_token = some token; lease_it = none }))
      (λ l. next (set_i_lease-Keep l) (
        next (whenever-Keep old item_unlink-Keep) (
          bind (item_store-Keep l Req.set 0) (λ _. next (set_pending-Keep l pending) (
            pure-Keep (record {
              status = lease;
              item = some l;
              new_token = some token;
              lease_it = some l;
            })))))))

meet_lease-Keep : (l lease_token pending : ℕ) → Keep (meet_lease l lease_token pending)
unfolding meet_lease
meet_lease-Keep l lease_token pending = next (set_pending-Keep l pending) (
    bind (load-Keep l) (λ it. pure-Keep (
      if lease_value it == lease_token
      then record { status = no_value; item = some l; new_token = none; lease_it = some l }
      else record { status = miss; item = some l; new_token = some hotmiss; lease_it = some l })))

lease_or_meet-Keep :
    (key : List ℕ) (old lease_it : Option ℕ) (lease_token pending : ℕ)
    → Keep (lease_or_meet key old lease_it lease_token pending)
unfolding lease_or_meet
lease_or_meet-Keep key old none lease_token pending = grant_lease-Keep key old pending
lease_or_meet-Keep key old (some l) lease_token pending = meet_lease-Keep l lease_token pending

is_own_refresh-Keep :
    (lease_it : Option ℕ) (lease_token : ℕ) → Keep (is_own_refresh lease_it lease_token)
unfolding is_own_refresh
is_own_refresh-Keep none lease_token = pure-Keep false
is_own_refresh-Keep (some l) lease_token =
    bind (load-Keep l) (λ it. pure-Keep (it.q_ref_lease && lease_value it == lease_token))

iqget_apart-Keep :
    (key : List ℕ) (it : Option ℕ) (lease_token pending : ℕ) (override : Bool)
    → Keep (iqget_apart key it lease_token pending override)
unfolding iqget_apart
iqget_apart-Keep key none lease_token pending override =
    bind (item_get-Keep (lease_key key))
      (λ lease_it. lease_or_meet-Keep key none lease_it lease_token pending)
iqget_apart-Keep key (some a) lease_token pending override = bind (load-Keep a) (λ i.
    next (check-Keep (ltb 0 (length i.value))) (
      bind (item_get-Keep (lease_key key)) (λ lease_it.
        bind (is_own_refresh-Keep lease_it lease_token) (λ own.
          if-Keep own
            (pure-Keep
              (record { status = no_value; item = none; new_token = none; lease_it = lease_it }))
            (if-Keep override (lease_or_meet-Keep key (some a) lease_it lease_token pending) (
              next (item_touch-Keep a) (
                pure-Keep (record {
                  status = value;
                  item = some a;
                  new_token = none;
                  lease_it = lease_it;
                }))))))))

own_version-Keep :
    (l : ℕ) (it : Option ℕ) (foreground : Bool) (pv : ℕ)
    → Keep {A = Outcome} (
        load pv >>= (λ pi.
          check (ltb 0 (length pi.value))
          >> (when foreground (deref it >>= (λ _. pure tt))
              >> pure (record {
                status = value;
                item = some pv;
                new_token = none;
                lease_it = some l;
              }))))
own_version-Keep l it foreground pv = bind (load-Keep pv) (λ pi.
    next (check-Keep (ltb 0 (length pi.value))) (
      next (when-Keep foreground (bind (deref-Keep it) (λ _. pure-Keep tt))) (
        pure-Keep
          (record { status = value; item = some pv; new_token = none; lease_it = some l }))))

iqget_own-Keep :
    (key : List ℕ) (it : Option ℕ) (foreground : Bool) → Keep (iqget_own key it foreground)
unfolding iqget_own
iqget_own-Keep key it foreground = bind (item_get-Keep (lease_key key)) (λ lease_it.
    either-Keep lease_it
      (pure-Keep (record { status = no_value; item = none; new_token = none; lease_it = none }))
      (λ l.
        let unread : Outcome = record {
          status = no_value;
          item = none;
          new_token = none;
          lease_it = some l;
        } in
        bind (load-Keep l) (λ li. next (check-Keep (li.q_inv_lease || li.q_inc_lease)) (
          if-Keep li.q_inv_lease (pure-Keep unread) (
            bind (item_get-Keep (version_key key)) (λ pv_it.
              either-Keep pv_it (pure-Keep unread) (own_version-Keep l it foreground)))))))

pub pending_mark-Keep : (key : List ℕ) (o : Option ℕ) → Keep (pending_mark key o)
unfolding pending_mark
pending_mark-Keep key none = bind (item_get-Keep (pending_key key)) (λ pending_it.
    next (whenever-Keep pending_it item_remove-Keep)
      (pure-Keep (if is_some pending_it then 1 else 0)))
pending_mark-Keep key (some a) = bind (load-Keep a) (λ it. pure-Keep it.p)

pub item_iqget-Keep :
    (key : List ℕ) (lease_token : ℕ) (tid : List ℕ) (override foreground : Bool)
    → Keep (item_iqget key lease_token tid override foreground)
unfolding item_iqget
item_iqget-Keep key lease_token tid override foreground =
    bind (if-Keep (length tid == 0) (pure-Keep none) (item_get-Keep tid)) (λ trans_it.
      bind (item_get-Keep key) (λ it. bind (pending_mark-Keep key it) (λ pending.
        bind (lists_key-Keep trans_it key) (λ own.
          bind
            (if-Keep own (iqget_own-Keep key it foreground)
              (iqget_apart-Keep key it lease_token pending override))
            (λ r. next (whenever-Keep r.item acquire_refcount-Keep) (
              next (whenever-Keep trans_it item_remove-Keep) (
                next (whenever-Keep it item_remove-Keep)
                  (next (whenever-Keep r.lease_it item_remove-Keep) (pure-Keep r)))))))))
