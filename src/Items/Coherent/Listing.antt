-- ===== src/Items/Coherent/Listing.antt =====
-- The lists of keys and of transactions keep the hash and the items in agreement, and so does the
-- registration of a key: `_item_assoc_key_tid`, `_item_remove_tid_lease` and
-- `item_quarantine_and_register` of IQ-Twemcached/src/mc_items.c.
use rejig.Prelude.{
  ℕ, List, [], Option, some, none, Bool, true, false, not, ◌-◌, ◌+◌, if◌then◌else◌, ◌==◌, refl,
  length, inl, inr, Bool-cases,
}
use rejig.Keylist
use rejig.Keylist.{check_keylist, addkey, rmvkey, new_keylist_size, narrow, Written}
use rejig.Items.{Item}
use rejig.Items.Monad.{M, pure, fault, load, store, ◌>>=◌}
use rejig.Items.Refcount.{is_some, has_co_lease, has_q_lease}
use rejig.Items.Get.{lease_key, version_key, co_lease_key, lease_value}
use rejig.Items.Store.{Req, exists, not_found}
use rejig.Items.Trans.{
  drop_item, copy_exptime, void_i_lease, quarantine_and_register, get_and_unlease, get_and_delete,
}
use rejig.Items.Trans.Lists.{
  list_of, lacks, add_to_item, set_sess, set_q_inv_lease, assoc_key_tid, assoc_tid_lease,
  copy_lease_flags, remove_to_item, remove_entry_from_list,
}
use rejig.Items.Coherent.{
  Good, Keep, stored, kept, ended, failed, next, bind, check-Keep, when-Keep, whenever-Keep,
  load-Keep, pure-Keep, fault-Keep, if-Keep, either-Keep, deref-Keep,
}
use rejig.Items.Coherent.Linking.{release_refcount-Keep, item_unlink-Keep, item_remove-Keep}
use rejig.Items.Coherent.Storing.{item_get-Keep, item_store-Keep, create_reserved_item-Keep}

pub list_of-Keep : (o : Option ℕ) → Keep (list_of o)
list_of-Keep none = pure-Keep []
list_of-Keep (some a) = bind (load-Keep a) (λ it. pure-Keep it.value)

lacking-Keep :
    (o : Option Keylist.Status)
    → Keep (elim o as (λ _. M Bool) [
      | none ↦ fault
      | some Keylist.not_found ↦ pure true
      | some Keylist.ok ↦ pure false
      | some Keylist.queued ↦ pure false
      | some Keylist.error ↦ pure false
    ])
lacking-Keep none = fault-Keep
lacking-Keep (some Keylist.not_found) = pure-Keep true
lacking-Keep (some Keylist.ok) = pure-Keep false
lacking-Keep (some Keylist.queued) = pure-Keep false
lacking-Keep (some Keylist.error) = pure-Keep false

pub lacks-Keep : (list key : List ℕ) → Keep (lacks list key)
unfolding lacks
lacks-Keep list key = lacking-Keep (check_keylist list (narrow key))

-- The bytes of an item written anew, or a fault.
rewrite-Keep :
    (a : ℕ) (written : Item → Option Written)
    → Keep (
        load a >>= (λ it. elim (written it) as (λ _. M (Unit {0})) [
          | none ↦ fault
          | some w ↦ store a (record it { value = w.dest })
        ]))
rewrite-Keep a written = record {
  call = λ c p.
      elim (written (c.heap a))
        as (λ o. Good (
          (elim o as (λ _. M (Unit {0})) [
            | none ↦ fault
            | some w ↦ store a (record (c.heap a) { value = w.dest })
          ])
            c)) [ none ↦ failed | some w ↦ ended (stored c a _ p (kept refl refl refl)) ];
}

pub add_to_item-Keep : (a : ℕ) (old key : List ℕ) → Keep (add_to_item a old key)
unfolding add_to_item
add_to_item-Keep a old key = rewrite-Keep a (λ it. addkey it.value 0 old (narrow key))

pub remove_to_item-Keep : (a : ℕ) (old key : List ℕ) → Keep (remove_to_item a old key)
unfolding remove_to_item
remove_to_item-Keep a old key = rewrite-Keep a (λ it. rmvkey it.value 0 old (narrow key))

pub set_sess-Keep : (a : ℕ) → Keep (set_sess a)
unfolding set_sess
set_sess-Keep a = record { call = λ c p. ended (stored c a _ p (kept refl refl refl)) }

pub set_q_inv_lease-Keep : (a : ℕ) → Keep (set_q_inv_lease a)
unfolding set_q_inv_lease
set_q_inv_lease-Keep a = record { call = λ c p. ended (stored c a _ p (kept refl refl refl)) }

pub assoc_key_tid-Keep :
    (trans_it : Option ℕ) (key tid : List ℕ) → Keep (assoc_key_tid trans_it key tid)
unfolding assoc_key_tid
assoc_key_tid-Keep trans_it key tid = bind (list_of-Keep trans_it) (λ old.
    bind (if-Keep (is_some trans_it) (lacks-Keep old key) (pure-Keep true)) (λ absent.
      when-Keep absent (
        bind (create_reserved_item-Keep tid (length old + new_keylist_size (narrow key)))
          (λ created. bind (deref-Keep created) (λ n. next (set_sess-Keep n) (
            next (add_to_item-Keep n old key) (
              next (whenever-Keep trans_it release_refcount-Keep)
                (bind (item_store-Keep n Req.set 0) (λ _. item_remove-Keep n)))))))))

assoc_tid_lease-Keep :
    (lease_it : Option ℕ) (key tid : List ℕ) → Keep (assoc_tid_lease lease_it key tid)
unfolding assoc_tid_lease
assoc_tid_lease-Keep lease_it key tid = bind (list_of-Keep lease_it) (λ old.
    bind (if-Keep (is_some lease_it) (lacks-Keep old tid) (pure-Keep true)) (λ absent.
      when-Keep absent (
        bind
          (create_reserved_item-Keep (lease_key key) (length old + new_keylist_size (narrow tid)))
          (λ created. bind (deref-Keep created) (λ n. next (set_q_inv_lease-Keep n) (
            next (add_to_item-Keep n old tid)
              (bind (item_store-Keep n Req.set 0) (λ _. item_remove-Keep n))))))))

copy_lease_flags-Keep : (it : Item) (a : ℕ) → Keep (copy_lease_flags it a)
unfolding copy_lease_flags
copy_lease_flags-Keep it a = record {
  call = λ c p. elim (Bool-cases (has_co_lease it)) [
    | inl t ↦ rw t (ended (stored c a _ p (kept refl refl refl)))
    | inr n ↦ elim (Bool-cases (has_q_lease it)) [
      | inl t ↦ rw (n, t) (ended (stored c a _ p (kept refl refl refl)))
      | inr m ↦ rw (n, m) (ended (stored c a _ p (kept refl refl refl)))
    ]
  ];
}

pub remove_entry_from_list-Keep :
    (o : Option ℕ) (key entry_id : List ℕ) → Keep (remove_entry_from_list o key entry_id)
unfolding remove_entry_from_list
remove_entry_from_list-Keep none key entry_id = pure-Keep tt
remove_entry_from_list-Keep (some a) key entry_id = bind (load-Keep a) (λ it.
    bind (lacks-Keep it.value entry_id) (λ absent. when-Keep (not absent) (
      if-Keep (length it.value == new_keylist_size (narrow entry_id)) (item_unlink-Keep a) (
        bind (create_reserved_item-Keep key (length it.value - new_keylist_size (narrow entry_id)))
          (λ created. bind (deref-Keep created) (λ n. next (copy_lease_flags-Keep it n) (
            next (remove_to_item-Keep n it.value entry_id)
              (bind (item_store-Keep n Req.set 0) (λ _. item_remove-Keep n)))))))))

pub drop_item-Keep : (o : Option ℕ) → Keep (drop_item o)
drop_item-Keep o = whenever-Keep o (λ a. next (item_unlink-Keep a) (item_remove-Keep a))

pub copy_exptime-Keep : (a l : ℕ) → Keep (copy_exptime a l)
unfolding copy_exptime
copy_exptime-Keep a l = record { call = λ c p. ended (stored c a _ p (kept refl refl refl)) }

void_i_lease-Keep : (o : Option ℕ) → Keep (void_i_lease o)
unfolding void_i_lease
void_i_lease-Keep none = pure-Keep none
void_i_lease-Keep (some l) = bind (load-Keep l) (λ li.
    if-Keep li.i_lease (next (item_unlink-Keep l) (next (item_remove-Keep l) (pure-Keep none)))
      (pure-Keep (some l)))

pub quarantine_and_register-Keep : (tid key : List ℕ) → Keep (quarantine_and_register tid key)
unfolding quarantine_and_register
quarantine_and_register-Keep tid key = bind (item_get-Keep tid) (λ trans_it.
    bind (item_get-Keep (lease_key key)) (λ found. bind (void_i_lease-Keep found) (λ lease_it.
      next (assoc_tid_lease-Keep lease_it key tid) (
        next (assoc_key_tid-Keep trans_it key tid) (
          next (whenever-Keep lease_it item_remove-Keep) (
            bind (item_get-Keep key) (λ it. bind (item_get-Keep (lease_key key)) (λ lease_it'.
              next
                (whenever-Keep it
                  (λ a. next (whenever-Keep lease_it' (copy_exptime-Keep a)) (item_remove-Keep a)))
                (next (whenever-Keep lease_it' item_remove-Keep)
                  (whenever-Keep trans_it item_remove-Keep))))))))))

pub get_and_unlease-Keep : (key : List ℕ) (token_val : ℕ) → Keep (get_and_unlease key token_val)
unfolding get_and_unlease
get_and_unlease-Keep key token_val = bind (item_get-Keep (lease_key key)) (λ lease_it.
    either-Keep lease_it (pure-Keep tt) (λ l. bind (load-Keep l) (λ li.
      if-Keep (lease_value li == token_val)
        (next (check-Keep (not li.q_inv_lease))
          (next (check-Keep (not li.q_inc_lease)) (next (item_unlink-Keep l) (item_remove-Keep l))))
        (item_remove-Keep l))))

pub get_and_delete-Keep :
    (key : List ℕ) (delete_lease : Bool) → Keep (get_and_delete key delete_lease)
unfolding get_and_delete
get_and_delete-Keep key delete_lease =
    next
      (when-Keep delete_lease (
        bind (item_get-Keep (lease_key key)) (λ lease_it. next (drop_item-Keep lease_it) (
          bind (item_get-Keep (version_key key)) (λ pv_it.
            next (drop_item-Keep pv_it)
              (bind (item_get-Keep (co_lease_key key)) drop_item-Keep))))))
      (bind (item_get-Keep key)
        (λ it. next (drop_item-Keep it) (pure-Keep (if is_some it then exists else not_found))))
