-- ===== src/Items/Coherent/Sessions.antt =====
-- The lists of sessions, and sessions that end by a conflict, keep the hash and the items in
-- agreement: `_item_assoc_key_sid`, `abort_sessions`, `clean_session` and what else the operations
-- of sessions share in IQ-Twemcached/src/mc_items.c.
use rejig.Prelude.{
  ℕ, suc, ◌+◌, ◌==◌, not, true, false, Option, none, some, List, [], ◌∷◌, length, refl,
}
use rejig.Keylist.{Key, new_keylist_size, narrow}
use rejig.Items.Monad.{M}
use rejig.Items.Refcount.{is_some}
use rejig.Items.Get.{lease_key, version_key, co_lease_key}
use rejig.Items.Store.{Req}
use rejig.Items.Session.{
  CoLease, c_lease_kind, o_lease_inv_kind, o_lease_ref_kind, has_only, drop_session, is_aborted,
  set_alive, set_kind, assoc_key_sid, assoc_sid_colease,
}
use rejig.Items.Session.Abort.{
  entries, starts_with, abort_key, set_aborted, abort_session, for_entries, abort_sessions,
  clean_key, clean_session,
}
use rejig.Items.Coherent.{
  Keep, stored, kept, ended, next, bind, check-Keep, when-Keep, whenever-Keep, load-Keep, pure-Keep,
  fault-Keep, if-Keep, either-Keep, deref-Keep,
}
use rejig.Items.Coherent.Linking.{release_refcount-Keep, item_unlink-Keep, item_remove-Keep}
use rejig.Items.Coherent.Storing.{item_get-Keep, item_store-Keep, create_reserved_item-Keep}
use rejig.Items.Coherent.Leasing.{lists_key-Keep}
use rejig.Items.Coherent.Listing.{
  list_of-Keep, lacks-Keep, add_to_item-Keep, set_sess-Keep, drop_item-Keep,
  remove_entry_from_list-Keep,
}
use rejig.Items.Coherent.Finishing.{for_keys-Keep}

pub drop_session-Keep : (s : ℕ) → Keep (drop_session s)
unfolding drop_session
drop_session-Keep s =
    next (item_unlink-Keep s) (next (release_refcount-Keep s) (item_remove-Keep s))

pub is_aborted-Keep : (sid : List ℕ) → Keep (is_aborted sid)
unfolding is_aborted
is_aborted-Keep sid = bind (item_get-Keep sid) (λ sess_it.
    either-Keep sess_it (pure-Keep false) (λ s. bind (load-Keep s) (λ si.
      if-Keep si.aborted (next (drop_session-Keep s) (pure-Keep true))
        (next (item_remove-Keep s) (pure-Keep false)))))

set_alive-Keep : (a : ℕ) → Keep (set_alive a)
unfolding set_alive
set_alive-Keep a = record { call = λ c p. ended (stored c a _ p (kept refl refl refl)) }

set_kind-Keep : (kind : CoLease) (a : ℕ) → Keep (set_kind kind a)
unfolding set_kind
set_kind-Keep c_lease_kind a = record { call = λ c p. ended (stored c a _ p (kept refl refl refl)) }
set_kind-Keep o_lease_inv_kind a = record {
  call = λ c p. ended (stored c a _ p (kept refl refl refl));
}
set_kind-Keep o_lease_ref_kind a = record {
  call = λ c p. ended (stored c a _ p (kept refl refl refl));
}

pub assoc_key_sid-Keep :
    (sess_it : Option ℕ) (key sid : List ℕ) → Keep (assoc_key_sid sess_it key sid)
unfolding assoc_key_sid
assoc_key_sid-Keep sess_it key sid = bind (list_of-Keep sess_it) (λ old.
    bind (if-Keep (is_some sess_it) (lacks-Keep old key) (pure-Keep true)) (λ absent.
      when-Keep absent (
        bind (create_reserved_item-Keep sid (length old + new_keylist_size (narrow key)))
          (λ created. bind (deref-Keep created) (λ n. next (set_alive-Keep n) (
            next (set_sess-Keep n) (
              next (add_to_item-Keep n old key) (
                next (whenever-Keep sess_it release_refcount-Keep)
                  (bind (item_store-Keep n Req.set 0) (λ _. item_remove-Keep n))))))))))

pub assoc_sid_colease-Keep :
    (colease_it : Option ℕ) (key sid : List ℕ) (kind : CoLease)
    → Keep (assoc_sid_colease colease_it key sid kind)
unfolding assoc_sid_colease
assoc_sid_colease-Keep colease_it key sid kind = bind (list_of-Keep colease_it) (λ old.
    bind (if-Keep (is_some colease_it) (lacks-Keep old sid) (pure-Keep true)) (λ absent.
      when-Keep absent (
        bind
          (create_reserved_item-Keep (co_lease_key key)
            (length old + new_keylist_size (narrow sid)))
          (λ created. bind (deref-Keep created) (λ n. next (set_kind-Keep kind n) (
            next
              (whenever-Keep colease_it
                (λ o. bind (load-Keep o) (λ it. check-Keep (has_only kind it))))
              (next (add_to_item-Keep n old sid)
                (bind (item_store-Keep n Req.set 0) (λ _. item_remove-Keep n)))))))))

abort_key-Keep : (o : ℕ) (psid : List ℕ) (tkey : Key) → Keep (abort_key o psid tkey)
unfolding abort_key
abort_key-Keep o psid tkey = bind (item_get-Keep (co_lease_key tkey)) (λ tcolease_it.
    whenever-Keep tcolease_it (λ t.
      next
        (when-Keep (not (t == o)) (
          bind (lists_key-Keep (some t) psid) (λ listed.
            next (when-Keep listed (remove_entry_from_list-Keep (some t) (co_lease_key tkey) psid))
              (bind (item_get-Keep (lease_key tkey)) drop_item-Keep))))
        (item_remove-Keep t)))

set_aborted-Keep : (a : ℕ) → Keep (set_aborted a)
unfolding set_aborted
set_aborted-Keep a = record { call = λ c p. ended (stored c a _ p (kept refl refl refl)) }

abort_session-Keep : (o : ℕ) (sid : List ℕ) (e : Key × List ℕ) → Keep (abort_session o sid e)
unfolding abort_session
abort_session-Keep o sid (psid, bytes) = bind (item_get-Keep psid) (λ psess_it.
    whenever-Keep psess_it (λ s.
      next
        (either-Keep (starts_with bytes sid) fault-Keep (λ same.
          when-Keep (not same)
            (next (set_aborted-Keep s) (for_keys-Keep s (abort_key-Keep o psid)))))
        (item_remove-Keep s)))

for_entries-Keep :
    (es : List (Key × List ℕ)) {body : Key × List ℕ → M (Unit {0})}
    → ((e : Key × List ℕ) → Keep (body e))
    → Keep (for_entries es body)
unfolding for_entries
for_entries-Keep [] k = pure-Keep tt
for_entries-Keep (e ∷ rest) k = next (k e) (for_entries-Keep rest k)

pub abort_sessions-Keep : (o : ℕ) (sid : List ℕ) → Keep (abort_sessions o sid)
unfolding abort_sessions
abort_sessions-Keep o sid = bind (load-Keep o) (λ oi.
    either-Keep (entries (suc (length oi.value)) oi.value none) fault-Keep
      (λ es. for_entries-Keep es (abort_session-Keep o sid)))

pub clean_key-Keep : (sid : List ℕ) (key : Key) → Keep (clean_key sid key)
unfolding clean_key
clean_key-Keep sid key = bind (item_get-Keep (lease_key key)) (λ lease_it.
    next (drop_item-Keep lease_it) (
      bind (item_get-Keep (co_lease_key key)) (λ colease_it.
        next
          (whenever-Keep colease_it (λ o.
            next (remove_entry_from_list-Keep (some o) (co_lease_key key) sid)
              (item_remove-Keep o)))
          (bind (item_get-Keep (version_key key)) drop_item-Keep))))

pub clean_session-Keep : (sid : List ℕ) → Keep (clean_session sid)
unfolding clean_session
clean_session-Keep sid = bind (item_get-Keep sid) (λ sess_it. whenever-Keep sess_it (λ s.
    bind (load-Keep s) (λ si.
      if-Keep si.aborted (drop_session-Keep s)
        (next (for_keys-Keep s (clean_key-Keep sid)) (drop_session-Keep s)))))
