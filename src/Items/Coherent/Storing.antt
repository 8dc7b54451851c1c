-- ===== src/Items/Coherent/Storing.antt =====
-- Looking up and storing keep the hash and the items in agreement: `_item_get`, the makers of
-- leases and pending versions, and `_item_store` of IQ-Twemcached/src/mc_items.c.
use rejig.Keylist.{narrow}
use rejig.Items.Monad.{pure, ◌>>◌, store, ◌>>=◌, load}
use rejig.Prelude.{
  ◌++◌, ℕ, List, Option, some, none, Bool, true, false, not, ◌&&◌, ◌||◌, ◌+◌, if◌then◌else◌, ◌==◌,
  refl, ltb, length, negsuc,
}
use rejig.Util.{print_uint64}
use rejig.Items.Refcount.{item_remove, item_unlink, is_lease_holder, has_co_lease}
use rejig.Items.Get.{
  item_get, is_dead, lease_key, version_key, pending_key, lease_value, lease_reltime, lease_exptime,
  lease_next_token, copy_data, create_lease, create_pending_version, create_reserved_item,
}
use rejig.Items.Store.{
  exists, item_cas, Req, Choice, choose, not_stored, stored, not_found, take_pending, choose_iqset,
  choose_absent, choose_joined, choose_present, is_not_stored, finish_store, item_store,
}
use rejig.Items.Coherent.{
  Coherent, Keep, kept, ended, next, bind, either, when-Keep, whenever-Keep, load-Keep, state-Keep,
  pure-Keep, fault-Keep, if-Keep, either-Keep,
}
use rejig.Items.Coherent
use rejig.Items.Coherent.Linking.{
  acquire_refcount-Keep, item_unlink-Keep, item_remove-Keep, item_link-Keep, item_replace-Keep,
  item_touch-Keep,
}
use rejig.Items.Coherent.Allocating.{item_alloc_config-Keep, item_slabid-Keep}

pub item_get-Keep : (key : List ℕ) → Keep (item_get key)
unfolding item_get
item_get-Keep key = bind state-Keep (λ c. either-Keep (c.assoc key) (pure-Keep none) (λ a.
    if-Keep (is_dead c (c.heap a)) (next (item_unlink-Keep a) (pure-Keep none))
      (next (acquire_refcount-Keep a) (pure-Keep (some a)))))

lease_next_token-Keep : Keep lease_next_token
unfolding lease_next_token Coherent
lease_next_token-Keep = record { call = λ c p. ended p }

pub copy_data-Keep : (a : ℕ) (bytes : List ℕ) → Keep (copy_data a bytes)
unfolding copy_data
copy_data-Keep a bytes = record {
  call = λ c p. ended (Coherent.stored c a _ p (kept refl refl refl));
}

pub create_lease-Keep : (key : List ℕ) → Keep (create_lease key)
unfolding create_lease lease_exptime
create_lease-Keep key = bind state-Keep (λ c. bind lease_next_token-Keep (λ token.
    let buf = print_uint64 token in
    bind (item_slabid-Keep (length (lease_key key)) (length buf)) (λ id.
      bind
        (item_alloc_config-Keep true id (lease_key key) 0 (lease_reltime c) (length buf) (negsuc 0))
        (λ lease_it. either-Keep lease_it (pure-Keep (none, token)) (λ a.
          next (copy_data-Keep a buf)
            (next (acquire_refcount-Keep a) (pure-Keep (some a, token))))))))

pub create_pending_version-Keep : (a : ℕ) → Keep (create_pending_version a)
unfolding create_pending_version lease_exptime
create_pending_version-Keep a = bind state-Keep (λ c. bind (load-Keep a) (λ it.
    bind (item_slabid-Keep (length (version_key it.key)) (length it.value)) (λ id.
      item_alloc_config-Keep false id (version_key it.key) it.dataflags (lease_reltime c)
        (length it.value) (negsuc 0))))

pub create_reserved_item-Keep : (key : List ℕ) (vlen : ℕ) → Keep (create_reserved_item key vlen)
unfolding create_reserved_item lease_exptime
create_reserved_item-Keep key vlen = bind state-Keep (λ c.
    bind (item_slabid-Keep (length (narrow key)) vlen) (λ id.
      bind (item_alloc_config-Keep true id (narrow key) 0 (lease_reltime c) vlen (negsuc 0)) (λ it.
        either-Keep it (pure-Keep none)
          (λ a. next (acquire_refcount-Keep a) (pure-Keep (some a))))))

mark_pending-Keep :
    (a pd : ℕ)
    → Keep (load a >>= (λ it. store a (record it { p = 1 }) >> (item_unlink pd >> item_remove pd)))
mark_pending-Keep a pd = record {
  call = λ c p.
      Coherent.store_at c a _ p (kept refl refl refl)
        (next (item_unlink-Keep pd) (item_remove-Keep pd));
}

take_pending-Keep : (a : ℕ) (key : List ℕ) → Keep (take_pending a key)
unfolding take_pending
take_pending-Keep a key =
    bind (item_get-Keep (pending_key key))
      (λ pending_it. either-Keep pending_it (pure-Keep tt) (mark_pending-Keep a))

choose_iqset-Keep : (a conn_token : ℕ) → Keep (choose_iqset a conn_token)
unfolding choose_iqset
choose_iqset-Keep a conn_token = bind (load-Keep a) (λ it.
    bind (item_get-Keep (lease_key it.key)) (λ lease_it.
      either-Keep lease_it (pure-Keep (choose false a)) (λ l. bind (load-Keep l) (λ li.
        if-Keep (not li.i_lease || not (lease_value li == conn_token))
          (pure-Keep (record (choose false a) { lease_it = some l }))
          (next (item_unlink-Keep l) (
            next (when-Keep (ltb 0 (length it.value)) (take_pending-Keep a it.key))
              (pure-Keep (record (choose (ltb 0 (length it.value)) a) { lease_it = some l }))))))))

choose_absent-Keep : (a : ℕ) (req : Req) (conn_token : ℕ) → Keep (choose_absent a req conn_token)
unfolding choose_absent
choose_absent-Keep a Req.set conn_token = pure-Keep (choose true a)
choose_absent-Keep a Req.add conn_token = pure-Keep (choose true a)
choose_absent-Keep a Req.replace conn_token = pure-Keep (choose false a)
choose_absent-Keep a Req.append conn_token = pure-Keep (choose false a)
choose_absent-Keep a Req.prepend conn_token = pure-Keep (choose false a)
choose_absent-Keep a Req.cas conn_token = pure-Keep (record (choose false a) { result = not_found })
choose_absent-Keep a Req.iqset conn_token = choose_iqset-Keep a conn_token
choose_absent-Keep a Req.iqget conn_token = pure-Keep (choose true a)
choose_absent-Keep a Req.delete conn_token = pure-Keep (choose true a)
choose_absent-Keep a Req.qareg conn_token = pure-Keep (choose true a)
choose_absent-Keep a Req.qaread conn_token = pure-Keep (choose true a)
choose_absent-Keep a Req.iqincr conn_token = fault-Keep
choose_absent-Keep a Req.iqdecr conn_token = fault-Keep
choose_absent-Keep a Req.other conn_token = fault-Keep

join-Keep :
    (right : Bool) (a oit_a n : ℕ)
    → Keep (
        load n >>= (λ ni. load a >>= (λ it'. load oit_a >>= (λ oit'.
          store n (record ni {
            raligned = right;
            value = if right then it'.value ++ oit'.value else oit'.value ++ it'.value;
          })
          >> pure (record (choose true n) { nit = some n })))))
join-Keep right a oit_a n = record {
  call = λ c p.
      Coherent.store_at c n _ p (kept refl refl refl)
        (pure-Keep (record (choose true n) { nit = some n }));
}

choose_joined-Keep : (right : Bool) (a oit_a : ℕ) → Keep (choose_joined right a oit_a)
unfolding choose_joined
choose_joined-Keep right a oit_a = bind (load-Keep a) (λ it. bind (load-Keep oit_a) (λ oit.
    let size = length oit.value + length it.value in
    bind (item_slabid-Keep (length oit.key) size) (λ id.
      if-Keep (id == 255 || length oit.value == 0) (pure-Keep (choose false a)) (
        bind (item_alloc_config-Keep false id it.key oit.dataflags oit.exptime size (negsuc 0))
          (λ nit. either-Keep nit (pure-Keep (choose false a)) (join-Keep right a oit_a))))))

choose_present-Keep :
    (a oit_a : ℕ) (req : Req) (conn_token : ℕ) → Keep (choose_present a oit_a req conn_token)
unfolding choose_present
choose_present-Keep a oit_a Req.set conn_token = pure-Keep (choose true a)
choose_present-Keep a oit_a Req.add conn_token = bind (load-Keep oit_a) (λ oit.
    next (when-Keep (ltb 0 (length oit.value)) (item_touch-Keep oit_a))
      (pure-Keep (choose (length oit.value == 0) a)))
choose_present-Keep a oit_a Req.replace conn_token =
    bind (load-Keep oit_a) (λ oit. pure-Keep (choose (ltb 0 (length oit.value)) a))
choose_present-Keep a oit_a Req.append conn_token = choose_joined-Keep false a oit_a
choose_present-Keep a oit_a Req.prepend conn_token = choose_joined-Keep true a oit_a
choose_present-Keep a oit_a Req.cas conn_token = bind (load-Keep a) (λ it.
    bind (load-Keep oit_a) (λ oit. pure-Keep (
      if item_cas it == item_cas oit
      then choose true a
      else record (choose true a) { result = exists })))
choose_present-Keep a oit_a Req.iqset conn_token = choose_iqset-Keep a conn_token
choose_present-Keep a oit_a Req.iqget conn_token = pure-Keep (choose false a)
choose_present-Keep a oit_a Req.delete conn_token = pure-Keep (choose true a)
choose_present-Keep a oit_a Req.qareg conn_token = pure-Keep (choose true a)
choose_present-Keep a oit_a Req.qaread conn_token = pure-Keep (choose true a)
choose_present-Keep a oit_a Req.iqincr conn_token = fault-Keep
choose_present-Keep a oit_a Req.iqdecr conn_token = fault-Keep
choose_present-Keep a oit_a Req.other conn_token = fault-Keep

finish_store-Keep : (oit : Option ℕ) (ch : Choice) → Keep (finish_store oit ch)
unfolding finish_store
finish_store-Keep oit ch =
    let storing = is_not_stored ch.result && ch.store_it in
    next
      (when-Keep storing (either-Keep oit (item_link-Keep ch.it) (λ o. item_replace-Keep o ch.it)))
      (next (whenever-Keep oit item_remove-Keep) (
        next (whenever-Keep ch.nit item_remove-Keep) (
          next (whenever-Keep ch.lease_it item_remove-Keep)
            (pure-Keep (if storing then stored else ch.result)))))

pub item_store-Keep : (a : ℕ) (req : Req) (conn_token : ℕ) → Keep (item_store a req conn_token)
unfolding item_store
item_store-Keep a req conn_token = bind (load-Keep a) (λ it.
    if-Keep (length it.value == 0 && not (is_lease_holder it) && not (has_co_lease it))
      (pure-Keep not_stored)
      (bind (item_get-Keep it.key) (λ oit.
        bind
          (either-Keep oit (choose_absent-Keep a req conn_token)
            (λ o. choose_present-Keep a o req conn_token))
          (finish_store-Keep oit))))
