-- ===== src/Items/Store.antt =====
-- `_item_store` of IQ-Twemcached/src/mc_items.c: an item stored by the semantics of one request.
use rejig.Prelude.{
  ℕ, ◌+◌, Bool, true, false, not, ◌&&◌, ◌||◌, Option, none, some, List, ◌++◌, ◌==◌, ltb, length,
  if◌then◌else◌,
}
use rejig.Items.{Item}
use rejig.Items.Monad.{M, ◌>>=◌, ◌>>◌, pure, fault, load, store, when, whenever}
use rejig.Items.Refcount.{
  is_lease_holder, has_co_lease, item_link, item_unlink, item_remove, item_replace, item_touch,
}
use rejig.Items.Alloc.{item_alloc, item_slabid}
use rejig.Items.Get.{item_get, get_lease, get_pending, lease_value}

pub data StoreResult : Type 0 where
  not_stored stored exists not_found store_error : StoreResult

-- `req_type_t`, as far as `_item_store` and the increments tell requests apart.
pub data Req : Type 0 where
  set add replace append prepend cas iqset iqget delete qareg qaread iqincr iqdecr : Req
  other : Req

-- What an arm of the switch leaves: `result`, `store_it`, the item that `it` points to now, `nit`
-- and `lease_it`.
pub record Choice : Type 0 where
  pub result : StoreResult
  pub store_it : Bool
  pub it : ℕ
  pub nit : Option ℕ
  pub lease_it : Option ℕ

abbrev pub choose : Bool → ℕ → Choice
choose store_it a = record {
  result = not_stored;
  store_it = store_it;
  it = a;
  nit = none;
  lease_it = none;
}

-- The pending mark moves from its own item to the item stored.
unfoldable pub take_pending : ℕ → List ℕ → M (Unit {0})
take_pending a key = do
  pending_it ← get_pending key
  elim pending_it [
    | none ↦ pure tt
    | some pd ↦ do it ← load a; store a (record it { p = 1 }); item_unlink pd; item_remove pd
  ]

-- The arm REQ_IQSET, which both switches have: the I lease of the key must hold the token that the
-- connection gave, and is used up.
unfoldable pub choose_iqset : ℕ → ℕ → M Choice
choose_iqset a conn_token = do
  it ← load a
  lease_it ← get_lease it.key
  elim lease_it [
    | none ↦ pure (choose false a)
    | some l ↦ do
      li ← load l
      (if not li.i_lease || not (lease_value li == conn_token)
          then pure (record (choose false a) { lease_it = some l })
          else (do
            item_unlink l
            when (ltb 0 (length it.value)) (take_pending a it.key)
            pure (record (choose (ltb 0 (length it.value)) a) { lease_it = some l })))
  ]

-- The first switch: there is no item under the key.
unfoldable pub choose_absent : ℕ → Req → ℕ → M Choice
choose_absent a Req.set conn_token = pure (choose true a)
choose_absent a Req.add conn_token = pure (choose true a)
choose_absent a Req.replace conn_token = pure (choose false a)
choose_absent a Req.append conn_token = pure (choose false a)
choose_absent a Req.prepend conn_token = pure (choose false a)
choose_absent a Req.cas conn_token = pure (record (choose false a) { result = not_found })
choose_absent a Req.iqset conn_token = choose_iqset a conn_token
choose_absent a Req.iqget conn_token = pure (choose true a)
choose_absent a Req.delete conn_token = pure (choose true a)
choose_absent a Req.qareg conn_token = pure (choose true a)
choose_absent a Req.qaread conn_token = pure (choose true a)
choose_absent a Req.iqincr conn_token = fault
choose_absent a Req.iqdecr conn_token = fault
choose_absent a Req.other conn_token = fault

-- The arms REQ_APPEND and REQ_PREPEND: a new item holds both values. An id of no class ends the
-- arm; the allocation comes after the test for an empty old value.
unfoldable pub choose_joined : Bool → ℕ → ℕ → M Choice
choose_joined right a oit_a = do
  it ← load a
  oit ← load oit_a
  id ← item_slabid (length oit.key) (length oit.value + length it.value)
  (if id == 255 || length oit.value == 0 then pure (choose false a) else (do
    nit ← item_alloc false id it.key oit.dataflags oit.exptime (length oit.value + length it.value)
    elim nit [
      | none ↦ pure (choose false a)
      | some n ↦ do
        ni ← load n
        it' ← load a
        oit' ← load oit_a
        store n (record ni {
          raligned = right;
          value = if right then it'.value ++ oit'.value else oit'.value ++ it'.value;
        })
        pure (record (choose true n) { nit = some n })
    ]))

-- `item_cas`
abbrev pub item_cas : Item → ℕ
item_cas it = if it.cas then it.cas_value else 0

-- The second switch: there is an old item.
unfoldable pub choose_present : ℕ → ℕ → Req → ℕ → M Choice
choose_present a oit_a Req.set conn_token = pure (choose true a)
choose_present a oit_a Req.add conn_token = do
  oit ← load oit_a
  when (ltb 0 (length oit.value)) (item_touch oit_a)
  pure (choose (length oit.value == 0) a)
choose_present a oit_a Req.replace conn_token = do
  oit ← load oit_a
  pure (choose (ltb 0 (length oit.value)) a)
choose_present a oit_a Req.append conn_token = choose_joined false a oit_a
choose_present a oit_a Req.prepend conn_token = choose_joined true a oit_a
choose_present a oit_a Req.cas conn_token = do
  it ← load a
  oit ← load oit_a
  pure (
      if item_cas it == item_cas oit
      then choose true a
      else record (choose true a) { result = exists })
choose_present a oit_a Req.iqset conn_token = choose_iqset a conn_token
choose_present a oit_a Req.iqget conn_token = pure (choose false a)
choose_present a oit_a Req.delete conn_token = pure (choose true a)
choose_present a oit_a Req.qareg conn_token = pure (choose true a)
choose_present a oit_a Req.qaread conn_token = pure (choose true a)
choose_present a oit_a Req.iqincr conn_token = fault
choose_present a oit_a Req.iqdecr conn_token = fault
choose_present a oit_a Req.other conn_token = fault

abbrev pub is_not_stored : StoreResult → Bool
is_not_stored not_stored = true
is_not_stored stored = false
is_not_stored exists = false
is_not_stored not_found = false
is_not_stored store_error = false

-- From behind the switches to the return.
unfoldable pub finish_store : Option ℕ → Choice → M StoreResult
finish_store oit ch = do
  let storing = is_not_stored ch.result && ch.store_it
  when storing (elim oit [ none ↦ item_link ch.it | some o ↦ item_replace o ch.it ])
  whenever oit item_remove
  whenever ch.nit item_remove
  whenever ch.lease_it item_remove
  pure (if storing then stored else ch.result)

-- `_item_store`
unfoldable pub item_store : ℕ → Req → ℕ → M StoreResult
item_store a req conn_token = do
  it ← load a
  (if length it.value == 0 && not (is_lease_holder it) && not (has_co_lease it)
      then pure not_stored
      else (do
        oit ← item_get it.key
        ch ← elim oit [
          | none ↦ choose_absent a req conn_token
          | some o ↦ choose_present a o req conn_token
        ]
        finish_store oit ch))
