-- ===== src/Ascii/Updates.antt =====
-- The requests of IQ-Twemcached/src/mc_ascii.c that bring a value: the item is allocated, and the
-- value is read into it; `asc_complete_nread` goes on from there.
use rejig.Prelude.{
  ℤ, pos, negsuc, ℕ, ◌+◌, Bool, true, false, not, Option, none, some, List, ◌==◌, length,
  if◌then◌else◌,
}
use rejig.Time.{reltime}
use rejig.Slabs.{slabclass_invalid_id}
use rejig.Ascii.Numbers.{Libc, to_uint64, to_int32}
use rejig.Ascii.Request.{ReqType}
use rejig.Ascii.Server.{
  client_error, server_error, nread, H, ◌>>=◌, ◌>>◌, pure, finish, write, gets, lift, set_item,
  set_tid, set_lease_token, swallow, expect,
}
use rejig.Ascii.Arguments.{
  Request, text_at, key_at, start, int32_at, uint32_at, int64_at, uint64_at, configured,
  check_config, override_config,
}
use rejig.Items.Refcount.{item_delete, item_set_cas}
use rejig.Items.Alloc.{item_alloc_config, item_slabid}
use rejig.Items.Get.{item_get}

-- `time_reltime` of an int32_t
unfoldable pub expiry : ℤ → H ℕ
expiry exptime = gets (λ w. reltime w.cache.settings.process_started w.cache.now exptime)

-- `sbytes` and `rlbytes`, ints, for a data line of `vlen` bytes with its "\r\n".
abbrev pub line_bytes : ℕ → ℤ
line_bytes vlen = to_int32 (pos (vlen + 2))

-- The slab class for the value, if there is one.
unfoldable pub class_for : List ℕ → ℕ → H ℕ
class_for key vlen = do
  id ← lift (item_slabid (length key) vlen)
  expect (not (id == slabclass_invalid_id)) client_error
  pure id

-- Where the allocation fails the old value must not stay.
unfoldable pub drop_stale : List ℕ → H (Unit {0})
drop_stale key = do
  it ← lift (item_get key)
  elim it [ none ↦ pure tt | some a ↦ lift (item_delete a) ]

-- No item: the data line is thrown away.
unfoldable pub refuse_value : Bool → List ℕ → ℕ → H (Unit {0})
refuse_value stale key vlen = do
  swallow (line_bytes vlen)
  (if stale then drop_stale key else pure tt)
  write server_error

-- The connection reads the value into the item.
unfoldable pub await_value : ℕ → ℕ → H (Unit {0})
await_value a vlen = do set_item (some a) (line_bytes vlen); finish nread

-- `if (it == NULL) { … return; }`, and what follows it.
unfoldable pub if_item : Bool → List ℕ → ℕ → (ℕ → H (Unit {0})) → Option ℕ → H (Unit {0})
if_item stale key vlen f none = refuse_value stale key vlen
if_item stale key vlen f (some a) = f a

abbrev pub is_iqset : ReqType → Bool
is_iqset ReqType.iqset = true
is_iqset _ = false

abbrev pub is_set : ReqType → Bool
is_set ReqType.iqset = true
is_set ReqType.set = true
is_set _ = false

abbrev pub is_cas : ReqType → Bool
is_cas ReqType.cas = true
is_cas _ = false

module _ (libc : Libc) (req : Request) where
  -- `asc_process_update`. `TOKEN_CAS` is the token of `vlen`.
  unfoldable pub process_update : H (Unit {0})
  process_update = do
    start req
    client_configuration_number ← int32_at libc req 1
    next_fragment_cfg_id ← int32_at libc req 2
    type ← gets (λ w. w.req_type)
    key ← key_at req 3
    flags ← uint32_at libc req 4
    exptime ← int32_at libc req 5
    vlen ← uint32_at libc req 6
    lease_token ← (if is_iqset type then int64_at libc req 7 else pure (pos 0))
    server_config ← check_config (swallow (line_bytes vlen)) client_configuration_number
    id ← class_for key vlen
    req_cas_id ← (if is_cas type then uint64_at libc req 6 else pure 0)
    expires ← expiry exptime
    it ← lift (
        item_alloc_config false id key flags expires vlen
          (override_config next_fragment_cfg_id server_config))
    if_item (is_set type) key vlen
        (λ a. do
          lift (item_set_cas a req_cas_id)
          (if is_iqset type then set_lease_token (to_uint64 lease_token) else pure tt)
          await_value a vlen)
        it

  -- `asc_process_sar`
  unfoldable pub process_sar : H (Unit {0})
  process_sar = do
    start req
    configured libc req
    key ← key_at req 2
    flags ← uint32_at libc req 3
    exptime ← int32_at libc req 4
    vlen ← uint32_at libc req 5
    lease_token ← int64_at libc req 6
    id ← class_for key vlen
    expires ← expiry exptime
    it ← lift (item_alloc_config false id key flags expires vlen (negsuc 0))
    if_item true key vlen (λ a. do set_lease_token (to_uint64 lease_token); await_value a vlen) it

  -- `asc_process_swap`
  unfoldable pub process_swap : H (Unit {0})
  process_swap = do
    start req
    client_configuration_number ← int32_at libc req 1
    frag_configuration_number ← int32_at libc req 2
    key ← key_at req 3
    flags ← uint32_at libc req 4
    exptime ← int32_at libc req 5
    vlen ← uint32_at libc req 6
    lease_token ← int64_at libc req 7
    server_config ← check_config (swallow (line_bytes vlen)) client_configuration_number
    id ← class_for key vlen
    expires ← expiry exptime
    it ← lift (
        item_alloc_config false id key flags expires vlen
          (override_config frag_configuration_number server_config))
    if_item true key vlen (λ a. do set_lease_token (to_uint64 lease_token); await_value a vlen) it

  -- `asc_process_oqwrite` and `asc_process_oqswap`, which are alike.
  unfoldable pub process_session_value : H (Unit {0})
  process_session_value = do
    start req
    sid ← text_at req 1
    key ← key_at req 2
    flags ← uint32_at libc req 3
    exptime ← int32_at libc req 4
    vlen ← uint32_at libc req 5
    id ← class_for key vlen
    expires ← expiry exptime
    it ← lift (item_alloc_config false id key flags expires vlen (negsuc 0))
    if_item true key vlen (λ a. do set_tid sid; await_value a vlen) it

  -- The allocation of `asc_process_iqappend_iqprepend` and `asc_process_oqappend_oqprepend`.
  unfoldable pub take_joined : List ℕ → List ℕ → ℕ → H (Unit {0})
  take_joined tid key vlen = do
    id ← lift (item_slabid (length key) vlen)
    it ← lift (item_alloc_config false id key 0 0 vlen (negsuc 0))
    if_item false key vlen (λ a. do set_tid tid; await_value a vlen) it

  -- `asc_process_iqappend_iqprepend`
  unfoldable pub process_iqappend_iqprepend : H (Unit {0})
  process_iqappend_iqprepend = do
    start req
    client_configuration_number ← int32_at libc req 1
    key ← key_at req 2
    vlen ← uint32_at libc req 3
    tid ← text_at req 4
    _ ← check_config (swallow (line_bytes vlen)) client_configuration_number
    take_joined tid key vlen

  -- `asc_process_oqappend_oqprepend`
  unfoldable pub process_oqappend_oqprepend : H (Unit {0})
  process_oqappend_oqprepend = do
    start req
    tid ← text_at req 1
    key ← key_at req 2
    vlen ← uint32_at libc req 3
    take_joined tid key vlen
