-- ===== src/Ascii/Leases.antt =====
-- The requests of IQ-Twemcached/src/mc_ascii.c on values, leases, transactions and sessions that
-- bring no value.
use rejig.Prelude.{
  ℕ, zero, suc, ◌+◌, Bool, Option, none, some, List, [], ◌∷◌, ltb, leb, length, if◌then◌else◌, pos,
}
use rejig.Ascii.Numbers.{Libc, to_uint64}
use rejig.Ascii.Server.{
  client_error, server_error, abort, not_found, deleted, invalid, ok, novalue, silent, counted,
  leasehold, ok_val, ok_pending, ok_novalue_pending, H, ◌>>=◌, ◌>>◌, pure, fault, finish, write,
  lift, expect,
}
use rejig.Ascii.Arguments.{
  Request, ntoken, text_at, key_at, start, key_max_len, int32_at, uint64_at, int64_at, configured,
  check_config, override_config, same_int,
}
use rejig.Ascii.Reads.{texts_from, token_or_zero, rounds}
use rejig.Items.Store.{StoreResult}
use rejig.Items.Iqget.{IqResult}
use rejig.Items.Trans.{quarantine_and_register, get_and_unlease, get_and_delete}
use rejig.Items.Trans.Finish.{delete_and_release, item_commit, item_release}
use rejig.Items.Trans.Incr.{item_add_delta, item_iqupdate, DeltaResult, add_delta}
use rejig.Items.Marks.{item_ftrans}
use rejig.Items.Session.{CoResult}
use rejig.Items.Session.Write.{item_oqreg, item_oqincr}
use rejig.Items.Session.Finish.{item_dcommit, item_validate, item_co_unlease}

-- The switch of `asc_process_arithmetic`.
unfoldable pub answer_delta : DeltaResult → H (Unit {0})
answer_delta DeltaResult.ok = write counted
answer_delta DeltaResult.non_numeric = write client_error
answer_delta DeltaResult.eom = write server_error
answer_delta DeltaResult.not_found = write not_found

-- The loop of `asc_process_delete`; the answer is that of the last key.
unfoldable pub delete_keys : Bool → List (List ℕ) → Option StoreResult → H (Option StoreResult)
delete_keys delete_lease [] res = pure res
delete_keys delete_lease (key ∷ keys) res = do
  expect (leb (length key) key_max_len) client_error
  r ← lift (get_and_delete key delete_lease)
  delete_keys delete_lease keys (some r)

-- The end of `asc_process_delete`; `res` is not set where there is no key.
unfoldable pub answer_delete : Option StoreResult → H (Unit {0})
answer_delete none = fault
answer_delete (some StoreResult.exists) = write deleted
answer_delete (some StoreResult.stored) = write deleted
answer_delete (some StoreResult.not_found) = write not_found
answer_delete (some StoreResult.not_stored) = write server_error
answer_delete (some StoreResult.store_error) = write server_error

-- The switch of `asc_process_iqincr_iqdecr`, with NOT_REACHED for all other results.
unfoldable pub answer_iqincr : IqResult → ℕ → ℕ → H (Unit {0})
answer_iqincr IqResult.lease pending token = finish (ok_pending pending token)
answer_iqincr IqResult.lease_no_value pending token = finish (ok_novalue_pending pending token)
answer_iqincr IqResult.client_error pending token = write client_error
answer_iqincr IqResult.server_error pending token = write server_error
answer_iqincr IqResult.abort pending token = write abort
answer_iqincr IqResult.value pending token = fault
answer_iqincr IqResult.no_value pending token = fault
answer_iqincr IqResult.no_lease pending token = fault
answer_iqincr IqResult.miss pending token = fault
answer_iqincr IqResult.ok pending token = fault
answer_iqincr IqResult.not_found pending token = fault

abbrev pub or_zero : Option ℕ → ℕ
or_zero none = 0
or_zero (some n) = n

-- The switch of `asc_process_oqincr_oqdecr`; a value that is no number leaves `val` as it was.
unfoldable pub answer_oqincr : CoResult → Option ℕ → H (Unit {0})
answer_oqincr CoResult.co_ok (some val) = finish (ok_val val)
answer_oqincr CoResult.co_ok none = fault
answer_oqincr CoResult.co_novalue val = finish novalue
answer_oqincr CoResult.co_abort val = write abort
answer_oqincr CoResult.co_retry val = fault
answer_oqincr CoResult.co_invalid val = fault
answer_oqincr CoResult.co_not_found val = fault

-- The ends of `asc_process_commit`, and of `asc_process_release`, which says nothing otherwise.
unfoldable pub answer_commit : IqResult → H (Unit {0})
answer_commit IqResult.ok = write ok
answer_commit IqResult.not_found = write not_found
answer_commit _ = write server_error

unfoldable pub answer_release : IqResult → H (Unit {0})
answer_release IqResult.ok = write ok
answer_release IqResult.not_found = write not_found
answer_release _ = finish silent

-- The ends of `asc_process_dcommit` and `asc_process_oqreg`.
unfoldable pub answer_session : CoResult → H (Unit {0})
answer_session CoResult.co_ok = write ok
answer_session CoResult.co_invalid = write invalid
answer_session CoResult.co_not_found = write not_found
answer_session CoResult.co_abort = write abort
answer_session _ = write server_error

-- The end of `asc_process_co_unlease`.
unfoldable pub answer_co_unlease : CoResult → H (Unit {0})
answer_co_unlease CoResult.co_ok = write ok
answer_co_unlease CoResult.co_invalid = write invalid
answer_co_unlease CoResult.co_not_found = write not_found
answer_co_unlease _ = write server_error

-- The switch of `asc_process_validate`.
unfoldable pub answer_validate : CoResult → H (Unit {0})
answer_validate CoResult.co_ok = write ok
answer_validate CoResult.co_abort = write abort
answer_validate _ = write invalid

-- The loop of `asc_process_ftrans`, from `token[i]`.
unfoldable pub ftrans_keys : Request → List ℕ → ℕ → ℕ → H (Unit {0})
ftrans_keys req tid zero i = pure tt
ftrans_keys req tid (suc count) i = do
  key ← text_at req i
  lift (item_ftrans tid key)
  ftrans_keys req tid count (i + 1)

module _ (libc : Libc) (req : Request) where
  -- `asc_process_arithmetic`
  unfoldable pub process_arithmetic : Bool → H (Unit {0})
  process_arithmetic incr = do
    start req
    configured libc req
    key ← key_at req 2
    delta ← uint64_at libc req 3
    res ← lift (item_add_delta key incr delta)
    answer_delta res

  -- `asc_process_delete`
  unfoldable pub process_delete : H (Unit {0})
  process_delete = do
    start req
    configured libc req
    delete_lease ← int32_at libc req 2
    keys ← texts_from req 3
    res ← delete_keys (same_int delete_lease (pos 1)) keys none
    answer_delete res

  -- `asc_process_unlease`
  unfoldable pub process_unlease : H (Unit {0})
  process_unlease = do
    start req
    configured libc req
    key ← key_at req 2
    lease_token ← int64_at libc req 3
    lift (get_and_unlease key (to_uint64 lease_token))
    write deleted

  -- `asc_process_qareg`
  unfoldable pub process_qareg : H (Unit {0})
  process_qareg = do
    start req
    configured libc req
    key ← key_at req 2
    tid ← key_at req 3
    lift (quarantine_and_register tid key)
    write (leasehold 1)

  -- `asc_process_dar`
  unfoldable pub process_dar : H (Unit {0})
  process_dar = do
    start req
    configured libc req
    tid ← key_at req 2
    done ← lift (delete_and_release tid)
    write (if done then deleted else invalid)

  -- `asc_process_iqincr_iqdecr`. The tid is taken from the token of the delta.
  unfoldable pub process_iqincr_iqdecr : Bool → H (Unit {0})
  process_iqincr_iqdecr incr = do
    start req
    configured libc req
    key ← key_at req 2
    delta ← uint64_at libc req 3
    tid ← (if ltb 4 (ntoken req) then text_at req 3 else pure [])
    r ← lift (item_iqupdate tid key (add_delta incr delta))
    answer_iqincr r.status r.pending (token_or_zero r.new_token)

  -- `asc_process_oqincr_oqdecr`
  unfoldable pub process_oqincr_oqdecr : Bool → H (Unit {0})
  process_oqincr_oqdecr incr = do
    start req
    configured libc req
    sid ← text_at req 2
    key ← key_at req 3
    delta ← uint64_at libc req 4
    r ← lift (item_oqincr sid key incr delta)
    answer_oqincr r.0 r.1

  -- `asc_process_commit`
  unfoldable pub process_commit : H (Unit {0})
  process_commit = do
    start req
    client_configuration_number ← int32_at libc req 1
    frag_configuration_number ← int32_at libc req 2
    tid ← key_at req 3
    pending ← int32_at libc req 4
    server_cfg_id ← check_config (pure tt) client_configuration_number
    exc ← lift (
        item_commit tid (to_uint64 pending)
          (override_config frag_configuration_number server_cfg_id))
    answer_commit exc

  -- `asc_process_release`
  unfoldable pub process_release : H (Unit {0})
  process_release = do
    start req
    tid ← key_at req 1
    exc ← lift (item_release tid)
    answer_release exc

  -- `asc_process_dcommit`
  unfoldable pub process_dcommit : H (Unit {0})
  process_dcommit = do
    start req
    sid ← key_at req 1
    exc ← lift (item_dcommit sid)
    answer_session exc

  -- `asc_process_co_unlease`
  unfoldable pub process_co_unlease : H (Unit {0})
  process_co_unlease = do
    start req
    sid ← key_at req 1
    exc ← lift (item_co_unlease sid)
    answer_co_unlease exc

  -- `asc_process_oqreg`
  unfoldable pub process_oqreg : H (Unit {0})
  process_oqreg = do
    start req
    sid ← key_at req 1
    key ← key_at req 2
    exc ← lift (item_oqreg sid key)
    answer_session exc

  -- `asc_process_validate`
  unfoldable pub process_validate : H (Unit {0})
  process_validate = do
    start req
    sid ← text_at req 1
    exc ← lift (item_validate sid)
    answer_validate exc

  -- `asc_process_ftrans`
  unfoldable pub process_ftrans : H (Unit {0})
  process_ftrans = do
    start req
    tid ← text_at req 1
    num_keys ← int64_at libc req 2
    ftrans_keys req tid (rounds num_keys) 3
    write ok
