-- ===== src/Ascii/Reads.antt =====
-- The requests of IQ-Twemcached/src/mc_ascii.c that read: get, gets, iqget, iset, ciget, oqread,
-- qaread and check.
use rejig.Prelude.{
  ℕ, zero, suc, ◌+◌, true, false, Option, none, some, List, [], ◌∷◌, ◌++◌, ltb, leb, length, drop,
  if◌then◌else◌, ℤ, pos, negsuc, map,
}
use rejig.Ascii.{text_of, read_tokens}
use rejig.Ascii.Numbers.{Libc, to_uint64}
use rejig.Ascii.Server.{
  client_error, server_error, abort, invalid, retry, novalue, hits, value, lvalue, lvalue_short,
  quarantined, read_value, missing, silent, H, ◌>>=◌, ◌>>◌, pure, fault, finish, write, lift,
  expect,
}
use rejig.Ascii.Arguments.{
  Request, ntoken, text_at, key_at, start, need_ntoken_valid, key_max_len, int32_at, int64_at,
  configured, same_int,
}
use rejig.Items.Monad
use rejig.Items.Refcount.{item_remove, item_touch}
use rejig.Items.Get.{item_get}
use rejig.Items.Iqget.{item_iqget, IqResult}
use rejig.Items.Session.{CoResult}
use rejig.Items.Session.Read.{item_ciget, item_oqread}
use rejig.Items.Trans.Swap.{quarantine_and_read}

-- The texts of the tokens from one on, those of later token arrays included.
unfoldable pub texts_from : Request → ℕ → H (List (List ℕ))
texts_from req i =
    let texts = drop i (map (text_of req.command) req.tokens.tokens) in
    elim req.tokens.terminal [
      | none ↦ pure texts
      | some e ↦ elim (read_tokens (suc (length req.command)) (drop e req.command)) [
        | none ↦ fault
        | some more ↦ pure (texts ++ more)
      ]
    ]

-- The loop of `asc_process_read` over the keys: the items found, each with a reference.
unfoldable pub read_keys : List (List ℕ) → List ℕ → H (List ℕ)
read_keys [] found = pure found
read_keys (key ∷ keys) found = do
  expect (leb (length key) key_max_len) client_error
  it ← lift (item_get key)
  elim it [
    | none ↦ read_keys keys found
    | some a ↦ do lift (item_touch a); read_keys keys (found ++ a ∷ [])
  ]

-- `if (it != NULL) item_remove(it)`
unfoldable pub remove_some : Option ℕ → H (Unit {0})
remove_some none = pure tt
remove_some (some a) = lift (item_remove a)

-- A pointer that is followed.
unfoldable pub item_of : Option ℕ → H ℕ
item_of none = fault
item_of (some a) = pure a

-- `*new_lease_token`, which is 0 before the call.
abbrev pub token_or_zero : Option ℕ → ℕ
token_or_zero none = 0
token_or_zero (some token) = token

-- `asc_write_iqget_lease`, with the `item_remove` behind it.
unfoldable pub answer_lease : Option ℕ → Option ℕ → H (Unit {0})
answer_lease it new_token = do
  a ← item_of it
  i ← lift (Monad.load a)
  lift (item_remove a)
  finish (lvalue a i.dataflags i.p (token_or_zero new_token))

-- The switch of `asc_process_iqget` and of `asc_process_iset`, and what follows it.
unfoldable pub answer_iqget : IqResult → Option ℕ → Option ℕ → H (Unit {0})
answer_iqget IqResult.value it new_token = do a ← item_of it; finish (value a)
answer_iqget IqResult.no_value it new_token = do remove_some it; finish novalue
answer_iqget IqResult.miss it new_token = answer_lease it new_token
answer_iqget IqResult.lease it new_token = answer_lease it new_token
answer_iqget IqResult.server_error it new_token = do remove_some it; write server_error
answer_iqget IqResult.lease_no_value it new_token = do remove_some it; finish silent
answer_iqget IqResult.no_lease it new_token = do remove_some it; finish silent
answer_iqget IqResult.abort it new_token = do remove_some it; finish silent
answer_iqget IqResult.client_error it new_token = do remove_some it; finish silent
answer_iqget IqResult.ok it new_token = do remove_some it; finish silent
answer_iqget IqResult.not_found it new_token = do remove_some it; finish silent

-- The arm CO_OK of `asc_process_ciget`.
unfoldable pub answer_ciget_ok : Option ℕ → ℕ → H (Unit {0})
answer_ciget_ok none zero = finish novalue
answer_ciget_ok (some a) zero = finish (value a)
answer_ciget_ok it (suc token) = do
  a ← item_of it
  i ← lift (Monad.load a)
  lift (item_remove a)
  finish (lvalue_short a i.dataflags (suc token))

-- The switch of `asc_process_ciget`.
unfoldable pub answer_ciget : CoResult → Option ℕ → Option ℕ → H (Unit {0})
answer_ciget CoResult.co_ok it new_token = answer_ciget_ok it (token_or_zero new_token)
answer_ciget CoResult.co_retry it new_token = do remove_some it; write retry
answer_ciget CoResult.co_abort it new_token = do remove_some it; write abort
answer_ciget CoResult.co_invalid it new_token = do remove_some it; write invalid
answer_ciget CoResult.co_not_found it new_token = do remove_some it; finish silent
answer_ciget CoResult.co_novalue it new_token = do remove_some it; finish silent

-- The branches of `asc_process_oqread`.
unfoldable pub answer_oqread : CoResult → Option ℕ → H (Unit {0})
answer_oqread CoResult.co_ok it = finish (read_value it)
answer_oqread CoResult.co_abort it = write abort
answer_oqread CoResult.co_invalid it = write invalid
answer_oqread CoResult.co_retry it = finish silent
answer_oqread CoResult.co_not_found it = finish silent
answer_oqread CoResult.co_novalue it = finish silent

-- What `asc_process_check` writes to a buffer of 1024 bytes.
abbrev pub check_room : ℕ
check_room = 1024

pub size_of : List (List ℕ) → ℕ
size_of [] = 3
size_of (key ∷ keys) = length key + 1 + size_of keys

-- The loop of `asc_process_check`, from `token[i]`.
unfoldable pub check_keys : Request → ℕ → ℕ → List (List ℕ) → H (List (List ℕ))
check_keys req zero i absent = pure absent
check_keys req (suc count) i absent = do
  key ← text_at req i
  it ← lift (item_get key)
  elim it [
    | none ↦ check_keys req count (i + 1) (absent ++ key ∷ [])
    | some a ↦ do lift (item_remove a); check_keys req count (i + 1) absent
  ]

-- An int64_t as the bound of a loop that counts up.
abbrev pub rounds : ℤ → ℕ
rounds (pos n) = n
rounds (negsuc n) = 0

module _ (libc : Libc) (req : Request) where
  -- `asc_process_read`
  unfoldable pub process_read : H (Unit {0})
  process_read = do
    need_ntoken_valid req
    configured libc req
    keys ← texts_from req 2
    found ← read_keys keys []
    finish (hits found)

  -- `asc_process_iqget`
  unfoldable pub process_iqget : H (Unit {0})
  process_iqget = do
    start req
    configured libc req
    key ← key_at req 2
    lease_token ← int64_at libc req 3
    foreground ← int32_at libc req 4
    r ← lift (item_iqget key (to_uint64 lease_token) [] false (same_int foreground (pos 1)))
    answer_iqget r.status r.item r.new_token

  -- `asc_process_iset`
  unfoldable pub process_iset : H (Unit {0})
  process_iset = do
    start req
    configured libc req
    key ← key_at req 2
    lease_token ← int64_at libc req 3
    tid ← (if ltb 4 (ntoken req) then text_at req 4 else pure [])
    r ← lift (item_iqget key (to_uint64 lease_token) tid true true)
    answer_iqget r.status r.item r.new_token

  -- `asc_process_ciget`
  unfoldable pub process_ciget : H (Unit {0})
  process_ciget = do
    start req
    sid ← text_at req 1
    key ← key_at req 2
    lease_token ← int64_at libc req 3
    r ← lift (item_ciget sid key (to_uint64 lease_token))
    answer_ciget r.status r.item r.new_token

  -- `asc_process_oqread`
  unfoldable pub process_oqread : H (Unit {0})
  process_oqread = do
    start req
    sid ← text_at req 1
    key ← key_at req 2
    r ← lift (item_oqread sid key)
    answer_oqread r.status r.item

  -- `asc_process_qaread`. `ntoken` counts the terminal token.
  unfoldable pub process_qaread : H (Unit {0})
  process_qaread = do
    start req
    configured libc req
    key ← key_at req 2
    wanted ← int32_at libc req 3
    lease_token ← (if ltb 4 (ntoken req) then int64_at libc req 4 else pure (pos 0))
    tid ← (if ltb 5 (ntoken req) then text_at req 5 else pure [])
    q ← lift (quarantine_and_read tid key (to_uint64 lease_token))
    finish (quarantined (if same_int wanted (pos 0) then none else q.item) q.pending q.new_token)

  -- `asc_process_check`
  unfoldable pub process_check : H (Unit {0})
  unfolding size_of
  process_check = do
    need_ntoken_valid req
    num_keys ← int64_at libc req 1
    absent ← check_keys req (rounds num_keys) 2 []
    (if leb (size_of absent) check_room then write (missing absent) else fault)
