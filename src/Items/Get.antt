-- ===== src/Items/Get.antt =====
-- Looking items up, and the items that hold leases, pending values and pending marks: the
-- functions of IQ-Twemcached/src/mc_items.c over the prefixed keys of mc_util.c.
use rejig.Prelude.{
  pos, ℕ, ◌+◌, ◌-◌, ◌/◌, ◌%◌, ◌^◌, Bool, true, false, not, ◌&&◌, ◌||◌, Option, none, some, List,
  ◌∷◌, ◌++◌, ◌==◌, leb, length, drop, if◌then◌else◌,
}
use rejig.Time.{reltime}
use rejig.Keylist.{narrow}
use rejig.Util.{strtoull_len, print_uint64}
use rejig.Items.{Item, Cache}
use rejig.Items.Monad.{M, ◌>>=◌, ◌>>◌, pure, state, put, load, store}
use rejig.Items.Refcount.{acquire_refcount, item_unlink}
use rejig.Items.Alloc.{item_alloc, item_slabid}

-- The two tests of `_item_get` for an item that is no longer there for readers.
abbrev pub is_dead : Cache → Item → Bool
is_dead c it =
    (not (it.exptime == 0) && leb it.exptime c.now)
    || (not (c.settings.oldest_live == 0)
        && leb c.settings.oldest_live c.now
        && leb it.atime c.settings.oldest_live)

-- `_item_get`. The item returned carries a reference of the caller.
unfoldable pub item_get : List ℕ → M (Option ℕ)
item_get key = do
  c ← state
  elim (c.assoc key) [
    | none ↦ pure none
    | some a ↦
        if is_dead c (c.heap a)
        then (item_unlink a >> pure none)
        else (acquire_refcount a >> pure (some a))
  ]

-- `mc_get_version_key`, `mc_get_lease_key`, `mc_get_pending_key` and `mc_get_co_lease_key`
abbrev pub version_key : List ℕ → List ℕ
version_key key = b'n' ∷ b'v' ∷ b':' ∷ key

abbrev pub lease_key : List ℕ → List ℕ
lease_key key = b'l' ∷ b's' ∷ b':' ∷ key

abbrev pub pending_key : List ℕ → List ℕ
pending_key key = b'p' ∷ b'd' ∷ b':' ∷ key

abbrev pub co_lease_key : List ℕ → List ℕ
co_lease_key key = b'c' ∷ b'o' ∷ b':' ∷ key

-- `_item_get_pending_version`, `_item_get_lease`, `_item_get_pending` and `_item_get_co_lease`
abbrev pub get_pending_version : List ℕ → M (Option ℕ)
get_pending_version key = item_get (version_key key)

abbrev pub get_lease : List ℕ → M (Option ℕ)
get_lease key = item_get (lease_key key)

abbrev pub get_pending : List ℕ → M (Option ℕ)
get_pending key = item_get (pending_key key)

abbrev pub get_co_lease : List ℕ → M (Option ℕ)
get_co_lease key = item_get (co_lease_key key)

-- `_item_lease_value`: -1 as a uint64_t where the value is no number.
unfoldable pub lease_value : Item → ℕ
lease_value it = elim (strtoull_len it.value) [ none ↦ 2 ^ 64 - 1 | some value ↦ value ]

-- The expiry of a lease in seconds: at least one, and one more for rounding.
unfoldable pub lease_exptime : Cache → ℕ
lease_exptime c =
    let exptime = c.settings.lease_token_expiry / 1000 in (if exptime == 0 then 1 else exptime) + 1

abbrev pub lease_reltime : Cache → ℕ
lease_reltime c = reltime c.settings.process_started c.now (pos (lease_exptime c))

-- `lease_next_token`
unfoldable pub lease_next_token : M ℕ
lease_next_token = do
  c ← state
  put (record c { lease_current_token = (c.lease_current_token + 1) % 2 ^ 64 })
  pure c.lease_current_token

-- `memcpy(item_data(it), bytes, …)`
unfoldable pub copy_data : ℕ → List ℕ → M (Unit {0})
copy_data a bytes = do
  it ← load a
  store a (record it { value = bytes ++ drop (length bytes) it.value })

-- `_item_create_lease`: the lease item and its token. The kind of the lease is set by the caller.
unfoldable pub create_lease : List ℕ → M (Option ℕ × ℕ)
unfolding lease_exptime
create_lease key = do
  c ← state
  token ← lease_next_token
  let buf = print_uint64 token
  id ← item_slabid (length (lease_key key)) (length buf)
  lease_it ← item_alloc true id (lease_key key) 0 (lease_reltime c) (length buf)
  elim lease_it [
    | none ↦ pure (none, token)
    | some a ↦ do copy_data a buf; acquire_refcount a; pure (some a, token)
  ]

-- `_item_create_pending_version`
unfoldable pub create_pending_version : ℕ → M (Option ℕ)
unfolding lease_exptime
create_pending_version a = do
  c ← state
  it ← load a
  id ← item_slabid (length (version_key it.key)) (length it.value)
  item_alloc false id (version_key it.key) it.dataflags (lease_reltime c) (length it.value)

-- `_item_create_reserved_item`
unfoldable pub create_reserved_item : List ℕ → ℕ → M (Option ℕ)
unfolding lease_exptime
create_reserved_item key vlen = do
  c ← state
  id ← item_slabid (length (narrow key)) vlen
  it ← item_alloc true id (narrow key) 0 (lease_reltime c) vlen
  elim it [ none ↦ pure none | some a ↦ do acquire_refcount a; pure (some a) ]
