-- ===== src/Items/Reach.antt =====
-- The caches that IQ-Twemcached comes to: from an empty one, by the calls that connections make of
-- IQ-Twemcached/src/mc_items.c, each of which holds cache_lock from its beginning to its end.
use rejig.Prelude.{ℕ, List, some, none, Bool, false, not, ◌≡◌, ℤ}
use rejig.Items.{Cache}
use rejig.Items.Monad.{M, ◌>>=◌, ◌>>◌, pure, check, state, put, load, store}
use rejig.Items.Refcount.{item_set_cas, item_remove, item_delete, item_touch}
use rejig.Items.Alloc.{item_alloc_config}
use rejig.Items.Get.{item_get}
use rejig.Items.Store.{item_store, Req}
use rejig.Items.Iqget.{item_iqget}
use rejig.Items.Trans.{quarantine_and_register, get_and_unlease, get_and_delete}
use rejig.Items.Trans.Finish.{delete_and_release, item_commit, item_release}
use rejig.Items.Trans.Swap.{quarantine_and_read, item_swap, swap_and_release}
use rejig.Items.Trans.Incr.{item_add_delta, item_iqupdate, Update}
use rejig.Items.Session.Read.{item_ciget, item_oqread}
use rejig.Items.Session.Write.{item_oqincr, item_oqswap, item_oqwrite, item_oqupdate, item_oqreg}
use rejig.Items.Session.Finish.{item_dcommit, item_validate, item_co_unlease}
use rejig.Items.Marks.{item_ftrans}
use rejig.Items.Flush.{item_flush_expired}

-- A call. `fill` stands for the bytes that a connection reads into an item of its own before the
-- item is stored; `tick` is the clock's, and `flush` is the command `flush_all`.
pub data Op : Type 0 where
  get : List ℕ → Op
  touch remove delete : ℕ → Op
  alloc : Bool → ℕ → List ℕ → ℕ → ℕ → ℕ → ℤ → Op
  fill : ℕ → List ℕ → Op
  set_cas : ℕ → ℕ → Op
  store_as : ℕ → Req → ℕ → Op
  iqget : List ℕ → ℕ → List ℕ → Bool → Bool → Op
  register : List ℕ → List ℕ → Op
  unlease : List ℕ → ℕ → Op
  erase : List ℕ → Bool → Op
  delete_and_release_of release : List ℕ → Op
  commit : List ℕ → ℕ → ℤ → Op
  ftrans : List ℕ → List ℕ → Op
  qaread : List ℕ → List ℕ → ℕ → Op
  swap swap_and_release_of : ℕ → ℕ → Op
  count_by : List ℕ → Bool → ℕ → Op
  iqupdate : List ℕ → List ℕ → Update → Op
  ciget : List ℕ → List ℕ → ℕ → Op
  oqread oqreg : List ℕ → List ℕ → Op
  oqswap oqwrite : List ℕ → ℕ → Op
  oqupdate : List ℕ → List ℕ → Update → Op
  oqincr : List ℕ → List ℕ → Bool → ℕ → Op
  dcommit validate co_unlease : List ℕ → Op
  tick : ℕ → Op
  flush : ℕ → Op

-- The bytes of an item that is not linked.
unfoldable pub fill_item : ℕ → List ℕ → M (Unit {0})
fill_item a bytes = do it ← load a; check (not it.linked); store a (record it { value = bytes })

abbrev pub set_now : ℕ → M (Unit {0})
set_now now = do c ← state; put (record c { now = now })

-- `settings.oldest_live` and the flush.
abbrev pub flush_all : ℕ → M (Unit {0})
flush_all oldest_live = do
  c ← state
  put (record c { settings = record c.settings { oldest_live = oldest_live } })
  item_flush_expired

abbrev discard : {A : Type 0} → M A → M (Unit {0})
discard m = m >>= (λ _. pure tt)

unfoldable pub perform : Op → M (Unit {0})
perform (Op.get key) = discard (item_get key)
perform (Op.touch a) = item_touch a
perform (Op.remove a) = item_remove a
perform (Op.delete a) = item_delete a
perform (Op.alloc reserved id key dataflags exptime nbyte config_num) =
    discard (item_alloc_config reserved id key dataflags exptime nbyte config_num)
perform (Op.fill a bytes) = fill_item a bytes
perform (Op.set_cas a cas) = item_set_cas a cas
perform (Op.store_as a req conn_token) = discard (item_store a req conn_token)
perform (Op.iqget key lease_token tid override foreground) =
    discard (item_iqget key lease_token tid override foreground)
perform (Op.register tid key) = quarantine_and_register tid key
perform (Op.unlease key token_val) = get_and_unlease key token_val
perform (Op.erase key delete_lease) = discard (get_and_delete key delete_lease)
perform (Op.delete_and_release_of tid) = discard (delete_and_release tid)
perform (Op.release tid) = discard (item_release tid)
perform (Op.commit tid pending server_cfg_id) = discard (item_commit tid pending server_cfg_id)
perform (Op.ftrans tid key) = item_ftrans tid key
perform (Op.qaread tid key lease_token) = discard (quarantine_and_read tid key lease_token)
perform (Op.swap a conn_token) = discard (item_swap a conn_token)
perform (Op.swap_and_release_of a conn_token) = discard (swap_and_release a conn_token)
perform (Op.count_by key incr delta) = discard (item_add_delta key incr delta)
perform (Op.iqupdate tid key update) = discard (item_iqupdate tid key update)
perform (Op.ciget sid key lease_token) = discard (item_ciget sid key lease_token)
perform (Op.oqread sid key) = discard (item_oqread sid key)
perform (Op.oqreg sid key) = discard (item_oqreg sid key)
perform (Op.oqswap sid a) = discard (item_oqswap sid a)
perform (Op.oqwrite sid a) = discard (item_oqwrite sid a)
perform (Op.oqupdate sid key update) = discard (item_oqupdate sid key update)
perform (Op.oqincr sid key incr delta) = discard (item_oqincr sid key incr delta)
perform (Op.dcommit sid) = discard (item_dcommit sid)
perform (Op.validate sid) = discard (item_validate sid)
perform (Op.co_unlease sid) = discard (item_co_unlease sid)
perform (Op.tick now) = set_now now
perform (Op.flush oldest_live) = flush_all oldest_live

-- `assoc_init` and `item_init`: nothing is linked.
pub record Initial (c : Cache) : Type 0 where
  pub nothing_found : (k : List ℕ) → c.assoc k ≡ none
  pub nothing_linked : (a : ℕ) → (c.heap a).linked ≡ false

pub data Reachable : Cache → Type 0 where
  start : {c : Cache} → Initial c → Reachable c
  step : {c d : Cache} → Reachable c → (op : Op) → perform op c ≡ some (tt, d) → Reachable d
