-- ===== src/Items/Session.antt =====
-- Sessions of IQ-Twemcached/src/mc_items.c and their C and O leases: the item under the sid lists
-- the keys of a session, and the item under co:k the sessions that hold a lease of one kind on k.
pub mod Abort
pub mod Read
pub mod Write
pub mod Finish
use rejig.Prelude.{
  ℕ, ◌+◌, ◌==◌, ◌&&◌, ◌||◌, not, Bool, true, false, Option, none, some, List, [], ◌∷◌, length,
  if◌then◌else◌,
}
use rejig.Keylist.{new_keylist_size, narrow}
use rejig.Items.{Item}
use rejig.Items.Monad.{M, ◌>>=◌, ◌>>◌, pure, check, load, store, when, whenever, deref}
use rejig.Items.Refcount.{is_some, release_refcount, item_unlink, item_remove}
use rejig.Items.Get.{item_get, co_lease_key, create_reserved_item}
use rejig.Items.Store.{item_store, Req}
use rejig.Items.Trans.Lists.{list_of, lacks, add_to_item, set_sess, remove_entry_from_list}

pub data CoResult : Type 0 where
  co_ok co_abort co_retry co_invalid co_not_found co_novalue : CoResult

abbrev pub is_ok : CoResult → Bool
is_ok CoResult.co_ok = true
is_ok CoResult.co_abort = false
is_ok CoResult.co_retry = false
is_ok CoResult.co_invalid = false
is_ok CoResult.co_not_found = false
is_ok CoResult.co_novalue = false

-- The kinds of `item_coflags_t` that a lease of a session has.
pub data CoLease : Type 0 where
  c_lease_kind o_lease_inv_kind o_lease_ref_kind : CoLease

-- `item_has_o_lease`
abbrev pub has_o_lease : Item → Bool
has_o_lease it = it.o_lease_inv || it.o_lease_ref

-- A session's item goes, with its pin.
unfoldable pub drop_session : ℕ → M (Unit {0})
drop_session s = do item_unlink s; release_refcount s; item_remove s

-- How the operations begin: is the session aborted? Then its item goes.
unfoldable pub is_aborted : List ℕ → M Bool
is_aborted sid = do
  sess_it ← item_get sid
  elim sess_it [
    | none ↦ pure false
    | some s ↦ do
      si ← load s
      (if si.aborted then (drop_session s >> pure true) else (item_remove s >> pure false))
  ]

-- `sess_status = ALIVE`
unfoldable pub set_alive : ℕ → M (Unit {0})
set_alive a = do it ← load a; store a (record it { aborted = false })

-- `_item_assoc_key_sid`
unfoldable pub assoc_key_sid : Option ℕ → List ℕ → List ℕ → M (Unit {0})
assoc_key_sid sess_it key sid = do
  old ← list_of sess_it
  absent ← (if is_some sess_it then lacks old key else pure true)
  when absent (do
    created ← create_reserved_item sid (length old + new_keylist_size (narrow key))
    new_trans_it ← deref created
    set_alive new_trans_it
    set_sess new_trans_it
    add_to_item new_trans_it old key
    whenever sess_it release_refcount
    _ ← item_store new_trans_it Req.set 0
    item_remove new_trans_it)

-- `item_set_c_lease`, `item_set_o_lease_inv` and `item_set_o_lease_ref`
abbrev pub with_kind : CoLease → Item → Item
with_kind c_lease_kind it = record it { c_lease = true }
with_kind o_lease_inv_kind it = record it { o_lease_inv = true }
with_kind o_lease_ref_kind it = record it { o_lease_ref = true }

unfoldable pub set_kind : CoLease → ℕ → M (Unit {0})
set_kind kind a = do it ← load a; store a (with_kind kind it)

-- `coflags == type`
abbrev pub has_only : CoLease → Item → Bool
has_only c_lease_kind it =
    it.c_lease
    && not it.o_lease_inv
    && not it.o_lease_ref
    && not it.ptrans
    && not it.hk
    && not it.sess
has_only o_lease_inv_kind it =
    not it.c_lease
    && it.o_lease_inv
    && not it.o_lease_ref
    && not it.ptrans
    && not it.hk
    && not it.sess
has_only o_lease_ref_kind it =
    not it.c_lease
    && not it.o_lease_inv
    && it.o_lease_ref
    && not it.ptrans
    && not it.hk
    && not it.sess

-- `_item_assoc_sid_colease`
unfoldable pub assoc_sid_colease : Option ℕ → List ℕ → List ℕ → CoLease → M (Unit {0})
assoc_sid_colease colease_it key sid kind = do
  old ← list_of colease_it
  absent ← (if is_some colease_it then lacks old sid else pure true)
  when absent (do
    created ← create_reserved_item (co_lease_key key) (length old + new_keylist_size (narrow sid))
    new_colease_it ← deref created
    set_kind kind new_colease_it
    whenever colease_it (λ o. do it ← load o; check (has_only kind it))
    add_to_item new_colease_it old sid
    _ ← item_store new_colease_it Req.set 0
    item_remove new_colease_it)

-- `_item_remove_sid_colease`
abbrev pub remove_sid_colease : Option ℕ → List ℕ → List ℕ → M (Unit {0})
remove_sid_colease colease_it key sid = remove_entry_from_list colease_it (co_lease_key key) sid
