-- ===== src/Items/Marks.antt =====
-- The marks of pending transactions on a key: `item_ftrans` and `_item_remove_tid_ptrans` of
-- IQ-Twemcached/src/mc_items.c.
use rejig.Prelude.{ℕ, ◌-◌, ◌==◌, none, some, List, ◌∷◌, length, not, if◌then◌else◌}
use rejig.Keylist.{new_keylist_size, narrow}
use rejig.Items.{Item}
use rejig.Items.Monad.{M, ◌>>=◌, ◌>>◌, pure, load, store, when, deref}
use rejig.Items.Refcount.{item_unlink, item_remove}
use rejig.Items.Get.{item_get, create_reserved_item}
use rejig.Items.Store.{item_store, Req}
use rejig.Items.Trans.Lists.{lacks, remove_to_item}

-- `mc_get_ptrans_key`
abbrev pub ptrans_key : List ℕ → List ℕ
ptrans_key key = b'p' ∷ b't' ∷ b':' ∷ key

-- The exptime and the `coflags` of the shortened list.
unfoldable pub copy_coflags : Item → ℕ → M (Unit {0})
copy_coflags it a = do
  new ← load a
  store a (record new {
    exptime = 0;
    c_lease = it.c_lease;
    o_lease_inv = it.o_lease_inv;
    o_lease_ref = it.o_lease_ref;
    ptrans = it.ptrans;
    hk = it.hk;
    sess = it.sess;
  })

-- `_item_remove_tid_ptrans`
unfoldable pub remove_tid_ptrans : ℕ → List ℕ → List ℕ → M (Unit {0})
remove_tid_ptrans a key tid = do
  it ← load a
  absent ← lacks it.value tid
  when (not absent) (
      if length it.value == new_keylist_size (narrow tid) then item_unlink a else (do
        created ←
            create_reserved_item (ptrans_key key) (length it.value - new_keylist_size (narrow tid))
        new_it ← deref created
        copy_coflags it new_it
        remove_to_item new_it it.value tid
        _ ← item_store new_it Req.set 0
        item_remove new_it))

-- `item_ftrans`
unfoldable pub item_ftrans : List ℕ → List ℕ → M (Unit {0})
item_ftrans tid key = do
  ptrans_it ← item_get (ptrans_key key)
  elim ptrans_it [ none ↦ pure tt | some a ↦ do remove_tid_ptrans a key tid; item_remove a ]
