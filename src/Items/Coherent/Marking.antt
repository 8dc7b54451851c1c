-- ===== src/Items/Coherent/Marking.antt =====
-- The end of a pending transaction keeps the hash and the items in agreement: `item_ftrans` of
-- IQ-Twemcached/src/mc_items.c.
use rejig.Prelude.{ℕ, List, not, ◌==◌, ◌-◌, length, refl}
use rejig.Keylist.{new_keylist_size, narrow}
use rejig.Items.{Item}
use rejig.Items.Store.{Req}
use rejig.Items.Marks.{ptrans_key, copy_coflags, remove_tid_ptrans, item_ftrans}
use rejig.Items.Coherent.{
  Keep, kept, ended, stored, next, bind, when-Keep, load-Keep, pure-Keep, if-Keep, either-Keep,
  deref-Keep,
}
use rejig.Items.Coherent.Linking.{item_unlink-Keep, item_remove-Keep}
use rejig.Items.Coherent.Storing.{item_get-Keep, item_store-Keep, create_reserved_item-Keep}
use rejig.Items.Coherent.Listing.{lacks-Keep, remove_to_item-Keep}

copy_coflags-Keep : (it : Item) (a : ℕ) → Keep (copy_coflags it a)
unfolding copy_coflags
copy_coflags-Keep it a = record { call = λ c p. ended (stored c a _ p (kept refl refl refl)) }

remove_tid_ptrans-Keep : (a : ℕ) (key tid : List ℕ) → Keep (remove_tid_ptrans a key tid)
unfolding remove_tid_ptrans
remove_tid_ptrans-Keep a key tid = bind (load-Keep a) (λ it.
    bind (lacks-Keep it.value tid) (λ absent. when-Keep (not absent) (
      if-Keep (length it.value == new_keylist_size (narrow tid)) (item_unlink-Keep a) (
        bind
          (create_reserved_item-Keep (ptrans_key key)
            (length it.value - new_keylist_size (narrow tid)))
          (λ created. bind (deref-Keep created) (λ n. next (copy_coflags-Keep it n) (
            next (remove_to_item-Keep n it.value tid)
              (bind (item_store-Keep n Req.set 0) (λ _. item_remove-Keep n)))))))))

pub item_ftrans-Keep : (tid key : List ℕ) → Keep (item_ftrans tid key)
unfolding item_ftrans
item_ftrans-Keep tid key = bind (item_get-Keep (ptrans_key key)) (λ o.
    either-Keep o (pure-Keep tt)
      (λ a. next (remove_tid_ptrans-Keep a key tid) (item_remove-Keep a)))
