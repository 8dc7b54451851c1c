-- ===== src/Items/Coherent/Reached.antt =====
-- Every cache that IQ-Twemcached comes to has a hash that agrees with its items, and so a look-up
-- finds the item of its key (IQ-Twemcached/src/mc_items.c).
use rejig.Items.Refcount.{item_delete}
use mathlib.Core.List.{reverse}
use rejig.Prelude.{
  false-true, none-some, ◌∙◌, sym, ℕ, zero, suc, List, [], ◌∷◌, ◌+◌, ◌==◌, ltb, not, refl, inl, inr,
  Bool-cases,
}
use rejig.Items.{Cache}
use rejig.Items.Monad.{M, ◌>>=◌, pure}
use rejig.Items.Flush.{flush_queue, flush_classes, item_flush_expired}
use rejig.Items.Reach.{Op, perform, fill_item, set_now, flush_all, Initial, Reachable, start, step}
use rejig.Items.Coherent
use rejig.Items.Coherent.{
  Coherent, Coheres, Keep, Kept, ended, failed, next, bind, check-Keep, load-Keep, state-Keep,
  pure-Keep, if-Keep,
}
use rejig.Items.Coherent.Linking.{item_unlink-Keep, item_remove-Keep, item_touch-Keep}
use rejig.Items.Coherent.Allocating.{item_alloc_config-Keep}
use rejig.Items.Coherent.Storing.{item_get-Keep, item_store-Keep}
use rejig.Items.Coherent.Leasing.{item_iqget-Keep}
use rejig.Items.Coherent.Listing.{
  quarantine_and_register-Keep, get_and_unlease-Keep, get_and_delete-Keep,
}
use rejig.Items.Coherent.Finishing.{delete_and_release-Keep, item_commit-Keep, item_release-Keep}
use rejig.Items.Coherent.Updating.{quarantine_and_read-Keep, item_swap-Keep, swap_and_release-Keep}
use rejig.Items.Coherent.Reading.{item_ciget-Keep, item_oqread-Keep}
use rejig.Items.Coherent.Writing.{
  item_oqincr-Keep, item_oqswap-Keep, item_oqwrite-Keep, item_oqupdate-Keep, item_oqreg-Keep,
}
use rejig.Items.Coherent.Ending.{item_dcommit-Keep, item_validate-Keep, item_co_unlease-Keep}
use rejig.Items.Coherent.Marking.{item_ftrans-Keep}
use rejig.Items.Coherent.Counting.{item_set_cas-Keep, item_add_delta-Keep, item_iqupdate-Keep}

flush_queue-Keep : (oldest_live : ℕ) (q : List ℕ) → Keep (flush_queue oldest_live q)
unfolding flush_queue
flush_queue-Keep oldest_live [] = pure-Keep tt
flush_queue-Keep oldest_live (a ∷ rest) = bind (load-Keep a) (λ it.
    next (check-Keep (not it.slabbed)) (
      if-Keep (ltb it.atime oldest_live) (pure-Keep tt)
        (next (item_unlink-Keep a) (flush_queue-Keep oldest_live rest))))

flush_classes-Keep : (oldest_live count id : ℕ) → Keep (flush_classes oldest_live count id)
unfolding flush_classes
flush_classes-Keep oldest_live zero id = pure-Keep tt
flush_classes-Keep oldest_live (suc count) id = bind state-Keep (λ c.
    next (flush_queue-Keep oldest_live (reverse (c.lruq id)))
      (flush_classes-Keep oldest_live count (id + 1)))

item_flush_expired-Keep : Keep item_flush_expired
unfolding item_flush_expired
item_flush_expired-Keep = bind state-Keep (λ c.
    if-Keep (c.settings.oldest_live == 0) (pure-Keep tt)
      (flush_classes-Keep c.settings.oldest_live 254 1))

pub flush_all-Keep : (oldest_live : ℕ) → Keep (flush_all oldest_live)
unfolding Coherent
flush_all-Keep oldest_live = record { call = λ c p. item_flush_expired-Keep.call _ p }

set_now-Keep : (now : ℕ) → Keep (set_now now)
unfolding Coherent
set_now-Keep now = record { call = λ c p. ended p }

pub fill_item-Keep : (a : ℕ) (bytes : List ℕ) → Keep (fill_item a bytes)
unfolding fill_item
fill_item-Keep a bytes = record {
  call = λ c p. elim (Bool-cases (not (c.heap a).linked)) [
    | inl t ↦ rw t (ended (Coherent.stored c a _ p (Coherent.kept refl refl refl)))
    | inr n ↦ rw n failed
  ];
}

discard-Keep : {A : Type 0} {m : M A} → Keep m → Keep (m >>= (λ _. pure tt))
discard-Keep k = bind k (λ _. pure-Keep tt)

perform-Keep : (op : Op) → Keep (perform op)
unfolding perform item_delete
perform-Keep (Op.get key) = discard-Keep (item_get-Keep key)
perform-Keep (Op.touch a) = item_touch-Keep a
perform-Keep (Op.remove a) = item_remove-Keep a
perform-Keep (Op.delete a) = next (item_unlink-Keep a) (item_remove-Keep a)
perform-Keep (Op.alloc reserved id key dataflags exptime nbyte config_num) =
    discard-Keep (item_alloc_config-Keep reserved id key dataflags exptime nbyte config_num)
perform-Keep (Op.fill a bytes) = fill_item-Keep a bytes
perform-Keep (Op.set_cas a cas) = item_set_cas-Keep a cas
perform-Keep (Op.store_as a req conn_token) = discard-Keep (item_store-Keep a req conn_token)
perform-Keep (Op.iqget key lease_token tid override foreground) =
    discard-Keep (item_iqget-Keep key lease_token tid override foreground)
perform-Keep (Op.register tid key) = quarantine_and_register-Keep tid key
perform-Keep (Op.unlease key token_val) = get_and_unlease-Keep key token_val
perform-Keep (Op.erase key delete_lease) = discard-Keep (get_and_delete-Keep key delete_lease)
perform-Keep (Op.delete_and_release_of tid) = discard-Keep (delete_and_release-Keep tid)
perform-Keep (Op.release tid) = discard-Keep (item_release-Keep tid)
perform-Keep (Op.commit tid pending server_cfg_id) =
    discard-Keep (item_commit-Keep tid pending server_cfg_id)
perform-Keep (Op.ftrans tid key) = item_ftrans-Keep tid key
perform-Keep (Op.qaread tid key lease_token) =
    discard-Keep (quarantine_and_read-Keep tid key lease_token)
perform-Keep (Op.swap a conn_token) = discard-Keep (item_swap-Keep a conn_token)
perform-Keep (Op.swap_and_release_of a conn_token) =
    discard-Keep (swap_and_release-Keep a conn_token)
perform-Keep (Op.count_by key incr delta) = discard-Keep (item_add_delta-Keep key incr delta)
perform-Keep (Op.iqupdate tid key update) = discard-Keep (item_iqupdate-Keep tid key update)
perform-Keep (Op.ciget sid key lease_token) = discard-Keep (item_ciget-Keep sid key lease_token)
perform-Keep (Op.oqread sid key) = discard-Keep (item_oqread-Keep sid key)
perform-Keep (Op.oqreg sid key) = discard-Keep (item_oqreg-Keep sid key)
perform-Keep (Op.oqswap sid a) = discard-Keep (item_oqswap-Keep sid a)
perform-Keep (Op.oqwrite sid a) = discard-Keep (item_oqwrite-Keep sid a)
perform-Keep (Op.oqupdate sid key update) = discard-Keep (item_oqupdate-Keep sid key update)
perform-Keep (Op.oqincr sid key incr delta) = discard-Keep (item_oqincr-Keep sid key incr delta)
perform-Keep (Op.dcommit sid) = discard-Keep (item_dcommit-Keep sid)
perform-Keep (Op.validate sid) = discard-Keep (item_validate-Keep sid)
perform-Keep (Op.co_unlease sid) = discard-Keep (item_co_unlease-Keep sid)
perform-Keep (Op.tick now) = set_now-Keep now
perform-Keep (Op.flush oldest_live) = flush_all-Keep oldest_live

pub Initial-Coherent : (c : Cache) → Initial c → Coherent c
unfolding Coherent
Initial-Coherent c i = record {
  indexed = λ k a e. absurd (none-some a (sym (i.nothing_found k) ∙ e));
  owned = λ a l. absurd (false-true (sym (i.nothing_linked a) ∙ l));
  unslabbed = λ a l. absurd (false-true (sym (i.nothing_linked a) ∙ l));
}

-- In every cache that calls come to from an empty one, whatever the slab allocator decides within
-- the laws of a Decision, the hash agrees with the items: an address that the hash has under a
-- key is that of a linked item with that key, every linked item is the one that the hash has
-- under its key, and no linked item is on a free queue. The calls are those of connections, each
-- from its beginning to its end.
pub Reachable-Coherent : (c : Cache) → Reachable c → Coherent c
Reachable-Coherent c (start i) = Initial-Coherent c i
Reachable-Coherent d (step {c = c} r op e) =
    ((perform-Keep op).call c (Reachable-Coherent c r)).good tt d e
