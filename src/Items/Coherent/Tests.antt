-- ===== src/Items/Coherent/Tests.antt =====
-- A small run from an empty cache: an item is allocated, filled, stored and looked up.
use rejig.Items.Refcount.{
  assoc_insert, item_remove, link_q, item_set_cas, item_next_cas, item_link, release_refcount,
  acquire_refcount,
}
use rejig.Items.Alloc.{
  finish_alloc, carry_out, slab_get, take_slot, first_unused, get_from_lruq, item_alloc_config,
}
use rejig.Prelude.{arith, key_eq, [], ◌∷◌, some, none, true, false, refl, negsuc}
use rejig.Items.{Cache}
use rejig.Items.Monad.{M}
use rejig.Items.Get.{item_get}
use rejig.Items.Store.{finish_store, choose_absent, item_store, Req}
use rejig.Items.Reach.{Initial, fill_item, Op, perform, Reachable, start, step}
use rejig.Items.Coherent.{Coherent}
use rejig.Items.Coherent.Reached.{Reachable-Coherent}
use rejig.Items.Coherent.Lookup.{Given, item_get-Given}
use rejig.Items.Tokens.{ReadsAs, create_lease-token}
use rejig.Items.Get.{create_lease, lease_next_token, lease_exptime, copy_data}
use rejig.Items.Alloc.{item_slabid}
use rejig.Util.{print_uint64, print_digits}
use rejig.Slabs.{slab_id, item_ntotal}
use rejig.Items.Tests.{value_item, test_settings, k}
use rejig.Items.Tests.Allocator.{free_at}

-- All of the heap is one free queue; the allocator gives the item at address 4.
abbrev pub empty : Cache
empty = record {
  heap = λ b. record value_item { slabbed = true; refcount = 0; key = []; value = [] };
  assoc = λ j. none;
  lruq = λ id. [];
  reserved_lruq = λ id. [];
  cas_id = 0;
  lease_current_token = 8;
  now = 10;
  settings = test_settings;
  answers = free_at 4 ∷ [];
}

abbrev after : {A : Type 0} → M A → Cache → Cache
after m c = elim (m c) [ none ↦ c | some (x, d) ↦ d ]

abbrev allocated : Cache
allocated = after (perform (Op.alloc false 1 k 0 0 1 (negsuc 0))) empty

abbrev filled : Cache
filled = after (perform (Op.fill 4 (b'v' ∷ []))) allocated

abbrev held : Cache
held = after (perform (Op.store_as 4 Req.set 0)) filled

run : Unit {0}
unfolding perform fill_item item_store item_alloc_config get_from_lruq first_unused take_slot
    slab_get carry_out finish_alloc acquire_refcount release_refcount choose_absent finish_store
    item_link item_next_cas item_set_cas assoc_insert link_q item_get item_remove key_eq
run = tt

pub empty-Initial : Initial empty
empty-Initial = record { nothing_found = λ j. refl; nothing_linked = λ a. refl }

empty-Reachable : Reachable empty
empty-Reachable = start empty-Initial

allocated-Reachable : Reachable allocated
unfolding run
allocated-Reachable = step empty-Reachable (Op.alloc false 1 k 0 0 1 (negsuc 0)) refl

filled-Reachable : Reachable filled
unfolding run
filled-Reachable = step allocated-Reachable (Op.fill 4 (b'v' ∷ [])) refl

held-Reachable : Reachable held
unfolding run
held-Reachable = step filled-Reachable (Op.store_as 4 Req.set 0) refl

Reachable-Coherent_example : Coherent held
Reachable-Coherent_example = Reachable-Coherent held held-Reachable

item_get-Given_example : Given k 4 held (after (item_get k) held)
unfolding run
item_get-Given_example = item_get-Given held (after (item_get k) held) k 4 held-Reachable refl

leased : Cache
unfolding create_lease lease_next_token item_slabid lease_exptime run print_uint64 print_digits
    copy_data
leased = after (create_lease k) empty

create_lease-token_example : ReadsAs k 8 (some 4, 8) leased
unfolding leased slab_id item_ntotal
create_lease-token_example = create_lease-token k empty leased (some 4, 8) (ground arith) refl
