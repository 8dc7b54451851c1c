-- ===== src/Slabs.antt =====
-- Slab classes: `_slab_id` of IQ-Twemcached/src/mc_slabs.c, which finds the class for an item, and
-- `item_ntotal` of mc_items.h, the size that an item asks for.
pub mod Smallest
pub mod Tests
use rejig.Prelude.{
  ℕ, zero, suc, ◌+◌, ◌-◌, ◌/◌, Bool, true, false, Option, none, some, ltb, leb, ◌&&◌, if◌then◌else◌,
}

abbrev pub slabclass_min_id : ℕ
slabclass_min_id = 1

abbrev pub slabclass_invalid_id : ℕ
slabclass_invalid_id = 255

-- The binary search over `slabclass[].size`; `none` if the rounds run out.
unfoldable pub slab_id_loop : ℕ → (ℕ → ℕ) → ℕ → ℕ → ℕ → Option ℕ
slab_id_loop zero sizes size imin imax = none
slab_id_loop (suc fuel) sizes size imin imax =
    let id = (imin + imax) / 2 in
    let up = slab_id_loop fuel sizes size (id + 1) imax in
    let down = slab_id_loop fuel sizes size imin (id - 1) in
    if ltb imax imin
    then some slabclass_invalid_id
    else (if ltb (sizes id) size
        then up
        else (if ltb slabclass_min_id id && leb size (sizes (id - 1)) then down else some id))

-- A round takes one class at least off the range of `max_id` classes.
unfoldable pub slab_id : (ℕ → ℕ) → ℕ → ℕ → Option ℕ
unfolding slab_id_loop
slab_id sizes max_id size = slab_id_loop (suc max_id) sizes size slabclass_min_id max_id

-- `item_ntotal`: the header, `uint64_t` of a cas, the key with its '\0', the value and "\r\n".
unfoldable pub item_ntotal : ℕ → ℕ → ℕ → Bool → ℕ
item_ntotal item_hdr_size nkey nbyte use_cas =
    (if use_cas then 8 else 0) + (item_hdr_size + nkey + 1 + nbyte + 2)
