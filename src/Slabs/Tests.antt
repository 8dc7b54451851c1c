-- ===== src/Slabs/Tests.antt =====
-- A run of the search of IQ-Twemcached/src/mc_slabs.c over three classes, and the theorem on it.
use rejig.Prelude.{ℕ, ◌*◌, ◌≡◌, refl, arith, some}
use rejig.Slabs.{slab_id}
use rejig.Slabs.Smallest.{IsAscending, Finds, slab_id-Finds}

-- Items of 64, 128 and 192 bytes.
abbrev sizes : ℕ → ℕ
sizes id = id * 64

sizes-IsAscending : IsAscending sizes 3 100
sizes-IsAscending i j h h' h'' = omega arith

slab_id_runs : slab_id sizes 3 100 ≡ some 2
unfolding slab_id
slab_id_runs = refl

too_large : slab_id sizes 3 200 ≡ some 255
unfolding slab_id
too_large = refl

slab_id-Finds_example : Finds sizes 3 100 (slab_id sizes 3 100)
slab_id-Finds_example = slab_id-Finds sizes 3 100 sizes-IsAscending
