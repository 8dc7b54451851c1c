-- ===== src/Slabs/Smallest.antt =====
-- The search of IQ-Twemcached/src/mc_slabs.c ends, and finds the smallest class that fits.
use rejig.Prelude.{
  leb→le, ℕ, zero, suc, ◌+◌, ◌-◌, ◌/◌, ◌<◌, ◌≤◌, ◌≡◌, Bool, true, false, Option, some, ltb, leb,
  ◌&&◌, arith, ◌⊎◌, inl, inr, Bool-cases, ltb→lt, refl,
}
use rejig.Slabs.{slab_id_loop, slab_id, slabclass_min_id, slabclass_invalid_id}

and-true : (a b : Bool) → (a && b) ≡ true → (a ≡ true) × (b ≡ true)
and-true true b h = (refl, h)
and-true false b h = cc

module _ (sizes : ℕ → ℕ) (max_id size : ℕ) where
  -- Larger classes have larger items.
  abbrev pub IsAscending : Type 0
  IsAscending = (i j : ℕ) → 1 ≤ i → i ≤ j → j ≤ max_id → sizes i ≤ sizes j

  -- `id` is the smallest class whose items hold `size` bytes.
  abbrev pub IsSmallest : ℕ → Type 0
  IsSmallest id =
      (1 ≤ id) × (id ≤ max_id) × (size ≤ sizes id) × ((j : ℕ) → 1 ≤ j → j < id → sizes j < size)

  -- What the search returns: the smallest class, or the invalid one if none is large enough.
  abbrev pub Finds : Option ℕ → Type 0
  Finds r =
      ((id : ℕ) × (r ≡ some id) × IsSmallest id)
      ⊎ ((r ≡ some slabclass_invalid_id) × ((j : ℕ) → 1 ≤ j → j ≤ max_id → sizes j < size))

  lt_of_ascending :
      IsAscending → (i j : ℕ) → 1 ≤ i → i ≤ j → j ≤ max_id → sizes j < size → sizes i < size
  lt_of_ascending asc i j h h' h'' small = omega (arith, asc i j h h' h'')

  slab_id_loop-Finds :
      IsAscending
      → (fuel imin imax : ℕ) → imax + 1 < imin + fuel
      → imin ≤ imax + 1
      → 1 ≤ imin
      → imax ≤ max_id
      → ((j : ℕ) → 1 ≤ j → j < imin → sizes j < size)
      → (imax ≡ max_id) ⊎ ((1 ≤ imax) × (size ≤ sizes imax))
      → Finds (slab_id_loop fuel sizes size imin imax)
  unfolding slab_id_loop
  slab_id_loop-Finds asc zero imin imax f near lo hi below above = absurd (omega arith)
  slab_id_loop-Finds asc (suc fuel) imin imax f near lo hi below above =
      let id = (imin + imax) / 2 in
      elim (Bool-cases (ltb imax imin)) [
        | inl e ↦
            let past = ltb→lt imax imin e in
            elim above [
              | inl q ↦ inr (rw e, λ j h h'. below j h (omega arith))
              | inr q ↦ absurd (omega (arith, below imax q.0 past))
            ]
        | inr e ↦
            let inside : imin ≤ imax = ground arith in
            elim (Bool-cases (ltb (sizes id) size)) [
              | inl small ↦
                  rw (e, small)
                    (slab_id_loop-Finds asc fuel (id + 1) imax (omega arith) (omega arith)
                      (omega arith) hi
                      (λ j h h'.
                        lt_of_ascending asc j id h (omega arith) (omega arith) (ltb→lt _ _ small))
                      above)
              | inr fits ↦
                  let fits' : size ≤ sizes id = ground arith in
                  elim (Bool-cases (ltb slabclass_min_id id && leb size (sizes (id - 1)))) [
                    | inl more ↦
                        let both = and-true (ltb 1 id) (leb size (sizes (id - 1))) more in
                        let wide : 1 < id = ltb→lt 1 id both.0 in
                        let also : size ≤ sizes (id - 1) = leb→le size (sizes (id - 1)) both.1 in
                        rw (e, fits, more)
                          (slab_id_loop-Finds asc fuel imin (id - 1) (omega arith) (omega arith) lo
                            (omega arith) below (inr (omega arith, also)))
                    | inr done ↦ inl (
                      id,
                      rw (e, fits, done),
                      (
                        omega arith,
                        omega arith,
                        fits',
                        λ j h h'.
                            lt_of_ascending asc j (id - 1) h (omega arith) (omega arith)
                              (ground arith),
                      ),
                    )
                  ]
            ]
      ]

  -- Over classes of ascending sizes the binary search ends for every size; it returns the smallest
  -- class whose items are large enough, and the invalid id exactly when there is none.
  pub slab_id-Finds : IsAscending → Finds (slab_id sizes max_id size)
  unfolding slab_id
  slab_id-Finds asc =
      slab_id_loop-Finds asc (suc max_id) 1 max_id (omega arith) (omega arith) (omega arith)
        (omega arith) (λ j h h'. absurd (omega arith)) (inl refl)
