-- ===== src/Assoc/Map.antt =====
-- A run of the hash of IQ-Twemcached/src/mc_assoc.c beside a run of a partial map: the calls with
-- their ASSERTs, and between any two of them rounds of the maintenance thread.
use rejig.Prelude.{
  key_eq_refl, key_eq_refl, ℕ, ◌+◌, ◌-◌, Option, none, some, Bool, List, [], ◌∷◌, ◌≡◌, refl, true,
  false, ◌∙◌, inl, inr, Bool-cases, Option-cases, if◌then◌else◌, key_eq, &&_left, &&_right, not,
  not-true, ◌&&◌, ◌==◌,
}
use rejig.Assoc.{
  Table, walk, unchain, assoc_get_bucket, assoc_find, with_bucket, move_bucket, assoc_expand,
  assoc_expand_needed, assoc_insert, assoc_delete,
}
use rejig.Assoc.Expand.{assoc_find-move_bucket}
use rejig.Assoc.Ends.{find-expand}
use rejig.Assoc.Chains.{walk-unchain_self}
use rejig.Assoc.Sound.{Sound, with_bucket-Sound}
use rejig.Assoc.Refine.{
  find-with_bucket, insert-Edit, delete-Edit, count-Sound, expand-Sound, move-Sound, Sound-Stable,
  bucket-Unique,
}
use rejig.Items.Refcount.{update_assoc}

pub data Op : Type 0 where
  insert : List ℕ → ℕ → Op
  delete : List ℕ → Op
  round : Op

abbrev pub Map : Type 0
Map = List ℕ → Option ℕ

-- The map under one operation; `none` where an ASSERT of the hash fails.
unfoldable pub map_step : Op → Map → Option Map
map_step (insert key a) m = elim (m key) [
  | some b ↦ none
  | none ↦ some (update_assoc m key (some a))
]
map_step (delete key) m = elim (m key) [ none ↦ none | some b ↦ some (update_assoc m key none) ]
map_step round m = some m

unfoldable pub run_map : List Op → Map → Option Map
run_map [] m = some m
run_map (op ∷ ops) m = elim (map_step op m) [ none ↦ none | some m' ↦ run_map ops m' ]

module _ (hash : List ℕ → ℕ) where
  -- The thread sleeps unless the table is expanding.
  unfoldable pub table_step : Op → Table → Option Table
  table_step (insert key a) t = assoc_insert hash t key a
  table_step (delete key) t = assoc_delete hash t key
  table_step round t = some (if t.expanding then move_bucket hash t else t)

  unfoldable pub run_table : List Op → Table → Option Table
  run_table [] t = some t
  run_table (op ∷ ops) t = elim (table_step op t) [ none ↦ none | some t' ↦ run_table ops t' ]

  -- The table stands for the map.
  pub record Refines (t : Table) (m : Map) : Type 0 where
    pub sound : Sound hash t
    pub finds : (key : List ℕ) → assoc_find hash t key ≡ m key

  -- Both runs fail an ASSERT, or both end and the table stands for the map.
  unfoldable pub Agree : Option Table → Option Map → Type 0
  Agree none none = Unit {0}
  Agree none (some m) = ⊥
  Agree (some t) none = ⊥
  Agree (some t) (some m) = Refines t m

  count-Refines :
      (t : Table) (n : ℕ) (m : Map) → Refines t m → Refines (record t { nhash_item = n }) m
  unfolding assoc_find assoc_get_bucket
  count-Refines t n m r = record { sound = count-Sound hash t n r.sound; finds = r.finds }

  if-Refines :
      (b : Bool) (t t' : Table) (m : Map)
      → (b ≡ true → Refines t' m)
      → (b ≡ false → Refines t m)
      → Refines (if b then t' else t) m
  if-Refines true t t' m h k = h refl
  if-Refines false t t' m h k = k refl

  grown-Refines :
      (t : Table) (m : Map)
      → Refines t m
      → Refines (if assoc_expand_needed t then assoc_expand t else t) m
  unfolding assoc_expand_needed
  grown-Refines t m r =
      if-Refines (assoc_expand_needed t) t (assoc_expand t) m
        (λ e.
          let idle = not-true t.expanding (
            &&_right (t.fixed_power == 0) _
              (&&_left (t.fixed_power == 0 && not t.expanding) _ e)) in
          record {
            sound = expand-Sound hash t idle r.sound;
            finds = λ key. find-expand hash t key (Sound-Stable hash t idle r.sound) ∙ r.finds key;
          })
        (λ _. r)

  -- The table after an insertion, before it may grow.
  abbrev with_item : List ℕ → ℕ → Table → Table
  with_item key a t =
      let put = with_bucket hash t key ((key, a) ∷ assoc_get_bucket hash t key) in
      record put { nhash_item = put.nhash_item + 1 }

  abbrev without_item : List ℕ → Table → Table
  without_item key t =
      let cut = with_bucket hash t key (unchain key (assoc_get_bucket hash t key)) in
      record cut { nhash_item = cut.nhash_item - 1 }

  insert-run :
      (key : List ℕ) (a : ℕ) (t : Table)
      → assoc_find hash t key ≡ none
      → assoc_insert hash t key a
        ≡ some (
            if assoc_expand_needed (with_item key a t)
            then assoc_expand (with_item key a t)
            else with_item key a t)
  unfolding assoc_insert
  insert-run key a t e = rw (assoc_insert, e)

  insert-fails :
      (key : List ℕ) (a b : ℕ) (t : Table)
      → assoc_find hash t key ≡ some b
      → assoc_insert hash t key a ≡ none
  unfolding assoc_insert
  insert-fails key a b t e = rw (assoc_insert, e)

  delete-run :
      (key : List ℕ) (b : ℕ) (t : Table)
      → assoc_find hash t key ≡ some b
      → assoc_delete hash t key ≡ some (without_item key t)
  unfolding assoc_delete
  delete-run key b t e = rw (assoc_delete, e)

  delete-fails :
      (key : List ℕ) (t : Table) → assoc_find hash t key ≡ none → assoc_delete hash t key ≡ none
  unfolding assoc_delete
  delete-fails key t e = rw (assoc_delete, e)

  -- One key changed in the table and in the map.
  updated :
      (key : List ℕ) (t : Table) (m : Map) (o n : Option ℕ)
      → Refines t m
      → o ≡ n
      → (j : List ℕ) → update_assoc (assoc_find hash t) key o j ≡ update_assoc m key n j
  updated key t m o n r e j = elim (Bool-cases (key_eq key j)) [
    | inl k ↦ rw k e
    | inr f ↦ rw f (r.finds j)
  ]

  insert-Agree :
      (key : List ℕ) (a : ℕ) (t : Table) (m : Map)
      → Refines t m
      → Agree (assoc_insert hash t key a) (map_step (insert key a) m)
  unfolding Agree map_step walk
  insert-Agree key a t m r = elim (Option-cases (m key)) [
    | inr (b, e) ↦ rw (insert-fails key a b t (r.finds key ∙ e), map_step, e) tt
    | inl e ↦
        let f = r.finds key ∙ e in
        let d = insert-Edit hash t key a r.sound f in
        let t' = with_bucket hash t key ((key, a) ∷ assoc_get_bucket hash t key) in
        let put : Refines t' (update_assoc m key (some a)) = record {
          sound = with_bucket-Sound hash t key _ r.sound d;
          finds = λ j.
              find-with_bucket hash t key j _ d
              ∙ updated key t m _ (some a) r (rw (key_eq_refl key)) j;
        } in
        rw (insert-run key a t f, map_step, e)
          (grown-Refines (with_item key a t) _ (count-Refines t' (t'.nhash_item + 1) _ put))
  ]

  delete-Agree :
      (key : List ℕ) (t : Table) (m : Map)
      → Refines t m
      → Agree (assoc_delete hash t key) (map_step (delete key) m)
  unfolding Agree map_step
  delete-Agree key t m r = elim (Option-cases (m key)) [
    | inl e ↦ rw (delete-fails key t (r.finds key ∙ e), map_step, e) tt
    | inr (b, e) ↦
        let d = delete-Edit hash t key r.sound in
        let bucket = unchain key (assoc_get_bucket hash t key) in
        let t' = with_bucket hash t key bucket in
        let gone = walk-unchain_self key _ (bucket-Unique hash t key r.sound) in
        let cut : Refines t' (update_assoc m key none) = record {
          sound = with_bucket-Sound hash t key _ r.sound d;
          finds = λ j.
              find-with_bucket hash t key j _ d ∙ updated key t m (walk key bucket) none r gone j;
        } in
        rw (delete-run key b t (r.finds key ∙ e), map_step, e)
          (count-Refines t' (t'.nhash_item - 1) _ cut)
  ]

  round-Refines :
      (t : Table) (m : Map)
      → Refines t m
      → Refines (if t.expanding then move_bucket hash t else t) m
  round-Refines t m r =
      if-Refines t.expanding t (move_bucket hash t) m
        (λ e. record {
          sound = move-Sound hash t e r.sound;
          finds = λ key. assoc_find-move_bucket hash t key e (r.sound.growing e) ∙ r.finds key;
        })
        (λ _. r)

  step-Agree :
      (op : Op) (t : Table) (m : Map) → Refines t m → Agree (table_step op t) (map_step op m)
  unfolding table_step map_step Agree
  step-Agree (insert key a) t m r = insert-Agree key a t m r
  step-Agree (delete key) t m r = delete-Agree key t m r
  step-Agree round t m r = round-Refines t m r

  rest-Agree :
      (ops : List Op) (o : Option Table) (n : Option Map)
      → ((t : Table) (m : Map) → Refines t m → Agree (run_table ops t) (run_map ops m))
      → Agree o n
      → Agree
          (elim o as (λ _. Option Table) [ none ↦ none | some t' ↦ run_table ops t' ])
          (elim n as (λ _. Option Map) [ none ↦ none | some m' ↦ run_map ops m' ])
  unfolding Agree
  rest-Agree ops none none k a = tt
  rest-Agree ops none (some m') k a = absurd a
  rest-Agree ops (some t') none k a = absurd a
  rest-Agree ops (some t') (some m') k a = k t' m' a

  -- The hash table refines the partial map that the items use: from a table that stands for a map,
  -- any run of insertions and deletions, with rounds of the maintenance thread anywhere between
  -- them, and with the growth that an insertion starts, fails an ASSERT exactly where the map does,
  -- and otherwise ends with a table that stands for the map of the same operations. A table stands
  -- for a map when every lookup finds what the map has, and each chain has the keys that belong
  -- there, each once. The hash function is any function.
  pub run-Agree :
      (ops : List Op) (t : Table) (m : Map) → Refines t m → Agree (run_table ops t) (run_map ops m)
  unfolding run_table run_map Agree
  run-Agree [] t m r = r
  run-Agree (op ∷ ops) t m r =
      rest-Agree ops (table_step op t) (map_step op m) (run-Agree ops) (step-Agree op t m r)
