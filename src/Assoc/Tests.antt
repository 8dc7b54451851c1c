-- ===== src/Assoc/Tests.antt =====
-- The expansion of a table of two chains with three keys; a key's hash is its first byte.
use rejig.Assoc.Map
use rejig.Assoc.Ends.{assoc_expand-Growing, Stable, maintain-expand}
use rejig.Assoc.Expand.{assoc_find-move_bucket, Unique}
use rejig.Prelude.{
  false-true, Bool, true, none, Option, key_eq_iff, ap, inr, inl, Bool-cases, arith, ◌%◌, some,
  key_eq, ◌==◌, List, if◌then◌else◌, ℕ, ◌≡◌, refl, false, [], ◌∷◌,
}
use rejig.Assoc.{
  assoc_expand_needed, unchain, assoc_delete, assoc_insert, assoc_expand, move_items, move_bucket,
  maintain, walk, assoc_get_bucket, assoc_find, Table,
}

abbrev first_byte : List ℕ → ℕ
first_byte [] = 0
first_byte (c ∷ key) = c

abbrev small_table : Table
small_table = record {
  primary_hashtable = λ j.
      if j == 0
      then (4 ∷ [], 10) ∷ (2 ∷ [], 11) ∷ []
      else (if j == 1 then (3 ∷ [], 12) ∷ [] else []);
  old_hashtable = λ j. [];
  hash_power = 1;
  expanding = false;
  expand_bucket = 0;
  nhash_item = 3;
  fixed_power = 0;
}

finds_moved :
    assoc_find first_byte (maintain first_byte 2 (assoc_expand small_table)) (2 ∷ []) ≡ some 11
unfolding assoc_find assoc_get_bucket walk maintain move_bucket move_items assoc_expand key_eq
finds_moved = refl

abbrev map_option : {A : Type 0} → (Table → A) → Option Table → Option A
map_option f none = none
map_option f (some t) = some (f t)

other_key :
    (c j : ℕ) (key : List ℕ)
    → (first_byte key % 2 == j) ≡ false
    → c % 2 ≡ j
    → key_eq (c ∷ []) key ≡ false
other_key c j key n p = elim (Bool-cases (key_eq (c ∷ []) key)) [
  | inr f ↦ f
  | inl t ↦
      let q : c ≡ first_byte key = ap first_byte ((key_eq_iff (c ∷ []) key).0 t) in
      absurd (ground (arith, p, q, n))
]

small_table-Stable : Stable first_byte small_table
unfolding Unique walk key_eq
small_table-Stable = record {
  idle = refl;
  unique = λ j. elim (Bool-cases (j == 0)) [
    | inl t ↦ rw t (refl, (refl, tt))
    | inr f ↦ elim (Bool-cases (j == 1)) [ inl t ↦ rw (f, t) (refl, tt) | inr g ↦ rw (f, g) tt ]
  ];
  placed = λ j key n. elim (Bool-cases (j == 0)) [
    | inl t ↦
        let p : 4 % 2 ≡ j = ground (arith, t) in
        let q : 2 % 2 ≡ j = ground (arith, t) in
        rw (t, other_key 4 j key n p, other_key 2 j key n q)
    | inr f ↦ elim (Bool-cases (j == 1)) [
      | inl t ↦ let p : 3 % 2 ≡ j = ground (arith, t) in rw (f, t, other_key 3 j key n p)
      | inr g ↦ rw (f, g)
    ]
  ];
}

maintain-expand_example :
    ((maintain first_byte 2 (assoc_expand small_table)).expanding ≡ false)
    × ((key : List ℕ)
        → assoc_find first_byte (maintain first_byte 2 (assoc_expand small_table)) key
          ≡ assoc_find first_byte small_table key)
maintain-expand_example = maintain-expand first_byte small_table (omega arith) small_table-Stable

-- A fourth key makes the table grow, which leaves the chains in the old table at first.
grows :
    map_option {A = Bool × Option ℕ × Option ℕ}
      (λ t. (t.expanding, assoc_find first_byte t (5 ∷ []), assoc_find first_byte t (4 ∷ [])))
      (assoc_insert first_byte small_table (5 ∷ []) 13)
    ≡ some (true, some 13, some 10)
unfolding assoc_find assoc_get_bucket walk assoc_insert assoc_expand assoc_expand_needed key_eq
grows = refl

forgets :
    map_option {A = ℕ × Option ℕ}
      (λ t. (t.nhash_item, assoc_find first_byte t (2 ∷ [])))
      (assoc_delete first_byte small_table (2 ∷ []))
    ≡ some (2, none)
unfolding assoc_find assoc_get_bucket walk assoc_delete unchain key_eq
forgets = refl

assoc_find-move_bucket_example :
    assoc_find first_byte (move_bucket first_byte (assoc_expand small_table)) (2 ∷ [])
    ≡ assoc_find first_byte (assoc_expand small_table) (2 ∷ [])
unfolding assoc_expand
assoc_find-move_bucket_example =
    assoc_find-move_bucket first_byte (assoc_expand small_table) (2 ∷ []) refl
      (assoc_expand-Growing first_byte small_table (omega arith) small_table-Stable)

abbrev empty_table : Table
empty_table = record small_table { primary_hashtable = λ j. []; nhash_item = 0 }

-- The fourth insertion makes the table grow; the second key is deleted between the two rounds.
abbrev growing_run : List Map.Op
growing_run =
    Map.insert (4 ∷ []) 10
    ∷ Map.insert (2 ∷ []) 11
    ∷ Map.insert (3 ∷ []) 12
    ∷ Map.insert (5 ∷ []) 13
    ∷ Map.round
    ∷ Map.delete (2 ∷ [])
    ∷ Map.round
    ∷ []

empty_table-Refines : Map.Refines first_byte empty_table (λ key. none)
unfolding Unique walk assoc_find assoc_get_bucket
empty_table-Refines = record {
  sound = record {
    unique_new = λ j. tt;
    placed_new = λ j key n. refl;
    growing = λ e. absurd (false-true e);
  };
  finds = λ key. refl;
}

run-Agree_example :
    Map.Agree first_byte
      (Map.run_table first_byte growing_run empty_table)
      (Map.run_map growing_run (λ key. none))
run-Agree_example =
    Map.run-Agree first_byte growing_run empty_table (λ key. none) empty_table-Refines
