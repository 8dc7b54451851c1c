-- ===== src/Items/Spared.antt =====
-- No allocation takes an item that somebody refers to: `_item_alloc_config` of
-- IQ-Twemcached/src/mc_items.c, with the slabs that it evicts.
use rejig.Items.Alloc.{item_reuse, all_unused, evict_one, hdr_init, evict_items, init_items}
use rejig.Items.Pins.{else_run, item_reuse-ends, run-cache, Reused}
use rejig.Items.Monad.{store, ◌>>◌, update_heap}
use mathlib.Core.Path.{subst}
use rejig.Prelude.{
  none-some, false-true, &&_left, &&_right, refl, Option-cases, inl, inr, ltb, arith, ==_iff,
  key_eq_iff, Bool-cases, key_eq, ℕ, ◌==◌, ◌≡◌, true, false, none, some, List, [], ◌∷◌, ap, ◌∙◌,
  sym,
}
use rejig.Items.{Decision, elem, Item, Cache}

-- The item at `b` is `it`, the hash has it, and each linked item has its key to itself.
pub record Spared (b : ℕ) (it : Item) (c : Cache) : Type 0 where
  pub item_kept : c.heap b ≡ it
  pub index_kept : c.assoc it.key ≡ some b
  pub own : (a : ℕ) → (c.heap a).linked ≡ true → c.assoc (c.heap a).key ≡ some a

pub some-address : {a b : ℕ} → some a ≡ some b → a ≡ b
some-address {a} e = ap (λ o. elim o as (λ z. ℕ) [ none ↦ a | some z ↦ z ]) e

distinct_keys :
    (c : Cache) (a b : ℕ) (k : List ℕ)
    → c.assoc (c.heap a).key ≡ some a
    → c.assoc k ≡ some b
    → (b == a) ≡ false
    → key_eq (c.heap a).key k ≡ false
distinct_keys c a b k has_a has_b n = elim (Bool-cases (key_eq (c.heap a).key k)) [
  | inr f ↦ f
  | inl t ↦
      let p : (c.heap a).key ≡ k = (key_eq_iff (c.heap a).key k).0 t in
      let q : b ≡ a = some-address (sym has_b ∙ ap c.assoc (sym p) ∙ has_a) in
      absurd (ground (arith, q, n))
]

module _ (b : ℕ) (it : Item) where
  pub Reused-Spared :
      (a : ℕ) (c d : Cache) → (b == a) ≡ false → Spared b it c → Reused a c d → Spared b it d
  Reused-Spared a c d n s r =
      let has_a = s.own a r.was_linked in
      record {
        item_kept = r.heap_rest b n ∙ s.item_kept;
        index_kept =
            ap (λ f. f it.key) r.assoc_gone
            ∙ rw (distinct_keys c a b it.key has_a s.index_kept n) s.index_kept;
        own = λ a' l. elim (Bool-cases (a' == a)) [
          | inl t ↦ absurd (false-true (sym r.now_unlinked ∙ rw ((==_iff a' a).0 t) at l))
          | inr m ↦
              let same = r.heap_rest a' m in
              let has = s.own a' (ap (λ i. i.linked) (sym same) ∙ l) in
              ap (λ i. d.assoc i.key) same
              ∙ ap (λ f. f (c.heap a').key) r.assoc_gone
              ∙ rw (distinct_keys c a a' (c.heap a').key has_a has m) has
        ];
      }

  -- A store elsewhere, of an item that is not linked.
  pub store-Spared :
      (a : ℕ) (x : Item) (c : Cache)
      → (b == a) ≡ false
      → x.linked ≡ false
      → Spared b it c
      → Spared b it (record c { heap = update_heap c.heap a x })
  store-Spared a x c n u s = record {
    item_kept = rw n s.item_kept;
    index_kept = s.index_kept;
    own = λ a' l. elim (Bool-cases (a' == a)) [
      | inl t ↦ absurd (false-true (sym u ∙ rw t at l))
      | inr m ↦ rw m (s.own a' (rw m at l))
    ];
  }

  -- What the allocation finds unused is not the item.
  pub unused-apart :
      (a : ℕ) (c : Cache)
      → ltb 0 it.refcount ≡ true
      → Spared b it c
      → ((c.heap a).refcount == 0) ≡ true
      → (b == a) ≡ false
  unused-apart a c used s z = elim (Bool-cases (b == a)) [
    | inr n ↦ n
    | inl t ↦
        let same : (c.heap a).refcount ≡ it.refcount =
          ap (λ x. (c.heap x).refcount) (sym ((==_iff b a).0 t))
          ∙ ap (λ i. i.refcount) s.item_kept in
        absurd (ground (arith, same))
  ]

  evict_one-Spared :
      (a : ℕ) (c d : Cache) (x : Unit {0})
      → (b == a) ≡ false
      → Spared b it c
      → evict_one a c ≡ some (x, d)
      → Spared b it d
  unfolding evict_one
  evict_one-Spared a c d x n s e = elim (Bool-cases (c.heap a).linked) [
    | inl l ↦ Reused-Spared a c d n s (item_reuse-ends a c d x (rw l at e))
    | inr u ↦
        let stored = store a (record (c.heap a) { slabbed = false }) in
        subst (Spared b it)
          (run-cache refl (else_run (c.heap a).linked (item_reuse a) stored c _ u e))
          (store-Spared a (record (c.heap a) { slabbed = false }) c n u s)
  ]

  pub evict_items-Spared :
      (evicted : List ℕ) (c d : Cache) (x : Unit {0})
      → elem b evicted ≡ false
      → Spared b it c
      → evict_items evicted c ≡ some (x, d)
      → Spared b it d
  unfolding evict_items
  evict_items-Spared [] c d x n s e = subst (Spared b it) (run-cache refl e) s
  evict_items-Spared (a ∷ rest) c d x n s e = elim (Option-cases (evict_one a c)) [
    | inl f ↦ absurd (none-some (x, d) (rw (◌>>◌, f) at e))
    | inr ((y, c'), run) ↦ elim (Bool-cases (b == a)) [
      | inl t ↦ absurd (false-true (sym n ∙ rw t))
      | inr m ↦
          evict_items-Spared rest c' d x (rw m at n) (evict_one-Spared a c c' y m s run)
            (rw (◌>>◌, run) at e)
    ]
  ]

  pub init_items-Spared :
      (id : ℕ) (items : List ℕ) (c d : Cache) (x : Unit {0})
      → elem b items ≡ false
      → Spared b it c
      → init_items id items c ≡ some (x, d)
      → Spared b it d
  unfolding init_items
  init_items-Spared id [] c d x n s e = subst (Spared b it) (run-cache refl e) s
  init_items-Spared id (a ∷ rest) c d x n s e = elim (Bool-cases (b == a)) [
    | inl t ↦ absurd (false-true (sym n ∙ rw t))
    | inr m ↦
        init_items-Spared id rest _ d x (rw m at n)
          (store-Spared a (hdr_init id (c.heap a)) c m refl s) e
  ]

  pub answered-Spared :
      (c : Cache) (rest : List Decision) → Spared b it c → Spared b it (record c { answers = rest })
  answered-Spared c rest s = record {
    item_kept = s.item_kept;
    index_kept = s.index_kept;
    own = s.own;
  }

  -- What the guard of eviction lets pass.
  pub all_unused-elem :
      (items : List ℕ) (c : Cache)
      → ltb 0 it.refcount ≡ true
      → Spared b it c
      → all_unused c.heap items ≡ true
      → elem b items ≡ false
  unfolding all_unused
  all_unused-elem [] c used s e = refl
  all_unused-elem (a ∷ rest) c used s e =
      rw (unused-apart a c used s (&&_left ((c.heap a).refcount == 0) _ e))
        (all_unused-elem rest c used s (&&_right ((c.heap a).refcount == 0) _ e))
