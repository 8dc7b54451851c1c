-- ===== src/Items/Kept.antt =====
-- `_item_alloc_config` of IQ-Twemcached/src/mc_items.c step by step on an item that somebody
-- refers to.
use rejig.Items.Alloc.{
  all_unused, carry_out, expired, finish_alloc, item_reuse, take_slot, init_items, evict_items,
  slab_get,
}
use rejig.Items.Monad.{M, pure, ◌>>◌}
use mathlib.Core.Path.{subst}
use rejig.Prelude.{
  none-some, false-true, ℤ, none, if◌then◌else◌, ==_iff, Bool-cases, ltb, ℕ, ◌==◌, ◌≡◌, refl, true,
  false, Option, some, List, [], ◌∷◌, ap, ◌∙◌, sym, inl, inr, Option-cases,
}
use rejig.Items.{Answer, Decision, elem, Item, Cache}
use rejig.Items.Pins.{run-cache}
use rejig.Items.Spared.{
  init_items-Spared, evict_items-Spared, answered-Spared, Spared, store-Spared, all_unused-elem,
}

-- The arm of `_item_alloc_config` that looks for a slot.
abbrev slot_for : ℕ → Cache → Option ℕ → M (Option ℕ)
slot_for id c none = take_slot id none
slot_for id c (some a) =
    if expired c.now (c.heap a)
    then (item_reuse a >> pure (some a))
    else take_slot id (if c.settings.evict_lru then some a else none)

-- From the label `done`, or the refusal.
abbrev pub finished : ℕ → List ℕ → ℕ → ℕ → ℕ → ℤ → Option ℕ → M (Option ℕ)
finished id key dataflags exptime nbyte config_num none = pure none
finished id key dataflags exptime nbyte config_num (some a) =
    finish_alloc a id key dataflags exptime nbyte config_num

elem-tail : (b a : ℕ) (items : List ℕ) → elem b (a ∷ items) ≡ false → elem b items ≡ false
elem-tail b a items n = elim (Bool-cases (b == a)) [
  | inl t ↦ absurd (false-true (sym n ∙ rw t))
  | inr m ↦ rw m at n
]

module _ (b : ℕ) (it : Item) (l : it.linked ≡ true) (used : ltb 0 it.refcount ≡ true) where
  unlinked-apart :
      (a : ℕ) (c : Cache) → Spared b it c → (c.heap a).linked ≡ false → (b == a) ≡ false
  unlinked-apart a c s u = elim (Bool-cases (b == a)) [
    | inr n ↦ n
    | inl t ↦
        let same : (c.heap a).linked ≡ it.linked =
          ap (λ x. (c.heap x).linked) (sym ((==_iff b a).0 t)) ∙ ap (λ i. i.linked) s.item_kept in
        absurd (false-true (sym u ∙ same ∙ l))
  ]

  -- What is linked is `b`, or stands elsewhere.
  linked-elem :
      (evicted items : List ℕ) (c : Cache)
      → ((c.heap b).linked ≡ true → elem b items ≡ true → elem b evicted ≡ true)
      → Spared b it c
      → elem b evicted ≡ false
      → elem b items ≡ false
  linked-elem evicted items c law s n = elim (Bool-cases (elem b items)) [
    | inr m ↦ m
    | inl t ↦ absurd (false-true (sym n ∙ law (ap (λ i. i.linked) s.item_kept ∙ l) t))
  ]

  carved-Spared :
      (id a : ℕ) (evicted items : List ℕ) (c d : Cache) (r : Option ℕ)
      → ((c.heap b).linked ≡ true → elem b (a ∷ items) ≡ true → elem b evicted ≡ true)
      → Spared b it c
      → carry_out id (Answer.carved evicted items a) c ≡ some (r, d)
      → Spared b it d
  unfolding carry_out
  carved-Spared id a evicted items c d r law s e = elim (Bool-cases (all_unused c.heap evicted)) [
    | inr u ↦ subst (Spared b it) (run-cache refl (rw u at e)) s
    | inl t ↦
        let out = all_unused-elem b it evicted c used s t in
        let e₁ : (evict_items evicted >> (init_items id items >> pure (some a))) c ≡ some (r, d) =
          rw t at e in
        elim (Option-cases (evict_items evicted c)) [
          | inl f ↦ absurd (none-some (r, d) (rw (◌>>◌, f) at e₁))
          | inr ((y, c₁), run) ↦
              let s₁ = evict_items-Spared b it evicted c c₁ y out s run in
              let apart = elem-tail b a items (linked-elem evicted (a ∷ items) c law s out) in
              elim (Option-cases (init_items id items c₁)) [
                | inl f ↦ absurd (none-some (r, d) (rw (◌>>◌, run, f) at e₁))
                | inr ((y', c₂), run') ↦
                    let e₂ : some (some a, c₂) ≡ some (r, d) = rw (◌>>◌, run, run') at e₁ in
                    subst (Spared b it) (run-cache refl e₂)
                      (init_items-Spared b it id items c₁ c₂ y' apart s₁ run')
              ]
        ]
  ]

  carry_out-Spared :
      (id : ℕ) (f : Decision) (answer : Answer) (c d : Cache) (r : Option ℕ)
      → f.decide c.heap ≡ answer
      → Spared b it c
      → carry_out id answer c ≡ some (r, d)
      → Spared b it d
  unfolding carry_out
  carry_out-Spared id f Answer.refused c d r q s e = subst (Spared b it) (run-cache refl e) s
  carry_out-Spared id f (Answer.free_item a) c d r q s e =
      let u = f.free_unlinked c.heap a q in
      subst (Spared b it) (run-cache refl e)
        (store-Spared b it a (record (c.heap a) { slabbed = false }) c (unlinked-apart a c s u) u s)
  carry_out-Spared id f (Answer.carved evicted items a) c d r q s e =
      carved-Spared id a evicted items c d r (f.carves_apart c.heap evicted items a q b) s e

  slab_get-answers :
      (id : ℕ) (answers : List Decision) (c d : Cache) (r : Option ℕ)
      → c.answers ≡ answers
      → Spared b it c
      → slab_get id c ≡ some (r, d)
      → Spared b it d
  unfolding slab_get
  slab_get-answers id [] c d r p s e =
      subst (Spared b it) (run-cache refl (rw p at e)) (answered-Spared b it c [] s)
  slab_get-answers id (f ∷ rest) c d r p s e =
      carry_out-Spared id f (f.decide c.heap) (record c { answers = rest }) d r refl
        (answered-Spared b it c rest s) (rw p at e)

  pub slab_get-Spared :
      (id : ℕ) (c d : Cache) (r : Option ℕ)
      → Spared b it c
      → slab_get id c ≡ some (r, d)
      → Spared b it d
  slab_get-Spared id c d r s e = slab_get-answers id c.answers c d r refl s e
