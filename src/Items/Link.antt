-- ===== src/Items/Link.antt =====
-- `_item_link` of IQ-Twemcached/src/mc_items.c on an item of a key that the hash lacks.
use rejig.Items.Unlink.{Only-refl, store-Only, Only-trans, Only}
use rejig.Items.Frame.{Ends}
use rejig.Items.Refcount.{
  item_link, update_assoc, update_queue, is_lease_holder, item_set_cas, assoc_insert, item_next_cas,
  link_q,
}
use rejig.Prelude.{
  ◌&&◌, not, Option, ◌==◌, ◌+◌, ◌%◌, ◌^◌, [], ◌∷◌, ◌++◌, inr, Bool, inl, none, if◌then◌else◌, List,
  Bool-cases, ℕ, ◌≡◌, refl, true, false, some, ap, ◌∙◌, ==_refl,
}
use rejig.Items.{Item, Cache}
use rejig.Items.Monad.{update_heap, ◌>>=◌, ◌>>◌}

-- What readers see of an item, but for its times.
unfoldable pub content : Item → List ℕ × List ℕ × Bool × Bool
content it = (it.key, it.value, it.linked, it.slabbed)

-- The caches differ at one item, whose content is the same.
pub record Touched (a : ℕ) (c d : Cache) : Type 0 where
  pub only : Only a c d
  pub content_same : content (d.heap a) ≡ content (c.heap a)

pub Touched-trans : {a : ℕ} {c d e : Cache} → Touched a c d → Touched a d e → Touched a c e
Touched-trans s t = record {
  only = Only-trans s.only t.only;
  content_same = t.content_same ∙ s.content_same;
}

store-Touched :
    (a : ℕ) (it : Item) (c : Cache)
    → content it ≡ content (c.heap a)
    → Touched a c (record c { heap = update_heap c.heap a it })
store-Touched a it c e = record { only = store-Only a it c; content_same = rw (==_refl a) e }

pub item_next_cas-Touched : (a : ℕ) (c : Cache) → Ends item_next_cas c (λ _ d. Touched a c d)
unfolding item_next_cas
item_next_cas-Touched a c = elim (Bool-cases c.settings.use_cas) [
  | inl t ↦
      let next = (c.cas_id + 1) % 2 ^ 64 in
      (
        next,
        record c { cas_id = next },
        rw t,
        record {
          only = record {
            heap_only = λ b n. refl;
            assoc_only = refl;
            settings_only = refl;
            now_only = refl;
          };
          content_same = refl;
        },
      )
  | inr t ↦ (0, c, rw t, record { only = Only-refl a c; content_same = refl })
]

pub item_set_cas-Touched :
    (a cas : ℕ) (c : Cache) → Ends (item_set_cas a cas) c (λ _ d. Touched a c d)
unfolding item_set_cas content
item_set_cas-Touched a cas c = elim (Bool-cases (c.heap a).cas) [
  | inl t ↦ (tt, _, refl, store-Touched a _ c (rw t))
  | inr t ↦ (tt, _, refl, store-Touched a _ c (rw t))
]

abbrev queued : Item → ℕ → Cache → Cache
queued it a c =
    if is_lease_holder it
    then record c {
      reserved_lruq = update_queue c.reserved_lruq it.id (c.reserved_lruq it.id ++ a ∷ []);
    }
    else record c { lruq = update_queue c.lruq it.id (c.lruq it.id ++ a ∷ []) }

queued-Touched : (it : Item) (a : ℕ) (c : Cache) → Touched a c (queued it a c)
queued-Touched it a c = elim (Bool-cases (is_lease_holder it)) [
  | inl t ↦ rw t (record {
    only = record {
      heap_only = λ b n. refl;
      assoc_only = refl;
      settings_only = refl;
      now_only = refl;
    };
    content_same = refl;
  })
  | inr t ↦ rw t (record {
    only = record {
      heap_only = λ b n. refl;
      assoc_only = refl;
      settings_only = refl;
      now_only = refl;
    };
    content_same = refl;
  })
]

abbrev accessed : ℕ → Cache → Cache
accessed a c = record c { heap = update_heap c.heap a (record (c.heap a) { atime = c.now }) }

link_q-run :
    (a : ℕ) (c : Cache)
    → (c.heap a).slabbed ≡ false
    → link_q a c ≡ some (tt, queued (c.heap a) a (accessed a c))
unfolding link_q
link_q-run a c e = rw e

link_q-Touched :
    (a : ℕ) (c : Cache) → (c.heap a).slabbed ≡ false → Ends (link_q a) c (λ _ d. Touched a c d)
unfolding content
link_q-Touched a c e = (
  tt,
  queued (c.heap a) a (accessed a c),
  link_q-run a c e,
  Touched-trans (store-Touched a _ c refl) (queued-Touched (c.heap a) a (accessed a c)),
)

pub assoc_insert-run :
    (a : ℕ) (c : Cache) (key : List ℕ)
    → (c.heap a).key ≡ key
    → c.assoc key ≡ none
    → assoc_insert a c ≡ some (tt, record c { assoc = update_assoc c.assoc key (some a) })
unfolding assoc_insert
assoc_insert-run a c key k e = rw (k, e)

-- The hash has gained the key, and the heap changed at the item `a` alone, which is linked now.
pub record Linked (a : ℕ) (key : List ℕ) (c d : Cache) : Type 0 where
  pub heap_rest : (b : ℕ) → (b == a) ≡ false → d.heap b ≡ c.heap b
  pub assoc_linked : d.assoc ≡ update_assoc c.assoc key (some a)
  pub content_linked : content (d.heap a) ≡ content (record (c.heap a) { linked = true })

link_steps :
    (a : ℕ) (c : Cache) (key : List ℕ)
    → (c.heap a).key ≡ key
    → (c.heap a).slabbed ≡ false
    → c.assoc key ≡ none
    → Ends (item_next_cas >>= (λ cas. item_set_cas a cas >> (assoc_insert a >> link_q a))) c (λ _ d.
      (d.assoc ≡ update_assoc c.assoc key (some a))
      × (content (d.heap a) ≡ content (c.heap a))
      × ((b : ℕ) → (b == a) ≡ false → d.heap b ≡ c.heap b))
unfolding content
link_steps a c key k e absent =
    let (cas, c₁, e₁, t₁) = item_next_cas-Touched a c in
    let (_, c₂, e₂, t₂) = item_set_cas-Touched a cas c₁ in
    let t₁₂ = Touched-trans t₁ t₂ in
    let key₂ : (c₂.heap a).key ≡ key = ap (λ x. x.0) t₁₂.content_same ∙ k in
    let absent₂ : c₂.assoc key ≡ none = ap (λ f. f key) t₁₂.only.assoc_only ∙ absent in
    let e₃ = assoc_insert-run a c₂ key key₂ absent₂ in
    let c₃ = record c₂ { assoc = update_assoc c₂.assoc key (some a) } in
    let slabbed₃ : (c₃.heap a).slabbed ≡ false = ap (λ x. x.3) t₁₂.content_same ∙ e in
    let (_, d, e₄, t₄) = link_q-Touched a c₃ slabbed₃ in
    (
      tt,
      d,
      rw (◌>>=◌, e₁, ◌>>◌, e₂, e₃) e₄,
      (
        t₄.only.assoc_only ∙ ap (λ f. update_assoc f key (some a)) t₁₂.only.assoc_only,
        t₄.content_same ∙ t₁₂.content_same,
        λ b n. t₄.only.heap_only b n ∙ t₁₂.only.heap_only b n,
      ),
    )

item_link-unfold :
    (a : ℕ) (c : Cache) (r : Option (Unit {0} × Cache))
    → (c.heap a).linked ≡ false
    → (c.heap a).slabbed ≡ false
    → (item_next_cas >>= (λ cas. item_set_cas a cas >> (assoc_insert a >> link_q a)))
        (record c { heap = update_heap c.heap a (record (c.heap a) { linked = true }) })
      ≡ r
    → item_link a c ≡ r
unfolding item_link
item_link-unfold a c r l e rest =
    let g : (not (c.heap a).linked && not (c.heap a).slabbed) ≡ true = rw (l, e) in
    rw (◌>>◌, g) rest

pub item_link-Linked :
    (a : ℕ) (c : Cache) (key : List ℕ)
    → (c.heap a).key ≡ key
    → (c.heap a).linked ≡ false
    → (c.heap a).slabbed ≡ false
    → c.assoc key ≡ none
    → Ends (item_link a) c (λ _ d. Linked a key c d)
unfolding content
item_link-Linked a c key k l e absent =
    let c' = record c { heap = update_heap c.heap a (record (c.heap a) { linked = true }) } in
    let k' : (c'.heap a).key ≡ key = rw (==_refl a) k in
    let e' : (c'.heap a).slabbed ≡ false = rw (==_refl a) e in
    let (_, d, run, (index, same, others)) = link_steps a c' key k' e' absent in
    (
      tt,
      d,
      item_link-unfold a c _ l e run,
      record {
        heap_rest = λ b n. others b n ∙ rw n;
        assoc_linked = index;
        content_linked = same ∙ rw (==_refl a);
      },
    )
