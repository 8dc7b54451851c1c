-- ===== src/Items/Coherent/Allocating.antt =====
-- An allocation keeps the hash and the items in agreement, whatever the slab allocator decides:
-- `_item_alloc_config` and what it calls in IQ-Twemcached/src/mc_items.c.
use rejig.Items.Pins.{else_run, run-cache, item_reuse-ends}
use rejig.Prelude.{
  none-some, ==_iff, ◌∙◌, ap, false-true, ℕ, List, [], ◌∷◌, Option, some, none, Bool, true, false,
  not, ◌&&◌, if◌then◌else◌, ◌≡◌, inl, inr, refl, Bool-cases, Option-cases, ◌==◌, ◌+◌, ◌%◌, ◌^◌, ℤ,
  leb, sym, ==_refl, &&_left, &&_right, not-true,
}
use rejig.Items.{Item, Cache, Answer, Decision, elem}
use rejig.Items.Monad.{M, ◌>>◌, pure, store, update_heap}
use rejig.Items.Refcount.{acquire_refcount}
use rejig.Items.Alloc.{
  all_unused, carry_out, evict_one, hdr_init, init_items, evict_items, slab_get, take_slot,
  finish_alloc, get_from_lruq, item_alloc_config, expired, item_reuse, item_slabid,
}
use rejig.Slabs.{slab_id, item_ntotal}
use rejig.Items.Coherent.{
  fault-Keep, Coherent, Keep, Good, stored, free, failed, ended, next, bind, load-Keep, state-Keep,
  pure-Keep, check-Keep, if-Keep, either-Keep,
}
use rejig.Items.Coherent.Linking.{item_reuse-Keep}

elem-later : (b a : ℕ) (items : List ℕ) → elem b items ≡ true → elem b (a ∷ items) ≡ true
elem-later b a items m = elim (Bool-cases (b == a)) [ inl t ↦ rw t refl | inr n ↦ rw n m ]

else_Good :
    {A : Type 0} (m n : M A) (c : Cache) (t : Bool)
    → t ≡ false
    → Good (n c)
    → Good ((if t then m else n) c)
else_Good m n c true f g = absurd (false-true (sym f))
else_Good m n c false f g = g

evict_one-Keep : (a : ℕ) → Keep (evict_one a)
unfolding evict_one Coherent
evict_one-Keep a = record {
  call = λ c p. elim (Bool-cases (c.heap a).linked) [
    | inl l ↦ rw l ((item_reuse-Keep a).call c p)
    | inr u ↦
        else_Good (item_reuse a) (store a (record (c.heap a) { slabbed = false })) c
          (c.heap a).linked u (ended (stored c a _ p (free u u)))
  ];
}

evict_items-Keep : (items : List ℕ) → Keep (evict_items items)
unfolding evict_items
evict_items-Keep [] = pure-Keep tt
evict_items-Keep (a ∷ rest) = next (evict_one-Keep a) (evict_items-Keep rest)

-- What a round of the eviction leaves linked was linked, and is another item.
evict_one-linked :
    (a : ℕ) (c d : Cache) (x : Unit {0})
    → evict_one a c ≡ some (x, d)
    → (b : ℕ) → (d.heap b).linked ≡ true
    → ((c.heap b).linked ≡ true) × ((b == a) ≡ false)
unfolding evict_one
evict_one-linked a c d x e b m = elim (Bool-cases (c.heap a).linked) [
  | inl l ↦
      let r = item_reuse-ends a c d x (rw l at e) in
      elim (Bool-cases (b == a)) [
        | inl t ↦ absurd (false-true (sym r.now_unlinked ∙ rw ((==_iff b a).0 t) at m))
        | inr n ↦ (ap (λ i. i.linked) (sym (r.heap_rest b n)) ∙ m, n)
      ]
  | inr u ↦
      let stored = store a (record (c.heap a) { slabbed = false }) in
      let q = run-cache refl (else_run (c.heap a).linked (item_reuse a) stored c _ u e) in
      let m' = ap (λ z. (z.heap b).linked) q ∙ m in
      elim (Bool-cases (b == a)) [
        | inl t ↦ absurd (false-true (sym u ∙ rw t at m'))
        | inr n ↦ (rw n at m', n)
      ]
]

evict_items-linked :
    (items : List ℕ) (c d : Cache) (x : Unit {0})
    → evict_items items c ≡ some (x, d)
    → (b : ℕ) → (d.heap b).linked ≡ true
    → ((c.heap b).linked ≡ true) × (elem b items ≡ false)
unfolding evict_items
evict_items-linked [] c d x e b m =
    (ap (λ z. (z.heap b).linked) (run-cache {y = x} refl e) ∙ m, refl)
evict_items-linked (a ∷ rest) c d x e b m = elim (Option-cases (evict_one a c)) [
  | inl f ↦ absurd (none-some (x, d) (rw (◌>>◌, f) at e))
  | inr ((y, c'), run) ↦
      let (m₁, out) = evict_items-linked rest c' d x (rw (◌>>◌, run) at e) b m in
      let (m₂, n) = evict_one-linked a c c' y run b m₁ in (m₂, rw n out)
]

abbrev Unlinked : (ℕ → Item) → List ℕ → Type 0
Unlinked heap items = (b : ℕ) → elem b items ≡ true → (heap b).linked ≡ false

init_items-Good :
    (id : ℕ) (items : List ℕ) (c : Cache)
    → Coherent c
    → Unlinked c.heap items
    → Good (init_items id items c)
unfolding init_items
init_items-Good id [] c p u = ended p
init_items-Good id (a ∷ rest) c p u =
    let it = hdr_init id (c.heap a) in
    init_items-Good id rest (record c { heap = update_heap c.heap a it })
      (stored c a it p (free (u a (rw (==_refl a) refl)) refl))
      (λ b m. elim (Bool-cases (b == a)) [ inl t ↦ rw t refl | inr n ↦ rw n (u b (rw n m)) ])

carved-Good :
    (id a : ℕ) (evicted items : List ℕ) (c : Cache)
    → ((b : ℕ) → (c.heap b).linked ≡ true → elem b (a ∷ items) ≡ true → elem b evicted ≡ true)
    → Coherent c
    → Good (carry_out id (Answer.carved evicted items a) c)
unfolding carry_out
carved-Good id a evicted items c law p = elim (Bool-cases (all_unused c.heap evicted)) [
  | inr n ↦ rw n (ended p)
  | inl t ↦ elim (Option-cases (evict_items evicted c)) [
    | inl f ↦ rw (t, ◌>>◌, f) failed
    | inr ((y, c₁), run) ↦
        let u : Unlinked c₁.heap items = λ b m. elim (Bool-cases (c₁.heap b).linked) [
          | inr n ↦ n
          | inl l ↦
              let (l₀, out) = evict_items-linked evicted c c₁ y run b l in
              absurd (false-true (sym out ∙ law b l₀ (elem-later b a items m)))
        ] in
        let p₁ = ((evict_items-Keep evicted).call c p).good y c₁ run in
        elim (Option-cases (init_items id items c₁)) [
          | inl f ↦ rw (t, ◌>>◌, run, f) failed
          | inr ((x, d), r) ↦
              rw (t, ◌>>◌, run, r) (ended ((init_items-Good id items c₁ p₁ u).good x d r))
        ]
  ]
]

carry_out-Good :
    (id : ℕ) (f : Decision) (answer : Answer) (c : Cache)
    → f.decide c.heap ≡ answer
    → Coherent c
    → Good (carry_out id answer c)
unfolding carry_out
carry_out-Good id f Answer.refused c q p = ended p
carry_out-Good id f (Answer.free_item a) c q p =
    let u = f.free_unlinked c.heap a q in ended (stored c a _ p (free u u))
carry_out-Good id f (Answer.carved evicted items a) c q p =
    carved-Good id a evicted items c (f.carves_apart c.heap evicted items a q) p

answered :
    (id : ℕ) (answers : List Decision) (c : Cache)
    → c.answers ≡ answers
    → Coherent c
    → Good (slab_get id c)
unfolding slab_get Coherent
answered id [] c q p = rw q (ended p)
answered id (f ∷ rest) c q p =
    rw q (carry_out-Good id f (f.decide c.heap) (record c { answers = rest }) refl p)

pub slab_get-Keep : (id : ℕ) → Keep (slab_get id)
slab_get-Keep id = record { call = λ c p. answered id c.answers c refl p }

reused-Keep : (a : ℕ) → Keep (item_reuse a >> pure (some a))
reused-Keep a = next (item_reuse-Keep a) (pure-Keep (some a))

pub take_slot-Keep : (id : ℕ) (uit : Option ℕ) → Keep (take_slot id uit)
unfolding take_slot
take_slot-Keep id uit = bind state-Keep (λ c. bind (slab_get-Keep id) (λ slot.
    either-Keep slot
      (either-Keep uit (if-Keep c.settings.evict_any (slab_get-Keep id) (pure-Keep none))
        reused-Keep)
      (λ a. pure-Keep (some a))))

get_from_lruq-Keep : (reserved : Bool) (id : ℕ) → Keep (get_from_lruq reserved id)
unfolding get_from_lruq
get_from_lruq-Keep reserved id = record { call = λ c p. ended p }

finish_alloc-Keep :
    (a id : ℕ) (key : List ℕ) (dataflags exptime nbyte : ℕ) (config_num : ℤ)
    → Keep (finish_alloc a id key dataflags exptime nbyte config_num)
unfolding finish_alloc acquire_refcount
finish_alloc-Keep a id key dataflags exptime nbyte config_num = record {
  call = λ c p.
      let it = c.heap a in
      let counted = record it { refcount = (it.refcount + 1) % 2 ^ 16 } in
      elim (Bool-cases (it.id == id && not it.linked && not it.slabbed && it.refcount == 0)) [
        | inr n ↦ rw n failed
        | inl t ↦
            let u = not-true it.linked (
              &&_right (it.id == id) _ (
                &&_left (it.id == id && not it.linked) _
                  (&&_left (it.id == id && not it.linked && not it.slabbed) _ t))) in
            let c₁ = record c { heap = update_heap c.heap a counted } in
            rw t (
              ended
                (stored c₁ a _ (stored c a counted p (free u u)) (free (rw (==_refl a) u) refl)))
      ];
}

pub item_alloc_config-Keep :
    (reserved : Bool) (id : ℕ) (key : List ℕ) (dataflags exptime nbyte : ℕ) (config_num : ℤ)
    → Keep (item_alloc_config reserved id key dataflags exptime nbyte config_num)
unfolding item_alloc_config
item_alloc_config-Keep reserved id key dataflags exptime nbyte config_num = bind state-Keep (λ c.
    next (check-Keep (leb 1 id && leb id 254)) (
      bind (get_from_lruq-Keep reserved id) (λ found.
        bind
          (either-Keep found (take_slot-Keep id none) (λ a. bind (load-Keep a) (λ it.
            if-Keep (expired c.now it) (reused-Keep a)
              (take_slot-Keep id (if c.settings.evict_lru then some a else none)))))
          (λ slot.
            either-Keep slot (pure-Keep none)
              (λ a. finish_alloc-Keep a id key dataflags exptime nbyte config_num)))))

pub item_slabid-Keep : (nkey nbyte : ℕ) → Keep (item_slabid nkey nbyte)
unfolding item_slabid
item_slabid-Keep nkey nbyte = bind state-Keep (λ c.
    either-Keep
      (slab_id c.settings.profile c.settings.profile_last_id
        (item_ntotal c.settings.item_hdr_size nkey nbyte c.settings.use_cas))
      fault-Keep pure-Keep)
