-- ===== src/Items/Coherent/Linking.antt =====
-- Counting, queueing, linking and unlinking keep the hash and the items in agreement:
-- `_item_link`, `_item_unlink`, `_item_remove`, `item_reuse` and what they call in
-- IQ-Twemcached/src/mc_items.c.
use rejig.Items.Frame.{released, release_refcount-run}
use rejig.Items.Alloc.{item_reuse}
use rejig.Items.Unlink.{assoc_delete-run, delinked, after_unpin}
use rejig.Items.Link.{
  assoc_insert-run, Touched-trans, item_set_cas-Touched, item_next_cas-Touched, content,
}
use rejig.Items.Monad.{◌>>◌, ◌>>=◌, update_heap}
use rejig.Prelude.{
  Option-cases, ◌-◌, leb, ==_refl, &&_right, none, ◌^◌, ap, ◌%◌, ◌∙◌, ◌+◌, sym, if◌then◌else◌, some,
  true, Bool, ◌==◌, ◌&&◌, ltb, not, &&_left, not-true, ℕ, false, ◌≡◌, inl, inr, refl, Bool-cases,
}
use rejig.Items.{Cache}
use rejig.Items.Refcount.{
  item_update_interval, item_set_cas, is_pinned_kind, item_touch, item_remove, item_replace,
  item_unlink, item_link, update_assoc, item_next_cas, link_q, acquire_refcount, release_refcount,
  unlink_q, item_free, is_lease_holder, assoc_insert,
}
use mathlib.Core.Path.{subst}
use rejig.Items.Pins.{item_reuse-ends}
use rejig.Items.Coherent.Hash.{linked-Coheres, unlinked-Coheres}
use rejig.Items.Coherent.{
  when-Keep, next, state-Keep, load-Keep, check-Keep, bind, Coheres, Coherent, Keep, Good, stored,
  kept, free, failed, ended,
}

pub acquire_refcount-Keep : (a : ℕ) → Keep (acquire_refcount a)
unfolding acquire_refcount
acquire_refcount-Keep a = record { call = λ c p. ended (stored c a _ p (kept refl refl refl)) }

pub release_refcount-Keep : (a : ℕ) → Keep (release_refcount a)
unfolding release_refcount
release_refcount-Keep a = record {
  call = λ c p. elim (Bool-cases (ltb 0 (c.heap a).refcount)) [
    | inl t ↦ rw t (ended (stored c a _ p (kept refl refl refl)))
    | inr t ↦ rw t failed
  ];
}

pub item_free-Keep : (a : ℕ) → Keep (item_free a)
unfolding item_free
item_free-Keep a = record {
  call = λ c p.
      let it = c.heap a in
      elim (Bool-cases (not it.linked && not it.slabbed && it.refcount == 0)) [
        | inl t ↦
            let u =
              not-true it.linked
                (&&_left (not it.linked) _ (&&_left (not it.linked && not it.slabbed) _ t)) in
            rw t (ended (stored c a _ p (free u u)))
        | inr t ↦ rw t failed
      ];
}

pub link_q-Keep : (a : ℕ) → Keep (link_q a)
unfolding link_q Coherent
link_q-Keep a = record {
  call = λ c p.
      let q = stored c a (record (c.heap a) { atime = c.now }) p (kept refl refl refl) in
      elim (Bool-cases (not (c.heap a).slabbed)) [
        | inr t ↦ rw t failed
        | inl t ↦ elim (Bool-cases (is_lease_holder (c.heap a))) [
          | inl u ↦ rw (t, u) (ended q)
          | inr u ↦ rw (t, u) (ended q)
        ]
      ];
}

pub unlink_q-Keep : (a : ℕ) → Keep (unlink_q a)
unfolding unlink_q Coherent
unlink_q-Keep a = record {
  call = λ c p. elim (Bool-cases (is_lease_holder (c.heap a))) [
    | inl t ↦ rw t (ended p)
    | inr t ↦ rw t (ended p)
  ];
}

next_cas-Good :
    (c : Cache) (b : Bool)
    → Coherent c
    → Good (
        some (
          if b then (c.cas_id + 1) % 2 ^ 64 else 0,
          if b then record c { cas_id = (c.cas_id + 1) % 2 ^ 64 } else c,
        ))
unfolding Coherent
next_cas-Good c true p = ended p
next_cas-Good c false p = ended p

pub item_next_cas-Keep : Keep item_next_cas
unfolding item_next_cas Coherent
item_next_cas-Keep = record { call = λ c p. next_cas-Good c c.settings.use_cas p }

assoc_insert-present :
    (a : ℕ) (c : Cache) (b : ℕ) → c.assoc (c.heap a).key ≡ some b → assoc_insert a c ≡ none
unfolding assoc_insert
assoc_insert-present a c b e = rw e

abbrev marked : ℕ → Cache → Cache
marked a c = record c { heap = update_heap c.heap a (record (c.heap a) { linked = true }) }

-- `_item_link` after its ASSERT, where the mark has been set.
link_marked-Good :
    (a : ℕ) (c : Cache)
    → Coherent c
    → (c.heap a).linked ≡ false
    → (c.heap a).slabbed ≡ false
    → Good (
        (item_next_cas >>= (λ cas. item_set_cas a cas >> (assoc_insert a >> link_q a)))
          (marked a c))
unfolding content Coherent
link_marked-Good a c p u s =
    let (cas, c₁, e₁, t₁) = item_next_cas-Touched a (marked a c) in
    let (_, d, e₂, t₂) = item_set_cas-Touched a cas c₁ in
    let t = Touched-trans t₁ t₂ in
    let m : (marked a c).heap a ≡ record (c.heap a) { linked = true } = rw (==_refl a) refl in
    elim (Option-cases (d.assoc (d.heap a).key)) [
      | inr (b, x) ↦ rw (◌>>=◌, e₁, ◌>>◌, e₂, assoc_insert-present a d b x) failed
      | inl n ↦
          let q =
            linked-Coheres c a d.heap p u (λ b n'. t.only.heap_only b n' ∙ rw n')
              (ap (λ z. z.2) t.content_same ∙ ap (λ i. i.linked) m)
              (ap (λ z. z.3) t.content_same ∙ (ap (λ i. i.slabbed) m ∙ s))
              (sym (ap (λ f. f (d.heap a).key) t.only.assoc_only) ∙ n) in
          rw (◌>>=◌, e₁, ◌>>◌, e₂, assoc_insert-run a d _ refl n)
            ((link_q-Keep a).call _ (
              subst (λ z. Coheres d.heap (update_assoc z (d.heap a).key (some a)))
                (sym t.only.assoc_only) q))
    ]

pub item_link-Keep : (a : ℕ) → Keep (item_link a)
unfolding item_link
item_link-Keep a = record {
  call = λ c p.
      let it = c.heap a in
      elim (Bool-cases (not it.linked && not it.slabbed)) [
        | inr t ↦ rw t failed
        | inl t ↦ rw t (
            link_marked-Good a c p (not-true it.linked (&&_left (not it.linked) _ t))
              (not-true it.slabbed (&&_right (not it.linked) _ t)))
      ];
}

pub item_reuse-Keep : (a : ℕ) → Keep (item_reuse a)
unfolding Coherent
item_reuse-Keep a = record {
  call = λ c p. record {
    good = λ x d e.
        let r = item_reuse-ends a c d x e in
        subst (λ z. Coheres d.heap z) (sym r.assoc_gone)
          (unlinked-Coheres c a d.heap p r.was_linked r.heap_rest r.now_unlinked);
  };
}

release_refcount-fails :
    (a : ℕ) (c : Cache) → ltb 0 (c.heap a).refcount ≡ false → release_refcount a c ≡ none
unfolding release_refcount
release_refcount-fails a c n = rw n

-- `_item_unlink` from the clearing of its mark on.
after_unpin-Good :
    (a : ℕ) (c : Cache) → Coherent c → (c.heap a).linked ≡ true → Good (after_unpin a c)
unfolding Coherent
after_unpin-Good a c p l =
    let q = unlinked-Coheres c a (delinked a c).heap p l (λ b n. rw n) (rw (==_refl a)) in
    let k : ((delinked a c).heap a).key ≡ (c.heap a).key = rw (==_refl a) in
    let rest = next (unlink_q-Keep a) (when-Keep ((c.heap a).refcount == 0) (item_free-Keep a)) in
    rw (◌>>◌, ◌>>=◌, assoc_delete-run a (delinked a c) (c.heap a).key a k (p.owned a l))
      (rest.call _ q)

pub item_unlink-Keep : (a : ℕ) → Keep (item_unlink a)
unfolding item_unlink
item_unlink-Keep a = record {
  call = λ c p.
      let it = c.heap a in
      elim (Bool-cases it.linked) [
        | inr t ↦ rw (◌>>◌, t) failed
        | inl l ↦ elim (Bool-cases (is_pinned_kind it)) [
          | inr n ↦ rw (l, ◌>>◌, n) (after_unpin-Good a c p l)
          | inl k ↦ elim (Bool-cases (ltb 0 it.refcount)) [
            | inr n ↦ rw (l, ◌>>◌, k, release_refcount-fails a c n) failed
            | inl t ↦
                rw (l, ◌>>◌, k, release_refcount-run a c t)
                  (after_unpin-Good a (released a c) (stored c a _ p (kept refl refl refl))
                    (rw (==_refl a) l))
          ]
        ]
      ];
}

pub item_remove-Keep : (a : ℕ) → Keep (item_remove a)
unfolding item_remove
item_remove-Keep a = bind (load-Keep a) (λ it. next (check-Keep (not it.slabbed)) (
    next (when-Keep (ltb 0 it.refcount) (release_refcount-Keep a)) (
      bind (load-Keep a)
        (λ it'. when-Keep (it'.refcount == 0 && not it'.linked) (item_free-Keep a)))))

pub item_replace-Keep : (a nit : ℕ) → Keep (item_replace a nit)
unfolding item_replace
item_replace-Keep a nit = next (item_unlink-Keep a) (item_link-Keep nit)

pub item_touch-Keep : (a : ℕ) → Keep (item_touch a)
unfolding item_touch
item_touch-Keep a = bind state-Keep (λ c. bind (load-Keep a) (λ it.
    next (check-Keep (not it.slabbed)) (
      when-Keep (not (leb ((c.now + 2 ^ 32 - item_update_interval) % 2 ^ 32) it.atime) && it.linked)
        (next (unlink_q-Keep a) (link_q-Keep a)))))
