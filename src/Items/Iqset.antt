-- ===== src/Items/Iqset.antt =====
-- Whose value is stored: `_item_store` of IQ-Twemcached/src/mc_items.c for the request iqset.
use rejig.Items.Monad.{M, ◌>>=◌, ◌>>◌}
use rejig.Items.Leases.{lease_value-Same}
use rejig.Items.Get.{lease_value, lease_key}
use rejig.Items.Frame.{
  key-Same, one, Same-trans, item_get-Settled, item_get-Live, Settled, i_lease-Same, Same-refl,
  Held-Same, nothing, Live-Same, drop-Held, item_get-absent, Live, Held, Same, Ends,
}
use rejig.Items.Store.{
  Req, choose_present, not_stored, Choice, choose_absent, choose_iqset, item_store, finish_store,
}
use rejig.Prelude.{
  arith, ◌==◌, true, ◌||◌, length, not, false, ◌∙◌, ltb, ap, none, some, Option, List, ℕ, ◌≡◌, refl,
}
use rejig.Items.{Cache}

-- No I lease with this token is on the key.
pub data Unentitled (c : Cache) (key : List ℕ) (token : ℕ) : Type 0 where
  no_lease : c.assoc (lease_key key) ≡ none → Unentitled c key token
  other_lease :
      (l : ℕ)
      → Live c (lease_key key) l
      → (not (c.heap l).i_lease || not (lease_value (c.heap l) == token)) ≡ true
      → Unentitled c key token

Unentitled-Same :
    {c d : Cache} (key : List ℕ) (token : ℕ)
    → Same c d
    → Unentitled c key token
    → Unentitled d key token
Unentitled-Same key token s (no_lease e) = no_lease (ap (λ f. f (lease_key key)) s.assoc_same ∙ e)
Unentitled-Same key token s (other_lease l live e) =
    other_lease l (Live-Same s l _ live) (rw (lease_value-Same s l, i_lease-Same s l) e)

abbrev refusal : ℕ → Option ℕ → Choice
refusal a lease_it = record {
  result = not_stored;
  store_it = false;
  it = a;
  nit = none;
  lease_it = lease_it;
}

choose_iqset-refused :
    (c : Cache) (a token : ℕ)
    → Unentitled c (c.heap a).key token
    → Ends
        (choose_iqset a token)
        c
        (λ ch d. ((lease_it : Option ℕ) × (ch ≡ refusal a lease_it) × Held d lease_it) × Same c d)
unfolding choose_iqset
choose_iqset-refused c a token (no_lease e) = (
  refusal a none,
  c,
  rw (◌>>=◌, item_get-absent c (lease_key (c.heap a).key) e),
  ((none, refl, nothing), Same-refl c),
)
choose_iqset-refused c a token (other_lease l live e) =
    let (_, d, got, (is_l, s)) = item_get-Live c (lease_key (c.heap a).key) l live in
    let e' : (not (d.heap l).i_lease || not (lease_value (d.heap l) == token)) ≡ true =
      rw (lease_value-Same s l, i_lease-Same s l) e in
    (
      refusal a (some l),
      d,
      rw (◌>>=◌, got, is_l, e'),
      ((some l, refl, one _ l (Live-Same s l _ live)), s),
    )

finish_store-refused :
    (c : Cache) (a : ℕ) (oit lease_it : Option ℕ)
    → Held c oit
    → Held c lease_it
    → Ends (finish_store oit (refusal a lease_it)) c (λ r d. (r ≡ not_stored) × Same c d)
unfolding finish_store
finish_store-refused c a oit lease_it held held' =
    let (_, d, e, s) = drop-Held c oit held in
    let (_, d', e', s') = drop-Held d lease_it (Held-Same lease_it s held') in
    (not_stored, d', rw (◌>>◌, e, e'), (refl, Same-trans s s'))

-- Both switches have the same arm for iqset.
pub iqset_arm :
    (a token : ℕ) (oit : Option ℕ)
    → elim oit as (λ x. M Choice) [
      | none ↦ choose_absent a Req.iqset token
      | some o ↦ choose_present a o Req.iqset token
    ]
      ≡ choose_iqset a token
unfolding choose_absent choose_present
iqset_arm a token none = refl
iqset_arm a token (some o) = refl

-- An iqset whose token is not that of an I lease on the key ends and stores nothing: the answer
-- is NOT_STORED, and nothing changes but reference counts and pending marks. The key has no item,
-- or one that readers see, and the value is not empty.
pub item_store-refused :
    (c : Cache) (a token : ℕ)
    → ltb 0 (length (c.heap a).value) ≡ true
    → Settled c (c.heap a).key
    → Unentitled c (c.heap a).key token
    → Ends (item_store a Req.iqset token) c (λ r d. (r ≡ not_stored) × Same c d)
unfolding item_store
item_store-refused c a token full settled unentitled =
    let full' : (length (c.heap a).value == 0) ≡ false = ground (arith, full) in
    let (oit, d, got, (held, s)) = item_get-Settled c (c.heap a).key settled in
    let still : Unentitled d (d.heap a).key token =
      rw (key-Same s a) (Unentitled-Same (c.heap a).key token s unentitled) in
    let (ch, d', chosen, ((lease_it, refused, held'), s')) = choose_iqset-refused d a token still in
    let (r, d'', e, (is_r, s'')) =
      finish_store-refused d' a oit lease_it (Held-Same oit s' held) held' in
    (
      r,
      d'',
      rw (full', ◌>>=◌, got, iqset_arm a token oit, chosen, refused) e,
      (is_r, Same-trans (Same-trans s s') s''),
    )
