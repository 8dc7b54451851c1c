-- ===== src/Items/Leases.antt =====
-- Who is given a lease: `item_iqget` of IQ-Twemcached/src/mc_items.c on a miss.
use rejig.Prelude.{
  Bool-cases, inl, inr, ap, ◌∙◌, [], Bool, none, List, if◌then◌else◌, ℕ, ◌≡◌, refl, some, ◌==◌,
}
use rejig.Items.{Cache}
use rejig.Items.Refcount.{acquire_refcount, item_remove}
use rejig.Items.Monad.{pure, ◌>>◌, ◌>>=◌}
use rejig.Items.Get.{lease_key, pending_key, lease_value}
use rejig.Items.Iqget.{
  lists_key, lease_or_meet, pending_mark, item_iqget, iqget_apart, Outcome, IqResult, hotmiss,
  meet_lease,
}
use rejig.Items.Frame.{
  item_remove-Same, acquire_refcount-Same, Same-trans, item_get-absent, Live-Same, item_get-Live,
  Live, Same, Ends, value-Same, set_pending-Same,
}

-- What a caller with `lease_token` is told where the lease at `l` has the token `held`: to compute
-- the value, or to come back.
abbrev pub told : ℕ → ℕ → ℕ → Outcome
told l held lease_token =
    if held == lease_token
    then record { status = IqResult.no_value; item = some l; new_token = none; lease_it = some l }
    else record {
      status = IqResult.miss;
      item = some l;
      new_token = some hotmiss;
      lease_it = some l;
    }

told-lease :
    (l held lease_token : ℕ)
    → ((told l held lease_token).item ≡ some l) × ((told l held lease_token).lease_it ≡ some l)
told-lease l held lease_token = elim (Bool-cases (held == lease_token)) [
  | inl t ↦ rw t (refl, refl)
  | inr t ↦ rw t (refl, refl)
]

pub lease_value-Same :
    {c d : Cache} → Same c d → (b : ℕ) → lease_value (d.heap b) ≡ lease_value (c.heap b)
unfolding lease_value
lease_value-Same s b = rw (value-Same s b)

meet_lease-told :
    (c : Cache) (l lease_token pending : ℕ)
    → Ends
        (meet_lease l lease_token pending)
        c
        (λ r d. (r ≡ told l (lease_value (c.heap l)) lease_token) × Same c d)
unfolding meet_lease
meet_lease-told c l lease_token pending =
    let (_, d, e, s) = set_pending-Same l pending c in
    (
      told l (lease_value (d.heap l)) lease_token,
      d,
      rw (◌>>◌, e, ◌>>=◌),
      (rw (lease_value-Same s l), s),
    )

iqget_apart-lease :
    (c : Cache) (key : List ℕ) (l lease_token pending : ℕ) (override : Bool)
    → Live c (lease_key key) l
    → Ends
        (iqget_apart key none lease_token pending override)
        c
        (λ r d. (r ≡ told l (lease_value (c.heap l)) lease_token) × Same c d)
unfolding iqget_apart lease_or_meet
iqget_apart-lease c key l lease_token pending override live =
    let (_, d, got, (is_l, s)) = item_get-Live c (lease_key key) l live in
    let (r, d', met, (is_told, s')) = meet_lease-told d l lease_token pending in
    (r, d', rw (◌>>=◌, got, is_l, met), (is_told ∙ rw (lease_value-Same s l), Same-trans s s'))

-- The references that the end of `item_iqget` takes and gives back.
keep_lease :
    (c : Cache) (key : List ℕ) (l : ℕ) (A : Type 0) (r : A)
    → Live c key l
    → Ends (acquire_refcount l >> (item_remove l >> pure r)) c (λ r' d. (r' ≡ r) × Same c d)
keep_lease c key l A r live =
    let (_, d, e, s) = acquire_refcount-Same l c in
    let (_, d', e', s') = item_remove-Same d key l (Live-Same s l key live) in
    (r, d', rw (◌>>◌, e, e'), (refl, Same-trans s s'))

-- A read outside a transaction of a key that has no value and no pending mark, and whose lease is
-- alive, ends; it hands out no lease, but tells the holder of the token to compute the value and
-- all others to come back (miss, with the token for a hot miss), and changes nothing but
-- reference counts and pending marks.
pub item_iqget-lease :
    (c : Cache) (key : List ℕ) (l lease_token : ℕ) (override foreground : Bool)
    → c.assoc key ≡ none
    → c.assoc (pending_key key) ≡ none
    → Live c (lease_key key) l
    → Ends
        (item_iqget key lease_token [] override foreground)
        c
        (λ r d. (r ≡ told l (lease_value (c.heap l)) lease_token) × Same c d)
unfolding item_iqget pending_mark lists_key
item_iqget-lease c key l lease_token override foreground absent unmarked live =
    let (r, d, met, (is_told, s)) = iqget_apart-lease c key l lease_token 0 override live in
    let (r', d', kept, (e, s')) = keep_lease d (lease_key key) l Outcome r (Live-Same s l _ live) in
    let item : r.item ≡ some l =
      ap (λ o. o.item) is_told ∙ (told-lease l (lease_value (c.heap l)) lease_token).0 in
    let lease_it : r.lease_it ≡ some l =
      ap (λ o. o.lease_it) is_told ∙ (told-lease l (lease_value (c.heap l)) lease_token).1 in
    (
      r',
      d',
      rw
          (
            ◌>>=◌,
            item_get-absent c key absent,
            item_get-absent c (pending_key key) unmarked,
            met,
            item,
            lease_it,
          )
          kept,
      (e ∙ is_told, Same-trans s s'),
    )
