-- ===== src/Items/Refused.antt =====
-- An increment of what is no number: `_item_add_delta` of IQ-Twemcached/src/mc_items.c.
use rejig.Prelude.{ℕ, Bool, List, Option, none, some, ◌≡◌, refl, ap, ◌∙◌}
use rejig.Util.{strtoull_len}
use rejig.Items.{Cache}
use rejig.Items.Monad.{◌>>=◌, ◌>>◌}
use rejig.Items.Frame.{
  Same, Same-refl, Same-trans, Ends, Live, Live-Same, value-Same, item_get-Live, item_get-absent,
  item_remove-Same, Settled, absent, present,
}
use rejig.Items.Trans.Incr.{DeltaResult, item_add_delta}

-- The answer to an increment of a key whose item, if there is one, holds no number.
abbrev pub refusal : Option ℕ → DeltaResult
refusal none = DeltaResult.not_found
refusal (some a) = DeltaResult.non_numeric

refused-Live :
    (c : Cache) (key : List ℕ) (incr : Bool) (delta a : ℕ)
    → Live c key a
    → strtoull_len (c.heap a).value ≡ none
    → Ends (item_add_delta key incr delta) c (λ r d. (r ≡ DeltaResult.non_numeric) × Same c d)
unfolding item_add_delta
refused-Live c key incr delta a live text =
    let (r, c₁, e₁, (is_a, s₁)) = item_get-Live c key a live in
    let still : strtoull_len (c₁.heap a).value ≡ none = ap strtoull_len (value-Same s₁ a) ∙ text in
    let (u, c₂, e₂, s₂) = item_remove-Same c₁ key a (Live-Same s₁ a key live) in
    (
      DeltaResult.non_numeric,
      c₂,
      rw (◌>>=◌, e₁, is_a, still, ◌>>◌, e₂) refl,
      (refl, Same-trans s₁ s₂),
    )

-- An increment or a decrement of a key that the hash does not have, or whose item holds text that
-- is no number, ends with the matching error and changes nothing but reference counts and pending
-- marks, where readers find the item that the hash has under the key.
pub item_add_delta-refused :
    (c : Cache) (key : List ℕ) (incr : Bool) (delta : ℕ)
    → Settled c key
    → ((a : ℕ) → c.assoc key ≡ some a → strtoull_len (c.heap a).value ≡ none)
    → Ends (item_add_delta key incr delta) c (λ r d. (r ≡ refusal (c.assoc key)) × Same c d)
unfolding item_add_delta
item_add_delta-refused c key incr delta (absent e) text =
    (DeltaResult.not_found, c, rw (◌>>=◌, item_get-absent c key e) refl, (rw e refl, Same-refl c))
item_add_delta-refused c key incr delta (present a live) text =
    let (r, d, e, (is_error, s)) = refused-Live c key incr delta a live (text a live.found) in
    (r, d, e, (rw live.found is_error, s))
