-- ===== src/Ascii/Keeps/Updating.antt =====
-- The requests that bring a value keep the hash and the items in agreement
-- (IQ-Twemcached/src/mc_ascii.c).
use rejig.Prelude.{none, some, Option, ℕ, Bool, List, ℤ}
use rejig.Items.Coherent.{Keep, bind, next, load-Keep, pure-Keep}
use rejig.Items.Monad.{M}
use rejig.Items.Refcount.{item_delete}
use rejig.Items.Coherent.Linking.{item_unlink-Keep, item_remove-Keep}
use rejig.Items.Coherent.Allocating.{item_alloc_config-Keep, item_slabid-Keep}
use rejig.Items.Coherent.Counting.{item_set_cas-Keep, item_iqupdate-Keep}
use rejig.Items.Coherent.Reached.{fill_item-Keep}
use rejig.Items.Coherent.Storing.{item_get-Keep, item_store-Keep}
use rejig.Items.Coherent.Updating.{swap_and_release-Keep, item_swap-Keep}
use rejig.Items.Coherent.Writing.{item_oqswap-Keep, item_oqwrite-Keep, item_oqupdate-Keep}
use rejig.Items.Trans.Incr.{Update, append, prepend}
use rejig.Ascii.Numbers.{Libc}
use rejig.Ascii.Request.{ReqType}
use rejig.Ascii.Arguments.{Request}
use rejig.Ascii.Server.{H}
use rejig.Ascii.Updates.{
  expiry, class_for, drop_stale, refuse_value, if_item, await_value, process_update, process_sar,
  process_swap, process_session_value, take_joined, process_iqappend_iqprepend,
  process_oqappend_oqprepend,
}
use rejig.Ascii.Complete.{
  Answer, tell, after, join_iq, join_oq, use_value, complete_nread, told_iq, told_joined,
}
use rejig.Ascii.Reads.{token_or_zero}
use rejig.Ascii.Keeps.{
  Keeps, Keeps-lift, Keeps-bind, Keeps-option, Keeps-pure, Keeps-write, Keeps-finish, keeps_rules,
}
use rejig.Ascii.Keeps.Steps.{step_rules}
use rejig.Ascii.Keeps.Reading.{Keeps-item_of}

Keeps-expiry : (exptime : ℤ) → Keeps (expiry exptime)
unfolding expiry
Keeps-expiry exptime = search keeps_rules

Keeps-class_for : (key : List ℕ) (vlen : ℕ) → Keeps (class_for key vlen)
unfolding class_for
Keeps-class_for key vlen = search (keeps_rules, item_slabid-Keep) depth 20

item_delete-Keep : (a : ℕ) → Keep (item_delete a)
unfolding item_delete
item_delete-Keep a = next (item_unlink-Keep a) (item_remove-Keep a)

Keeps-drop_stale : (key : List ℕ) → Keeps (drop_stale key)
unfolding drop_stale
Keeps-drop_stale key =
    Keeps-bind (Keeps-lift _ (item_get-Keep key))
      (λ it. Keeps-option it (Keeps-pure tt) (λ a. Keeps-lift _ (item_delete-Keep a)))

Keeps-refuse_value : (stale : Bool) (key : List ℕ) (vlen : ℕ) → Keeps (refuse_value stale key vlen)
unfolding refuse_value
Keeps-refuse_value stale key vlen = search (keeps_rules, Keeps-drop_stale) depth 20

Keeps-if_item :
    (stale : Bool) (key : List ℕ) (vlen : ℕ) {f : ℕ → H (Unit {0})} (it : Option ℕ)
    → ((a : ℕ) → Keeps (f a))
    → Keeps (if_item stale key vlen f it)
unfolding if_item
Keeps-if_item stale key vlen none k = Keeps-refuse_value stale key vlen
Keeps-if_item stale key vlen (some a) k = k a

Keeps-await_value : (a vlen : ℕ) → Keeps (await_value a vlen)
unfolding await_value
Keeps-await_value a vlen = search keeps_rules depth 20

ruleset update_rules = (
  step_rules, Keeps-expiry, Keeps-class_for, Keeps-if_item, Keeps-await_value,
  item_alloc_config-Keep, item_set_cas-Keep, item_slabid-Keep,
)

module _ (libc : Libc) (req : Request) where
  pub Keeps-process_update : Keeps (process_update libc req)
  unfolding process_update
  Keeps-process_update = search update_rules depth 60 fits 5000

  pub Keeps-process_sar : Keeps (process_sar libc req)
  unfolding process_sar
  Keeps-process_sar = search update_rules depth 60 fits 5000

  pub Keeps-process_swap : Keeps (process_swap libc req)
  unfolding process_swap
  Keeps-process_swap = search update_rules depth 60 fits 5000

  pub Keeps-process_session_value : Keeps (process_session_value libc req)
  unfolding process_session_value
  Keeps-process_session_value = search update_rules depth 60 fits 5000

  Keeps-take_joined : (tid key : List ℕ) (vlen : ℕ) → Keeps (take_joined libc req tid key vlen)
  unfolding take_joined
  Keeps-take_joined tid key vlen = search update_rules depth 60 fits 5000

  pub Keeps-process_iqappend_iqprepend : Keeps (process_iqappend_iqprepend libc req)
  unfolding process_iqappend_iqprepend
  Keeps-process_iqappend_iqprepend = search (update_rules, Keeps-take_joined) depth 60 fits 5000

  pub Keeps-process_oqappend_oqprepend : Keeps (process_oqappend_oqprepend libc req)
  unfolding process_oqappend_oqprepend
  Keeps-process_oqappend_oqprepend = search (update_rules, Keeps-take_joined) depth 60 fits 5000

Keeps-tell : (answer : Answer) → Keeps (tell answer)
unfolding tell
Keeps-tell (Answer.text r) = Keeps-write r
Keeps-tell (Answer.no_text r) = Keeps-finish r

after-Keep : {A : Type 0} {m : M A} (f : A → Answer) → Keep m → Keep (after m f)
after-Keep f k = bind k (λ r. pure-Keep (f r))

module _ (a : ℕ) (tid : List ℕ) where
  join_iq-Keep : (update : List ℕ → Update) → Keep (join_iq a tid update)
  unfolding join_iq
  join_iq-Keep update = bind (load-Keep a) (λ it.
      after-Keep (λ r. told_iq r.status r.pending (token_or_zero r.new_token))
        (item_iqupdate-Keep tid it.key (update it.value)))

  join_oq-Keep : (update : List ℕ → Update) → Keep (join_oq a tid update)
  unfolding join_oq
  join_oq-Keep update =
      bind (load-Keep a)
        (λ it. after-Keep told_joined (item_oqupdate-Keep tid it.key (update it.value)))

  use_value-Keep : (type : ReqType) (token : ℕ) → Keep (use_value type a tid token)
  unfolding use_value
  use_value-Keep ReqType.iqappend token = join_iq-Keep append
  use_value-Keep ReqType.iqprepend token = join_iq-Keep prepend
  use_value-Keep ReqType.oqappend token = join_oq-Keep append
  use_value-Keep ReqType.oqprepend token = join_oq-Keep prepend
  use_value-Keep ReqType.sar token = after-Keep _ (swap_and_release-Keep a token)
  use_value-Keep ReqType.oqswap token = after-Keep _ (item_oqswap-Keep tid a)
  use_value-Keep ReqType.swap token = after-Keep _ (item_swap-Keep a token)
  use_value-Keep ReqType.oqwrite token = after-Keep _ (item_oqwrite-Keep tid a)
  use_value-Keep _ token = after-Keep _ (item_store-Keep a _ token)

pub Keeps-complete_nread : (line : List ℕ) → Keeps (complete_nread line)
unfolding complete_nread
Keeps-complete_nread line =
    search
      (keeps_rules, Keeps-item_of, fill_item-Keep, use_value-Keep, item_remove-Keep, Keeps-tell)
      depth 60 fits 5000
