-- ===== src/Ascii/Complete.antt =====
-- The value of a request is read: `asc_complete_nread` of IQ-Twemcached/src/mc_ascii.c, after the
-- bytes that the connection read into the item (`core_drive_machine` of mc_core.c, CONN_NREAD).
use rejig.Prelude.{pos, ℕ, ◌-◌, none, List, [], ◌∷◌, length, drop, take, if◌then◌else◌, key_eq}
use rejig.Ascii.Request.{ReqType}
use rejig.Ascii.Server.{
  Response, client_error, server_error, abort, stored, exists, not_found, not_stored, invalid, ok,
  ok_novalue, silent, ok_pending, ok_novalue_pending, H, ◌>>=◌, ◌>>◌, pure, finish, write, gets,
  lift, set_item,
}
use rejig.Ascii.Reads.{item_of, token_or_zero}
use rejig.Items.Monad
use rejig.Items.Refcount.{item_remove}
use rejig.Items.Reach.{fill_item}
use rejig.Items.Store.{item_store, Req, StoreResult}
use rejig.Items.Iqget.{IqResult}
use rejig.Items.Trans.Swap.{item_swap, swap_and_release}
use rejig.Items.Trans.Incr.{item_iqupdate, Update, append, prepend}
use rejig.Items.Session.{CoResult}
use rejig.Items.Session.Write.{item_oqswap, item_oqwrite, item_oqupdate}

-- What a request does with its item, and the texts for what comes of it.
pub data Answer : Type 0 where
  text no_text : Response → Answer

-- The texts that are written even to a request that wants none are put together from parts.
unfoldable pub tell : Answer → H (Unit {0})
tell (text r) = write r
tell (no_text r) = finish r

-- The switch on the result of `item_iqappend_iqprepend`.
abbrev pub told_iq : IqResult → ℕ → ℕ → Answer
told_iq IqResult.lease pending token = no_text (ok_pending pending token)
told_iq IqResult.lease_no_value pending token = no_text (ok_novalue_pending pending token)
told_iq IqResult.abort pending token = text abort
told_iq IqResult.server_error pending token = text server_error
told_iq IqResult.client_error pending token = text client_error
told_iq _ pending token = no_text silent

-- Those on the results of `item_oqappend_oqprepend`, and of `item_oqswap` or `item_oqwrite`.
abbrev pub told_joined : CoResult → Answer
told_joined CoResult.co_ok = text ok
told_joined CoResult.co_abort = text ok_novalue
told_joined _ = no_text silent

abbrev pub told_co : CoResult → Answer
told_co CoResult.co_ok = text stored
told_co CoResult.co_abort = text abort
told_co _ = text invalid

-- Those on the results of `item_swap_and_release`, `item_swap` and `item_store`.
abbrev pub told_sar : StoreResult → Answer
told_sar StoreResult.stored = text stored
told_sar StoreResult.not_stored = text not_stored
told_sar _ = text invalid

abbrev pub told_swap : StoreResult → Answer
told_swap StoreResult.stored = text stored
told_swap StoreResult.not_stored = text abort
told_swap _ = text invalid

abbrev pub told_store : StoreResult → Answer
told_store StoreResult.stored = text stored
told_store StoreResult.exists = text exists
told_store StoreResult.not_found = text not_found
told_store StoreResult.not_stored = text not_stored
told_store StoreResult.store_error = text server_error

-- `req_type_t` as `_item_store` tells requests apart.
abbrev pub store_req : ReqType → Req
store_req ReqType.iqset = Req.iqset
store_req ReqType.set = Req.set
store_req ReqType.add = Req.add
store_req ReqType.replace = Req.replace
store_req ReqType.append = Req.append
store_req ReqType.prepend = Req.prepend
store_req ReqType.cas = Req.cas
store_req _ = Req.other

unfoldable pub join_iq : ℕ → List ℕ → (List ℕ → Update) → Monad.M Answer
join_iq a tid update = Monad.◌>>=◌ (Monad.load a) (λ it.
    Monad.◌>>=◌ (item_iqupdate tid it.key (update it.value))
      (λ r. Monad.pure (told_iq r.status r.pending (token_or_zero r.new_token))))

unfoldable pub join_oq : ℕ → List ℕ → (List ℕ → Update) → Monad.M Answer
join_oq a sid update = Monad.◌>>=◌ (Monad.load a) (λ it.
    Monad.◌>>=◌ (item_oqupdate sid it.key (update it.value)) (λ r. Monad.pure (told_joined r)))

abbrev pub after : {A : Type 0} → Monad.M A → (A → Answer) → Monad.M Answer
after m f = Monad.◌>>=◌ m (λ r. Monad.pure (f r))

-- The branches of `asc_complete_nread` on the type of the request.
unfoldable pub use_value : ReqType → ℕ → List ℕ → ℕ → Monad.M Answer
use_value ReqType.iqappend a tid token = join_iq a tid append
use_value ReqType.iqprepend a tid token = join_iq a tid prepend
use_value ReqType.oqappend a tid token = join_oq a tid append
use_value ReqType.oqprepend a tid token = join_oq a tid prepend
use_value ReqType.sar a tid token = after (swap_and_release a token) told_sar
use_value ReqType.oqswap a tid token = after (item_oqswap tid a) told_co
use_value ReqType.swap a tid token = after (item_swap a token) told_swap
use_value ReqType.oqwrite a tid token = after (item_oqwrite tid a) told_co
use_value type a tid token = after (item_store a (store_req type) token) told_store

-- `asc_complete_nread`, of `rlbytes` bytes that end, if all is well, in "\r\n".
unfoldable pub complete_nread : List ℕ → H (Unit {0})
complete_nread line = do
  it ← gets (λ w. w.item)
  type ← gets (λ w. w.req_type)
  tid ← gets (λ w. w.tid)
  token ← gets (λ w. w.lease_token)
  a ← item_of it
  let vlen = length line - 2
  lift (fill_item a (take vlen line))
  r ←
      (if key_eq (drop vlen line) (13 ∷ 10 ∷ [])
        then lift (use_value type a tid token)
        else pure (text client_error))
  lift (item_remove a)
  set_item none (pos 0)
  tell r
