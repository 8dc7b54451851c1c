-- ===== src/Ascii/Stale/Handlers.antt =====
-- Each handler of IQ-Twemcached/src/mc_ascii.c that calls `asc_check_config` refuses a request with
-- a stale configuration number.
use rejig.Prelude.{Bool, ℤ}
use rejig.Ascii.Numbers.{Libc}
use rejig.Ascii.Arguments.{Request}
use rejig.Ascii.Reads.{process_read, process_iqget, process_iset, process_qaread}
use rejig.Ascii.Updates.{process_update, process_sar, process_swap, process_iqappend_iqprepend}
use rejig.Ascii.Leases.{
  process_arithmetic, process_delete, process_unlease, process_qareg, process_dar,
  process_iqincr_iqdecr, process_oqincr_oqdecr, process_commit,
}
use rejig.Ascii.Stale.{Refuses}
use rejig.Ascii.Stale.Refused.{Says, Stale, refusals}

module _ {libc : Libc} {req : Request} {k n : ℤ} (says : Says libc req k) (stale : Stale k n) where
  pub Refuses-process_read : Refuses n (process_read libc req)
  unfolding process_read
  Refuses-process_read = search refusals depth 60 fits 5000

  pub Refuses-process_iqget : Refuses n (process_iqget libc req)
  unfolding process_iqget
  Refuses-process_iqget = search refusals depth 60 fits 5000

  pub Refuses-process_iset : Refuses n (process_iset libc req)
  unfolding process_iset
  Refuses-process_iset = search refusals depth 60 fits 5000

  pub Refuses-process_qaread : Refuses n (process_qaread libc req)
  unfolding process_qaread
  Refuses-process_qaread = search refusals depth 60 fits 5000

  pub Refuses-process_update : Refuses n (process_update libc req)
  unfolding process_update
  Refuses-process_update = search refusals depth 60 fits 5000

  pub Refuses-process_sar : Refuses n (process_sar libc req)
  unfolding process_sar
  Refuses-process_sar = search refusals depth 60 fits 5000

  pub Refuses-process_swap : Refuses n (process_swap libc req)
  unfolding process_swap
  Refuses-process_swap = search refusals depth 60 fits 5000

  pub Refuses-process_iqappend_iqprepend : Refuses n (process_iqappend_iqprepend libc req)
  unfolding process_iqappend_iqprepend
  Refuses-process_iqappend_iqprepend = search refusals depth 60 fits 5000

  pub Refuses-process_delete : Refuses n (process_delete libc req)
  unfolding process_delete
  Refuses-process_delete = search refusals depth 60 fits 5000

  pub Refuses-process_unlease : Refuses n (process_unlease libc req)
  unfolding process_unlease
  Refuses-process_unlease = search refusals depth 60 fits 5000

  pub Refuses-process_qareg : Refuses n (process_qareg libc req)
  unfolding process_qareg
  Refuses-process_qareg = search refusals depth 60 fits 5000

  pub Refuses-process_dar : Refuses n (process_dar libc req)
  unfolding process_dar
  Refuses-process_dar = search refusals depth 60 fits 5000

  pub Refuses-process_commit : Refuses n (process_commit libc req)
  unfolding process_commit
  Refuses-process_commit = search refusals depth 60 fits 5000

  pub Refuses-process_arithmetic : (incr : Bool) → Refuses n (process_arithmetic libc req incr)
  unfolding process_arithmetic
  Refuses-process_arithmetic incr = search refusals depth 60 fits 5000

  pub Refuses-process_iqincr_iqdecr :
      (incr : Bool) → Refuses n (process_iqincr_iqdecr libc req incr)
  unfolding process_iqincr_iqdecr
  Refuses-process_iqincr_iqdecr incr = search refusals depth 60 fits 5000

  pub Refuses-process_oqincr_oqdecr :
      (incr : Bool) → Refuses n (process_oqincr_oqdecr libc req incr)
  unfolding process_oqincr_oqdecr
  Refuses-process_oqincr_oqdecr incr = search refusals depth 60 fits 5000
