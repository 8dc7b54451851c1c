-- ===== src/Ascii/Dispatch.antt =====
-- `asc_dispatch` of IQ-Twemcached/src/mc_ascii.c, with the requests for the server itself:
-- updateconf, flush_all, config evict, version and quit.
use rejig.Prelude.{
  ◌||◌, ℕ, zero, ◌+◌, ◌-◌, ◌%◌, ◌^◌, Bool, true, false, not, some, List, ◌==◌, ltb, length, take,
  if◌then◌else◌, ℤ, pos, negsuc, key_eq,
}
use rejig.Items.Monad
use rejig.Items.{Cache}
use rejig.Items.Reach.{flush_all}
use rejig.Time.{reltime}
use rejig.Ascii.{tokenize, token_max}
use rejig.Ascii.Numbers.{Libc}
use rejig.Ascii.Request.{ReqType, codes, parse_type, ntoken_bound}
use rejig.Ascii.Server.{
  client_error, ok, version, close, elsewhere, silent, H, ◌>>=◌, ◌>>◌, pure, finish, write, gets,
  lift, expect, set_configuration_number,
}
use rejig.Ascii.Arguments.{Request, ntoken, text_at, start, int32_at}
use rejig.Ascii.Reads.{
  process_read, process_iqget, process_iset, process_ciget, process_oqread, process_qaread,
  process_check,
}
use rejig.Ascii.Updates.{
  process_update, process_sar, process_swap, process_session_value, process_iqappend_iqprepend,
  process_oqappend_oqprepend,
}
use rejig.Ascii.Leases.{
  process_arithmetic, process_delete, process_unlease, process_qareg, process_dar,
  process_iqincr_iqdecr, process_oqincr_oqdecr, process_commit, process_release, process_dcommit,
  process_co_unlease, process_oqreg, process_validate, process_ftrans,
}

-- `time_now() - 1`, a uint32_t.
abbrev pub before : ℕ → ℕ
before now = (now + 2 ^ 32 - 1) % 2 ^ 32

-- `settings.oldest_live` for a delay; 0 and below are now.
unfoldable pub oldest_for : ℤ → Cache → ℕ
oldest_for (pos zero) c = before c.now
oldest_for (pos n) c = before (reltime c.settings.process_started c.now (pos n))
oldest_for (negsuc n) c = before c.now

-- Eviction by `settings.evict_opt`, of which EVICT_LRU is the lowest bit.
unfoldable pub set_evict_opt : ℕ → Monad.M (Unit {0})
set_evict_opt option c = some (
  tt,
  record c {
    settings = record c.settings { evict_lru = option % 2 == 1; evict_any = not (option == 0) };
  },
)

-- `EVICT_INVALID`
abbrev pub evict_invalid : ℕ
evict_invalid = 16

unfoldable pub choose_evict_opt : ℤ → H (Unit {0})
choose_evict_opt (pos option) =
    if ltb option evict_invalid
    then (lift (set_evict_opt option) >> write ok)
    else write client_error
choose_evict_opt (negsuc n) = write client_error

-- `strncmp(t->val, name, t->len) == 0`
abbrev pub is_prefix : List ℕ → List ℕ → Bool
is_prefix text name = key_eq text (take (length text) name)

module _ (libc : Libc) (req : Request) where
  -- `asc_process_update_configuration`
  unfoldable pub process_update_configuration : H (Unit {0})
  process_update_configuration = do
    start req
    new_configuration_number ← int32_at libc req 1
    set_configuration_number new_configuration_number
    write ok

  -- `asc_process_flushall`
  unfoldable pub process_flushall : H (Unit {0})
  unfolding ntoken_bound oldest_for
  process_flushall = do
    start req
    noreply ← gets (λ w. w.noreply)
    delay ←
        (if ntoken req == (ntoken_bound ReqType.flush_all noreply).min
          then pure (pos 0)
          else int32_at libc req 2)
    oldest_live ← gets (λ w. oldest_for delay w.cache)
    lift (flush_all oldest_live)
    write ok

  -- `asc_process_evict`
  unfoldable pub process_evict : H (Unit {0})
  process_evict = do
    expect (ntoken req == 4) client_error
    option ← int32_at libc req 3
    choose_evict_opt option

  -- `asc_process_config`. The arms for logging are not modelled.
  unfoldable pub process_config : H (Unit {0})
  process_config = do
    t ← text_at req 2
    (if is_prefix t (codes "aggregate") || is_prefix t (codes "klog")
        then finish elsewhere
        else (if is_prefix t (codes "evict") then process_evict else finish silent))

  -- The switch of `asc_dispatch`. `getprik` has no arm.
  unfoldable pub process : ReqType → H (Unit {0})
  process ReqType.update_config = process_update_configuration
  process ReqType.get = process_read libc req
  process ReqType.gets = process_read libc req
  process ReqType.ciget = process_ciget libc req
  process ReqType.iqget = process_iqget libc req
  process ReqType.iset = process_iset libc req
  process ReqType.iqset = process_update libc req
  process ReqType.set = process_update libc req
  process ReqType.add = process_update libc req
  process ReqType.replace = process_update libc req
  process ReqType.append = process_update libc req
  process ReqType.prepend = process_update libc req
  process ReqType.cas = process_update libc req
  process ReqType.incr = process_arithmetic libc req true
  process ReqType.decr = process_arithmetic libc req false
  process ReqType.delete = process_delete libc req
  process ReqType.oqread = process_oqread libc req
  process ReqType.oqswap = process_session_value libc req
  process ReqType.swap = process_swap libc req
  process ReqType.oqwrite = process_session_value libc req
  process ReqType.validate = process_validate libc req
  process ReqType.stats = finish elsewhere
  process ReqType.flush_all = process_flushall
  process ReqType.version = write version
  process ReqType.quit = finish close
  process ReqType.verbosity = finish elsewhere
  process ReqType.config = process_config
  process ReqType.unlease = process_unlease libc req
  process ReqType.co_unlease = process_co_unlease libc req
  process ReqType.oqreg = process_oqreg libc req
  process ReqType.dcommit = process_dcommit libc req
  process ReqType.qareg = process_qareg libc req
  process ReqType.dar = process_dar libc req
  process ReqType.qaread = process_qaread libc req
  process ReqType.sar = process_sar libc req
  process ReqType.iqappend = process_iqappend_iqprepend libc req
  process ReqType.iqprepend = process_iqappend_iqprepend libc req
  process ReqType.iqincr = process_iqincr_iqdecr libc req true
  process ReqType.iqdecr = process_iqincr_iqdecr libc req false
  process ReqType.oqappend = process_oqappend_oqprepend libc req
  process ReqType.oqprepend = process_oqappend_oqprepend libc req
  process ReqType.oqincr = process_oqincr_oqdecr libc req true
  process ReqType.oqdecr = process_oqincr_oqdecr libc req false
  process ReqType.commit = process_commit libc req
  process ReqType.release = process_release libc req
  process ReqType.check = process_check libc req
  process ReqType.ftrans = process_ftrans libc req
  process ReqType.getprik = write client_error
  process ReqType.unknown = write client_error

-- `asc_dispatch`
unfoldable pub dispatch : Libc → List ℕ → H (Unit {0})
unfolding parse_type tokenize process
dispatch libc command w =
    let ts = tokenize command token_max in
    let type = parse_type command ts in
    process libc (record { command = command; tokens = ts }) type (record w { req_type = type })
