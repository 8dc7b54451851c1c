-- ===== src/Ascii/Keeps/Dispatching.antt =====
-- `asc_dispatch` of IQ-Twemcached/src/mc_ascii.c keeps the hash and the items in agreement.
use rejig.Prelude.{true, false, ℕ, List, ℤ, pos, negsuc}
use rejig.Items.Coherent.{ended, Keep, Coherent}
use rejig.Items.Coherent.Reached.{flush_all-Keep}
use rejig.Ascii.Numbers.{Libc}
use rejig.Ascii.Request.{ReqType}
use rejig.Ascii.Arguments.{Request}
use rejig.Ascii.Dispatch.{
  choose_evict_opt, set_evict_opt, process_update_configuration, process_flushall, process_evict,
  process_config, process, dispatch,
}
use rejig.Ascii.Keeps.{Keeps, Keeps-write, Keeps-finish, keeps_rules}
use rejig.Ascii.Keeps.Steps.{step_rules}
use rejig.Ascii.Keeps.Reading.{
  Keeps-process_read, Keeps-process_iqget, Keeps-process_iset, Keeps-process_ciget,
  Keeps-process_oqread, Keeps-process_qaread, Keeps-process_check,
}
use rejig.Ascii.Keeps.Updating.{
  Keeps-process_update, Keeps-process_sar, Keeps-process_swap, Keeps-process_session_value,
  Keeps-process_iqappend_iqprepend, Keeps-process_oqappend_oqprepend,
}
use rejig.Ascii.Keeps.Leasing.{
  Keeps-process_arithmetic, Keeps-process_delete, Keeps-process_unlease, Keeps-process_qareg,
  Keeps-process_dar, Keeps-process_iqincr_iqdecr, Keeps-process_oqincr_oqdecr, Keeps-process_commit,
  Keeps-process_release, Keeps-process_dcommit, Keeps-process_co_unlease, Keeps-process_oqreg,
  Keeps-process_validate, Keeps-process_ftrans,
}

set_evict_opt-Keep : (option : ℕ) → Keep (set_evict_opt option)
unfolding set_evict_opt Coherent
set_evict_opt-Keep option = record { call = λ c p. ended p }

Keeps-choose_evict_opt : (option : ℤ) → Keeps (choose_evict_opt option)
unfolding choose_evict_opt
Keeps-choose_evict_opt (pos option) = search (keeps_rules, set_evict_opt-Keep) depth 20
Keeps-choose_evict_opt (negsuc n) = Keeps-write _

module _ (libc : Libc) (req : Request) where
  Keeps-process_update_configuration : Keeps (process_update_configuration libc req)
  unfolding process_update_configuration
  Keeps-process_update_configuration = search step_rules depth 40

  Keeps-process_flushall : Keeps (process_flushall libc req)
  unfolding process_flushall
  Keeps-process_flushall = search (step_rules, flush_all-Keep) depth 40

  Keeps-process_evict : Keeps (process_evict libc req)
  unfolding process_evict
  Keeps-process_evict = search (step_rules, Keeps-choose_evict_opt) depth 40

  Keeps-process_config : Keeps (process_config libc req)
  unfolding process_config
  Keeps-process_config = search (step_rules, Keeps-process_evict) depth 40

  Keeps-process : (type : ReqType) → Keeps (process libc req type)
  unfolding process
  Keeps-process ReqType.update_config = Keeps-process_update_configuration
  Keeps-process ReqType.get = Keeps-process_read libc req
  Keeps-process ReqType.gets = Keeps-process_read libc req
  Keeps-process ReqType.ciget = Keeps-process_ciget libc req
  Keeps-process ReqType.iqget = Keeps-process_iqget libc req
  Keeps-process ReqType.iset = Keeps-process_iset libc req
  Keeps-process ReqType.iqset = Keeps-process_update libc req
  Keeps-process ReqType.set = Keeps-process_update libc req
  Keeps-process ReqType.add = Keeps-process_update libc req
  Keeps-process ReqType.replace = Keeps-process_update libc req
  Keeps-process ReqType.append = Keeps-process_update libc req
  Keeps-process ReqType.prepend = Keeps-process_update libc req
  Keeps-process ReqType.cas = Keeps-process_update libc req
  Keeps-process ReqType.incr = Keeps-process_arithmetic libc req true
  Keeps-process ReqType.decr = Keeps-process_arithmetic libc req false
  Keeps-process ReqType.delete = Keeps-process_delete libc req
  Keeps-process ReqType.oqread = Keeps-process_oqread libc req
  Keeps-process ReqType.oqswap = Keeps-process_session_value libc req
  Keeps-process ReqType.swap = Keeps-process_swap libc req
  Keeps-process ReqType.oqwrite = Keeps-process_session_value libc req
  Keeps-process ReqType.validate = Keeps-process_validate libc req
  Keeps-process ReqType.stats = Keeps-finish _
  Keeps-process ReqType.flush_all = Keeps-process_flushall
  Keeps-process ReqType.version = Keeps-write _
  Keeps-process ReqType.quit = Keeps-finish _
  Keeps-process ReqType.verbosity = Keeps-finish _
  Keeps-process ReqType.config = Keeps-process_config
  Keeps-process ReqType.unlease = Keeps-process_unlease libc req
  Keeps-process ReqType.co_unlease = Keeps-process_co_unlease libc req
  Keeps-process ReqType.oqreg = Keeps-process_oqreg libc req
  Keeps-process ReqType.dcommit = Keeps-process_dcommit libc req
  Keeps-process ReqType.qareg = Keeps-process_qareg libc req
  Keeps-process ReqType.dar = Keeps-process_dar libc req
  Keeps-process ReqType.qaread = Keeps-process_qaread libc req
  Keeps-process ReqType.sar = Keeps-process_sar libc req
  Keeps-process ReqType.iqappend = Keeps-process_iqappend_iqprepend libc req
  Keeps-process ReqType.iqprepend = Keeps-process_iqappend_iqprepend libc req
  Keeps-process ReqType.iqincr = Keeps-process_iqincr_iqdecr libc req true
  Keeps-process ReqType.iqdecr = Keeps-process_iqincr_iqdecr libc req false
  Keeps-process ReqType.oqappend = Keeps-process_oqappend_oqprepend libc req
  Keeps-process ReqType.oqprepend = Keeps-process_oqappend_oqprepend libc req
  Keeps-process ReqType.oqincr = Keeps-process_oqincr_oqdecr libc req true
  Keeps-process ReqType.oqdecr = Keeps-process_oqincr_oqdecr libc req false
  Keeps-process ReqType.commit = Keeps-process_commit libc req
  Keeps-process ReqType.release = Keeps-process_release libc req
  Keeps-process ReqType.check = Keeps-process_check libc req
  Keeps-process ReqType.ftrans = Keeps-process_ftrans libc req
  Keeps-process ReqType.getprik = Keeps-write _
  Keeps-process ReqType.unknown = Keeps-write _

pub Keeps-dispatch : (libc : Libc) (command : List ℕ) → Keeps (dispatch libc command)
unfolding dispatch Coherent
Keeps-dispatch libc command = record {
  at = λ w w' r h e. (Keeps-process libc _ _).at (record w { req_type = _ }) w' r h e;
}
