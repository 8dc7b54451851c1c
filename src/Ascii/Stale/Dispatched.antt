-- ===== src/Ascii/Stale/Dispatched.antt =====
-- `asc_dispatch` of IQ-Twemcached/src/mc_ascii.c refuses requests with a stale configuration
-- number.
use rejig.Prelude.{refl, ℕ, Bool, true, false, some, List, ℤ, ◌≡◌, false-true}
use rejig.Ascii.{tokenize, token_max}
use rejig.Ascii.Numbers.{Libc}
use rejig.Ascii.Request.{ReqType, parse_type}
use rejig.Ascii.Server.{World, Out}
use rejig.Ascii.Arguments.{Request}
use rejig.Ascii.Dispatch.{process, dispatch}
use rejig.Ascii.Stale.{Same, Must, Refuses}
use rejig.Ascii.Stale.Refused.{Says, Stale}
use rejig.Ascii.Stale.Handlers.{
  Refuses-process_arithmetic, Refuses-process_commit, Refuses-process_dar, Refuses-process_delete,
  Refuses-process_iqappend_iqprepend, Refuses-process_iqget, Refuses-process_iqincr_iqdecr,
  Refuses-process_iset, Refuses-process_oqincr_oqdecr, Refuses-process_qaread,
  Refuses-process_qareg, Refuses-process_read, Refuses-process_sar, Refuses-process_swap,
  Refuses-process_unlease, Refuses-process_update,
}

-- The requests with the number of the client's configuration.
abbrev pub checks_config : ReqType → Bool
checks_config ReqType.get = true
checks_config ReqType.gets = true
checks_config ReqType.iqget = true
checks_config ReqType.iset = true
checks_config ReqType.qaread = true
checks_config ReqType.iqset = true
checks_config ReqType.set = true
checks_config ReqType.add = true
checks_config ReqType.replace = true
checks_config ReqType.append = true
checks_config ReqType.prepend = true
checks_config ReqType.cas = true
checks_config ReqType.incr = true
checks_config ReqType.decr = true
checks_config ReqType.delete = true
checks_config ReqType.swap = true
checks_config ReqType.unlease = true
checks_config ReqType.qareg = true
checks_config ReqType.dar = true
checks_config ReqType.sar = true
checks_config ReqType.iqappend = true
checks_config ReqType.iqprepend = true
checks_config ReqType.iqincr = true
checks_config ReqType.iqdecr = true
checks_config ReqType.oqincr = true
checks_config ReqType.oqdecr = true
checks_config ReqType.commit = true
checks_config _ = false

Refuses-process :
    {libc : Libc} {req : Request} {k n : ℤ} (type : ReqType)
    → Says libc req k
    → Stale k n
    → checks_config type ≡ true
    → Refuses n (process libc req type)
unfolding process
Refuses-process ReqType.get s t h = Refuses-process_read s t
Refuses-process ReqType.gets s t h = Refuses-process_read s t
Refuses-process ReqType.iqget s t h = Refuses-process_iqget s t
Refuses-process ReqType.iset s t h = Refuses-process_iset s t
Refuses-process ReqType.qaread s t h = Refuses-process_qaread s t
Refuses-process ReqType.iqset s t h = Refuses-process_update s t
Refuses-process ReqType.set s t h = Refuses-process_update s t
Refuses-process ReqType.add s t h = Refuses-process_update s t
Refuses-process ReqType.replace s t h = Refuses-process_update s t
Refuses-process ReqType.append s t h = Refuses-process_update s t
Refuses-process ReqType.prepend s t h = Refuses-process_update s t
Refuses-process ReqType.cas s t h = Refuses-process_update s t
Refuses-process ReqType.incr s t h = Refuses-process_arithmetic s t true
Refuses-process ReqType.decr s t h = Refuses-process_arithmetic s t false
Refuses-process ReqType.delete s t h = Refuses-process_delete s t
Refuses-process ReqType.swap s t h = Refuses-process_swap s t
Refuses-process ReqType.unlease s t h = Refuses-process_unlease s t
Refuses-process ReqType.qareg s t h = Refuses-process_qareg s t
Refuses-process ReqType.dar s t h = Refuses-process_dar s t
Refuses-process ReqType.sar s t h = Refuses-process_sar s t
Refuses-process ReqType.iqappend s t h = Refuses-process_iqappend_iqprepend s t
Refuses-process ReqType.iqprepend s t h = Refuses-process_iqappend_iqprepend s t
Refuses-process ReqType.iqincr s t h = Refuses-process_iqincr_iqdecr s t true
Refuses-process ReqType.iqdecr s t h = Refuses-process_iqincr_iqdecr s t false
Refuses-process ReqType.oqincr s t h = Refuses-process_oqincr_oqdecr s t true
Refuses-process ReqType.oqdecr s t h = Refuses-process_oqincr_oqdecr s t false
Refuses-process ReqType.commit s t h = Refuses-process_commit s t
Refuses-process _ s t h = absurd (false-true h)

-- The request of a command.
abbrev pub request_of : List ℕ → Request
request_of command = record { command = command; tokens = tokenize command token_max }

-- A request of a type that carries the number of its client's configuration, whose second token
-- is a number that is not -1 and not the number of the server, has no effect: if its dispatch
-- ends, the cache and the configuration are as they were, and the answer is FAIL, CLIENT_ERROR,
-- or nothing where the request wants no reply.
pub dispatch-Stale :
    (libc : Libc) (command : List ℕ) (k : ℤ) (w w' : World) (r : Out (Unit {0}))
    → checks_config (parse_type command (tokenize command token_max)) ≡ true
    → Says libc (request_of command) k
    → Stale k w.configuration_number
    → dispatch libc command w ≡ some (r, w')
    → Same w w' × Must r
unfolding dispatch
dispatch-Stale libc command k w w' r h says stale e =
    let type = parse_type command (tokenize command token_max) in
    let result =
      (Refuses-process type says stale h).at (record w { req_type = type }) w' r refl e in
    (
      record { cache = result.0.cache; configuration_number = result.0.configuration_number },
      result.1,
    )
