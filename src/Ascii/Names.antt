-- ===== src/Ascii/Names.antt =====
-- The names of commands: `asc_parse_type` of IQ-Twemcached/src/mc_ascii.c.
use rejig.Prelude.{ℕ, Bool, true, false, List, [], ◌∷◌, ◌++◌, ◌≡◌, refl, false-true}
use rejig.Ascii.{tokenize, tokenize_loop, token_max}
use rejig.Ascii.Request.{ReqType, codes, strcmp, choose_arm, parse_type}

-- How the protocol spells a command.
abbrev pub name_of : ReqType → List ℕ
name_of ReqType.get = codes "get"
name_of ReqType.set = codes "set"
name_of ReqType.add = codes "add"
name_of ReqType.cas = codes "cas"
name_of ReqType.dar = codes "dar"
name_of ReqType.sar = codes "sar"
name_of ReqType.gets = codes "gets"
name_of ReqType.incr = codes "incr"
name_of ReqType.decr = codes "decr"
name_of ReqType.quit = codes "quit"
name_of ReqType.swap = codes "swap"
name_of ReqType.iset = codes "iset"
name_of ReqType.iqget = codes "iqget"
name_of ReqType.iqset = codes "iqset"
name_of ReqType.stats = codes "stats"
name_of ReqType.qareg = codes "qareg"
name_of ReqType.ciget = codes "ciget"
name_of ReqType.oqreg = codes "oqreg"
name_of ReqType.check = codes "check"
name_of ReqType.append = codes "append"
name_of ReqType.delete = codes "delete"
name_of ReqType.config = codes "config"
name_of ReqType.qaread = codes "qaread"
name_of ReqType.iqincr = codes "iqincr"
name_of ReqType.iqdecr = codes "iqdecr"
name_of ReqType.commit = codes "commit"
name_of ReqType.ftrans = codes "ftrans"
name_of ReqType.oqread = codes "oqread"
name_of ReqType.oqswap = codes "oqswap"
name_of ReqType.oqincr = codes "oqincr"
name_of ReqType.oqdecr = codes "oqdecr"
name_of ReqType.replace = codes "replace"
name_of ReqType.prepend = codes "prepend"
name_of ReqType.version = codes "version"
name_of ReqType.unlease = codes "unlease"
name_of ReqType.release = codes "release"
name_of ReqType.dcommit = codes "dcommit"
name_of ReqType.getprik = codes "getprik"
name_of ReqType.oqwrite = codes "oqwrite"
name_of ReqType.iqappend = codes "iqappend"
name_of ReqType.validate = codes "validate"
name_of ReqType.oqappend = codes "oqappend"
name_of ReqType.flush_all = codes "flush_all"
name_of ReqType.verbosity = codes "verbosity"
name_of ReqType.iqprepend = codes "iqprepend"
name_of ReqType.co_unlease = codes "counlease"
name_of ReqType.oqprepend = codes "oqprepend"
name_of ReqType.update_config = codes "updateconf"
name_of ReqType.unknown = []

abbrev pub is_known : ReqType → Bool
is_known ReqType.unknown = false
is_known _ = true

-- A text that starts with the name of a command and a blank is read as a request of that type,
-- whatever follows.
pub parse_type-name_of :
    (type : ReqType) (more : List ℕ)
    → is_known type ≡ true
    → (let command = name_of type ++ 32 ∷ more in parse_type command (tokenize command token_max))
      ≡ type
unfolding parse_type choose_arm strcmp tokenize tokenize_loop
parse_type-name_of ReqType.get more h = refl
parse_type-name_of ReqType.set more h = refl
parse_type-name_of ReqType.add more h = refl
parse_type-name_of ReqType.cas more h = refl
parse_type-name_of ReqType.dar more h = refl
parse_type-name_of ReqType.sar more h = refl
parse_type-name_of ReqType.gets more h = refl
parse_type-name_of ReqType.incr more h = refl
parse_type-name_of ReqType.decr more h = refl
parse_type-name_of ReqType.quit more h = refl
parse_type-name_of ReqType.swap more h = refl
parse_type-name_of ReqType.iset more h = refl
parse_type-name_of ReqType.iqget more h = refl
parse_type-name_of ReqType.iqset more h = refl
parse_type-name_of ReqType.stats more h = refl
parse_type-name_of ReqType.qareg more h = refl
parse_type-name_of ReqType.ciget more h = refl
parse_type-name_of ReqType.oqreg more h = refl
parse_type-name_of ReqType.check more h = refl
parse_type-name_of ReqType.append more h = refl
parse_type-name_of ReqType.delete more h = refl
parse_type-name_of ReqType.config more h = refl
parse_type-name_of ReqType.qaread more h = refl
parse_type-name_of ReqType.iqincr more h = refl
parse_type-name_of ReqType.iqdecr more h = refl
parse_type-name_of ReqType.commit more h = refl
parse_type-name_of ReqType.ftrans more h = refl
parse_type-name_of ReqType.oqread more h = refl
parse_type-name_of ReqType.oqswap more h = refl
parse_type-name_of ReqType.oqincr more h = refl
parse_type-name_of ReqType.oqdecr more h = refl
parse_type-name_of ReqType.replace more h = refl
parse_type-name_of ReqType.prepend more h = refl
parse_type-name_of ReqType.version more h = refl
parse_type-name_of ReqType.unlease more h = refl
parse_type-name_of ReqType.release more h = refl
parse_type-name_of ReqType.dcommit more h = refl
parse_type-name_of ReqType.getprik more h = refl
parse_type-name_of ReqType.oqwrite more h = refl
parse_type-name_of ReqType.iqappend more h = refl
parse_type-name_of ReqType.validate more h = refl
parse_type-name_of ReqType.oqappend more h = refl
parse_type-name_of ReqType.flush_all more h = refl
parse_type-name_of ReqType.verbosity more h = refl
parse_type-name_of ReqType.iqprepend more h = refl
parse_type-name_of ReqType.co_unlease more h = refl
parse_type-name_of ReqType.oqprepend more h = refl
parse_type-name_of ReqType.update_config more h = refl
parse_type-name_of ReqType.unknown more h = absurd (false-true h)
