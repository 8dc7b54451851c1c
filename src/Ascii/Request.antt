-- ===== src/Ascii/Request.antt =====
-- The types of requests: `req_type_t` and the bounds on their tokens (`REQ_CODEC`) of
-- IQ-Twemcached/src/mc_core.h, and `asc_parse_type` of mc_ascii.c.
use Prim.Native.Char.{code}
use Prim.Native.String.{String}
use rejig.Prelude.{
  ℕ, ◌-◌, ◌^◌, Bool, true, false, ◌&&◌, List, [], ◌∷◌, ◌==◌, leb, drop, if◌then◌else◌,
}
use rejig.Ascii.{Tokens}

pub data ReqType : Type 0 where
  unknown iqset set add replace append prepend cas iqget get gets incr decr delete quit stats config
        version flush_all verbosity unlease qareg dar qaread sar iqappend iqprepend iqincr iqdecr
        commit release ciget co_unlease oqreg dcommit check ftrans getprik oqread oqswap swap
        validate oqappend oqprepend oqincr oqdecr oqwrite update_config iset :
      ReqType

abbrev pub codes : String → List ℕ
codes String.[] = []
codes (String.◌∷◌ c s) = code c ∷ codes s

-- `INT_MAX`
abbrev pub int_max : ℕ
int_max = 2 ^ 31 - 1

-- The least and the greatest number of tokens, with the terminal one.
pub record Bound : Type 0 where
  pub min : ℕ
  pub max : ℕ

abbrev bound : ℕ → ℕ → ℕ → ℕ → Bool → Bound
bound min max nmin nmax false = record { min = min; max = max }
bound min max nmin nmax true = record { min = nmin; max = nmax }

-- `ntoken_bound`, without and with `noreply`.
unfoldable pub ntoken_bound : ReqType → Bool → Bound
ntoken_bound ReqType.unknown = bound 0 0 0 0
ntoken_bound ReqType.iqset = bound 9 9 11 11
ntoken_bound ReqType.set = bound 8 8 9 9
ntoken_bound ReqType.add = bound 8 8 9 9
ntoken_bound ReqType.replace = bound 7 7 8 8
ntoken_bound ReqType.append = bound 7 7 8 8
ntoken_bound ReqType.prepend = bound 7 7 8 8
ntoken_bound ReqType.cas = bound 9 9 11 11
ntoken_bound ReqType.iqget = bound 5 int_max 5 int_max
ntoken_bound ReqType.get = bound 4 int_max 43 int_max
ntoken_bound ReqType.gets = bound 4 int_max 4 int_max
ntoken_bound ReqType.incr = bound 5 5 6 6
ntoken_bound ReqType.decr = bound 5 5 6 6
ntoken_bound ReqType.delete = bound 4 int_max 4 int_max
ntoken_bound ReqType.quit = bound 2 2 2 2
ntoken_bound ReqType.stats = bound 2 5 2 5
ntoken_bound ReqType.config = bound 3 5 3 5
ntoken_bound ReqType.version = bound 2 2 2 2
ntoken_bound ReqType.flush_all = bound 2 3 3 4
ntoken_bound ReqType.verbosity = bound 4 4 3 4
ntoken_bound ReqType.unlease = bound 5 5 6 6
ntoken_bound ReqType.qareg = bound 5 5 6 6
ntoken_bound ReqType.dar = bound 4 4 5 5
ntoken_bound ReqType.qaread = bound 5 7 5 7
ntoken_bound ReqType.sar = bound 8 8 9 9
ntoken_bound ReqType.iqappend = bound 6 6 7 7
ntoken_bound ReqType.iqprepend = bound 6 5 6 6
ntoken_bound ReqType.iqincr = bound 6 6 7 7
ntoken_bound ReqType.iqdecr = bound 6 6 7 7
ntoken_bound ReqType.commit = bound 5 7 8 8
ntoken_bound ReqType.release = bound 4 4 5 5
ntoken_bound ReqType.ciget = bound 5 int_max 5 int_max
ntoken_bound ReqType.co_unlease = bound 3 4 3 4
ntoken_bound ReqType.oqreg = bound 5 5 5 5
ntoken_bound ReqType.dcommit = bound 3 3 3 4
ntoken_bound ReqType.check = bound 4 int_max 4 int_max
ntoken_bound ReqType.ftrans = bound 4 int_max 4 int_max
ntoken_bound ReqType.getprik = bound 3 2 3 3
ntoken_bound ReqType.oqread = bound 3 5 4 6
ntoken_bound ReqType.oqswap = bound 7 7 8 8
ntoken_bound ReqType.swap = bound 9 9 10 10
ntoken_bound ReqType.validate = bound 3 5 4 6
ntoken_bound ReqType.oqappend = bound 5 5 6 6
ntoken_bound ReqType.oqprepend = bound 5 5 6 6
ntoken_bound ReqType.oqincr = bound 5 5 6 6
ntoken_bound ReqType.oqdecr = bound 5 5 6 6
ntoken_bound ReqType.oqwrite = bound 7 7 8 8
ntoken_bound ReqType.update_config = bound 3 int_max 3 int_max
ntoken_bound ReqType.iset = bound 4 int_max 4 int_max

-- `asc_ntoken_valid`
unfoldable pub ntoken_valid : ReqType → Bool → ℕ → Bool
unfolding ntoken_bound
ntoken_valid req_type noreply ntoken =
    let b = ntoken_bound req_type noreply in leb b.min ntoken && leb ntoken b.max

-- `str4cmp` and its kin: the text starts with these bytes.
unfoldable pub strcmp : List ℕ → List ℕ → Bool
strcmp str [] = true
strcmp [] (c ∷ cs) = false
strcmp (d ∷ str) (c ∷ cs) = d == c && strcmp str cs

-- The arms of the switch on the length of the command, in the order of the source.
abbrev pub arms : List (ℕ × List ℕ × ReqType)
arms =
    (3, codes "get ", ReqType.get)
    ∷ (3, codes "set ", ReqType.set)
    ∷ (3, codes "add ", ReqType.add)
    ∷ (3, codes "cas ", ReqType.cas)
    ∷ (3, codes "dar ", ReqType.dar)
    ∷ (3, codes "sar ", ReqType.sar)
    ∷ (4, codes "gets", ReqType.gets)
    ∷ (4, codes "incr", ReqType.incr)
    ∷ (4, codes "decr", ReqType.decr)
    ∷ (4, codes "quit", ReqType.quit)
    ∷ (4, codes "swap", ReqType.swap)
    ∷ (4, codes "iset", ReqType.iset)
    ∷ (5, codes "iqget", ReqType.iqget)
    ∷ (5, codes "iqset", ReqType.iqset)
    ∷ (5, codes "stats", ReqType.stats)
    ∷ (5, codes "qareg", ReqType.qareg)
    ∷ (5, codes "ciget", ReqType.ciget)
    ∷ (5, codes "oqreg", ReqType.oqreg)
    ∷ (5, codes "check", ReqType.check)
    ∷ (6, codes "append", ReqType.append)
    ∷ (6, codes "delete", ReqType.delete)
    ∷ (6, codes "config", ReqType.config)
    ∷ (6, codes "qaread", ReqType.qaread)
    ∷ (6, codes "iqincr", ReqType.iqincr)
    ∷ (6, codes "iqdecr", ReqType.iqdecr)
    ∷ (6, codes "commit", ReqType.commit)
    ∷ (6, codes "ftrans", ReqType.ftrans)
    ∷ (6, codes "oqread", ReqType.oqread)
    ∷ (6, codes "oqswap", ReqType.oqswap)
    ∷ (6, codes "oqincr", ReqType.oqincr)
    ∷ (6, codes "oqdecr", ReqType.oqdecr)
    ∷ (7, codes "replace ", ReqType.replace)
    ∷ (7, codes "prepend ", ReqType.prepend)
    ∷ (7, codes "version", ReqType.version)
    ∷ (7, codes "unlease", ReqType.unlease)
    ∷ (7, codes "release", ReqType.release)
    ∷ (7, codes "dcommit", ReqType.dcommit)
    ∷ (7, codes "getprik", ReqType.getprik)
    ∷ (7, codes "oqwrite", ReqType.oqwrite)
    ∷ (8, codes "iqappend", ReqType.iqappend)
    ∷ (8, codes "validate", ReqType.validate)
    ∷ (8, codes "oqappend", ReqType.oqappend)
    ∷ (9, codes "flush_all", ReqType.flush_all)
    ∷ (9, codes "verbosity", ReqType.verbosity)
    ∷ (9, codes "iqprepend", ReqType.iqprepend)
    ∷ (9, codes "counlease", ReqType.co_unlease)
    ∷ (9, codes "oqprepend", ReqType.oqprepend)
    ∷ (10, codes "updateconf", ReqType.update_config)
    ∷ []

-- The first arm that fits the length and the bytes.
unfoldable pub choose_arm : List (ℕ × List ℕ × ReqType) → ℕ → List ℕ → ReqType
choose_arm [] tlen tval = ReqType.unknown
choose_arm ((len, chars, type) ∷ rest) tlen tval =
    if tlen == len && strcmp tval chars then type else choose_arm rest tlen tval

-- `asc_parse_type`: a command has a token beside the terminal one.
unfoldable pub parse_type : List ℕ → Tokens → ReqType
unfolding choose_arm strcmp
parse_type command ts = elim ts.tokens [
  | [] ↦ ReqType.unknown
  | t ∷ rest ↦ choose_arm arms t.len (drop t.val command)
]
