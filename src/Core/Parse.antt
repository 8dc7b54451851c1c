-- ===== src/Core/Parse.antt =====
-- A command in the bytes of a connection: `asc_parse` of IQ-Twemcached/src/mc_ascii.c.
use rejig.Prelude.{
  pos, ℕ, suc, ◌-◌, Bool, Option, none, some, List, [], ◌∷◌, ◌==◌, ltb, not, ◌&&◌, ◌||◌, length,
  drop, take, if◌then◌else◌, key_eq, get_elem?,
}
use rejig.Ascii.Numbers.{Libc}
use rejig.Ascii.Request.{codes}
use rejig.Ascii.Dispatch.{dispatch}
use rejig.Core.{Conn, ConnState}
use rejig.Core.Replied.{handled}

-- `memchr`
unfoldable pub memchr : ℕ → List ℕ → Option ℕ
memchr b [] = none
memchr b (c ∷ bytes) =
    let rest = memchr b bytes in
    if c == b then some 0 else elim rest [ none ↦ none | some n ↦ some (suc n) ]

-- The bytes of a string in C.
unfoldable pub c_string : List ℕ → List ℕ
c_string [] = []
c_string (c ∷ bytes) = let rest = c_string bytes in if c == 0 then [] else c ∷ rest

unfoldable pub leading_blanks : List ℕ → ℕ
leading_blanks [] = 0
leading_blanks (c ∷ bytes) = let n = leading_blanks bytes in if c == 32 then suc n else 0

-- `el`, before the '\r' if there is one.
unfoldable pub line_end : List ℕ → ℕ → ℕ
line_end rbuf el = elim (get_elem? rbuf (el - 1)) [
  | none ↦ el
  | some c ↦ if ltb 1 el && c == 13 then el - 1 else el
]

-- A buffer without a line that cannot be a get of many keys.
unfoldable pub is_bogus : List ℕ → Bool
is_bogus rbuf =
    let blanks = leading_blanks rbuf in
    let ptr = drop blanks rbuf in
    ltb 1024 (length rbuf)
    && (ltb 100 blanks
        || (not (key_eq (take 4 ptr) (codes "get ")) && not (key_eq (take 5 ptr) (codes "gets "))))

-- `asc_parse`, and `core_parse` around it.
unfoldable pub core_parse : Libc → Conn → Option Conn
core_parse libc c = elim (memchr 10 c.rbuf) [
  | none ↦ some (record c { state = if is_bogus c.rbuf then ConnState.close else ConnState.wait })
  | some el ↦
      let command = c_string (take (line_end c.rbuf el) c.rbuf) in
      elim (dispatch libc command (record c.world { sbytes = pos 0 })) [
        | none ↦ none
        | some (r, w) ↦ some (handled r w (record c { rbuf = drop (suc el) c.rbuf }))
      ]
]
