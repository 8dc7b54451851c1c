-- ===== src/Core/Framing.antt =====
-- What of the bytes of a connection is a command, and what is a value: `asc_parse` of
-- IQ-Twemcached/src/mc_ascii.c and the arm CONN_NREAD of `core_drive_machine` of mc_core.c.
use rejig.Prelude.{
  pos, inr, none-some, inl, ◌∙◌, Option-cases, append_assoc, length-append, ap, zero, take,
  append-nil, ◌+◌, lt→ltb, arith, take-append_length, map, get_elem?, ℕ, suc, ◌-◌, true, false,
  Option, none, some, List, [], ◌∷◌, ◌++◌, ◌==◌, ◌≡◌, refl, ltb, length, drop,
}
use mathlib.Core.Option.{some-injective}
use rejig.Ascii.Numbers.{Libc}
use rejig.Ascii.Server.{World, Out}
use rejig.Ascii.Dispatch.{dispatch}
use rejig.Core.{ConnState, Conn, Got, Sent, Net}
use rejig.Core.Replied.{handled}
use rejig.Core.Parse.{memchr, c_string, line_end, core_parse}
use rejig.Core.Drive.{
  core_complete_nread, take_leftovers, read_item, core_nread, nread_arm, arm, drive,
}

-- Bytes of a command: no end of a line, no end of a string.
unfoldable pub Plain : List ℕ → Type 0
Plain [] = Unit
Plain (c ∷ bytes) = (c == 10 ≡ false) × ((c == 0 ≡ false) × Plain bytes)

memchr-line :
    (command rest : List ℕ)
    → Plain command
    → memchr 10 (command ++ 13 ∷ 10 ∷ rest) ≡ some (suc (length command))
unfolding memchr Plain
memchr-line [] rest p = refl
memchr-line (c ∷ command) rest p = rw (memchr, p.0, memchr-line command rest p.1.1) refl

c_string-Plain : (command : List ℕ) → Plain command → c_string command ≡ command
unfolding c_string Plain
c_string-Plain [] p = refl
c_string-Plain (c ∷ command) p = rw (c_string, p.1.0, c_string-Plain command p.1.1) refl

drop-line :
    (command rest : List ℕ) → drop (suc (suc (length command))) (command ++ 13 ∷ 10 ∷ rest) ≡ rest
drop-line [] rest = refl
drop-line (c ∷ command) rest = drop-line command rest

get-line : (command rest : List ℕ) → get_elem? (command ++ 13 ∷ rest) (length command) ≡ some 13
get-line [] rest = refl
get-line (c ∷ command) rest = get-line command rest

-- The end of a line that ends in "\r\n" is before the '\r'.
line_end-line :
    (c : ℕ) (command rest : List ℕ)
    → line_end ((c ∷ command) ++ 13 ∷ 10 ∷ rest) (suc (suc (length command))) ≡ suc (length command)
unfolding line_end
line_end-line c command rest =
    rw
      (
        line_end,
        suc-sub (suc (length command)),
        get-line command (10 ∷ rest),
        two (length command),
        suc-sub (suc (length command)),
      )
      refl
  where
    suc-sub : (n : ℕ) → suc n - 1 ≡ n
    suc-sub n = omega arith

    two : (n : ℕ) → ltb 1 (suc (suc n)) ≡ true
    two n = lt→ltb 1 (suc (suc n)) (omega arith)

-- A buffer that holds a command, of one byte at least and none of them the end of a line or of a
-- string, then CR and LF and anything else, is parsed by the dispatch of that command, where this
-- ends, and the bytes behind the line stay for what comes next.
pub core_parse-line :
    (libc : Libc) (c : Conn) (b : ℕ) (command rest : List ℕ) (r : Out (Unit {0})) (w : World)
    → Plain (b ∷ command)
    → dispatch libc (b ∷ command) (record c.world { sbytes = pos 0 }) ≡ some (r, w)
    → core_parse libc (record c { rbuf = (b ∷ command) ++ 13 ∷ 10 ∷ rest })
      ≡ some (handled r w (record c { rbuf = rest }))
unfolding core_parse
core_parse-line libc c b command rest r w p d =
    rw
      (
        core_parse,
        memchr-line (b ∷ command) rest p,
        line_end-line b command rest,
        take-append_length (b ∷ command) (13 ∷ 10 ∷ rest),
        c_string-Plain (b ∷ command) p,
        d,
        drop-line (b ∷ command) rest,
      )
      refl

-- Rounds of one connection after another.
unfoldable pub drives : Libc → List Net → Conn → Option Conn
drives libc [] c = some c
drives libc (net ∷ nets) c = elim (drive libc net c) [ none ↦ none | some d ↦ drives libc nets d ]

-- What the network does where `read` gives some bytes.
abbrev pub gives : List ℕ → Net
gives bytes = record {
  got = Got.bytes bytes;
  sent = Sent.incomplete;
  updated = true;
  yields = false;
}

-- A connection that is to read `n` bytes of a value, and has none of them in its buffer.
abbrev pub reading : ℕ → Conn → Conn
reading n c = record c {
  state = ConnState.nread;
  rbuf = [];
  world = record c.world { rlbytes = pos n };
}

abbrev pub behind : List ℕ → Conn → Conn
behind bytes c = record c { line = c.line ++ bytes }

-- The bytes of pieces, none of which is empty.
unfoldable pub joined : List (ℕ × List ℕ) → List ℕ
joined [] = []
joined ((b, bytes) ∷ pieces) = b ∷ bytes ++ joined pieces

abbrev pub arriving : List (ℕ × List ℕ) → List Net
arriving pieces = map (λ p. gives (p.0 ∷ p.1)) pieces

-- Bytes that fit are read into the item.
nread-piece :
    (libc : Libc) (b : ℕ) (bytes : List ℕ) (n : ℕ) (c : Conn)
    → drive libc (gives (b ∷ bytes)) (reading (suc (length bytes + n)) c)
      ≡ some (reading n (behind (b ∷ bytes) c))
unfolding drive arm nread_arm core_nread read_item
nread-piece libc b bytes n c =
    rw
      (
        drive,
        arm,
        nread_arm,
        core_nread,
        take_leftovers,
        sub-zero (suc (length bytes + n)),
        unequal (length bytes + n),
        take_fits bytes n,
        rest (length bytes) n,
        append-nil c.line,
      )
      refl
  where
    take_empty : (n : ℕ) → take {A = ℕ} n [] ≡ []
    take_empty zero = refl
    take_empty (suc n) = refl

    take_fits : (bytes : List ℕ) (n : ℕ) → take (length bytes + n) bytes ≡ bytes
    take_fits [] n = take_empty (length {A = ℕ} [] + n)
    take_fits (b ∷ bytes) n =
        let e : suc (length bytes) + n ≡ suc (length bytes + n) = omega arith in
        rw (e, take_fits bytes n) refl

    rest : (k n : ℕ) → suc (k + n) - suc k ≡ n
    rest k n = omega arith

    sub-zero : (k : ℕ) → k - 0 ≡ k
    sub-zero k = omega arith

    unequal : (k : ℕ) → (suc k == 0) ≡ false
    unequal k = ground arith

arriving-reading :
    (libc : Libc) (pieces : List (ℕ × List ℕ)) (c : Conn)
    → drives libc (arriving pieces) (reading (length (joined pieces)) c)
      ≡ some (reading 0 (behind (joined pieces) c))
unfolding drives joined
arriving-reading libc [] c = rw (append-nil c.line) refl
arriving-reading libc ((b, bytes) ∷ pieces) c =
    rw
      (
        length-append bytes (joined pieces),
        drives,
        nread-piece libc b bytes (length (joined pieces)) c,
        arriving-reading libc pieces (behind (b ∷ bytes) c),
        append_assoc c.line (b ∷ bytes) (joined pieces),
      )
      refl

pub drives-append :
    (libc : Libc) (nets more : List Net) (c d : Conn)
    → drives libc nets c ≡ some d
    → drives libc (nets ++ more) c ≡ drives libc more d
unfolding drives
drives-append libc [] more c d e = ap (drives libc more) (some-injective c d e)
drives-append libc (net ∷ nets) more c d e = elim (Option-cases (drive libc net c)) [
  | inl n ↦ absurd (none-some d (rw (drives, n) at e))
  | inr (c', s) ↦ rw (drives, s) (drives-append libc nets more c' d (rw (drives, s) at e))
]

-- A connection that is to read the bytes of a value, with none of them in its buffer, reads them
-- in whatever pieces they arrive, none of them empty, and the round after the last one is the
-- completion of the request with all of them, in order, behind what it had.
pub arriving-core_complete_nread :
    (libc : Libc) (pieces : List (ℕ × List ℕ)) (net : Net) (c : Conn)
    → drives libc (arriving pieces ++ net ∷ []) (reading (length (joined pieces)) c)
      ≡ core_complete_nread (reading 0 (behind (joined pieces) c))
unfolding drive arm nread_arm drives
arriving-core_complete_nread libc pieces net c =
    drives-append libc (arriving pieces) (net ∷ []) _ _ (arriving-reading libc pieces c)
    ∙ last (core_complete_nread (reading 0 (behind (joined pieces) c)))
  where
    last : (o : Option Conn) → elim o as (λ _. Option Conn) [ none ↦ none | some d ↦ some d ] ≡ o
    last none = refl
    last (some d) = refl
