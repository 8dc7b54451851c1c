-- ===== src/Core/Swallowing.antt =====
-- The data line of a request that was refused is thrown away: the arm CONN_SWALLOW of
-- `core_drive_machine` of IQ-Twemcached/src/mc_core.c.
use rejig.Prelude.{
  pos, lt→ltb, length-drop, arith, ℕ, suc, ◌+◌, ◌-◌, false, some, List, [], ◌∷◌, ◌++◌, ◌==◌, ◌≡◌,
  ◌∙◌, refl, length, length-append, drop,
}
use rejig.Ascii.Numbers.{Libc}
use rejig.Core.{Conn, ConnState, Net}
use rejig.Core.Drive.{core_swallow, swallow_arm, arm, drive}
use rejig.Core.Framing.{drives, gives, joined, arriving, drives-append}

-- A connection that is to throw `n` bytes away, with these in its buffer.
abbrev pub throwing : ℕ → List ℕ → Conn → Conn
throwing n rbuf c = record c {
  state = ConnState.swallow;
  rbuf = rbuf;
  world = record c.world { sbytes = pos n };
}

sub-suc : (k n : ℕ) → suc (k + n) - suc k ≡ n
sub-suc k n = omega arith

unequal : (k : ℕ) → (suc k == 0) ≡ false
unequal k = ground arith

swallow-piece :
    (libc : Libc) (b : ℕ) (bytes : List ℕ) (n : ℕ) (c : Conn)
    → drive libc (gives (b ∷ bytes)) (throwing (suc (length bytes + n)) [] c)
      ≡ some (throwing n [] c)
unfolding drive arm swallow_arm core_swallow
swallow-piece libc b bytes n c =
    rw (drive, arm, swallow_arm, core_swallow, unequal (length bytes + n), sub-suc (length bytes) n)
      refl

-- What is in the buffer goes first.
swallow-buffer :
    (libc : Libc) (net : Net) (b : ℕ) (bytes : List ℕ) (n : ℕ) (c : Conn)
    → drive libc net (throwing (suc (length bytes + n)) (b ∷ bytes) c) ≡ some (throwing n [] c)
unfolding drive arm swallow_arm core_swallow
swallow-buffer libc net b bytes n c =
    rw
      (
        drive,
        arm,
        swallow_arm,
        core_swallow,
        unequal (length bytes + n),
        lt→ltb 0 (suc (length bytes)) (omega arith),
        sub-suc (length bytes) n,
        past bytes n,
      )
      refl
  where
    past : (bytes : List ℕ) (n : ℕ) → drop (length bytes + n) bytes ≡ []
    past bytes n = length_zero _ (length-drop (length bytes + n) bytes ∙ (omega arith))
      where
        length_zero : (xs : List ℕ) → length xs ≡ 0 → xs ≡ []
        length_zero [] e = refl
        length_zero (x ∷ xs) e = absurd (omega arith)

arriving-throwing :
    (libc : Libc) (pieces : List (ℕ × List ℕ)) (c : Conn)
    → drives libc (arriving pieces) (throwing (length (joined pieces)) [] c)
      ≡ some (throwing 0 [] c)
unfolding drives joined
arriving-throwing libc [] c = refl
arriving-throwing libc ((b, bytes) ∷ pieces) c =
    rw
      (
        length-append bytes (joined pieces),
        drives,
        swallow-piece libc b bytes (length (joined pieces)) c,
        arriving-throwing libc pieces c,
      )
      refl

drives-cons :
    (libc : Libc) (net : Net) (nets : List Net) (c d : Conn)
    → drive libc net c ≡ some d
    → drives libc (net ∷ nets) c ≡ drives libc nets d
unfolding drives
drives-cons libc net nets c d e = rw (drives, e) refl

swallowed :
    (libc : Libc) (net : Net) (c : Conn)
    → drives libc (net ∷ []) (throwing 0 [] c)
      ≡ some (record (throwing 0 [] c) { state = ConnState.new_cmd })
unfolding drive arm swallow_arm core_swallow drives
swallowed libc net c = refl

-- A connection that is to throw the bytes of a data line away, with the first of them in its
-- buffer, loses these and then the rest, in whatever pieces it arrives, none of them empty, and
-- the round after the last one makes it ready for the next command, with an empty buffer.
pub arriving-new_cmd :
    (libc : Libc) (b : ℕ) (bytes : List ℕ) (pieces : List (ℕ × List ℕ)) (first last : Net)
    (c : Conn)
    → drives libc
        (first ∷ (arriving pieces ++ last ∷ []))
        (throwing (suc (length bytes + length (joined pieces))) (b ∷ bytes) c)
      ≡ some (record (throwing 0 [] c) { state = ConnState.new_cmd })
arriving-new_cmd libc b bytes pieces first last c =
    drives-cons libc first (arriving pieces ++ last ∷ []) _ _
      (swallow-buffer libc first b bytes (length (joined pieces)) c)
    ∙ (drives-append libc (arriving pieces) (last ∷ []) _ _ (arriving-throwing libc pieces c)
        ∙ swallowed libc last c)
