-- ===== src/Ascii/Stale/Refused.antt =====
-- Requests with a stale configuration number are refused: the handlers of
-- IQ-Twemcached/src/mc_ascii.c that call `asc_check_config`.
use mathlib.Core.Path.{subst}
use mathlib.Core.Option.{some-injective}
use rejig.Prelude.{
  ℤ, sym, ℕ, Bool, true, false, Option, none, some, ◌≡◌, refl, if◌then◌else◌, get_elem?, drop,
}
use rejig.Ascii.{Token}
use rejig.Ascii.Numbers.{Libc, mc_strtol}
use rejig.Ascii.Server.{
  expect_some, gets, World, Response, Out, go, done, H, ◌>>=◌, pure, write, set_noreply, swallow,
  expect, fail, client_error,
}
use rejig.Ascii.Arguments.{
  Request, text_at, rest_at, set_noreply_maybe, need_ntoken_valid, start, key_at, int32_at,
  uint32_at, int64_at, uint64_at, configured, check_config, is_minus_one, same_int,
}
use rejig.Ascii.Stale.{
  Same, Same-refl, is_refusal, Quiet, Refuses, by_end, Quiet-pure, Quiet-fault, Quiet-gets,
  Quiet-write, Quiet-expect_some, Quiet-if, Quiet-bind, Refuses-bind, Refuses-first, Must,
}

pub Quiet-expect : (b : Bool) → Quiet (expect b client_error)
unfolding expect
Quiet-expect true = Quiet-pure tt
Quiet-expect false = Quiet-write client_error refl

pub Quiet-set_noreply : Quiet set_noreply
unfolding set_noreply
Quiet-set_noreply = record {
  at = λ w w' r e.
      by_end (go tt) r w _ w' (record { cache = refl; configuration_number = refl }) tt e;
}

pub Quiet-swallow : (n : ℤ) → Quiet (swallow n)
unfolding swallow
Quiet-swallow n = record {
  at = λ w w' r e.
      by_end (go tt) r w _ w' (record { cache = refl; configuration_number = refl }) tt e;
}

pub Quiet-option :
    {A B : Type 0} (o : Option A) {m : H B} {f : A → H B}
    → Quiet m
    → ((a : A) → Quiet (f a))
    → Quiet (elim o as (λ x. H B) [ none ↦ m | some a ↦ f a ])
Quiet-option none k h = k
Quiet-option (some a) k h = h a

module _ (req : Request) where
  pub Quiet-text_at : (i : ℕ) → Quiet (text_at req i)
  unfolding text_at
  Quiet-text_at i =
      Quiet-option (get_elem? req.tokens.tokens i) (Quiet-if _ (Quiet-pure _) Quiet-fault)
        (λ t. Quiet-pure _)

  pub Quiet-rest_at : (i : ℕ) → Quiet (rest_at req i)
  unfolding rest_at
  Quiet-rest_at i =
      Quiet-option (get_elem? req.tokens.tokens i)
        (Quiet-if _
          (Quiet-option req.tokens.terminal Quiet-fault (λ e. Quiet-pure (drop e req.command)))
          Quiet-fault)
        (λ t. Quiet-pure _)

  pub Quiet-set_noreply_maybe : Quiet (set_noreply_maybe req)
  unfolding set_noreply_maybe
  Quiet-set_noreply_maybe =
      Quiet-option (get_elem? req.tokens.tokens _) (Quiet-pure tt)
        (λ t. Quiet-if _ Quiet-set_noreply (Quiet-pure tt))

  pub Quiet-need_ntoken_valid : Quiet (need_ntoken_valid req)
  unfolding need_ntoken_valid
  Quiet-need_ntoken_valid = search (Quiet-bind, Quiet-gets, Quiet-expect) depth 20

  pub Quiet-start : Quiet (start req)
  unfolding start
  Quiet-start = Quiet-bind Quiet-set_noreply_maybe (λ _. Quiet-need_ntoken_valid)

  pub Quiet-key_at : (i : ℕ) → Quiet (key_at req i)
  unfolding key_at
  Quiet-key_at i = search (Quiet-bind, Quiet-text_at, Quiet-expect, Quiet-pure) depth 20

pub ruleset quiet_rules = (
  Quiet-bind, Quiet-pure, Quiet-gets, Quiet-if, Quiet-expect_some, Quiet-rest_at, Quiet-text_at,
  Quiet-start, Quiet-need_ntoken_valid, Quiet-key_at, Quiet-swallow,
)

module _ (libc : Libc) (req : Request) (i : ℕ) where
  pub Quiet-int32_at : Quiet (int32_at libc req i)
  unfolding int32_at
  Quiet-int32_at = search quiet_rules depth 20

  pub Quiet-uint32_at : Quiet (uint32_at libc req i)
  unfolding uint32_at
  Quiet-uint32_at = search quiet_rules depth 20

  pub Quiet-int64_at : Quiet (int64_at libc req i)
  unfolding int64_at
  Quiet-int64_at = search quiet_rules depth 20

  pub Quiet-uint64_at : Quiet (uint64_at libc req i)
  unfolding uint64_at
  Quiet-uint64_at = search quiet_rules depth 20

-- A client's number `k` that the check turns away where the server's is `n`.
pub record Stale (k n : ℤ) : Type 0 where
  pub given : is_minus_one k ≡ false
  pub other : same_int k n ≡ false

-- What a request has for the number of its client.
pub record Says (libc : Libc) (req : Request) (k : ℤ) : Type 0 where
  pub token : Token
  pub second : get_elem? req.tokens.tokens 1 ≡ some token
  pub number : mc_strtol libc (drop token.val req.command) ≡ some k

pub Refuses-fail : (n : ℤ) {A : Type 0} → Refuses n (write {A = A} fail)
unfolding write
Refuses-fail n {A} = record { at = λ w w' r c e. written w.noreply w w' r e }
  where
    end :
        (x : Response) (r : Out A) (u v w : World)
        → Same u v
        → is_refusal x ≡ true
        → Path (Option (Out A × World)) (some (done x, v)) (some (r, w))
        → Same u w × Must r
    end x r u v w h k e =
        subst (λ y. Same u y.1 × Must y.0) (some-injective (done x, v) (r, w) e) (h, k)

    written :
        (b : Bool) (w w' : World) (r : Out A)
        → Path
            (Option (Out A × World))
            (some
              (if b then (done Response.muted, record w { noreply = false }) else (done fail, w)))
            (some (r, w'))
        → Same w w' × Must r
    written true w w' r e =
        end Response.muted r w (record w { noreply = false }) w'
          (record { cache = refl; configuration_number = refl }) refl e
    written false w w' r e = end fail r w w w' (Same-refl w) refl e

pub Refuses-check_config :
    (k n : ℤ) {m : H (Unit {0})} → Stale k n → Quiet m → Refuses n (check_config m k)
unfolding check_config ◌>>=◌ gets
Refuses-check_config k n {m} s q = record {
  at = λ w w' r c e. (Refuses-bind q (λ _. Refuses-fail n)).at w w' r c (
      rw (check_config, ◌>>=◌, gets, s.given, subst (λ x. same_int k x ≡ false) (sym c) s.other) at
        e);
}

module _ {libc : Libc} {req : Request} {k : ℤ} (says : Says libc req k) where
  pub says_int32 : (w : World) → int32_at libc req 1 w ≡ some (go k, w)
  unfolding int32_at rest_at expect_some ◌>>=◌ pure
  says_int32 w = rw (int32_at, rest_at, says.second, ◌>>=◌, pure, says.number) refl

  pub Refuses-int32_at :
      {n : ℤ} {B : Type 0} (f : ℤ → H B) → Refuses n (f k) → Refuses n (int32_at libc req 1 >>= f)
  unfolding ◌>>=◌
  Refuses-int32_at f h = record { at = λ w w' r c e. h.at w w' r c (rw (◌>>=◌, says_int32 w) at e) }

  pub Refuses-configured : {n : ℤ} → Stale k n → Refuses n (configured libc req)
  unfolding configured
  Refuses-configured s =
      Refuses-int32_at _ (Refuses-first _ (Refuses-check_config k _ s (Quiet-pure tt)))

pub ruleset refusals = (
  Refuses-configured, Refuses-int32_at, Refuses-check_config, Refuses-first, Refuses-bind,
  quiet_rules, Quiet-int32_at, Quiet-uint32_at, Quiet-int64_at, Quiet-uint64_at,
)
