-- ===== src/Ascii/Keeps.antt =====
-- Programs of requests keep the hash and the items in agreement: a rule for each way that
-- IQ-Twemcached/src/mc_ascii.c puts them together.
pub mod Steps
pub mod Reading
pub mod Updating
pub mod Leasing
pub mod Dispatching
use mathlib.Core.Path.{subst}
use mathlib.Core.Option.{some-injective}
use rejig.Prelude.{
  ℤ, pos, negsuc, ℕ, Bool, true, false, Option, none, some, List, ◌≡◌, if◌then◌else◌, none-some,
  inl, inr, Option-cases,
}
use rejig.Items.Monad.{M}
use rejig.Items.Coherent.{Coherent, Keep}
use rejig.Ascii.Server.{
  World, Response, Out, go, done, H, ◌>>=◌, pure, fault, finish, write, gets, lift, set_noreply,
  set_configuration_number, set_item, set_tid, set_lease_token, swallow, expect, expect_some,
}

-- Where a program ends, going on or not, the invariant holds if it did before.
pub record Keeps {A : Type 0} (m : H A) : Type 0 where
  pub at : (w w' : World) (r : Out A) → Coherent w.cache → m w ≡ some (r, w') → Coherent w'.cache

module _ {A : Type 0} where
  same_cache :
      (r r' : Out A) (w w' : World)
      → Coherent w.cache
      → Path (Option (Out A × World)) (some (r, w)) (some (r', w'))
      → Coherent w'.cache
  same_cache r r' w w' h e = subst (λ x. Coherent x.1.cache) (some-injective (r, w) (r', w') e) h

  pub Keeps-pure : (a : A) → Keeps (pure a)
  unfolding pure
  Keeps-pure a = record { at = λ w w' r h e. same_cache (go a) r w w' h e }

  pub Keeps-fault : Keeps {A = A} fault
  unfolding fault
  Keeps-fault = record { at = λ w w' r h e. absurd (none-some _ e) }

  pub Keeps-finish : (x : Response) → Keeps {A = A} (finish x)
  unfolding finish
  Keeps-finish x = record { at = λ w w' r h e. same_cache (done x) r w w' h e }

  pub Keeps-write : (x : Response) → Keeps {A = A} (write x)
  unfolding write
  Keeps-write x = record { at = λ w w' r h e. written w.noreply w w' r h e }
    where
      written :
          (b : Bool) (w w' : World) (r : Out A)
          → Coherent w.cache
          → Path
              (Option (Out A × World))
              (some
                (if b then (done Response.muted, record w { noreply = false }) else (done x, w)))
              (some (r, w'))
          → Coherent w'.cache
      written true w w' r h e =
          same_cache (done Response.muted) r (record w { noreply = false }) w' h e
      written false w w' r h e = same_cache (done x) r w w' h e

  pub Keeps-gets : (f : World → A) → Keeps (gets f)
  unfolding gets
  Keeps-gets f = record { at = λ w w' r h e. same_cache (go (f w)) r w w' h e }

  pub Keeps-lift : (m : M A) → Keep m → Keeps (lift m)
  unfolding lift
  Keeps-lift m k = record {
    at = λ w w' r h e. elim (Option-cases (m w.cache)) [
      | inl n ↦ absurd (none-some (r, w') (rw (lift, n) at e))
      | inr ((a, c), s) ↦
          same_cache (go a) r (record w { cache = c }) w' ((k.call w.cache h).good a c s)
            (rw (lift, s) at e)
    ];
  }

  pub Keeps-expect_some : (o : Option A) (x : Response) → Keeps (expect_some o x)
  unfolding expect_some
  Keeps-expect_some none x = Keeps-write x
  Keeps-expect_some (some a) x = Keeps-pure a

  pub Keeps-if : (b : Bool) {m n : H A} → Keeps m → Keeps n → Keeps (if b then m else n)
  Keeps-if true k h = k
  Keeps-if false k h = h

module _ {A B : Type 0} where
  pub Keeps-bind : {m : H A} {f : A → H B} → Keeps m → ((a : A) → Keeps (f a)) → Keeps (m >>= f)
  unfolding ◌>>=◌
  Keeps-bind {m} {f} k h = record {
    at = λ w w' r p e. elim (Option-cases (m w)) [
      | inl n ↦ absurd (none-some (r, w') (rw (◌>>=◌, n) at e))
      | inr ((go a, w₁), s) ↦ (h a).at w₁ w' r (k.at w w₁ (go a) p s) (rw (◌>>=◌, s) at e)
      | inr ((done x, w₁), s) ↦
          same_cache (done x) r w₁ w' (k.at w w₁ (done x) p s) (rw (◌>>=◌, s) at e)
    ];
  }

  pub Keeps-option :
      (o : Option A) {m : H B} {f : A → H B}
      → Keeps m
      → ((a : A) → Keeps (f a))
      → Keeps (elim o as (λ x. H B) [ none ↦ m | some a ↦ f a ])
  Keeps-option none k h = k
  Keeps-option (some a) k h = h a

pub Keeps-expect : (b : Bool) (x : Response) → Keeps (expect b x)
unfolding expect
Keeps-expect true x = Keeps-pure tt
Keeps-expect false x = Keeps-write x

pub Keeps-set_noreply : Keeps set_noreply
unfolding set_noreply
Keeps-set_noreply = record { at = λ w w' r h e. same_cache (go tt) r _ w' h e }

pub Keeps-set_configuration_number : (n : ℤ) → Keeps (set_configuration_number n)
unfolding set_configuration_number
Keeps-set_configuration_number n = record { at = λ w w' r h e. same_cache (go tt) r _ w' h e }

pub Keeps-set_item : (a : Option ℕ) (n : ℤ) → Keeps (set_item a n)
unfolding set_item
Keeps-set_item a n = record { at = λ w w' r h e. same_cache (go tt) r _ w' h e }

pub Keeps-set_tid : (tid : List ℕ) → Keeps (set_tid tid)
unfolding set_tid
Keeps-set_tid tid = record { at = λ w w' r h e. same_cache (go tt) r _ w' h e }

pub Keeps-set_lease_token : (n : ℕ) → Keeps (set_lease_token n)
unfolding set_lease_token
Keeps-set_lease_token n = record { at = λ w w' r h e. same_cache (go tt) r _ w' h e }

pub Keeps-swallow : (n : ℤ) → Keeps (swallow n)
unfolding swallow
Keeps-swallow n = record { at = λ w w' r h e. same_cache (go tt) r _ w' h e }

pub ruleset keeps_rules = (
  Keeps-pure, Keeps-fault, Keeps-finish, Keeps-write, Keeps-gets, Keeps-lift, Keeps-expect,
  Keeps-expect_some, Keeps-if, Keeps-bind, Keeps-option, Keeps-set_noreply,
  Keeps-set_configuration_number, Keeps-set_item, Keeps-set_tid, Keeps-set_lease_token,
  Keeps-swallow,
)
