-- ===== src/Ascii/Stale.antt =====
-- Programs of requests that stop at `asc_check_config` of IQ-Twemcached/src/mc_ascii.c, where a
-- client's configuration number is not the server's.

pub mod Refused
pub mod Handlers
pub mod Dispatched
pub mod Updated
use mathlib.Core.Path.{subst}
use mathlib.Core.Option.{some-injective}
use rejig.Prelude.{
  Bool, true, false, Option, none, some, ℤ, ◌≡◌, refl, ◌∙◌, if◌then◌else◌, none-some, inl, inr,
  Option-cases,
}
use rejig.Ascii.Server.{
  World, Response, Out, go, done, H, ◌>>=◌, pure, fault, write, gets, expect_some, client_error,
}

-- The texts of a refusal, or none where the request wants none.
abbrev pub is_refusal : Response → Bool
is_refusal Response.fail = true
is_refusal Response.client_error = true
is_refusal Response.muted = true
is_refusal _ = false

-- The cache and the configuration are as they were.
pub record Same (w w' : World) : Type 0 where
  pub cache : w'.cache ≡ w.cache
  pub configuration_number : w'.configuration_number ≡ w.configuration_number

module _ {A : Type 0} where
  abbrev pub May : Out A → Type 0
  May (go a) = Unit
  May (done x) = is_refusal x ≡ true

  abbrev pub Must : Out A → Type 0
  Must (go a) = ⊥
  Must (done x) = is_refusal x ≡ true

  -- A program that goes on or refuses, and changes nothing that lasts.
  pub record Quiet (m : H A) : Type 0 where
    pub at : (w w' : World) (r : Out A) → m w ≡ some (r, w') → Same w w' × May r

  -- One that refuses where the server's number is `n`.
  pub record Refuses (n : ℤ) (m : H A) : Type 0 where
    pub at :
        (w w' : World) (r : Out A)
        → w.configuration_number ≡ n
        → m w ≡ some (r, w')
        → Same w w' × Must r

pub Same-refl : (w : World) → Same w w
Same-refl w = record { cache = refl; configuration_number = refl }

pub Same-then : (u v w : World) → Same u v → Same v w → Same u w
Same-then u v w h k = record {
  cache = k.cache ∙ h.cache;
  configuration_number = k.configuration_number ∙ h.configuration_number;
}

module _ {A : Type 0} where
  by_end :
      (r r' : Out A) (u v w : World)
      → Same u v
      → May r
      → Path (Option (Out A × World)) (some (r, v)) (some (r', w))
      → Same u w × May r'
  by_end r r' u v w h k e =
      subst (λ x. Same u x.1 × May x.0) (some-injective (r, v) (r', w) e) (h, k)

  pub Quiet-pure : (a : A) → Quiet (pure a)
  unfolding pure
  Quiet-pure a = record { at = λ w w' r e. by_end (go a) r w w w' (Same-refl w) tt e }

  pub Quiet-fault : Quiet {A = A} fault
  unfolding fault
  Quiet-fault = record { at = λ w w' r e. absurd (none-some _ e) }

  pub Quiet-gets : (f : World → A) → Quiet (gets f)
  unfolding gets
  Quiet-gets f = record { at = λ w w' r e. by_end (go (f w)) r w w w' (Same-refl w) tt e }

  pub Quiet-write : (x : Response) → is_refusal x ≡ true → Quiet {A = A} (write x)
  unfolding write
  Quiet-write x k = record { at = λ w w' r e. written w.noreply w w' r e }
    where
      written :
          (b : Bool) (w w' : World) (r : Out A)
          → Path
              (Option (Out A × World))
              (some
                (if b then (done Response.muted, record w { noreply = false }) else (done x, w)))
              (some (r, w'))
          → Same w w' × May r
      written true w w' r e =
          by_end (done Response.muted) r w (record w { noreply = false }) w'
            (record { cache = refl; configuration_number = refl }) refl e
      written false w w' r e = by_end (done x) r w w w' (Same-refl w) k e

  pub Quiet-expect_some : (o : Option A) → Quiet (expect_some o client_error)
  unfolding expect_some
  Quiet-expect_some none = Quiet-write client_error refl
  Quiet-expect_some (some a) = Quiet-pure a

  pub Quiet-if : (b : Bool) {m n : H A} → Quiet m → Quiet n → Quiet (if b then m else n)
  Quiet-if true k h = k
  Quiet-if false k h = h

module _ {A B : Type 0} where
  pub Quiet-bind : {m : H A} {f : A → H B} → Quiet m → ((a : A) → Quiet (f a)) → Quiet (m >>= f)
  unfolding ◌>>=◌
  Quiet-bind {m} {f} k h = record {
    at = λ w w' r e. elim (Option-cases (m w)) [
      | inl n ↦ absurd (none-some (r, w') (rw (◌>>=◌, n) at e))
      | inr ((go a, v), s) ↦
          let l = (h a).at v w' r (rw (◌>>=◌, s) at e) in
          (Same-then w v w' (k.at w v (go a) s).0 l.0, l.1)
      | inr ((done x, v), s) ↦
          by_end (done x) r w v w' (k.at w v (done x) s).0 (k.at w v (done x) s).1
            (rw (◌>>=◌, s) at e)
    ];
  }

  -- A program refuses if what comes behind its first step does,
  pub Refuses-bind :
      {n : ℤ} {m : H A} {f : A → H B} → Quiet m → ((a : A) → Refuses n (f a)) → Refuses n (m >>= f)
  unfolding ◌>>=◌
  Refuses-bind {n} {m} {f} k h = record {
    at = λ w w' r c e. elim (Option-cases (m w)) [
      | inl s ↦ absurd (none-some (r, w') (rw (◌>>=◌, s) at e))
      | inr ((go a, v), s) ↦
          let q = (k.at w v (go a) s).0 in
          let l = (h a).at v w' r (q.configuration_number ∙ c) (rw (◌>>=◌, s) at e) in
          (Same-then w v w' q l.0, l.1)
      | inr ((done x, v), s) ↦
          let q = k.at w v (done x) s in
          subst (λ x. Same w x.1 × Must x.0)
            (some-injective (done x, v) (r, w') (rw (◌>>=◌, s) at e)) (q.0, q.1)
    ];
  }

  -- or if its first step does.
  pub Refuses-first : {n : ℤ} {m : H A} (f : A → H B) → Refuses n m → Refuses n (m >>= f)
  unfolding ◌>>=◌
  Refuses-first {n} {m} f k = record {
    at = λ w w' r c e. elim (Option-cases (m w)) [
      | inl s ↦ absurd (none-some (r, w') (rw (◌>>=◌, s) at e))
      | inr ((go a, v), s) ↦ absurd (k.at w v (go a) c s).1
      | inr ((done x, v), s) ↦
          let q = k.at w v (done x) c s in
          subst (λ x. Same w x.1 × Must x.0)
            (some-injective (done x, v) (r, w') (rw (◌>>=◌, s) at e)) (q.0, q.1)
    ];
  }
