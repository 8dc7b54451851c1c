-- ===== src/Ascii/Stale/Updated.antt =====
-- A change of the configuration, `asc_process_update_configuration` of
-- IQ-Twemcached/src/mc_ascii.c, and the requests after it.
use mathlib.Core.Path.{subst}
use mathlib.Core.Option.{some-injective}
use rejig.Prelude.{
  ℕ, Bool, true, false, Option, some, List, ℤ, ◌≡◌, refl, sym, ◌∙◌, none-some, false-true, inl, inr,
  Option-cases, if◌then◌else◌,
}
use rejig.Ascii.{tokenize, token_max}
use rejig.Ascii.Numbers.{Libc}
use rejig.Ascii.Request.{ReqType, parse_type}
use rejig.Ascii.Server.{
  World, Response, Out, go, done, H, ◌>>=◌, ◌>>◌, write, set_configuration_number, ok,
}
use rejig.Ascii.Arguments.{same_int, Request, int32_at}
use rejig.Ascii.Dispatch.{process_update_configuration, process, dispatch}
use rejig.Ascii.Stale.{Same, Must, is_refusal, Quiet}
use rejig.Ascii.Stale.Refused.{Says, Stale, Quiet-start, says_int32}
use rejig.Ascii.Stale.Dispatched.{checks_config, request_of, dispatch-Stale}

-- Where a program ends with OK, `k` is the number of the configuration, and the cache is as it was.
record Sets (k : ℤ) (m : H (Unit {0})) : Type 0 where
  at :
      (w w' : World)
      → m w ≡ some (done ok, w')
      → (w'.configuration_number ≡ k) × (w'.cache ≡ w.cache)

-- OK is no refusal.
abbrev Refused : Out (Unit {0}) → Type 0
Refused (go a) = Unit
Refused (done x) = is_refusal x ≡ true

not_refused :
    (x : Response) (v w : World)
    → is_refusal x ≡ true
    → Path (Option (Out (Unit {0}) × World)) (some (done x, v)) (some (done ok, w))
    → ⊥
not_refused x v w h e =
    false-true (subst (λ r. Refused r.0) (some-injective (done x, v) (done ok, w) e) h)

Sets-bind :
    {A : Type 0} {k : ℤ} {m : H A} {f : A → H (Unit {0})}
    → Quiet m
    → ((a : A) → Sets k (f a))
    → Sets k (m >>= f)
unfolding ◌>>=◌
Sets-bind {A} {k} {m} {f} q h = record {
  at = λ w w' e. elim (Option-cases (m w)) [
    | inl s ↦ absurd (none-some (done ok, w') (rw (◌>>=◌, s) at e))
    | inr ((go a, v), s) ↦
        let l = (h a).at v w' (rw (◌>>=◌, s) at e) in (l.0, l.1 ∙ (q.at w v (go a) s).0.cache)
    | inr ((done x, v), s) ↦
        absurd (not_refused x v w' (q.at w v (done x) s).1 (rw (◌>>=◌, s) at e))
  ];
}

Sets-set : (k : ℤ) → Sets k (set_configuration_number k >> write ok)
unfolding set_configuration_number ◌>>=◌ write
Sets-set k = record { at = λ w w' e. written w.noreply w w' e }
  where
    written :
        (b : Bool) (w w' : World)
        → Path
            (Option (Out (Unit {0}) × World))
            (some (
              if b
              then (done Response.muted, record w { noreply = false; configuration_number = k })
              else (done ok, record w { configuration_number = k })))
            (some (done ok, w'))
        → (w'.configuration_number ≡ k) × (w'.cache ≡ w.cache)
    written true w w' e = absurd (not_refused Response.muted _ w' refl e)
    written false w w' e =
        subst (λ r. (r.1.configuration_number ≡ k) × (r.1.cache ≡ w.cache)) (some-injective _ _ e)
          (refl, refl)

Sets-int32_at :
    {libc : Libc} {req : Request} {k : ℤ} (f : ℤ → H (Unit {0}))
    → Says libc req k
    → Sets k (f k)
    → Sets k (int32_at libc req 1 >>= f)
unfolding ◌>>=◌
Sets-int32_at f says h = record { at = λ w w' e. h.at w w' (rw (◌>>=◌, says_int32 says w) at e) }

Sets-process_update_configuration :
    {libc : Libc} {req : Request} {k : ℤ}
    → Says libc req k
    → Sets k (process_update_configuration libc req)
unfolding process_update_configuration
Sets-process_update_configuration {req = req} {k = k} says =
    Sets-bind (Quiet-start req) (λ _. Sets-int32_at _ says (Sets-set k))

-- After an update of the configuration to `k` that is answered OK, which leaves the cache as it
-- was, a request of a type that carries the number of its client's configuration, whose second
-- token is a number that is not -1 and not `k`, has no effect: if its dispatch ends, the cache
-- and the configuration are as the update left them, and the answer is FAIL, CLIENT_ERROR, or
-- nothing where the request wants no reply.
pub dispatch-process_update_configuration :
    (libc : Libc) (update command : List ℕ) (k l : ℤ) (u v w : World) (r : Out (Unit {0}))
    → parse_type update (tokenize update token_max) ≡ ReqType.update_config
    → Says libc (request_of update) k
    → dispatch libc update u ≡ some (done ok, v)
    → checks_config (parse_type command (tokenize command token_max)) ≡ true
    → Says libc (request_of command) l
    → Stale l k
    → dispatch libc command v ≡ some (r, w)
    → (v.cache ≡ u.cache) × (Same v w × Must r)
unfolding dispatch process
dispatch-process_update_configuration libc update command k l u v w r t says e checks says' stale
      d =
    let set =
      (Sets-process_update_configuration says).at (record u { req_type = _ }) v (rw t at e) in
    (
      set.1,
      dispatch-Stale libc command l v w r checks says'
          (record {
            given = stale.given;
            other = subst (λ n. same_int l n ≡ false) (sym set.0) stale.other;
          })
          d,
    )
