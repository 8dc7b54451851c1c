-- ===== src/Items/Tokens.antt =====
-- The token of a lease is the value of its item: `_item_create_lease` and `_item_lease_value` of
-- IQ-Twemcached/src/mc_items.c, over the text of numbers.
use rejig.Util.RoundTrip.{strtoull_len-print_uint64}
use rejig.Util.{strtoull_len, print_uint64, uint64_max}
use rejig.Items.Get.{
  create_lease, lease_next_token, lease_reltime, lease_key, lease_value, copy_data,
}
use rejig.Items.Kept.{finished}
use rejig.Prelude.{
  true, negsuc, ◌∙◌, ap, zero, suc, append-nil, [], drop, ◌++◌, ◌^◌, ◌-◌, if◌then◌else◌, length,
  ◌≤◌, leb, ℕ, List, Option, some, none, Bool, ◌≡◌, refl, inl, inr, Option-cases, Bool-cases,
  none-some, ==_refl, replicate, ℤ, not, ◌&&◌, ◌==◌,
}
use mathlib.Core.Path.{subst}
use mathlib.Core.Option.{some-injective}
use rejig.Items.{Item, Cache}
use rejig.Items.Monad.{pure, check, state, M, ◌>>=◌, ◌>>◌}
use rejig.Items.Refcount.{acquire_refcount}
use rejig.Items.Alloc.{item_alloc, item_slabid, get_from_lruq, finish_alloc, item_alloc_config}

-- What holds wherever a run ends.
record Post {A : Type 0} (m : M A) (Q : A → Cache → Type 0) : Type 0 where
  post : (c : Cache) (x : A) (d : Cache) → m c ≡ some (x, d) → Q x d

-- It is decided by the last steps.
after :
    {A B : Type 0} (m : M A) {f : A → M B} {Q : B → Cache → Type 0}
    → ((x : A) → Post (f x) Q)
    → Post (m >>= f) Q
after m h = record {
  post = λ c y d e. elim (Option-cases (m c)) [
    | inl n ↦ absurd (none-some _ (rw (◌>>=◌, n) at e))
    | inr ((x, c'), s) ↦ (h x).post c' y d (rw (◌>>=◌, s) at e)
  ];
}

next :
    {B : Type 0} (m : M (Unit {0})) {n : M B} {Q : B → Cache → Type 0} → Post n Q → Post (m >> n) Q
next m h = record {
  post = λ c y d e. elim (Option-cases (m c)) [
    | inl n ↦ absurd (none-some _ (rw (◌>>◌, n) at e))
    | inr ((x, c'), s) ↦ h.post c' y d (rw (◌>>◌, s) at e)
  ];
}

-- An item with such a key and value, where there is one.
Holds : List ℕ → List ℕ → Option ℕ → Cache → Type 0
Holds key value none d = Unit {0}
Holds key value (some a) d = ((d.heap a).key ≡ key) × ((d.heap a).value ≡ value)

result-Holds :
    {c d : Cache} {y : Option ℕ} (o : Option ℕ) (key value : List ℕ)
    → Path (Option (Option ℕ × Cache)) (some (o, c)) (some (y, d))
    → Holds key value o c
    → Holds key value y d
result-Holds o key value e h = subst (λ r. Holds key value r.0 r.1) (some-injective _ _ e) h

finish_alloc-Holds :
    (a id : ℕ) (key : List ℕ) (dataflags exptime nbyte : ℕ) (config_num : ℤ)
    → Post
        (finish_alloc a id key dataflags exptime nbyte config_num)
        (Holds key (replicate nbyte 0))
unfolding finish_alloc acquire_refcount Holds
finish_alloc-Holds a id key dataflags exptime nbyte config_num = record {
  post = λ c y d e.
      let it = c.heap a in
      elim (Bool-cases (it.id == id && not it.linked && not it.slabbed && it.refcount == 0)) [
        | inr n ↦ absurd (none-some (y, d) (rw n at e))
        | inl t ↦ result-Holds _ key (replicate nbyte 0) (rw t at e) (rw (==_refl a) (refl, refl))
      ];
}

finished-Holds :
    (id : ℕ) (key : List ℕ) (dataflags exptime nbyte : ℕ) (config_num : ℤ) (slot : Option ℕ)
    → Post (finished id key dataflags exptime nbyte config_num slot) (Holds key (replicate nbyte 0))
unfolding Holds
finished-Holds id key dataflags exptime nbyte config_num (some a) =
    finish_alloc-Holds a id key dataflags exptime nbyte config_num
finished-Holds id key dataflags exptime nbyte config_num none = record {
  post = λ c y d e. result-Holds none key (replicate nbyte 0) e tt;
}

item_alloc_config-Holds :
    (reserved : Bool) (id : ℕ) (key : List ℕ) (dataflags exptime nbyte : ℕ) (config_num : ℤ)
    → Post
        (item_alloc_config reserved id key dataflags exptime nbyte config_num)
        (Holds key (replicate nbyte 0))
unfolding item_alloc_config
item_alloc_config-Holds reserved id key dataflags exptime nbyte config_num = after state (λ c.
    next (check (leb 1 id && leb id 254)) (
      after (get_from_lruq reserved id)
        (λ found. after _ (finished-Holds id key dataflags exptime nbyte config_num))))

-- What the value of a lease reads as.
abbrev pub token_read : ℕ → ℕ
token_read token = if leb token (uint64_max - 6) then token else 2 ^ 64 - 1

unfoldable pub ReadsAs : List ℕ → ℕ → Option ℕ × ℕ → Cache → Type 0
ReadsAs key token (none, t) d = t ≡ token
ReadsAs key token (some a, t) d =
    (t ≡ token) × ((d.heap a).key ≡ lease_key key) × (lease_value (d.heap a) ≡ token_read token)

drop-replicate : (n : ℕ) → drop {A = ℕ} n (replicate n 0) ≡ []
drop-replicate zero = refl
drop-replicate (suc n) = drop-replicate n

-- The bytes that stand there once `buf` is copied over a value of its length.
copied :
    (buf value : List ℕ) → value ≡ replicate (length buf) 0 → buf ++ drop (length buf) value ≡ buf
copied buf value e = rw (e, drop-replicate (length buf)) (append-nil buf)

value_read :
    (it : Item) (number : Option ℕ)
    → strtoull_len it.value ≡ number
    → lease_value it ≡ elim number as (λ x. ℕ) [ none ↦ 2 ^ 64 - 1 | some value ↦ value ]
unfolding lease_value
value_read it number e = ap (λ o. elim o as (λ x. ℕ) [ none ↦ 2 ^ 64 - 1 | some value ↦ value ]) e

text-token_read :
    (token : ℕ) (it : Item)
    → token ≤ uint64_max
    → it.value ≡ print_uint64 token
    → lease_value it ≡ token_read token
text-token_read token it small e =
    let read = value_read it _ (ap strtoull_len e ∙ strtoull_len-print_uint64 token small) in
    elim (Bool-cases (leb token (uint64_max - 6))) [
      | inl t ↦ rw t (rw t at read)
      | inr f ↦ rw f (rw f at read)
    ]

-- What the item reads as, once its bytes and its reference are there.
filled :
    (a token : ℕ) (key : List ℕ) (c d : Cache) (y : Option ℕ × ℕ)
    → token ≤ uint64_max
    → Holds (lease_key key) (replicate (length (print_uint64 token)) 0) (some a) c
    → (copy_data a (print_uint64 token) >> (acquire_refcount a >> pure (some a, token))) c
      ≡ some (y, d)
    → ReadsAs key token y d
unfolding copy_data acquire_refcount ReadsAs Holds
filled a token key c d y small h e =
    let written = copied (print_uint64 token) (c.heap a).value h.1 in
    subst (λ r. ReadsAs key token r.0 r.1) (some-injective _ _ e)
      (rw (==_refl a) (refl, h.0, text-token_read token _ small written))

-- A run of two parts, from where the first of them ends.
split :
    {A B : Type 0} {Q : Type 0} (m : M A) (f : A → M B) (c d : Cache) (y : B)
    → (m >>= f) c ≡ some (y, d)
    → ((x : A) (c' : Cache) → m c ≡ some (x, c') → f x c' ≡ some (y, d) → Q)
    → Q
split m f c d y e k = elim (Option-cases (m c)) [
  | inl n ↦ absurd (none-some _ (rw (◌>>=◌, n) at e))
  | inr ((x, c'), s) ↦ k x c' s (rw (◌>>=◌, s) at e)
]

-- The steps of `_item_create_lease` on the slot that it was given, if any.
made : ℕ → Option ℕ → M (Option ℕ × ℕ)
made token none = pure (none, token)
made token (some a) =
    copy_data a (print_uint64 token) >> (acquire_refcount a >> pure (some a, token))

made-ReadsAs :
    (token : ℕ) (key : List ℕ) (slot : Option ℕ) (c d : Cache) (y : Option ℕ × ℕ)
    → token ≤ uint64_max
    → Holds (lease_key key) (replicate (length (print_uint64 token)) 0) slot c
    → made token slot c ≡ some (y, d)
    → ReadsAs key token y d
unfolding made ReadsAs
made-ReadsAs token key (some a) c d y small h e = filled a token key c d y small h e
made-ReadsAs token key none c d y small h e =
    subst (λ r. ReadsAs key token r.0 r.1) (some-injective _ _ e) refl

-- The token that a client gets with a new lease is the number that the code reads off the item of
-- the lease up to UINT64_MAX - 6, and above it the item reads as 2 ^ 64 - 1; the item has the key
-- of the lease. The counter of tokens, from which the token comes, is at most UINT64_MAX, and the
-- creation of the lease ends.
pub create_lease-token :
    (key : List ℕ) (c d : Cache) (y : Option ℕ × ℕ)
    → c.lease_current_token ≤ uint64_max
    → create_lease key c ≡ some (y, d)
    → ReadsAs key c.lease_current_token y d
unfolding create_lease lease_next_token made
create_lease-token key c d y small e =
    let token = c.lease_current_token in
    split (item_slabid (length (lease_key key)) (length (print_uint64 token))) _ _ d y e
      (λ id c₁ s₁ e₁.
        split (item_alloc true id (lease_key key) 0 (lease_reltime c) (length (print_uint64 token)))
          _ c₁ d y e₁
          (λ slot c₂ s₂ e₂.
            made-ReadsAs token key slot c₂ d y small
              ((item_alloc_config-Holds true id (lease_key key) 0 (lease_reltime c)
                  (length (print_uint64 token)) (negsuc 0)).post
                c₁ slot c₂ s₂)
              e₂))
