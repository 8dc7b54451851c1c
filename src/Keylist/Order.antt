-- ===== src/Keylist/Order.antt =====
-- The order of the keys of a list, as `trig_compare_key` of IQ-Twemcached/src/mc_sqltrig.c has it:
-- shorter keys first, and keys of one length in falling order of their bytes.
use rejig.Prelude.{Ordering, ◌≡◌, refl, List, [], ◌∷◌, arith, length, ◌⊎◌, inl, inr, ap}
use rejig.Keylist.{Key, memcmp, compare_key}

pub memcmp_refl : (a : Key) → memcmp a a ≡ Ordering.eq
unfolding memcmp
memcmp_refl [] = refl
memcmp_refl (x ∷ xs) = ground (arith, memcmp_refl xs)

memcmp_eq : (a b : Key) → length a ≡ length b → memcmp a b ≡ Ordering.eq → a ≡ b
unfolding memcmp
memcmp_eq [] [] h e = refl
memcmp_eq [] (y ∷ ys) h e = absurd (omega arith)
memcmp_eq (x ∷ xs) [] h e = absurd (omega arith)
memcmp_eq (x ∷ xs) (y ∷ ys) h e = ground (arith, memcmp_eq xs ys)

memcmp_swap :
    (a b : Key) → length a ≡ length b → memcmp a b ≡ Ordering.gt → memcmp b a ≡ Ordering.lt
unfolding memcmp
memcmp_swap [] [] h e = cc
memcmp_swap [] (y ∷ ys) h e = absurd (omega arith)
memcmp_swap (x ∷ xs) [] h e = absurd (omega arith)
memcmp_swap (x ∷ xs) (y ∷ ys) h e = ground (arith, memcmp_swap xs ys)

memcmp_unswap :
    (a b : Key) → length a ≡ length b → memcmp a b ≡ Ordering.lt → memcmp b a ≡ Ordering.gt
unfolding memcmp
memcmp_unswap [] [] h e = cc
memcmp_unswap [] (y ∷ ys) h e = absurd (omega arith)
memcmp_unswap (x ∷ xs) [] h e = absurd (omega arith)
memcmp_unswap (x ∷ xs) (y ∷ ys) h e = ground (arith, memcmp_unswap xs ys)

memcmp_trans :
    (a b c : Key)
    → length a ≡ length b
    → length b ≡ length c
    → memcmp a b ≡ Ordering.gt
    → memcmp b c ≡ Ordering.gt
    → memcmp a c ≡ Ordering.gt
unfolding memcmp
memcmp_trans [] b c h k e f = cc
memcmp_trans (x ∷ xs) [] c h k e f = absurd (omega arith)
memcmp_trans (x ∷ xs) (y ∷ ys) [] h k e f = absurd (omega arith)
memcmp_trans (x ∷ xs) (y ∷ ys) (z ∷ zs) h k e f = ground (arith, memcmp_trans xs ys zs)

pub compare_key_refl : (a : Key) → compare_key a a ≡ Ordering.eq
unfolding compare_key
compare_key_refl a = ground (arith, memcmp_refl a)

pub compare_key_eq : (a b : Key) → compare_key a b ≡ Ordering.eq → a ≡ b
unfolding compare_key
compare_key_eq a b e = ground (arith, memcmp_eq a b)

pub compare_key_swap : (a b : Key) → compare_key a b ≡ Ordering.gt → compare_key b a ≡ Ordering.lt
unfolding compare_key
compare_key_swap a b e = ground (arith, memcmp_swap a b)

pub compare_key_unswap : (a b : Key) → compare_key a b ≡ Ordering.lt → compare_key b a ≡ Ordering.gt
unfolding compare_key
compare_key_unswap a b e = ground (arith, memcmp_unswap a b)

pub compare_key_trans :
    (a b c : Key)
    → compare_key a b ≡ Ordering.gt
    → compare_key b c ≡ Ordering.gt
    → compare_key a c ≡ Ordering.gt
unfolding compare_key
compare_key_trans a b c e f = ground (arith, memcmp_trans a b c)

-- `a` stands before `b` in a list.
abbrev pub Before : Key → Key → Type 0
Before a b = compare_key a b ≡ Ordering.gt

abbrev pub BeforeAll : Key → List Key → Type 0
BeforeAll k [] = Unit {0}
BeforeAll k (x ∷ xs) = Before k x × BeforeAll k xs

abbrev pub IsSorted : List Key → Type 0
IsSorted [] = Unit {0}
IsSorted (k ∷ ks) = BeforeAll k ks × IsSorted ks

abbrev pub Has : Key → List Key → Type 0
Has k [] = ⊥
Has k (x ∷ xs) = (x ≡ k) ⊎ Has k xs

pub BeforeAll-trans : (a b : Key) (ks : List Key) → Before a b → BeforeAll b ks → BeforeAll a ks
BeforeAll-trans a b [] h all = tt
BeforeAll-trans a b (k ∷ ks) h all =
    (compare_key_trans a b k h all.0, BeforeAll-trans a b ks h all.1)

-- What stands before every key of a list is not in it.
pub BeforeAll-not-Has : (k : Key) (ks : List Key) → BeforeAll k ks → Has k ks → ⊥
BeforeAll-not-Has k [] all h = h
BeforeAll-not-Has k (x ∷ xs) all (inl e) = cc (compare_key_refl k, ap (compare_key k) e, all.0)
BeforeAll-not-Has k (x ∷ xs) all (inr h) = BeforeAll-not-Has k xs all.1 h

pub not-Has_of_lt :
    (x : Key) (ks : List Key) (k : Key)
    → IsSorted (x ∷ ks)
    → compare_key x k ≡ Ordering.lt
    → ¬ Has k (x ∷ ks)
not-Has_of_lt x ks k s e (inl p) = cc (compare_key_refl x, ap (compare_key x) p, e)
not-Has_of_lt x ks k s e (inr h) =
    BeforeAll-not-Has k ks (BeforeAll-trans k x ks (compare_key_unswap x k e) s.0) h

pub not-Has_of_gt :
    (x : Key) (ks : List Key) (k : Key)
    → compare_key x k ≡ Ordering.gt
    → ¬ Has k ks
    → ¬ Has k (x ∷ ks)
not-Has_of_gt x ks k e no_key (inl p) = cc (compare_key_refl x, ap (compare_key x) p, e)
not-Has_of_gt x ks k e no_key (inr h) = no_key h

Ordering-cases : (o : Ordering) → (o ≡ Ordering.eq) ⊎ ((o ≡ Ordering.lt) ⊎ (o ≡ Ordering.gt))
Ordering-cases Ordering.eq = inl refl
Ordering-cases Ordering.lt = inr (inl refl)
Ordering-cases Ordering.gt = inr (inr refl)

pub compare_key-cases :
    (a b : Key)
    → (compare_key a b ≡ Ordering.eq)
      ⊎ ((compare_key a b ≡ Ordering.lt) ⊎ (compare_key a b ≡ Ordering.gt))
compare_key-cases a b = Ordering-cases (compare_key a b)
