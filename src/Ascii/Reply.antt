-- ===== src/Ascii/Reply.antt =====
-- A client reads back what `asc_process_read` of IQ-Twemcached/src/mc_ascii.c writes: for each hit
-- `VALUE <key> <flags> <bytes> <number>\r\n<data>\r\n`, and `END\r\n` at the end.
use rejig.Util.RoundTrip.{strtoull_len-print_uint64}
use rejig.Ascii.Numbers.{to_uint64}
use rejig.Items.Store.{item_cas}
use rejig.Ascii.Writers.{get_answer, config_of, suffix, flags_of, respond_get}
use rejig.Items.{Item}
use rejig.Prelude.{
  ap, map, ◌∙◌, true, ◌^◌, leb, take-append_length, ◌-◌, drop-append_add, Bool, length, ◌≤◌,
  ==_refl, ℕ, zero, suc, ◌+◌, ◌<◌, ◌%◌, ◌/◌, false, Option, none, some, List, [], ◌∷◌, ◌++◌, ◌==◌,
  ◌≡◌, refl, drop, take, if◌then◌else◌, key_eq, Bool-cases, inl, inr, arith, ltb,
}
use rejig.Util.{uint64_max, strtoull_len, print_uint64, print_digits}
use rejig.Ascii.Request.{codes}

-- The bytes before the first `e`, and those behind it.
unfoldable pub word : ℕ → List ℕ → List ℕ × List ℕ
word e [] = ([], [])
word e (c ∷ text) = let rest = word e text in if c == e then ([], text) else (c ∷ rest.0, rest.1)

pub record Hit : Type 0 where
  pub key : List ℕ
  pub flags : Option ℕ
  pub number : Option ℕ
  pub bytes : List ℕ

abbrev cons_hit : Hit → Option (List Hit) → Option (List Hit)
cons_hit hit none = none
cons_hit hit (some hits) = some (hit ∷ hits)

-- The data of a hit, of which `len` bytes are the client's.
abbrev read_data : List ℕ × List ℕ → List ℕ × List ℕ → ℕ → List ℕ × List ℕ → Hit
read_data key flags len number = record {
  key = key.0;
  flags = strtoull_len flags.0;
  number = strtoull_len number.0;
  bytes = take len (drop 1 number.1);
}

-- The hits of an answer, in as many rounds at most.
unfoldable pub read_hits : ℕ → List ℕ → Option (List Hit)
unfolding word
read_hits zero text = none
read_hits (suc fuel) text =
    let key = word 32 (drop 6 text) in
    let flags = word 32 key.1 in
    let size = word 32 flags.1 in
    let number = word 13 size.1 in
    if key_eq (take 3 text) (codes "END") then some [] else elim (strtoull_len size.0) [
      | none ↦ none
      | some len ↦
          cons_hit (read_data key flags len number) (read_hits fuel (drop (len + 3) number.1))
    ]

unfoldable pub Free : ℕ → List ℕ → Type 0
Free e [] = Unit
Free e (c ∷ text) = (c == e ≡ false) × Free e text

word-Free : (e : ℕ) (text rest : List ℕ) → Free e text → word e (text ++ e ∷ rest) ≡ (text, rest)
unfolding word Free
word-Free e [] rest p = rw (word, ==_refl e) refl
word-Free e (c ∷ text) rest p = rw (word, p.0, word-Free e text rest p.1) refl

print_digits-Free :
    (e fuel value : ℕ) (digits : List ℕ)
    → e < 48
    → Free e digits
    → Free e (print_digits fuel value digits)
unfolding print_digits Free
print_digits-Free e zero value digits h p = p
print_digits-Free e (suc fuel) value digits h p = elim (Bool-cases (ltb value 10)) [
  | inl t ↦ rw (print_digits, t) (digit e value h, p)
  | inr n ↦
      rw (print_digits, n)
        (print_digits-Free e fuel (value / 10) ((b'0' + value % 10) ∷ digits) h
          (digit e (value % 10) h, p))
]
  where
    digit : (e d : ℕ) → e < 48 → (b'0' + d == e) ≡ false
    digit e d h = ground arith

print_uint64-Free : (e value : ℕ) → e < 48 → Free e (print_uint64 value)
unfolding print_uint64 Free
print_uint64-Free e value h = print_digits-Free e 20 value [] h tt

reads_back : (n : ℕ) → n ≤ uint64_max - 6 → strtoull_len (print_uint64 n) ≡ some n
reads_back n h =
    let t : leb n (uint64_max - 6) ≡ true = ground arith in
    strtoull_len-print_uint64 n (omega arith) ∙ rw t refl

-- An item that a client can read: the key is one word, and the numbers are below the limit of
-- the code that reads them.
pub record Sendable (it : Item) : Type 0 where
  pub one_word : Free 32 it.key
  pub short : length it.value ≤ uint64_max - 6
  pub unique : item_cas it ≤ uint64_max - 6

abbrev pub number_of : Bool → Item → ℕ
number_of return_cas it = if return_cas then item_cas it else config_of it

abbrev pub hit_of : Bool → Item → Hit
hit_of return_cas it = record {
  key = it.key;
  flags = some (flags_of it);
  number = some (number_of return_cas it);
  bytes = it.value;
}

number_small :
    (return_cas : Bool) (it : Item) → Sendable it → number_of return_cas it ≤ uint64_max - 6
number_small true it s = s.unique
number_small false it s = small (to_uint64 it.config_number)
  where
    small : (n : ℕ) → n % 2 ^ 32 ≤ uint64_max - 6
    small n = omega arith

flags_small : (it : Item) → flags_of it ≤ uint64_max - 6
flags_small it = small it.dataflags
  where
    small : (n : ℕ) → n % 2 ^ 32 ≤ uint64_max - 6
    small n = omega arith

behind_data :
    (value rest : List ℕ) → drop (length value + 3) (10 ∷ (value ++ 13 ∷ 10 ∷ rest)) ≡ rest
behind_data value rest =
    let e : length value + 3 ≡ suc (length value + 2) = omega arith in
    rw (e, drop-append_add value (13 ∷ 10 ∷ rest) 2) refl

-- A round, over the texts of the fields.
read_hits-fields :
    (fuel : ℕ) (key flags size number more : List ℕ) (len : ℕ)
    → Free 32 key
    → Free 32 flags
    → Free 32 size
    → Free 13 number
    → strtoull_len size ≡ some len
    → read_hits
        (suc fuel)
        (codes "VALUE " ++ (key ++ 32 ∷ (flags ++ 32 ∷ (size ++ 32 ∷ (number ++ 13 ∷ 10 ∷ more)))))
      ≡ cons_hit
          (record {
            key = key;
            flags = strtoull_len flags;
            number = strtoull_len number;
            bytes = take len more;
          })
          (read_hits fuel (drop (len + 3) (10 ∷ more)))
unfolding read_hits key_eq
read_hits-fields fuel key flags size number more len k f s n e =
    let first = word-Free 32 key (flags ++ 32 ∷ (size ++ 32 ∷ (number ++ 13 ∷ 10 ∷ more))) k in
    let second = word-Free 32 flags (size ++ 32 ∷ (number ++ 13 ∷ 10 ∷ more)) f in
    let third = word-Free 32 size (number ++ 13 ∷ 10 ∷ more) s in
    let fourth = word-Free 13 number (10 ∷ more) n in
    rw (read_hits, first, second, third, e, first, second, third, fourth) refl

read_hits-respond_get :
    (fuel : ℕ) (return_cas : Bool) (it : Item) (rest : List ℕ)
    → Sendable it
    → read_hits (suc fuel) (respond_get return_cas it rest)
      ≡ cons_hit (hit_of return_cas it) (read_hits fuel rest)
unfolding respond_get suffix
read_hits-respond_get fuel return_cas it rest s =
    let n = number_of return_cas it in
    read_hits-fields fuel it.key (print_uint64 (flags_of it)) (print_uint64 (length it.value))
      (print_uint64 n) (it.value ++ 13 ∷ 10 ∷ rest) (length it.value) s.one_word
      (print_uint64-Free 32 (flags_of it) (omega arith))
      (print_uint64-Free 32 (length it.value) (omega arith)) (print_uint64-Free 13 n (omega arith))
      (reads_back (length it.value) s.short)
    ∙ rw
        (
          reads_back (flags_of it) (flags_small it),
          reads_back n (number_small return_cas it s),
          take-append_length it.value (13 ∷ 10 ∷ rest),
          behind_data it.value rest,
        )
        refl

unfoldable pub All : List Item → Type 0
All [] = Unit
All (it ∷ its) = Sendable it × All its

-- What a get or a gets writes for the items that it found, whatever bytes their values have, is
-- read back as one hit for each item, in order, with its key, its flags, its configuration number
-- or, for gets, its unique number, and its value. The keys have no blank, and no length of a
-- value and no unique number is above UINT64_MAX - 6.
pub read_hits-get_answer :
    (return_cas : Bool) (its : List Item)
    → All its
    → read_hits (suc (length its)) (get_answer return_cas its) ≡ some (map (hit_of return_cas) its)
unfolding get_answer All read_hits key_eq
read_hits-get_answer return_cas [] s = refl
read_hits-get_answer return_cas (it ∷ its) s =
    read_hits-respond_get (suc (length its)) return_cas it (get_answer return_cas its) s.0
    ∙ ap (cons_hit (hit_of return_cas it)) (read_hits-get_answer return_cas its s.1)
