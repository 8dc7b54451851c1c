-- ===== src/Items/Monad.antt =====
-- Programs on the cache of IQ-Twemcached/src/mc_items.c, and loads and stores through pointers.
use rejig.Prelude.{ℕ, Bool, true, false, Option, none, some, ◌==◌, if◌then◌else◌}
use rejig.Items.{Item, Cache}

abbrev pub M : Type 0 → Type 0
M A = Cache → Option (A × Cache)

infixl 5 ◌>>=◌ ◌>>◌
abbrev pub ◌>>=◌ : {A B : Type 0} → M A → (A → M B) → M B
◌>>=◌ m f c = elim (m c) [ none ↦ none | some (a, c') ↦ f a c' ]

abbrev pub ◌>>◌ : {B : Type 0} → M (Unit {0}) → M B → M B
◌>>◌ m k c = elim (m c) [ none ↦ none | some (a, c') ↦ k c' ]

abbrev pub pure : {A : Type 0} → A → M A
pure a c = some (a, c)

abbrev pub fault : {A : Type 0} → M A
fault c = none

-- `ASSERT`
abbrev pub check : Bool → M (Unit {0})
check true c = some (tt, c)
check false c = none

abbrev pub state : M Cache
state c = some (c, c)

abbrev pub put : Cache → M (Unit {0})
put c' c = some (tt, c')

abbrev pub update_heap : (ℕ → Item) → ℕ → Item → ℕ → Item
update_heap heap a it b = if b == a then it else heap b

abbrev pub load : ℕ → M Item
load a c = some (c.heap a, c)

abbrev pub store : ℕ → Item → M (Unit {0})
store a it c = some (tt, record c { heap = update_heap c.heap a it })

-- Does the pointer, if it is not NULL.
abbrev pub whenever : Option ℕ → (ℕ → M (Unit {0})) → M (Unit {0})
whenever none f = pure tt
whenever (some a) f = f a

-- A pointer that the code follows without a test.
abbrev pub deref : Option ℕ → M ℕ
deref none = fault
deref (some a) = pure a

abbrev pub when : Bool → M (Unit {0}) → M (Unit {0})
when true m = m
when false m = pure tt
