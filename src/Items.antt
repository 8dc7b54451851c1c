-- ===== src/Items.antt =====
-- The items of IQ-Twemcached/src/mc_items.h and mc_items.c, and the state that cache_lock guards.
-- A pointer to an item is its address in `heap`; an item that is given back stays readable there,
-- as slab memory does. A run is `none` where an ASSERT of the source fails or where the code
-- follows a NULL pointer. The bits of `flags` and `coflags` are fields. Statistics are left out.
pub mod Monad
pub mod Refcount
pub mod Alloc
pub mod Get
pub mod Store
pub mod Iqget
pub mod Trans
pub mod Frame
pub mod Leases
pub mod Iqset
pub mod Pins
pub mod Kept
pub mod Spared
pub mod Tests
pub mod Spend
pub mod Link
pub mod Unlink
pub mod Coherent
pub mod Flush
pub mod Session
pub mod Reach
pub mod Refused
pub mod Marks
pub mod Tokens
use rejig.Prelude.{[], ◌∷◌, ◌==◌, ◌||◌, ◌≡◌, false, true, ℕ, ◌+◌, Bool, Option, List, ℤ}

-- `struct item`. The payload is `value`, so that `nbyte` is its length, and the key is `key`.
pub record Item : Type 0 where
  pub key : List ℕ
  pub value : List ℕ
  pub atime : ℕ
  pub exptime : ℕ
  pub dataflags : ℕ
  pub refcount : ℕ
  pub linked : Bool
  pub cas : Bool
  pub slabbed : Bool
  pub raligned : Bool
  pub i_lease : Bool
  pub q_inv_lease : Bool
  pub q_ref_lease : Bool
  pub q_inc_lease : Bool
  pub c_lease : Bool
  pub o_lease_inv : Bool
  pub o_lease_ref : Bool
  pub ptrans : Bool
  pub hk : Bool
  pub sess : Bool
  pub p : ℕ
  pub id : ℕ
  pub aborted : Bool
  pub config_number : ℤ
  pub cas_value : ℕ

-- The part of `struct settings` that items read, with the sizes of the slab classes.
pub record Settings : Type 0 where
  pub use_cas : Bool
  pub use_lruq : Bool
  pub evict_lru : Bool
  pub evict_any : Bool
  pub oldest_live : ℕ
  pub lease_token_expiry : ℕ
  pub process_started : ℕ
  pub item_hdr_size : ℕ
  pub profile : ℕ → ℕ
  pub profile_last_id : ℕ

-- What the slab allocator does on a call: it refuses; it takes an address off the free queue; or
-- it carves items out of a slab, after it has evicted those that stood there.
pub data Answer : Type 0 where
  refused : Answer
  free_item : ℕ → Answer
  carved : List ℕ → List ℕ → ℕ → Answer

abbrev pub elem : ℕ → List ℕ → Bool
elem b [] = false
elem b (a ∷ q) = b == a || elem b q

-- A decision of the slab allocator, from the items as they are. Its items stand apart in memory:
-- an item off the free queue is not linked, and a linked item that stands where a slab is carved,
-- or at the address that is given out, is one of those that are evicted.
pub record Decision : Type 0 where
  pub decide : (ℕ → Item) → Answer
  pub free_unlinked :
      (heap : ℕ → Item) (a : ℕ) → decide heap ≡ Answer.free_item a → (heap a).linked ≡ false
  pub carves_apart :
      (heap : ℕ → Item) (evicted items : List ℕ) (a : ℕ)
      → decide heap ≡ Answer.carved evicted items a
      → (b : ℕ) → (heap b).linked ≡ true
      → elem b (a ∷ items) ≡ true
      → elem b evicted ≡ true

pub record Cache : Type 0 where
  pub heap : ℕ → Item
  pub assoc : List ℕ → Option ℕ
  pub lruq : ℕ → List ℕ
  pub reserved_lruq : ℕ → List ℕ
  pub cas_id : ℕ
  pub lease_current_token : ℕ
  pub now : ℕ
  pub settings : Settings
  pub answers : List Decision
