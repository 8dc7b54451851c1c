-- ===== src/Items/Tests.antt =====
-- The theorems on leases at a cache of two items: a value at address 0 that is not yet stored, and
-- at address 1 the lease on its key, with the token 7.
pub mod Allocator
use rejig.Items.Tests.Allocator.{recarve_at}
use rejig.Items.Refcount.{acquire_refcount}
use rejig.Items.Alloc.{
  evict_items, evict_one, all_unused, init_items, carry_out, finish_alloc, slab_get, take_slot,
  first_unused, get_from_lruq, item_alloc_config,
}
use rejig.Items.Spared.{some-address, Spared}
use rejig.Items.Unlink.{Gone}
use rejig.Items.Link.{content}
use rejig.Items.Trans.{void_i_lease}
use rejig.Items.Monad.{◌>>=◌}
use rejig.Items.Iqset.{item_store-refused, other_lease, Unentitled}
use rejig.Items.Store.{not_stored, stored, Req, item_store}
use rejig.Items.Leases.{item_iqget-lease, told}
use rejig.Util.{strtoull_len}
use rejig.Util.Tests.{no_number}
use rejig.Items.Refused.{item_add_delta-refused}
use rejig.Items.Trans.Incr.{DeltaResult, item_add_delta}
use rejig.Items.Iqget.{item_iqget}
use rejig.Items.Spend.{void_i_lease-Gone, item_store-accepted, Entitled, Lease}
use rejig.Items.Get.{get_lease, lease_key, lease_value}
use rejig.Items.Frame.{absent, present, Same, Ends, Live}
use rejig.Prelude.{
  sym, ◌∙◌, Option, ap, Bool, none-some, none, some, key_eq, ◌*◌, negsuc, [], ◌==◌, false, arith,
  ◌∷◌, true, if◌then◌else◌, List, ℕ, ◌≡◌, refl,
}
use rejig.Items.{Decision, Answer, Item, Cache, Settings}

abbrev pub k : List ℕ
k = b'k' ∷ []

abbrev pub value_item : Item
value_item = record {
  key = k;
  value = b'v' ∷ [];
  atime = 5;
  exptime = 0;
  dataflags = 0;
  refcount = 1;
  linked = false;
  cas = true;
  slabbed = false;
  raligned = false;
  i_lease = false;
  q_inv_lease = false;
  q_ref_lease = false;
  q_inc_lease = false;
  c_lease = false;
  o_lease_inv = false;
  o_lease_ref = false;
  ptrans = false;
  hk = false;
  sess = false;
  p = 0;
  id = 1;
  aborted = false;
  config_number = negsuc 0;
  cas_value = 0;
}

abbrev lease_item : Item
lease_item = record value_item {
  key = lease_key k;
  value = b'7' ∷ [];
  exptime = 30;
  linked = true;
  i_lease = true;
}

abbrev pub test_settings : Settings
test_settings = record {
  use_cas = true;
  use_lruq = true;
  evict_lru = true;
  evict_any = false;
  oldest_live = 0;
  lease_token_expiry = 10000;
  process_started = 1000;
  item_hdr_size = 48;
  profile = λ id. id * 128;
  profile_last_id = 4;
}

abbrev leased : Cache
leased = record {
  heap = λ b. if b == 1 then lease_item else value_item;
  assoc = λ j. if key_eq (lease_key k) j then some 1 else none;
  lruq = λ id. [];
  reserved_lruq = λ id. if id == 1 then 1 ∷ [] else [];
  cas_id = 3;
  lease_current_token = 8;
  now = 10;
  settings = test_settings;
  answers = [];
}

program : Unit {0}
unfolding lease_value strtoull_len key_eq
program = tt

leased-Live : Live leased (lease_key k) 1
unfolding program
leased-Live = record { found = refl; alive = refl; linked = refl; unslabbed = refl }

leased-Lease : Lease leased k 1
leased-Lease = record {
  live = leased-Live;
  own_key = refl;
  is_i_lease = refl;
  pinned = omega arith;
  room = omega arith;
}

token-7 : lease_value lease_item ≡ 7
unfolding program
token-7 = refl

item_iqget-lease_example :
    Ends
      (item_iqget k 5 [] false true)
      leased
      (λ r d. (r ≡ told 1 (lease_value lease_item) 5) × Same leased d)
unfolding program
item_iqget-lease_example = item_iqget-lease leased k 1 5 false true refl refl leased-Live

stale-Unentitled : Unentitled leased k 5
unfolding program
stale-Unentitled = other_lease 1 leased-Live refl

item_store-refused_example :
    Ends (item_store 0 Req.iqset 5) leased (λ r d. (r ≡ not_stored) × Same leased d)
unfolding program
item_store-refused_example = item_store-refused leased 0 5 refl (absent refl) stale-Unentitled

leased-Entitled : Entitled leased 0 1 7
unfolding program
leased-Entitled = record {
  lease = leased-Lease;
  is_token = refl;
  apart = refl;
  unmarked = refl;
  full = refl;
}

item_store-accepted_example : Ends (item_store 0 Req.iqset 7) leased (λ r d.
    (r ≡ stored)
    × (d.assoc k ≡ some 0)
    × (d.assoc (lease_key k) ≡ none)
    × (content (d.heap 0) ≡ content (record value_item { linked = true })))
unfolding program
item_store-accepted_example = item_store-accepted leased 0 1 7 leased-Entitled refl refl refl

void_i_lease-Gone_example :
    Ends (get_lease k >>= void_i_lease) leased (λ r d. (r ≡ none) × Gone 1 (lease_key k) leased d)
void_i_lease-Gone_example = void_i_lease-Gone leased k 1 leased-Lease

-- The lease beside free items. The allocator evicts the one at address 2 and carves it anew.
abbrev roomy : Cache
roomy = record leased {
  heap = λ b. if b == 1 then lease_item else record value_item { slabbed = true; refcount = 0 };
  answers = recarve_at 2 ∷ [];
}

alloc_program : Unit {0}
unfolding item_alloc_config get_from_lruq first_unused take_slot slab_get carry_out all_unused
    evict_items evict_one init_items finish_alloc acquire_refcount key_eq
alloc_program = tt

abbrev allocated : Cache
allocated = elim (item_alloc_config false 1 k 0 0 1 (negsuc 0) roomy) [
  | none ↦ roomy
  | some (_, d) ↦ d
]

-- A value that is no number, and readers see it.
abbrev spelled : Cache
spelled = record leased {
  heap = λ b. record value_item { linked = true; value = b'v' ∷ [] };
  assoc = λ j. if key_eq k j then some 0 else none;
}

item_add_delta-refused_example :
    Ends (item_add_delta k true 1) spelled (λ r d. (r ≡ DeltaResult.non_numeric) × Same spelled d)
unfolding program
item_add_delta-refused_example =
    item_add_delta-refused spelled k true 1
      (present 0 (record { found = refl; alive = refl; linked = refl; unslabbed = refl }))
      (λ a e. no_number)
