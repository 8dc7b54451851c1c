-- ===== src/Items/Flush.antt =====
-- `_item_flush_expired` of IQ-Twemcached/src/mc_items.c: a flush unlinks the items of the queues
-- that were accessed since, so that `_item_get` need only look at older ones.
use rejig.Prelude.{ℕ, zero, suc, List, [], ◌∷◌, ◌+◌, ◌==◌, ltb, not, if◌then◌else◌}
use mathlib.Core.List.{reverse}
use rejig.Items.Monad.{M, ◌>>=◌, ◌>>◌, pure, check, state, load}
use rejig.Items.Refcount.{item_unlink}

-- The walk over one queue, from the item accessed last.
unfoldable pub flush_queue : ℕ → List ℕ → M (Unit {0})
flush_queue oldest_live [] = pure tt
flush_queue oldest_live (a ∷ rest) = do
  it ← load a
  check (not it.slabbed)
  (if ltb it.atime oldest_live then pure tt else (item_unlink a >> flush_queue oldest_live rest))

-- The queues of so many slab classes, from one on.
unfoldable pub flush_classes : ℕ → ℕ → ℕ → M (Unit {0})
flush_classes oldest_live zero id = pure tt
flush_classes oldest_live (suc count) id = do
  c ← state
  flush_queue oldest_live (reverse (c.lruq id))
  flush_classes oldest_live count (id + 1)

-- `_item_flush_expired`; SLABCLASS_MIN_ID is 1 and SLABCLASS_MAX_ID is 254.
unfoldable pub item_flush_expired : M (Unit {0})
item_flush_expired = do
  c ← state
  (if c.settings.oldest_live == 0 then pure tt else flush_classes c.settings.oldest_live 254 1)
