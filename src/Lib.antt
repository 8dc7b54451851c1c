-- ===== src/Lib.antt =====
-- Verification of Rejig: the IQ-Twemcached server under IQ-Twemcached/src, a memcached whose keys
-- carry leases. A client that misses asks for an I lease (iqget) and stores under its token
-- (iqset); a transaction takes Q leases on the keys it writes (qareg) and ends them at its commit
-- or its release. The I lease of a key k is an item of its own under the key ls:k, whose value
-- is the token in decimal; a Q lease for invalidation is an item under ls:k too, whose value is
-- the list of the transactions that hold it, and the keys of a transaction are the value of the
-- item under its tid.
--
-- Items models mc_items.c and mc_items.h. One state, Cache, holds what cache_lock guards: the
-- items by address, the hash, the lru queues, and the counters. Items.Monad is state passing with
-- failure, where a run that fails an ASSERT or follows NULL has no result. Items.Refcount is
-- linking and counting, Items.Alloc is _item_alloc_config, Items.Get looks up and creates lease
-- items, Items.Store is _item_store, Items.Iqget is item_iqget, and Items.Flush is
-- _item_flush_expired; Items.Marks is item_ftrans. Items.Trans is item_quarantine_and_register,
-- item_get_and_unlease and item_get_and_delete over the key lists of Items.Trans.Lists, where a key
-- that is passed on as a uint8_t length is narrowed; Items.Trans.Finish is the commit,
-- the release and the delete that end a transaction, Items.Trans.Swap is item_quarantine_and_read
-- and the swaps, and Items.Trans.Incr the increments and appends. A loop over the keys of a
-- transaction takes them from keys_of, which ends on every list. Items.Session and its children
-- are the operations of sessions: Abort is abort_sessions and clean_session, Read is item_ciget and
-- item_oqread, Write is item_oqswap, item_oqwrite, the increments and appends and item_oqreg, and
-- Finish is item_dcommit, item_validate and item_co_unlease. Items.Reach puts the calls
-- together: an Op is one call of a connection, which holds cache_lock from its beginning to its
-- end, and Reachable are the caches that calls come to.
-- Items.Frame, Items.Link and Items.Unlink are the lemmas on the steps, Items.Leases, Items.Iqset,
-- Items.Spend and Items.Tokens the proofs on leases, Items.Refused those on increments,
-- Items.Pins, Items.Spared and Items.Kept those on allocation, and Items.Coherent and its children
-- those on the hash and the linked items: a child for each group of operations.
-- The slab allocator is seen through its decisions, which the state lists: each is a function from
-- the items as they are to a refusal, a free item, or the items of a slab with those evicted from
-- it. What is done to those items is modelled, with the guard of an eviction, by which no slab with
-- a reference is evicted. A Decision has two laws, on the layout of memory: an item off the free
-- queue is not linked, and a linked item that stands where a slab is carved, or at the address that
-- is given out, is one of those evicted. To the items the hash is a partial map with the ASSERTs of
-- mc_assoc.c.
-- Assoc models mc_assoc.c, whose growth the items do not see: the chains, and the rounds of the
-- maintenance thread, as many as the old table has buckets. The hash function is a parameter.
-- Assoc.Expand and Assoc.Ends are the growth, Assoc.Chains and Assoc.Sound the invariant of the
-- chains, and Assoc.Refine and Assoc.Map the partial map that the items see.
-- Keylist models mc_sqltrig.c: the byte strings that hold the keys of a transaction, of a session
-- or of a lease (trig_check_keylist, trig_keylist_addkey, trig_keylist_rmvkey, trig_keylist_next,
-- trig_size_keylist). A pointer into a list is the suffix that it points to. Every loop takes the
-- length of its list as fuel, since a round passes one byte at least.
-- Util models mc_strtoull_len of mc_util.c and the "%llu" that writes lease tokens. Twenty digits
-- hold every 64-bit number.
-- Slabs models the search of mc_slabs.c for the slab class of an item. A round narrows the range
-- of classes, so the number of classes is fuel enough.
-- Time models time_reltime of mc_time.c, with a signed expiry.
-- Ascii models mc_ascii.c: asc_tokenize and the loop that takes the next tokens of a long request,
-- where each round takes a word at least, so the number of bytes is fuel enough; Ascii.Numbers the
-- numbers of a request (mc_strtol and its kin of mc_util.c), over the functions of libc, which are a
-- parameter, the record Libc; Ascii.Request the type of a request and its bounds; Ascii.Server the
-- state of a connection, the answers, and the programs of requests, which stop at an answer;
-- Ascii.Arguments the steps that handlers share, asc_check_config among them. The handlers
-- asc_process_* are in Ascii.Reads, Ascii.Updates (those that bring a value), Ascii.Leases and
-- Ascii.Dispatch, which is asc_dispatch; Ascii.Complete is asc_complete_nread. A handler that
-- follows NULL has no result. Ascii.Writers are the bytes of the answers, and Ascii.Reply reads
-- them as a client does. Ascii.Keeps and its children are the proofs that requests keep the
-- invariant of the items, Ascii.Stale and its children those on stale configurations, Ascii.Names
-- those on the names of commands.
-- Core models the connections: Core.Parse is asc_parse, Core.Drive a round of core_drive_machine of
-- mc_core.c, where Net says what the sockets did (a round that reads or throws away with a count of
-- bytes below 0 has no result), and Core.Server puts connections in any number
-- and any order over one cache. Core.Kept, Core.Framing and Core.Swallowing are the proofs. A round
-- runs as a whole: that the calls of mc_items.c of two rounds, each of which holds cache_lock, may
-- alternate is not modelled.
--
-- Statistics and logging are left out everywhere. trig_keylist_merge_lists overlaps its source and
-- its destination in memcpy, which C leaves undefined, and nothing calls it; it is not modelled.
-- Nor are UDP, the memory of the buffers of connections and its failures, the commands for
-- statistics, verbosity and logging, the threads, and of mc_items.c the cache dump.
pub mod Prelude
pub mod Keylist
pub mod Util
pub mod Slabs
pub mod Time
pub mod Assoc
pub mod Ascii
pub mod Core
pub mod Items
