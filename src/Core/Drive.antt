-- ===== src/Core/Drive.antt =====
-- A round of `core_drive_machine` of IQ-Twemcached/src/mc_core.c. Bytes over UDP, the memory of the
-- buffers and the suffixes of answers are not modelled.
use rejig.Prelude.{
  ℤ, pos, negsuc, Bool, true, false, not, ◌&&◌, ℕ, ◌-◌, Option, none, some, List, [], ◌∷◌, ◌++◌,
  ◌==◌, ltb, length, drop, take, if◌then◌else◌,
}
use rejig.Items.Monad
use rejig.Items.Refcount.{item_remove}
use rejig.Ascii.Numbers.{Libc}
use rejig.Ascii.Request.{ReqType}
use rejig.Ascii.Complete.{complete_nread}
use rejig.Core.{Conn, ConnState, Got, Sent, Net}
use rejig.Core.Replied.{handled, items_of}
use rejig.Core.Parse.{core_parse}

-- The references of items, given back one after the other; NULL is passed over.
unfoldable pub remove_items : List (Option ℕ) → Monad.M (Unit {0})
remove_items [] = Monad.pure tt
remove_items (none ∷ its) = remove_items its
remove_items (some a ∷ its) = Monad.◌>>◌ (item_remove a) (remove_items its)

-- `conn_cleanup` does not pass over NULL.
unfoldable pub has_null : List (Option ℕ) → Bool
has_null [] = false
has_null (none ∷ its) = true
has_null (some a ∷ its) = has_null its

-- A connection that gives items back.
unfoldable pub gives_back : List (Option ℕ) → Conn → Option Conn
gives_back its c = elim (remove_items its c.world.cache) [
  | none ↦ none
  | some (_, cache) ↦ some (record c { world = record c.world { cache = cache } })
]

-- `core_reset_cmd_handler`
unfoldable pub core_reset_cmd_handler : Conn → Option Conn
core_reset_cmd_handler c =
    let idle = record c {
      world = record c.world { req_type = ReqType.unknown; item = none };
      state = elim c.rbuf [ [] ↦ ConnState.wait | b ∷ bytes ↦ ConnState.parse ];
    } in
    gives_back (items_of c.world.item) idle

-- `core_read` of a TCP connection.
unfoldable pub core_read : Got → Conn → Conn
core_read (Got.bytes []) c = record c { state = ConnState.wait }
core_read (Got.bytes (b ∷ more)) c = record c { rbuf = c.rbuf ++ b ∷ more; state = ConnState.parse }
core_read Got.broken c = record c { state = ConnState.close }

-- `c->ritem` and `c->rlbytes`, of which `left` are left, go on over some bytes.
abbrev pub read_into : ℕ → List ℕ → Conn → Conn
read_into left bytes c = record c {
  line = c.line ++ bytes;
  world = record c.world { rlbytes = pos (left - length bytes) };
}

-- The bytes that `read` puts straight into the item, if it is not full.
unfoldable pub read_item : Got → ℕ → Conn → Conn
read_item (Got.bytes more) left c = read_into left (take left more) c
read_item Got.broken left c = record c { state = ConnState.close }

-- The leftovers of the buffer go to the item first.
abbrev pub take_leftovers : ℕ → Conn → Conn
take_leftovers left c = read_into left (take left c.rbuf) (record c { rbuf = drop left c.rbuf })

-- The arm CONN_NREAD where bytes are left to be read.
unfoldable pub core_nread : Got → ℕ → Conn → Conn
core_nread got left c =
    let c' = take_leftovers left c in
    let left' = left - length (take left c.rbuf) in
    if left' == 0 then c' else read_item got left' c'

abbrev pub throw_away : ℕ → ℕ → Conn → Conn
throw_away left n c = record c { world = record c.world { sbytes = pos (left - n) } }

-- The arm CONN_SWALLOW, with `left` bytes to be thrown away.
unfoldable pub core_swallow : Got → ℕ → Conn → Conn
core_swallow got left c =
    if left == 0
    then record c { state = ConnState.new_cmd }
    else if ltb 0 (length c.rbuf)
    then throw_away left (length c.rbuf) (record c { rbuf = drop left c.rbuf })
    else elim got [
      | Got.bytes more ↦ throw_away left (length more) c
      | Got.broken ↦ record c { state = ConnState.close }
    ]

-- `core_complete_nread`
unfoldable pub core_complete_nread : Conn → Option Conn
core_complete_nread c = elim (complete_nread c.line c.world) [
  | none ↦ none
  | some (r, w) ↦ some (handled r w c)
]

-- The arms CONN_WRITE and CONN_MWRITE.
unfoldable pub core_write : Sent → Conn → Conn
core_write Sent.complete c = record c { state = c.write_and_go }
core_write Sent.incomplete c = c
core_write Sent.hard_error c = record c { state = ConnState.close }

unfoldable pub core_mwrite : Sent → Conn → Option Conn
core_mwrite Sent.complete c =
    gives_back c.ilist (record c { ilist = []; state = ConnState.new_cmd })
core_mwrite Sent.incomplete c = some c
core_mwrite Sent.hard_error c = some (record c { state = ConnState.close })

-- `core_close`, with `conn_cleanup`.
unfoldable pub core_close : Conn → Option Conn
core_close c =
    if has_null c.ilist
    then none
    else gives_back (items_of c.world.item ++ c.ilist)
        (record c { world = record c.world { item = none }; ilist = []; state = ConnState.closed })

-- The arm CONN_NEW_CMD where `nreqs` is used up.
unfoldable pub core_yield : Bool → Conn → Conn
core_yield updated c =
    if ltb 0 (length c.rbuf) && not updated then record c { state = ConnState.close } else c

module _ (libc : Libc) (net : Net) where
  -- The arms CONN_NREAD and CONN_SWALLOW. With a count below 0 the code steps back behind the start
  -- of its buffer, or reads beyond the end: no result.
  unfoldable pub nread_arm : ℤ → Conn → Option Conn
  nread_arm (pos left) c =
      if left == 0 then core_complete_nread c else some (core_nread net.got left c)
  nread_arm (negsuc n) c = none

  unfoldable pub swallow_arm : ℤ → Conn → Option Conn
  swallow_arm (pos left) c = some (core_swallow net.got left c)
  swallow_arm (negsuc n) c = none

  -- The switch of `core_drive_machine` on the state.
  unfoldable pub arm : ConnState → Conn → Option Conn
  arm ConnState.wait c =
      some (record c { state = if net.updated then ConnState.read else ConnState.close })
  arm ConnState.read c = some (core_read net.got c)
  arm ConnState.parse c = core_parse libc c
  arm ConnState.new_cmd c =
      if net.yields then some (core_yield net.updated c) else core_reset_cmd_handler c
  arm ConnState.nread c = nread_arm c.world.rlbytes c
  arm ConnState.swallow c = swallow_arm c.world.sbytes c
  arm ConnState.write c = some (core_write net.sent c)
  arm ConnState.mwrite c = core_mwrite net.sent c
  arm ConnState.close c = core_close c
  arm ConnState.closed c = some c

unfoldable pub drive : Libc → Net → Conn → Option Conn
unfolding arm
drive libc net c = arm libc net c.state c
