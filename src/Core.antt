-- ===== src/Core.antt =====
-- A connection and its state machine: `struct conn` of IQ-Twemcached/src/mc_connection.h, with what
-- of the network `core_drive_machine` of mc_core.c acts on.
pub mod Replied
pub mod Parse
pub mod Drive
pub mod Server
pub mod Kept
pub mod Framing
pub mod Swallowing
pub mod Tests
use rejig.Prelude.{Option, ℕ, Bool, List}
use rejig.Ascii.Server.{World}

-- `conn_state_t`, less CONN_LISTEN; `closed` is a connection that `conn_close` put away.
pub data ConnState : Type 0 where
  wait read parse new_cmd nread swallow write mwrite close closed : ConnState

-- `rbuf` is the `rbytes` bytes from `rcurr` on, `line` what was read before `ritem`, and `ilist`
-- the `ileft` pointers from `icurr` on. The cache of the `World` is the server's.
pub record Conn : Type 0 where
  pub world : World
  pub state : ConnState
  pub write_and_go : ConnState
  pub rbuf : List ℕ
  pub line : List ℕ
  pub ilist : List (Option ℕ)

-- What the calls of `read` gave: bytes, as many as asked for or fewer, with no more to be had for
-- now, or the end of the stream or an error. Where the connection waits for more of a value and
-- `core_update` fails, that is the same to it as an error.
pub data Got : Type 0 where
  bytes : List ℕ → Got
  broken : Got

-- `transmit_result_t`, with TRANSMIT_INCOMPLETE and TRANSMIT_SOFT_ERROR as one.
pub data Sent : Type 0 where
  complete incomplete hard_error : Sent

-- What the network does in one round of the loop; `yields` where `nreqs` is used up.
pub record Net : Type 0 where
  pub got : Got
  pub sent : Sent
  pub updated : Bool
  pub yields : Bool
