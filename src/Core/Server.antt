-- ===== src/Core/Server.antt =====
-- A server with its connections, each in its own state, over one cache: the calls of
-- `core_drive_machine` of IQ-Twemcached/src/mc_core.c in any order, and the clock.
use rejig.Prelude.{pos, false, ℕ, Option, none, some, [], ◌==◌, if◌then◌else◌, ℤ, ◌≡◌}
use rejig.Items.{Cache}
use rejig.Items.Reach.{Initial}
use rejig.Ascii.Numbers.{Libc}
use rejig.Ascii.Request.{ReqType}
use rejig.Core.{Conn, ConnState, Net}
use rejig.Core.Drive.{drive}

pub record Server : Type 0 where
  pub cache : Cache
  pub configuration_number : ℤ
  pub conns : ℕ → Conn

pub data Event : Type 0 where
  tick accepted : ℕ → Event
  round : ℕ → Net → Event

-- A connection with the cache and the configuration as they are now.
unfoldable pub enter : Server → Conn → Conn
enter s c = record c {
  world = record c.world { cache = s.cache; configuration_number = s.configuration_number };
}

unfoldable pub set_conn : ℕ → Conn → Server → Server
set_conn i c s = record s { conns = λ j. if j == i then c else s.conns j }

-- What a round left behind.
unfoldable pub leave : ℕ → Conn → Server → Server
leave i c s =
    set_conn i c
      (record s { cache = c.world.cache; configuration_number = c.world.configuration_number })

-- `conn_get`
unfoldable pub conn_get : Server → Conn
conn_get s = record {
  world = record {
    cache = s.cache;
    configuration_number = s.configuration_number;
    req_type = ReqType.unknown;
    noreply = false;
    item = none;
    tid = [];
    lease_token = 0;
    rlbytes = pos 0;
    sbytes = pos 0;
  };
  state = ConnState.new_cmd;
  write_and_go = ConnState.new_cmd;
  rbuf = [];
  line = [];
  ilist = [];
}

-- A new connection, in the place of one that is closed.
unfoldable pub accept : ℕ → ConnState → Server → Option Server
accept i ConnState.closed s = some (set_conn i (conn_get s) s)
accept i _ s = none

unfoldable pub advance : Libc → Event → Server → Option Server
advance libc (Event.tick now) s = some (record s { cache = record s.cache { now = now } })
advance libc (Event.accepted i) s = accept i (s.conns i).state s
advance libc (Event.round i net) s = elim (drive libc net (enter s (s.conns i))) [
  | none ↦ none
  | some c ↦ some (leave i c s)
]

-- The servers that come of an empty cache.
pub data Serves (libc : Libc) : Server → Type 0 where
  started : {s : Server} → Initial s.cache → Serves libc s
  next : {s t : Server} → Serves libc s → (e : Event) → advance libc e s ≡ some t → Serves libc t
