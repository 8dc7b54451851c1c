-- ===== src/Core/Replied.antt =====
-- Where a connection goes on after a request: the states that the writers of
-- IQ-Twemcached/src/mc_ascii.c set, and the items that they keep until their bytes are sent.
use rejig.Prelude.{
  false, Bool, ℤ, pos, negsuc, map, ℕ, Option, none, some, List, [], ◌∷◌, ◌==◌, if◌then◌else◌,
}
use rejig.Ascii.Server.{World, Response, Out, go, done}
use rejig.Core.{Conn, ConnState}

abbrev pub items_of : Option ℕ → List (Option ℕ)
items_of none = []
items_of (some a) = some a ∷ []

-- The test of a count for 0.
abbrev pub is_zero : ℤ → Bool
is_zero (pos n) = n == 0
is_zero (negsuc n) = false

-- A text, and then the data line is thrown away if the request says so.
abbrev pub told : World → Conn → Conn
told w c = record c {
  world = w;
  state = ConnState.write;
  write_and_go = if is_zero w.sbytes then ConnState.new_cmd else ConnState.swallow;
}

-- Bytes of items.
abbrev pub sending : World → List (Option ℕ) → Conn → Conn
sending w its c = record c { world = w; state = ConnState.mwrite; ilist = its }

-- The state and the items after an answer. `silent` leaves the state as it is.
unfoldable pub replied : Response → World → Conn → Conn
replied (Response.hits its) w c = sending w (map some its) c
replied (Response.value a) w c = sending w (some a ∷ []) c
replied Response.novalue w c = sending w [] c
replied (Response.lvalue a flags p token) w c = sending w [] c
replied (Response.lvalue_short a flags token) w c = sending w [] c
replied (Response.quarantined it pending token) w c = sending w (items_of it) c
replied (Response.read_value it) w c = sending w (it ∷ []) c
replied (Response.ok_novalue_pending pending token) w c = sending w [] c
replied (Response.ok_val val) w c = sending w [] c
replied Response.nread w c = record c { world = w; state = ConnState.nread; line = [] }
replied Response.close w c = record c { world = w; state = ConnState.close }
replied Response.muted w c = record c { world = w; state = ConnState.new_cmd }
replied Response.silent w c = record c { world = w }
replied r w c = told w c

-- The connection when a request is through.
unfoldable pub handled : Out (Unit {0}) → World → Conn → Conn
handled (done r) w c = replied r w c
handled (go _) w c = record c { world = w }
