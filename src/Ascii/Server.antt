-- ===== src/Ascii/Server.antt =====
-- A request on a connection of IQ-Twemcached/src/mc_ascii.c: what it reads and writes of the server
-- and of `struct conn`, its answers, and programs that stop at an answer.
use rejig.Keylist.{narrow}
use rejig.Prelude.{ℤ, ℕ, Bool, true, false, Option, none, some, List, if◌then◌else◌}
use rejig.Items.{Cache}
use rejig.Items.Monad.{M}
use rejig.Ascii.Request.{ReqType}

-- The cache, `configuration_number`, and the fields of the connection that requests set.
pub record World : Type 0 where
  pub cache : Cache
  pub configuration_number : ℤ
  pub req_type : ReqType
  pub noreply : Bool
  pub item : Option ℕ
  pub tid : List ℕ
  pub lease_token : ℕ
  pub rlbytes : ℤ
  pub sbytes : ℤ

-- How a request ends. The first group are texts of `asc_write_string`; then the texts that are put
-- together from parts, where an address is that of an item whose bytes go to the client, and
-- `counted` is the number that `_item_add_delta` wrote; then the ends without a text: the value is
-- still to be read, the connection closes, a text was asked not to be sent, the code returns
-- without one, or the answer is that of statistics or logging.
pub data Response : Type 0 where
  client_error server_error fail abort stored exists not_found not_stored deleted invalid ok
        ok_novalue retry version :
      Response
  counted : Response
  leasehold ok_val : ℕ → Response
  missing : List (List ℕ) → Response
  hits : List ℕ → Response
  value : ℕ → Response
  novalue : Response
  lvalue : ℕ → ℕ → ℕ → ℕ → Response
  lvalue_short : ℕ → ℕ → ℕ → Response
  quarantined : Option ℕ → ℕ → ℕ → Response
  read_value : Option ℕ → Response
  ok_pending ok_novalue_pending : ℕ → ℕ → Response
  nread close muted silent elsewhere : Response

-- A program goes on with a value, or the request is done.
pub data Out (A : Type 0) : Type 0 where
  go : A → Out A
  done : Response → Out A

abbrev pub H : Type 0 → Type 0
H A = World → Option (Out A × World)

module _ {A B : Type 0} where
  infixl 5 ◌>>=◌ ◌>>◌
  abbrev continue : (A → H B) → Out A × World → Option (Out B × World)
  continue f (go a, w) = f a w
  continue f (done r, w) = some (done r, w)

  unfoldable pub ◌>>=◌ : H A → (A → H B) → H B
  ◌>>=◌ m f w = elim (m w) [ none ↦ none | some r ↦ continue f r ]

  abbrev pub ◌>>◌ : H A → H B → H B
  m >> n = m >>= λ _. n

module _ {A : Type 0} where
  unfoldable pub pure : A → H A
  pure a w = some (go a, w)

  -- A pointer that is followed and is NULL, or memory that nothing has set.
  unfoldable pub fault : H A
  fault w = none

  -- The end of a request.
  unfoldable pub finish : Response → H A
  finish r w = some (done r, w)

  -- `asc_write_string`: no text for a request that wants none.
  unfoldable pub write : Response → H A
  write r w = some (if w.noreply then (done muted, record w { noreply = false }) else (done r, w))

  -- What a request knows of the server and of its connection.
  unfoldable pub gets : (World → A) → H A
  gets f w = some (go (f w), w)

  -- A call of mc_items.c.
  unfoldable pub lift : M A → H A
  lift m w = elim (m w.cache) [ none ↦ none | some (a, c) ↦ some (go a, record w { cache = c }) ]

-- A change of the connection's fields or of the configuration.
unfoldable pub set_noreply : H (Unit {0})
set_noreply w = some (go tt, record w { noreply = true })

unfoldable pub set_configuration_number : ℤ → H (Unit {0})
set_configuration_number n w = some (go tt, record w { configuration_number = n })

unfoldable pub set_item : Option ℕ → ℤ → H (Unit {0})
set_item a rlbytes w = some (go tt, record w { item = a; rlbytes = rlbytes })

-- `c->tid` and `c->ntid`, a uint8_t.
unfoldable pub set_tid : List ℕ → H (Unit {0})
set_tid tid w = some (go tt, record w { tid = narrow tid })

unfoldable pub set_lease_token : ℕ → H (Unit {0})
set_lease_token token w = some (go tt, record w { lease_token = token })

-- `write_and_go = CONN_SWALLOW`: the data line will be thrown away.
unfoldable pub swallow : ℤ → H (Unit {0})
swallow sbytes w = some (go tt, record w { sbytes = sbytes })

-- A test whose failure ends the request with a text.
unfoldable pub expect : Bool → Response → H (Unit {0})
expect true r = pure tt
expect false r = write r

module _ {A : Type 0} where
  unfoldable pub expect_some : Option A → Response → H A
  expect_some none r = write r
  expect_some (some a) r = pure a
