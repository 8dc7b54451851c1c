-- ===== src/Items/Session/Abort.antt =====
-- Sessions that end by a conflict: `abort_sessions` and `clean_session` of
-- IQ-Twemcached/src/mc_items.c.
use rejig.Prelude.{
  ℕ, zero, suc, ◌==◌, not, Bool, true, false, Option, none, some, List, [], ◌∷◌, length,
  if◌then◌else◌,
}
use rejig.Keylist.{Key, next}
use rejig.Items.Monad.{M, ◌>>=◌, ◌>>◌, pure, fault, load, store, when, whenever}
use rejig.Items.Refcount.{item_remove}
use rejig.Items.Get.{item_get, get_lease, get_co_lease, get_pending_version}
use rejig.Items.Iqget.{lists_key}
use rejig.Items.Trans.{drop_item}
use rejig.Items.Trans.Finish.{for_keys}
use rejig.Items.Session.{drop_session, remove_sid_colease}

-- The loop over a key list, each key with the bytes from its first one on.
unfoldable pub entries : ℕ → List ℕ → Option (List ℕ) → Option (List (Key × List ℕ))
entries zero list cursor = none
entries (suc fuel) list cursor = elim (next list cursor) [
  | none ↦ none
  | some (status, some (n ∷ rest), some key) ↦ elim (entries fuel list (some (n ∷ rest))) [
    | none ↦ none
    | some es ↦ some ((key, rest) ∷ es)
  ]
  | some (status, cursor', none) ↦ some []
  | some (status, none, some key) ↦ some []
  | some (status, some [], some key) ↦ some []
]

-- `memcmp(sid, psid, nsid) == 0`, which may read behind a shorter psid; past the end of the list
-- is a fault.
unfoldable pub starts_with : List ℕ → List ℕ → Option Bool
starts_with bytes [] = some true
starts_with [] (x ∷ sid) = none
starts_with (y ∷ bytes) (x ∷ sid) =
    let rest = starts_with bytes sid in if y == x then rest else some false

-- A key of an aborted session, where the lease in conflict is kept apart.
unfoldable pub abort_key : ℕ → List ℕ → Key → M (Unit {0})
abort_key o psid tkey = do
  tcolease_it ← get_co_lease tkey
  whenever tcolease_it (λ t. do
    when (not (t == o)) (do
      listed ← lists_key (some t) psid
      when listed (remove_sid_colease (some t) tkey psid)
      tlease_it ← get_lease tkey
      drop_item tlease_it)
    item_remove t)

-- `sess_status = ABORT`
unfoldable pub set_aborted : ℕ → M (Unit {0})
set_aborted a = do it ← load a; store a (record it { aborted = true })

-- One session of the lease: another one is aborted, and its other leases go.
unfoldable pub abort_session : ℕ → List ℕ → Key × List ℕ → M (Unit {0})
abort_session o sid (psid, bytes) = do
  psess_it ← item_get psid
  whenever psess_it (λ s. do
    elim (starts_with bytes sid) [
      | none ↦ fault
      | some same ↦ when (not same) (set_aborted s >> for_keys s (abort_key o psid))
    ]
    item_remove s)

unfoldable pub for_entries : List (Key × List ℕ) → (Key × List ℕ → M (Unit {0})) → M (Unit {0})
for_entries [] body = pure tt
for_entries (e ∷ rest) body = body e >> for_entries rest body

-- `abort_sessions`
unfoldable pub abort_sessions : ℕ → List ℕ → M (Unit {0})
abort_sessions o sid = do
  oi ← load o
  elim (entries (suc (length oi.value)) oi.value none) [
    | none ↦ fault
    | some es ↦ for_entries es (abort_session o sid)
  ]

-- One round of the loop of `clean_session`, and of that of `item_co_unlease`.
unfoldable pub clean_key : List ℕ → Key → M (Unit {0})
clean_key sid key = do
  lease_it ← get_lease key
  drop_item lease_it
  colease_it ← get_co_lease key
  whenever colease_it (λ o. remove_sid_colease (some o) key sid >> item_remove o)
  pv_it ← get_pending_version key
  drop_item pv_it

-- `clean_session`
unfoldable pub clean_session : List ℕ → M (Unit {0})
clean_session sid = do
  sess_it ← item_get sid
  whenever sess_it (λ s. do
    si ← load s
    (if si.aborted then drop_session s else (for_keys s (clean_key sid) >> drop_session s)))
