-- ===== src/Ascii/Keeps/Leasing.antt =====
-- The requests on values, leases, transactions and sessions that bring no value keep the hash and
-- the items in agreement (IQ-Twemcached/src/mc_ascii.c).
use rejig.Prelude.{ℕ, Bool, List, [], ◌∷◌, Option, none, some, zero, suc, ◌+◌}
use rejig.Items.Store.{StoreResult}
use rejig.Items.Iqget.{IqResult}
use rejig.Items.Session.{CoResult}
use rejig.Items.Trans.Incr.{DeltaResult}
use rejig.Ascii.Numbers.{Libc}
use rejig.Ascii.Arguments.{Request}
use rejig.Ascii.Leases.{
  answer_delta, delete_keys, answer_delete, answer_iqincr, answer_oqincr, answer_commit,
  answer_release, answer_session, answer_co_unlease, answer_validate, ftrans_keys,
  process_arithmetic, process_delete, process_unlease, process_qareg, process_dar,
  process_iqincr_iqdecr, process_oqincr_oqdecr, process_commit, process_release, process_dcommit,
  process_co_unlease, process_oqreg, process_validate, process_ftrans,
}
use rejig.Items.Coherent.Counting.{item_add_delta-Keep, item_iqupdate-Keep}
use rejig.Items.Coherent.Listing.{
  quarantine_and_register-Keep, get_and_unlease-Keep, get_and_delete-Keep,
}
use rejig.Items.Coherent.Finishing.{delete_and_release-Keep, item_commit-Keep, item_release-Keep}
use rejig.Items.Coherent.Writing.{item_oqreg-Keep, item_oqincr-Keep}
use rejig.Items.Coherent.Ending.{item_dcommit-Keep, item_validate-Keep, item_co_unlease-Keep}
use rejig.Items.Coherent.Marking.{item_ftrans-Keep}
use rejig.Ascii.Keeps.{
  Keeps, Keeps-lift, Keeps-bind, Keeps-pure, Keeps-write, Keeps-finish, Keeps-fault, Keeps-expect,
}
use rejig.Ascii.Keeps.Steps.{step_rules, Keeps-text_at}
use rejig.Ascii.Keeps.Reading.{Keeps-texts_from}

Keeps-answer_delta : (r : DeltaResult) → Keeps (answer_delta r)
unfolding answer_delta
Keeps-answer_delta DeltaResult.ok = Keeps-write _
Keeps-answer_delta _ = Keeps-write _

Keeps-delete_keys :
    (delete_lease : Bool) (keys : List (List ℕ)) (res : Option StoreResult)
    → Keeps (delete_keys delete_lease keys res)
unfolding delete_keys
Keeps-delete_keys delete_lease [] res = Keeps-pure res
Keeps-delete_keys delete_lease (key ∷ keys) res = Keeps-bind (Keeps-expect _ _) (λ _.
    Keeps-bind (Keeps-lift _ (get_and_delete-Keep key delete_lease))
      (λ r. Keeps-delete_keys delete_lease keys (some r)))

Keeps-answer_delete : (res : Option StoreResult) → Keeps (answer_delete res)
unfolding answer_delete
Keeps-answer_delete none = Keeps-fault
Keeps-answer_delete (some StoreResult.exists) = Keeps-write _
Keeps-answer_delete (some _) = Keeps-write _

Keeps-answer_iqincr : (r : IqResult) (pending token : ℕ) → Keeps (answer_iqincr r pending token)
unfolding answer_iqincr
Keeps-answer_iqincr IqResult.lease pending token = Keeps-finish _
Keeps-answer_iqincr IqResult.lease_no_value pending token = Keeps-finish _
Keeps-answer_iqincr IqResult.client_error pending token = Keeps-write _
Keeps-answer_iqincr IqResult.server_error pending token = Keeps-write _
Keeps-answer_iqincr IqResult.abort pending token = Keeps-write _
Keeps-answer_iqincr _ pending token = Keeps-fault

Keeps-answer_oqincr : (r : CoResult) (val : Option ℕ) → Keeps (answer_oqincr r val)
unfolding answer_oqincr
Keeps-answer_oqincr CoResult.co_ok none = Keeps-fault
Keeps-answer_oqincr CoResult.co_ok (some val) = Keeps-finish _
Keeps-answer_oqincr CoResult.co_novalue val = Keeps-finish _
Keeps-answer_oqincr CoResult.co_abort val = Keeps-write _
Keeps-answer_oqincr _ val = Keeps-fault

Keeps-answer_commit : (r : IqResult) → Keeps (answer_commit r)
unfolding answer_commit
Keeps-answer_commit IqResult.ok = Keeps-write _
Keeps-answer_commit _ = Keeps-write _

Keeps-answer_release : (r : IqResult) → Keeps (answer_release r)
unfolding answer_release
Keeps-answer_release IqResult.ok = Keeps-write _
Keeps-answer_release IqResult.not_found = Keeps-write _
Keeps-answer_release _ = Keeps-finish _

Keeps-answer_session : (r : CoResult) → Keeps (answer_session r)
unfolding answer_session
Keeps-answer_session CoResult.co_ok = Keeps-write _
Keeps-answer_session _ = Keeps-write _

Keeps-answer_co_unlease : (r : CoResult) → Keeps (answer_co_unlease r)
unfolding answer_co_unlease
Keeps-answer_co_unlease CoResult.co_ok = Keeps-write _
Keeps-answer_co_unlease _ = Keeps-write _

Keeps-answer_validate : (r : CoResult) → Keeps (answer_validate r)
unfolding answer_validate
Keeps-answer_validate CoResult.co_ok = Keeps-write _
Keeps-answer_validate _ = Keeps-write _

Keeps-ftrans_keys :
    (req : Request) (tid : List ℕ) (count i : ℕ) → Keeps (ftrans_keys req tid count i)
unfolding ftrans_keys
Keeps-ftrans_keys req tid zero i = Keeps-pure tt
Keeps-ftrans_keys req tid (suc count) i = Keeps-bind (Keeps-text_at req i) (λ key.
    Keeps-bind (Keeps-lift _ (item_ftrans-Keep tid key))
      (λ _. Keeps-ftrans_keys req tid count (i + 1)))

module _ (libc : Libc) (req : Request) where
  pub Keeps-process_arithmetic : (incr : Bool) → Keeps (process_arithmetic libc req incr)
  unfolding process_arithmetic
  Keeps-process_arithmetic incr =
      search (step_rules, item_add_delta-Keep, Keeps-answer_delta) depth 40

  pub Keeps-process_delete : Keeps (process_delete libc req)
  unfolding process_delete
  Keeps-process_delete =
      search (step_rules, Keeps-texts_from, Keeps-delete_keys, Keeps-answer_delete) depth 40

  pub Keeps-process_unlease : Keeps (process_unlease libc req)
  unfolding process_unlease
  Keeps-process_unlease = search (step_rules, get_and_unlease-Keep) depth 40

  pub Keeps-process_qareg : Keeps (process_qareg libc req)
  unfolding process_qareg
  Keeps-process_qareg = search (step_rules, quarantine_and_register-Keep) depth 40

  pub Keeps-process_dar : Keeps (process_dar libc req)
  unfolding process_dar
  Keeps-process_dar = search (step_rules, delete_and_release-Keep) depth 40

  pub Keeps-process_iqincr_iqdecr : (incr : Bool) → Keeps (process_iqincr_iqdecr libc req incr)
  unfolding process_iqincr_iqdecr
  Keeps-process_iqincr_iqdecr incr =
      search (step_rules, item_iqupdate-Keep, Keeps-answer_iqincr) depth 40

  pub Keeps-process_oqincr_oqdecr : (incr : Bool) → Keeps (process_oqincr_oqdecr libc req incr)
  unfolding process_oqincr_oqdecr
  Keeps-process_oqincr_oqdecr incr =
      search (step_rules, item_oqincr-Keep, Keeps-answer_oqincr) depth 40

  pub Keeps-process_commit : Keeps (process_commit libc req)
  unfolding process_commit
  Keeps-process_commit = search (step_rules, item_commit-Keep, Keeps-answer_commit) depth 40

  pub Keeps-process_release : Keeps (process_release libc req)
  unfolding process_release
  Keeps-process_release = search (step_rules, item_release-Keep, Keeps-answer_release) depth 40

  pub Keeps-process_dcommit : Keeps (process_dcommit libc req)
  unfolding process_dcommit
  Keeps-process_dcommit = search (step_rules, item_dcommit-Keep, Keeps-answer_session) depth 40

  pub Keeps-process_co_unlease : Keeps (process_co_unlease libc req)
  unfolding process_co_unlease
  Keeps-process_co_unlease =
      search (step_rules, item_co_unlease-Keep, Keeps-answer_co_unlease) depth 40

  pub Keeps-process_oqreg : Keeps (process_oqreg libc req)
  unfolding process_oqreg
  Keeps-process_oqreg = search (step_rules, item_oqreg-Keep, Keeps-answer_session) depth 40

  pub Keeps-process_validate : Keeps (process_validate libc req)
  unfolding process_validate
  Keeps-process_validate = search (step_rules, item_validate-Keep, Keeps-answer_validate) depth 40

  pub Keeps-process_ftrans : Keeps (process_ftrans libc req)
  unfolding process_ftrans
  Keeps-process_ftrans = search (step_rules, Keeps-ftrans_keys) depth 40
