-- ===== src/Ascii/Keeps/Reading.antt =====
-- The requests that read keep the hash and the items in agreement
-- (IQ-Twemcached/src/mc_ascii.c).
use rejig.Items.Coherent.Storing.{item_get-Keep}
use rejig.Items.Coherent.Linking.{item_touch-Keep, item_remove-Keep}
use rejig.Items.Iqget.{IqResult}
use rejig.Items.Coherent.Leasing.{item_iqget-Keep}
use rejig.Items.Coherent.Updating.{quarantine_and_read-Keep}
use rejig.Items.Session.{CoResult}
use rejig.Items.Coherent.Reading.{item_oqread-Keep, item_ciget-Keep}
use rejig.Items.Coherent.{load-Keep}
use rejig.Ascii.Reads.{
  texts_from, process_ciget, process_iqget, check_keys, process_qaread, answer_iqget, process_check,
  answer_ciget_ok, item_of, process_oqread, answer_ciget, remove_some, process_iset, answer_lease,
  read_keys, process_read, answer_oqread,
}
use rejig.Ascii.Numbers.{Libc}
use rejig.Prelude.{none, zero, drop, suc, length, [], ◌++◌, ◌+◌, ◌∷◌, some, Option, List, ℕ}
use rejig.Ascii.Arguments.{Request}
use rejig.Ascii.{read_tokens}
use rejig.Ascii.Keeps.Steps.{step_rules, Keeps-text_at}
use rejig.Ascii.Keeps.{
  Keeps-expect, Keeps-lift, Keeps-bind, Keeps-pure, Keeps-fault, Keeps-option, Keeps,
}

pub Keeps-texts_from : (req : Request) (i : ℕ) → Keeps (texts_from req i)
unfolding texts_from
Keeps-texts_from req i = Keeps-option req.tokens.terminal (Keeps-pure _) (λ e.
    Keeps-option (read_tokens (suc (length req.command)) (drop e req.command)) Keeps-fault
      (λ more. Keeps-pure _))

Keeps-read_keys : (keys : List (List ℕ)) (found : List ℕ) → Keeps (read_keys keys found)
unfolding read_keys
Keeps-read_keys [] found = Keeps-pure found
Keeps-read_keys (key ∷ keys) found = Keeps-bind (Keeps-expect _ _) (λ _.
    Keeps-bind (Keeps-lift _ (item_get-Keep key)) (λ it.
      Keeps-option it (Keeps-read_keys keys found) (λ a.
        Keeps-bind (Keeps-lift _ (item_touch-Keep a))
          (λ _. Keeps-read_keys keys (found ++ a ∷ [])))))

Keeps-remove_some : (it : Option ℕ) → Keeps (remove_some it)
unfolding remove_some
Keeps-remove_some none = Keeps-pure tt
Keeps-remove_some (some a) = Keeps-lift _ (item_remove-Keep a)

pub Keeps-item_of : (it : Option ℕ) → Keeps (item_of it)
unfolding item_of
Keeps-item_of none = Keeps-fault
Keeps-item_of (some a) = Keeps-pure a

ruleset answer_rules = (step_rules, Keeps-remove_some, Keeps-item_of, load-Keep, item_remove-Keep)

Keeps-answer_lease : (it new_token : Option ℕ) → Keeps (answer_lease it new_token)
unfolding answer_lease
Keeps-answer_lease it new_token = search answer_rules depth 20

Keeps-answer_iqget :
    (status : IqResult) (it new_token : Option ℕ) → Keeps (answer_iqget status it new_token)
unfolding answer_iqget
Keeps-answer_iqget IqResult.value it new_token = search answer_rules depth 20
Keeps-answer_iqget IqResult.miss it new_token = Keeps-answer_lease it new_token
Keeps-answer_iqget IqResult.lease it new_token = Keeps-answer_lease it new_token
Keeps-answer_iqget _ it new_token = search answer_rules depth 20

Keeps-answer_ciget_ok : (it : Option ℕ) (token : ℕ) → Keeps (answer_ciget_ok it token)
unfolding answer_ciget_ok
Keeps-answer_ciget_ok none zero = search answer_rules depth 20
Keeps-answer_ciget_ok (some a) zero = search answer_rules depth 20
Keeps-answer_ciget_ok it (suc token) = search answer_rules depth 20

Keeps-answer_ciget :
    (status : CoResult) (it new_token : Option ℕ) → Keeps (answer_ciget status it new_token)
unfolding answer_ciget
Keeps-answer_ciget CoResult.co_ok it new_token = Keeps-answer_ciget_ok it _
Keeps-answer_ciget _ it new_token = search answer_rules depth 20

Keeps-answer_oqread : (status : CoResult) (it : Option ℕ) → Keeps (answer_oqread status it)
unfolding answer_oqread
Keeps-answer_oqread CoResult.co_ok it = search answer_rules depth 20
Keeps-answer_oqread _ it = search answer_rules depth 20

Keeps-check_keys :
    (req : Request) (count i : ℕ) (absent : List (List ℕ)) → Keeps (check_keys req count i absent)
unfolding check_keys
Keeps-check_keys req zero i absent = Keeps-pure absent
Keeps-check_keys req (suc count) i absent = Keeps-bind (Keeps-text_at req i) (λ key.
    Keeps-bind (Keeps-lift _ (item_get-Keep key)) (λ it.
      Keeps-option it (Keeps-check_keys req count (i + 1) (absent ++ key ∷ [])) (λ a.
        Keeps-bind (Keeps-lift _ (item_remove-Keep a))
          (λ _. Keeps-check_keys req count (i + 1) absent))))

module _ (libc : Libc) (req : Request) where
  pub Keeps-process_read : Keeps (process_read libc req)
  unfolding process_read
  Keeps-process_read = search (step_rules, Keeps-texts_from, Keeps-read_keys) depth 40

  pub Keeps-process_iqget : Keeps (process_iqget libc req)
  unfolding process_iqget
  Keeps-process_iqget = search (step_rules, item_iqget-Keep, Keeps-answer_iqget) depth 40

  pub Keeps-process_iset : Keeps (process_iset libc req)
  unfolding process_iset
  Keeps-process_iset = search (step_rules, item_iqget-Keep, Keeps-answer_iqget) depth 40

  pub Keeps-process_ciget : Keeps (process_ciget libc req)
  unfolding process_ciget
  Keeps-process_ciget = search (step_rules, item_ciget-Keep, Keeps-answer_ciget) depth 40

  pub Keeps-process_oqread : Keeps (process_oqread libc req)
  unfolding process_oqread
  Keeps-process_oqread = search (step_rules, item_oqread-Keep, Keeps-answer_oqread) depth 40

  pub Keeps-process_qaread : Keeps (process_qaread libc req)
  unfolding process_qaread
  Keeps-process_qaread = search (step_rules, quarantine_and_read-Keep) depth 40

  pub Keeps-process_check : Keeps (process_check libc req)
  unfolding process_check
  Keeps-process_check = search (step_rules, Keeps-check_keys) depth 40
