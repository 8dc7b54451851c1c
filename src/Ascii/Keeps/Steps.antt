-- ===== src/Ascii/Keeps/Steps.antt =====
-- The steps that requests share keep the hash and the items in agreement
-- (IQ-Twemcached/src/mc_ascii.c).
use rejig.Ascii.Server.{fail, silent, H}
use rejig.Ascii.Numbers.{Libc}
use rejig.Prelude.{ℤ, get_elem?, ◌==◌, ◌-◌, length, drop, ℕ}
use rejig.Ascii.Arguments.{
  uint32_at, int32_at, uint64_at, int64_at, configured, check_config, Request, ntoken, text_at,
  rest_at, set_noreply_maybe, need_ntoken_valid, key_at, start,
}
use rejig.Ascii.Keeps.{
  Keeps-bind, Keeps-pure, Keeps-fault, Keeps-gets, Keeps-finish, Keeps-write, Keeps-if,
  Keeps-option, Keeps, keeps_rules,
}

pub Keeps-text_at : (req : Request) (i : ℕ) → Keeps (text_at req i)
unfolding text_at
Keeps-text_at req i =
    Keeps-option (get_elem? req.tokens.tokens i) (search keeps_rules) (λ t. search keeps_rules)

pub Keeps-rest_at : (req : Request) (i : ℕ) → Keeps (rest_at req i)
unfolding rest_at
Keeps-rest_at req i =
    Keeps-option (get_elem? req.tokens.tokens i)
      (Keeps-if (i == length req.tokens.tokens)
        (Keeps-option req.tokens.terminal Keeps-fault (λ e. Keeps-pure (drop e req.command)))
        Keeps-fault)
      (λ t. search keeps_rules)

pub Keeps-set_noreply_maybe : (req : Request) → Keeps (set_noreply_maybe req)
unfolding set_noreply_maybe
Keeps-set_noreply_maybe req =
    Keeps-option (get_elem? req.tokens.tokens (ntoken req - 2)) (search keeps_rules)
      (λ t. search keeps_rules)

pub Keeps-need_ntoken_valid : (req : Request) → Keeps (need_ntoken_valid req)
unfolding need_ntoken_valid
Keeps-need_ntoken_valid req = search keeps_rules

pub Keeps-key_at : (req : Request) (i : ℕ) → Keeps (key_at req i)
unfolding key_at
Keeps-key_at req i = search (keeps_rules, Keeps-text_at)

pub Keeps-start : (req : Request) → Keeps (start req)
unfolding start
Keeps-start req = search (keeps_rules, Keeps-set_noreply_maybe, Keeps-need_ntoken_valid)

pub Keeps-check_config : {m : H (Unit {0})} (n : ℤ) → Keeps m → Keeps (check_config m n)
unfolding check_config
Keeps-check_config n k = Keeps-bind (Keeps-gets _) (λ s.
    Keeps-if _ (Keeps-if _ (Keeps-bind k (λ _. Keeps-finish silent)) (Keeps-pure s))
      (Keeps-bind k (λ _. Keeps-write fail)))

module _ (libc : Libc) (req : Request) (i : ℕ) where
  pub Keeps-int32_at : Keeps (int32_at libc req i)
  unfolding int32_at
  Keeps-int32_at = search (keeps_rules, Keeps-rest_at)

  pub Keeps-uint32_at : Keeps (uint32_at libc req i)
  unfolding uint32_at
  Keeps-uint32_at = search (keeps_rules, Keeps-rest_at)

  pub Keeps-int64_at : Keeps (int64_at libc req i)
  unfolding int64_at
  Keeps-int64_at = search (keeps_rules, Keeps-rest_at)

  pub Keeps-uint64_at : Keeps (uint64_at libc req i)
  unfolding uint64_at
  Keeps-uint64_at = search (keeps_rules, Keeps-rest_at)

pub Keeps-configured : (libc : Libc) (req : Request) → Keeps (configured libc req)
unfolding configured
Keeps-configured libc req = search (keeps_rules, Keeps-int32_at, Keeps-check_config)

pub ruleset step_rules = (
  keeps_rules, Keeps-text_at, Keeps-key_at, Keeps-start, Keeps-need_ntoken_valid,
  Keeps-check_config, Keeps-int32_at, Keeps-uint32_at, Keeps-int64_at, Keeps-uint64_at,
  Keeps-configured,
)
