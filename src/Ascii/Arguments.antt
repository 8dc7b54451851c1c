-- ===== src/Ascii/Arguments.antt =====
-- The tokens of a request as its handlers in IQ-Twemcached/src/mc_ascii.c read them, with the steps
-- that they share.
use rejig.Prelude.{
  ℕ, zero, suc, ◌+◌, ◌-◌, Bool, true, false, ◌&&◌, ◌||◌, none, some, List, [], ◌==◌, ltb, leb,
  length, drop, get_elem?, if◌then◌else◌, ℤ, pos, negsuc,
}
use rejig.Ascii.{Tokens, text_of}
use rejig.Ascii.Numbers.{Libc, mc_strtol, mc_strtoul, mc_strtoll, mc_strtoull}
use rejig.Ascii.Request.{codes, ntoken_valid, strcmp}
use rejig.Ascii.Server.{
  client_error, fail, silent, H, ◌>>=◌, ◌>>◌, pure, fault, finish, write, gets, set_noreply, expect,
  expect_some,
}

-- What a handler gets: the request's text and its tokens.
pub record Request : Type 0 where
  pub command : List ℕ
  pub tokens : Tokens

-- `ntoken`, with the terminal token.
abbrev pub ntoken : Request → ℕ
ntoken req = length req.tokens.tokens + 1

-- `token[i].val` and `token[i].len`. Behind the terminal token nothing is set.
unfoldable pub text_at : Request → ℕ → H (List ℕ)
text_at req i = elim (get_elem? req.tokens.tokens i) [
  | some t ↦ pure (text_of req.command t)
  | none ↦ if i == length req.tokens.tokens then pure [] else fault
]

-- The text from `token[i].val` on, which a call of libc reads; `val` may be NULL.
unfoldable pub rest_at : Request → ℕ → H (List ℕ)
rest_at req i = elim (get_elem? req.tokens.tokens i) [
  | some t ↦ pure (drop t.val req.command)
  | none ↦
      if i == length req.tokens.tokens
      then (elim req.tokens.terminal [ none ↦ fault | some e ↦ pure (drop e req.command) ])
      else fault
]

-- `asc_set_noreply_maybe`: the last token before the terminal one.
unfoldable pub set_noreply_maybe : Request → H (Unit {0})
unfolding strcmp
set_noreply_maybe req = elim (get_elem? req.tokens.tokens (ntoken req - 2)) [
  | none ↦ pure tt
  | some t ↦
      if ltb 1 (ntoken req) && t.len == 7 && strcmp (drop t.val req.command) (codes "noreply")
      then set_noreply
      else pure tt
]

-- The test of `asc_ntoken_valid`, with which handlers start.
unfoldable pub need_ntoken_valid : Request → H (Unit {0})
unfolding ntoken_valid
need_ntoken_valid req = do
  req_type ← gets (λ w. w.req_type)
  noreply ← gets (λ w. w.noreply)
  expect (ntoken_valid req_type noreply (ntoken req)) client_error

abbrev pub key_max_len : ℕ
key_max_len = 250

abbrev pub tid_max_len : ℕ
tid_max_len = 250

-- A key, of a length that is not too large.
unfoldable pub key_at : Request → ℕ → H (List ℕ)
key_at req i = do key ← text_at req i; expect (leb (length key) key_max_len) client_error; pure key

-- The start of a handler.
unfoldable pub start : Request → H (Unit {0})
start req = do set_noreply_maybe req; need_ntoken_valid req

unfoldable pub is_minus_one : ℤ → Bool
is_minus_one (pos n) = false
is_minus_one (negsuc zero) = true
is_minus_one (negsuc (suc n)) = false

-- Equality of two int32_t.
unfoldable pub same_int : ℤ → ℤ → Bool
same_int (pos m) (pos n) = m == n
same_int (pos m) (negsuc n) = false
same_int (negsuc m) (pos n) = false
same_int (negsuc m) (negsuc n) = m == n

-- `asc_check_config`, with what callers do on -1: some throw the data line away, and all return.
-- That is without a text where the server's number is -1 itself.
unfoldable pub check_config : H (Unit {0}) → ℤ → H ℤ
unfolding is_minus_one same_int
check_config at_failure client_configuration_number = do
  server_config ← gets (λ w. w.configuration_number)
  (if is_minus_one client_configuration_number || same_int client_configuration_number server_config
      then (if is_minus_one server_config
          then (at_failure >> finish silent)
          else pure server_config)
      else (at_failure >> write fail))

-- The number that a request may give in place of the server's.
abbrev pub override_config : ℤ → ℤ → ℤ
override_config next_fragment_cfg_id server_config =
    if is_minus_one next_fragment_cfg_id then server_config else next_fragment_cfg_id

module _ (libc : Libc) (req : Request) where
  unfoldable pub int32_at : ℕ → H ℤ
  int32_at i = do str ← rest_at req i; expect_some (mc_strtol libc str) client_error

  unfoldable pub uint32_at : ℕ → H ℕ
  uint32_at i = do str ← rest_at req i; expect_some (mc_strtoul libc str) client_error

  unfoldable pub int64_at : ℕ → H ℤ
  int64_at i = do str ← rest_at req i; expect_some (mc_strtoll libc str) client_error

  unfoldable pub uint64_at : ℕ → H ℕ
  uint64_at i = do str ← rest_at req i; expect_some (mc_strtoull libc str) client_error

  -- The configuration number of the client, and the check.
  unfoldable pub configured : H (Unit {0})
  configured = do
    client_configuration_number ← int32_at 1
    _ ← check_config (pure tt) client_configuration_number
    pure tt
