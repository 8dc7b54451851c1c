-- ===== src/Ascii.antt =====
-- The tokens of a command: `asc_tokenize` of IQ-Twemcached/src/mc_ascii.c. A command is its bytes
-- before the '\0', and a pointer into it is an offset.
pub mod Words
pub mod Batches
pub mod Numbers
pub mod Request
pub mod Server
pub mod Arguments
pub mod Reads
pub mod Updates
pub mod Complete
pub mod Leases
pub mod Dispatch
pub mod Keeps
pub mod Stale
pub mod Names
pub mod Writers
pub mod Reply
pub mod Tests
use rejig.Prelude.{
  ℕ, zero, suc, ◌+◌, ◌-◌, Bool, true, false, Option, none, some, List, [], ◌∷◌, ◌==◌, drop, take,
  map, ◌++◌,
}

pub record Token : Type 0 where
  pub val : ℕ
  pub len : ℕ

-- The tokens before the terminal one, and the value of the terminal one, whose length is 0.
pub record Tokens : Type 0 where
  pub tokens : List Token
  pub terminal : Option ℕ

abbrev pub with_token : Token → Tokens → Tokens
with_token t ts = record ts { tokens = t ∷ ts.tokens }

-- The loop of `asc_tokenize` and the terminal token, from the markers `s` and `e`, with room for
-- so many tokens beside the terminal one; the list is the text from `e` on.
unfoldable pub tokenize_loop : ℕ → ℕ → ℕ → List ℕ → Tokens
tokenize_loop s e zero [] = record { tokens = []; terminal = none }
tokenize_loop s e zero (c ∷ text) = record { tokens = []; terminal = some e }
tokenize_loop s e (suc room) [] = record {
  tokens = elim (s == e) [ true ↦ [] | false ↦ record { val = s; len = e - s } ∷ [] ];
  terminal = none;
}
tokenize_loop s e (suc room) (c ∷ text) = elim (c == b' ') [
  | true ↦ elim (s == e) [
    | true ↦ tokenize_loop (e + 1) (e + 1) (suc room) text
    | false ↦ with_token (record { val = s; len = e - s }) (tokenize_loop (e + 1) (e + 1) room text)
  ]
  | false ↦ tokenize_loop s (e + 1) (suc room) text
]

-- `asc_tokenize`, which keeps a place for the terminal token.
unfoldable pub tokenize : List ℕ → ℕ → Tokens
tokenize command ntoken_max = tokenize_loop 0 0 (ntoken_max - 1) command

-- The bytes of a token.
abbrev pub text_of : List ℕ → Token → List ℕ
text_of command t = take t.len (drop t.val command)

-- The text that no token has taken.
abbrev pub unread : List ℕ → Option ℕ → List ℕ
unread command none = []
unread command (some e) = drop e command

-- `TOKEN_MAX`
abbrev pub token_max : ℕ
token_max = 16

abbrev pub texts : List ℕ → Tokens → List (List ℕ)
texts command ts = map (text_of command) ts.tokens

abbrev pub prepend : List (List ℕ) → Option (List (List ℕ)) → Option (List (List ℕ))
prepend ws none = none
prepend ws (some more) = some (ws ++ more)

-- The texts that the loop of `asc_process_read` or `asc_process_delete` goes through, which takes
-- the next tokens from where the last ones stopped; `none` if the rounds run out.
unfoldable pub read_tokens : ℕ → List ℕ → Option (List (List ℕ))
read_tokens zero command = none
read_tokens (suc fuel) command =
    let ts = tokenize command token_max in
    elim ts.terminal [
      | none ↦ some (texts command ts)
      | some e ↦ prepend (texts command ts) (read_tokens fuel (drop e command))
    ]
