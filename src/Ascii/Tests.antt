-- ===== src/Ascii/Tests.antt =====
-- The tokens of short commands, and a short answer.
use rejig.Ascii.Request.{codes}
use rejig.Ascii.Writers.{get_answer}
use rejig.Items.Tests.{value_item}
use rejig.Ascii.Reply.{read_hits-get_answer, hit_of, read_hits, Sendable, Free, All}
use rejig.Items.{Item}
use rejig.Prelude.{map, ◌++◌, false, ℕ, List, [], ◌∷◌, ◌≡◌, some, refl, arith}
use rejig.Ascii.{tokenize, read_tokens}
use rejig.Ascii.Words.{words, words_after, begun, Cuts, tokenize-Cuts}
use rejig.Ascii.Batches.{read_tokens-all}

-- `get  ab c`
abbrev command : List ℕ
command = b'g' ∷ b'e' ∷ b't' ∷ b' ' ∷ b' ' ∷ b'a' ∷ b'b' ∷ b' ' ∷ b'c' ∷ []

abbrev three : List (List ℕ)
three = (b'g' ∷ b'e' ∷ b't' ∷ []) ∷ (b'a' ∷ b'b' ∷ []) ∷ (b'c' ∷ []) ∷ []

has_three : words command ≡ three
unfolding words words_after begun
has_three = refl

tokenize-Cuts_example : Cuts command 2 (tokenize command 3) (words command)
tokenize-Cuts_example = tokenize-Cuts command 3 (omega arith)

read_tokens-all_example : read_tokens 10 command ≡ some (words command)
read_tokens-all_example = read_tokens-all command

-- A value that looks like the end of an answer.
abbrev sly : Item
sly = record value_item { value = codes "END" ++ 13 ∷ 10 ∷ [] }

sly-Sendable : Sendable sly
unfolding Free
sly-Sendable = record { one_word = (refl, tt); short = omega arith; unique = omega arith }

read_hits-get_answer_example :
    read_hits 3 (get_answer false (sly ∷ value_item ∷ []))
    ≡ some (map (hit_of false) (sly ∷ value_item ∷ []))
unfolding All Free
read_hits-get_answer_example = read_hits-get_answer false (sly ∷ value_item ∷ []) (
  sly-Sendable,
  (record { one_word = (refl, tt); short = omega arith; unique = omega arith }, tt),
)
