-- ===== src/Ascii/Batches.antt =====
-- A request of more words than a token array holds.
use rejig.Prelude.{
  ℕ, zero, suc, ◌+◌, ◌<◌, ◌≤◌, Bool-cases, inl, inr, Option-cases, some, none, List, [], ◌∷◌, ◌++◌,
  ◌==◌, length, drop, ◌≡◌, refl, sym, ap, ◌∙◌, arith, append-nil, length-append, length-map,
}
use rejig.Ascii.{Tokens, unread, tokenize, read_tokens, texts, text_of, token_max}
use rejig.Ascii.Words.{words, words_after, begun, Cuts, tokenize-Cuts}

begun-length :
    (word : List ℕ) (all : List (List ℕ)) → length (begun word all) ≤ length word + length all
unfolding begun
begun-length [] all = omega arith
begun-length (c ∷ word) all = omega arith

words_after-length :
    (text word : List ℕ) → length (words_after word text) ≤ length word + length text
unfolding words_after
words_after-length [] word = begun-length word []
words_after-length (c ∷ text) word = elim (Bool-cases (c == b' ')) [
  | inl t ↦
      rw (words_after, t)
        (omega (arith, words_after-length text [], begun-length word (words_after [] text)))
  | inr f ↦
      rw (words_after, f)
        (omega (arith, words_after-length text (word ++ c ∷ []), length-append word (c ∷ [])))
]

words_nil : words [] ≡ []
unfolding words words_after begun
words_nil = refl

module _ (command : List ℕ) (ts : Tokens) (cuts : Cuts command 15 ts (words command)) where
  last_batch : ts.terminal ≡ none → texts command ts ≡ words command
  last_batch n =
      let all : texts command ts ++ words [] ≡ words command =
        ap (λ t. texts command ts ++ words (unread command t)) (sym n) ∙ cuts.covered in
      sym (append-nil (texts command ts)) ∙ ap (λ ws. texts command ts ++ ws) (sym words_nil) ∙ all

  module _ (e : ℕ) (s : ts.terminal ≡ some e) where
    batch : texts command ts ++ words (drop e command) ≡ words command
    batch = ap (λ t. texts command ts ++ words (unread command t)) (sym s) ∙ cuts.covered

    batch-length : length (words command) ≡ 15 + length (words (drop e command))
    batch-length =
        ap length (sym batch)
        ∙ length-append (texts command ts) (words (drop e command))
        ∙ ap (λ n. n + length (words (drop e command)))
            (length-map ts.tokens (text_of command) ∙ cuts.full e s)

read_tokens-words :
    (fuel : ℕ) (command : List ℕ)
    → length (words command) < fuel
    → read_tokens fuel command ≡ some (words command)
unfolding read_tokens
read_tokens-words zero command h = absurd (omega arith)
read_tokens-words (suc fuel) command h =
    let ts = tokenize command token_max in
    let cuts : Cuts command 15 ts (words command) = tokenize-Cuts command token_max (omega arith) in
    elim (Option-cases ts.terminal) [
      | inl n ↦ rw (read_tokens, n) (ap some (last_batch command ts cuts n))
      | inr (e, s) ↦
          let rest =
            read_tokens-words fuel (drop e command)
              (omega (arith, batch-length command ts cuts e s)) in
          rw (read_tokens, s, rest) (ap some (batch command ts cuts e s))
    ]

-- A request is read to its end, however many token arrays it takes: as many rounds as it has
-- bytes, and one more, go through all of its words, in order, each once.
pub read_tokens-all :
    (command : List ℕ) → read_tokens (suc (length command)) command ≡ some (words command)
unfolding words
read_tokens-all command =
    read_tokens-words (suc (length command)) command (omega (arith, words_after-length command []))
