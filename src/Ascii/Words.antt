-- ===== src/Ascii/Words.antt =====
-- The tokens are the words of the command, in order, as many as there is room for.
use rejig.Prelude.{
  inr, inl, none, Bool-cases, ap₂, length-append, drop-append_length, append_assoc, ℕ, zero, suc,
  ◌+◌, ◌-◌, ◌≤◌, ◌<◌, true, false, some, List, [], ◌∷◌, ◌++◌, ◌==◌, drop, map, length, ◌≡◌, refl,
  sym, ap, ◌∙◌, arith, take-append_length, none-some,
}
use rejig.Ascii.{tokenize, with_token, Tokens, tokenize_loop, text_of, unread}

-- The words of a text behind a word that has begun: what stands between blanks and is not empty.
unfoldable pub begun : List ℕ → List (List ℕ) → List (List ℕ)
begun [] rest = rest
begun (c ∷ word) rest = (c ∷ word) ∷ rest

unfoldable pub words_after : List ℕ → List ℕ → List (List ℕ)
words_after word [] = begun word []
words_after word (c ∷ text) = elim (c == b' ') [
  | true ↦ begun word (words_after [] text)
  | false ↦ words_after (word ++ c ∷ []) text
]

unfoldable pub words : List ℕ → List (List ℕ)
words text = words_after [] text

-- The tokens and the words of the unread text are all words; the unread text is empty or there is
-- no room left.
pub record Cuts (command : List ℕ) (room : ℕ) (ts : Tokens) (all : List (List ℕ)) : Type 0 where
  pub covered : map (text_of command) ts.tokens ++ words (unread command ts.terminal) ≡ all
  pub few : length ts.tokens ≤ room
  pub full : (e : ℕ) → ts.terminal ≡ some e → length ts.tokens ≡ room

drop-nil : (n : ℕ) → drop {A = ℕ} n [] ≡ []
drop-nil zero = refl
drop-nil (suc n) = refl

drop-drop : (n m : ℕ) (text : List ℕ) → drop (n + m) text ≡ drop m (drop n text)
drop-drop zero m text = let z : 0 + m ≡ m = omega arith in rw z
drop-drop (suc n) m [] = drop-nil (suc n + m) ∙ sym (drop-nil m)
drop-drop (suc n) m (c ∷ text) =
    let z : suc n + m ≡ suc (n + m) = omega arith in rw z (drop-drop n m text)

drop_more :
    (n m : ℕ) (command text rest : List ℕ)
    → drop n command ≡ text
    → drop m text ≡ rest
    → drop (n + m) command ≡ rest
drop_more n m command text rest e f = drop-drop n m command ∙ ap (drop m) e ∙ f

-- A token that is cut off at `e`.
cut-text :
    (s e : ℕ) (command word rest : List ℕ)
    → drop s command ≡ word ++ rest
    → e ≡ s + length word
    → text_of command (record { val = s; len = e - s }) ≡ word
cut-text s e command word rest here at =
    let n : e - s ≡ length word = omega (arith, at) in rw (n, here) (take-append_length word rest)

stop-Cuts :
    (s e : ℕ) (command rest : List ℕ)
    → drop e command ≡ rest
    → Cuts command 0 (tokenize_loop s e 0 rest) (words_after [] rest)
unfolding tokenize_loop words
stop-Cuts s e command [] here = record {
  covered = refl;
  few = ground arith;
  full = λ a x. absurd (none-some a x);
}
stop-Cuts s e command (c ∷ rest) here = record {
  covered = rw here refl;
  few = ground arith;
  full = λ a x. refl;
}

-- The text that stands at `e`, where a word has begun at `s`.
record At (command word rest : List ℕ) (s e : ℕ) : Type 0 where
  begins : drop s command ≡ word ++ rest
  ends : e ≡ s + length word

At-blank :
    (command word rest : List ℕ) (s e c : ℕ)
    → At command word (c ∷ rest) s e
    → At command [] rest (e + 1) (e + 1)
At-blank command word rest s e c at = record {
  begins =
      drop_more e 1 command (c ∷ rest) rest
        (rw at.ends
          (drop_more s (length word) command _ _ at.begins (drop-append_length word (c ∷ rest))))
        refl;
  ends = omega arith;
}

At-letter :
    (command word rest : List ℕ) (s e c : ℕ)
    → At command word (c ∷ rest) s e
    → At command (word ++ c ∷ []) rest s (e + 1)
At-letter command word rest s e c at = record {
  begins = at.begins ∙ sym (append_assoc word (c ∷ []) rest);
  ends = omega (arith, at.ends, length-append word (c ∷ []));
}

with_token-Cuts :
    (s e room : ℕ) (command word rest : List ℕ) (ts : Tokens) (all : List (List ℕ))
    → At command word rest s e
    → Cuts command room ts all
    → Cuts command (suc room) (with_token (record { val = s; len = e - s }) ts) (word ∷ all)
with_token-Cuts s e room command word rest ts all at cuts = record {
  covered = ap₂ (λ w ws. w ∷ ws) (cut-text s e command word rest at.begins at.ends) cuts.covered;
  few = omega (arith, cuts.few);
  full = λ a x. ap suc (cuts.full a x);
}

no_word :
    (s e : ℕ) (command word rest : List ℕ)
    → At command word rest s e
    → (s == e) ≡ true
    → (all : List (List ℕ)) → begun word all ≡ all
unfolding begun
no_word s e command [] rest at t all = refl
no_word s e command (x ∷ word) rest at t all = absurd (ground (arith, at.ends, t))

begun_word :
    (s e : ℕ) (command word rest : List ℕ)
    → At command word rest s e
    → (s == e) ≡ false
    → (all : List (List ℕ)) → begun word all ≡ word ∷ all
unfolding begun
begun_word s e command [] rest at f all = absurd (ground (arith, at.ends, f))
begun_word s e command (x ∷ word) rest at f all = refl

any_room-Cuts :
    (room e : ℕ) (command rest : List ℕ)
    → At command [] rest e e
    → ((r : ℕ) → Cuts command (suc r) (tokenize_loop e e (suc r) rest) (words_after [] rest))
    → Cuts command room (tokenize_loop e e room rest) (words_after [] rest)
any_room-Cuts zero e command rest at more = stop-Cuts e e command rest at.begins
any_room-Cuts (suc room) e command rest at more = more room

nothing-Cuts :
    (room : ℕ) (command : List ℕ) → Cuts command room (record { tokens = []; terminal = none }) []
unfolding words words_after begun
nothing-Cuts room command = record {
  covered = refl;
  few = omega arith;
  full = λ a x. absurd (none-some a x);
}

tokenize_loop-Cuts :
    (rest command word : List ℕ) (s e : ℕ)
    → At command word rest s e
    → (room : ℕ)
    → Cuts command (suc room) (tokenize_loop s e (suc room) rest) (words_after word rest)
unfolding tokenize_loop words_after
tokenize_loop-Cuts [] command word s e at room = elim (Bool-cases (s == e)) [
  | inl t ↦ rw (t, no_word s e command word [] at t []) (nothing-Cuts (suc room) command)
  | inr f ↦
      rw (f, begun_word s e command word [] at f [])
        (with_token-Cuts s e room command word [] _ [] at (nothing-Cuts room command))
]
tokenize_loop-Cuts (c ∷ rest) command word s e at room = elim (Bool-cases (c == b' ')) [
  | inr l ↦
      rw (tokenize_loop, words_after, l)
        (tokenize_loop-Cuts rest command (word ++ c ∷ []) s (e + 1)
          (At-letter command word rest s e c at) room)
  | inl b ↦
      let next = At-blank command word rest s e c at in
      let more = tokenize_loop-Cuts rest command [] (e + 1) (e + 1) next in
      elim (Bool-cases (s == e)) [
        | inl t ↦
            rw
              (
                tokenize_loop,
                words_after,
                b,
                t,
                no_word s e command word (c ∷ rest) at t (words_after [] rest),
              )
              (more room)
        | inr f ↦
            rw
              (
                tokenize_loop,
                words_after,
                b,
                f,
                begun_word s e command word (c ∷ rest) at f (words_after [] rest),
              )
              (with_token-Cuts s e room command word (c ∷ rest) _ _ at
                (any_room-Cuts room (e + 1) command rest next more))
      ]
]

-- The tokens of a command of more than one place are its words, in order and whole, as many as
-- there is room for beside the terminal token: with the words of the text that they leave unread
-- they are all words, and where the terminal token points to such a text, no place is left.
pub tokenize-Cuts :
    (command : List ℕ) (ntoken_max : ℕ)
    → 1 < ntoken_max
    → Cuts command (ntoken_max - 1) (tokenize command ntoken_max) (words command)
unfolding tokenize words
tokenize-Cuts command ntoken_max h =
    let n : ntoken_max - 1 ≡ suc (ntoken_max - 2) = omega arith in
    rw n (
      tokenize_loop-Cuts command command [] 0 0 (record { begins = refl; ends = omega arith })
        (ntoken_max - 2))
