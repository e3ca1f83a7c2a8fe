-- ===== src/Monitor/Collectors/Quote.antt =====
-- Quoting arguments for a shell (monitor/pr-monitor/src/collectors.ts).
use mathlib.Core.Option
use robotics_pacific_rim.Base.{
  ℕ, ◌≡◌, refl, sym, ap, ◌∙◌, inl, inr, true, false, Option, none, some, List, [], ◌∷◌, ◌++◌, map,
  append_assoc, append-nil, ◌==◌, if◌then◌else◌, ==_iff, Bool-cases, Text, text, join,
}

abbrev quote_unit : ℕ
quote_unit = 39

abbrev backslash : ℕ
backslash = 92

-- `replaceAll("'", "'\\''")`.
unfoldable pub escape_quotes : Text → Text
escape_quotes [] = []
escape_quotes (c ∷ s) =
    let rest = escape_quotes s in
    if c == quote_unit then quote_unit ∷ backslash ∷ quote_unit ∷ quote_unit ∷ rest else c ∷ rest

unfoldable pub shell_single_quote : Text → Text
shell_single_quote value = quote_unit ∷ (escape_quotes value ++ quote_unit ∷ [])

unfoldable pub shell_quote : List Text → Text
shell_quote args = join (text " ") (map shell_single_quote args)

-- Where a shell stands in its input: between words, in a word, behind a backslash, or in quotes.
pub data Place : Type 0 where
  between in_word escaped quoted : Place

-- The words that a POSIX shell reads from blanks, single quotes and backslashes; none where the
-- input has any other unit outside quotes, or ends within quotes.
unfoldable pub shell_words : Place → Text → Text → Option (List Text)
shell_words between word [] = some []
shell_words in_word word [] = some (word ∷ [])
shell_words escaped word [] = none
shell_words quoted word [] = none
shell_words between word (c ∷ s) =
    if c == b' '
    then shell_words between [] s
    else if c == quote_unit
    then shell_words quoted [] s
    else if c == backslash
    then shell_words escaped [] s
    else none
shell_words in_word word (c ∷ s) =
    if c == b' '
    then Option.map (λ words. word ∷ words) (shell_words between [] s)
    else if c == quote_unit
    then shell_words quoted word s
    else if c == backslash
    then shell_words escaped word s
    else none
shell_words escaped word (c ∷ s) = shell_words in_word (word ++ c ∷ []) s
shell_words quoted word (c ∷ s) =
    if c == quote_unit then shell_words in_word word s else shell_words quoted (word ++ c ∷ []) s

escape_quotes-quote :
    (c : ℕ) (s : Text)
    → (c == quote_unit) ≡ true
    → escape_quotes (c ∷ s) ≡ quote_unit ∷ backslash ∷ quote_unit ∷ quote_unit ∷ escape_quotes s
unfolding escape_quotes
escape_quotes-quote c s e = rw e refl

escape_quotes-plain :
    (c : ℕ) (s : Text) → (c == quote_unit) ≡ false → escape_quotes (c ∷ s) ≡ c ∷ escape_quotes s
unfolding escape_quotes
escape_quotes-plain c s e = rw e refl

quoted-plain :
    (word : Text) (c : ℕ) (s : Text)
    → (c == quote_unit) ≡ false
    → shell_words quoted word (c ∷ s) ≡ shell_words quoted (word ++ c ∷ []) s
unfolding shell_words
quoted-plain word c s e = rw e refl

-- Within quotes, an escaped quote is read as a quote.
quoted-quote :
    (word s : Text)
    → shell_words quoted word (quote_unit ∷ backslash ∷ quote_unit ∷ quote_unit ∷ s)
      ≡ shell_words quoted (word ++ quote_unit ∷ []) s
unfolding shell_words
quoted-quote word s = refl

quoted-end :
    (word rest : Text)
    → shell_words quoted word (quote_unit ∷ rest) ≡ shell_words in_word (word ++ []) rest
unfolding shell_words
quoted-end word rest = rw (append-nil word) refl

escape_nil :
    (word rest : Text)
    → shell_words quoted word (escape_quotes [] ++ quote_unit ∷ rest)
      ≡ shell_words in_word (word ++ []) rest
unfolding escape_quotes
escape_nil word rest = quoted-end word rest

between-start :
    (s rest : Text)
    → shell_words between [] ((quote_unit ∷ s) ++ rest) ≡ shell_words quoted [] (s ++ rest)
unfolding shell_words
between-start s rest = refl

no_words : shell_words between [] [] ≡ some []
unfolding shell_words
no_words = refl

word_end : (word : Text) → shell_words in_word word [] ≡ some (word ∷ [])
unfolding shell_words
word_end word = refl

word_blank :
    (word rest : Text)
    → shell_words in_word word (b' ' ∷ rest)
      ≡ Option.map (λ words. word ∷ words) (shell_words between [] rest)
unfolding shell_words
word_blank word rest = refl

-- An escaped argument is read back within quotes.
quoted-escape :
    (word value rest : Text)
    → shell_words quoted word (escape_quotes value ++ quote_unit ∷ rest)
      ≡ shell_words in_word (word ++ value) rest
quoted-escape word [] rest = escape_nil word rest
quoted-escape word (c ∷ value) rest =
    let longer = word ++ c ∷ [] in
    let again : shell_words quoted longer (escape_quotes value ++ quote_unit ∷ rest)
        ≡ shell_words in_word (word ++ c ∷ value) rest =
      quoted-escape longer value rest
      ∙ ap (λ w. shell_words in_word w rest) (append_assoc word (c ∷ []) value) in
    elim (Bool-cases (c == quote_unit)) [
      | inl e ↦
          ap (λ t. shell_words quoted word (t ++ quote_unit ∷ rest)) (escape_quotes-quote c value e)
          ∙ quoted-quote word (escape_quotes value ++ quote_unit ∷ rest)
          ∙ ap (λ q. shell_words quoted (word ++ q ∷ []) (escape_quotes value ++ quote_unit ∷ rest))
              (sym ((==_iff c quote_unit).0 e))
          ∙ again
      | inr e ↦
          ap (λ t. shell_words quoted word (t ++ quote_unit ∷ rest)) (escape_quotes-plain c value e)
          ∙ quoted-plain word c (escape_quotes value ++ quote_unit ∷ rest) e
          ∙ again
    ]

-- One quoted argument is one word.
between-quote :
    (value rest : Text)
    → shell_words between [] (shell_single_quote value ++ rest) ≡ shell_words in_word value rest
unfolding shell_single_quote
between-quote value rest =
    between-start (escape_quotes value ++ quote_unit ∷ []) rest
    ∙ ap (λ t. shell_words quoted [] t) (append_assoc (escape_quotes value) (quote_unit ∷ []) rest)
    ∙ quoted-escape [] value rest

-- A shell reads quoted arguments back as exactly those arguments, whatever they contain.
pub shell_words-shell_quote :
    (args : List Text) → shell_words between [] (shell_quote args) ≡ some args
unfolding shell_quote join
shell_words-shell_quote [] = no_words
shell_words-shell_quote (a ∷ []) =
    ap (λ t. shell_words between [] t) (sym (append-nil (shell_single_quote a)))
    ∙ between-quote a []
    ∙ word_end a
shell_words-shell_quote (a ∷ b ∷ args) =
    let rest = shell_quote (b ∷ args) in
    between-quote a (b' ' ∷ rest)
    ∙ word_blank a rest
    ∙ ap (λ o. Option.map (λ words. a ∷ words) o) (shell_words-shell_quote (b ∷ args))
