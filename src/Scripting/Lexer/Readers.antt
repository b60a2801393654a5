-- ===== src/Scripting/Lexer/Readers.antt =====
-- scripting/lexer.py: the readers of one token and the loop of tokenize. `s` is the source from the
-- token's first character on.
use bqemulator.Prelude.{
  ℕ, zero, suc, ◌+◌, ◌-◌, Bool, true, false, ◌&&◌, Option, none, some, List, [], ◌∷◌, length, take,
  drop, nat_eq, ltb, if◌then◌else◌, Text, text, text_eq, ◌==◌,
}
use bqemulator.Scripting.Lexer.{
  Chars, keyword, ident, string_literal, number, op, punct, at, at_at, eof, is_eof, Token,
  unterminated_backtick, unterminated_string, unexpected_character, Lexed, ok, raised, no_fuel,
  keywords, two_character_operators, is_word_of, is_char_of, starts_with, count_while, is_quote,
  not_backtick, string_end, skip_whitespace_and_comments, is_ident_start, is_ident_part,
  is_number_start, number_length, token,
}

-- _read_backtick_ident: `n` is the length of the name between the backticks.
unfoldable pub read_backtick_ident : ℕ → Text → Lexed Token
unfolding count_while
read_backtick_ident start s =
    let n = count_while not_backtick (drop 1 s) in
    if ltb (1 + n) (length s)
    then ok (token ident (take n (drop 1 s)) (take (n + 2) s) start (n + 2))
    else raised unterminated_backtick

unfoldable pub string_token : ℕ → Text → ℕ → Option ℕ → Lexed Token
string_token start s before none = raised unterminated_string
string_token start s before (some n) =
    ok (token string_literal (take (before + n) s) (take (before + n) s) start (before + n))

-- The opening marker, of the text from the quote on.
abbrev pub marker : Text → Text
marker [] = []
marker (q ∷ s) = if starts_with (q ∷ q ∷ q ∷ []) (q ∷ s) then q ∷ q ∷ q ∷ [] else q ∷ []

-- _read_string: the quote stands behind `prefix` characters.
unfoldable pub read_string : ℕ → Bool → ℕ → Text → Lexed Token
unfolding string_end string_token starts_with
read_string start raw prefix s =
    let m = marker (drop prefix s) in
    string_token start s (prefix + length m) (string_end raw m (drop (prefix + length m) s))

-- _read_at
unfoldable pub read_at : ℕ → Text → Lexed Token
unfolding starts_with
read_at start s =
    if starts_with (text "@") (drop 1 s)
    then ok (token at_at (take 2 s) [] start 2)
    else ok (token at (take 1 s) [] start 1)

unfoldable pub one_character : ℕ → Text → Lexed Token
unfolding is_char_of
one_character start [] = no_fuel
one_character start (c ∷ s) =
    if is_char_of (text "()[]{},;.?") c
    then ok (token punct (c ∷ []) [] start 1)
    else (if is_char_of (text "+-*/%<>=|&^~!") c
        then ok (token op (c ∷ []) [] start 1)
        else raised (unexpected_character c start))

-- _read_operator_or_punct
unfoldable pub read_operator_or_punct : ℕ → Text → Lexed Token
unfolding is_word_of one_character
read_operator_or_punct start s =
    if is_word_of two_character_operators (take 2 s)
    then ok (token op (take 2 s) [] start 2)
    else one_character start s

abbrev pub quote_follows : Text → Bool
quote_follows [] = false
quote_follows (c ∷ s) = is_quote c

abbrev pub before_all : Token → Lexed (List Token) → Lexed (List Token)
before_all t (ok tokens) = ok (t ∷ tokens)
before_all t (raised e) = raised e
before_all t no_fuel = no_fuel

-- A token and those behind it, up to the one of the end.
unfoldable pub after_token :
    (ℕ → Text → Lexed (List Token)) → ℕ → Text → Lexed Token → Lexed (List Token)
after_token more pos s (ok t) = elim (is_eof t.kind) [
  | true ↦ ok (t ∷ [])
  | false ↦ before_all t (more t.end (drop (t.end - pos) s))
]
after_token more pos s (raised e) = raised e
after_token more pos s no_fuel = no_fuel

module _ (C : Chars) where
  open C use {upper, lower}

  -- _read_identifier
  unfoldable pub read_identifier : ℕ → Text → Lexed Token
  unfolding count_while is_word_of
  read_identifier start s =
      let n = count_while (is_ident_part C) s in
      let name = take n s in
      if is_word_of keywords (upper name)
      then ok (token keyword (upper name) name start n)
      else ok (token ident name name start n)

  -- _read_ident_or_raw_string
  unfoldable pub read_ident_or_raw_string : ℕ → ℕ → Text → Lexed Token
  unfolding read_identifier read_string
  read_ident_or_raw_string c start s =
      if lower c == text "r" && quote_follows (drop 1 s)
      then read_string start true 1 s
      else read_identifier start s

  -- _read_number
  unfoldable pub read_number : ℕ → Text → Lexed Token
  unfolding number_length
  read_number start s =
      let n = number_length C false false false s in ok (token number (take n s) (take n s) start n)

  -- _dispatch_first_char and the end of _next_token
  unfoldable pub read_token : ℕ → Text → Lexed Token
  unfolding read_backtick_ident read_string read_ident_or_raw_string read_number read_at
      read_operator_or_punct
  read_token start [] = ok (token eof [] [] start 0)
  read_token start (c ∷ s) =
      if nat_eq c b'`'
      then read_backtick_ident start (c ∷ s)
      else (if is_quote c
          then read_string start false 0 (c ∷ s)
          else (if is_ident_start C c
              then read_ident_or_raw_string c start (c ∷ s)
              else (if is_number_start C c s
                  then read_number start (c ∷ s)
                  else (if nat_eq c b'@'
                      then read_at start (c ∷ s)
                      else read_operator_or_punct start (c ∷ s)))))

  unfoldable pub skipped : ℕ → Text → Lexed ℕ → Lexed Token
  unfolding read_token
  skipped pos s (ok n) = read_token (pos + n) (drop n s)
  skipped pos s (raised e) = raised e
  skipped pos s no_fuel = no_fuel

  -- _next_token
  unfoldable pub next_token : ℕ → Text → Lexed Token
  unfolding skipped skip_whitespace_and_comments
  next_token pos s = skipped pos s (skip_whitespace_and_comments C (suc (length s)) s)

  -- The loop of tokenize
  unfoldable pub tokens_from : ℕ → ℕ → Text → Lexed (List Token)
  unfolding next_token after_token
  tokens_from zero pos s = no_fuel
  tokens_from (suc fuel) pos s = after_token (tokens_from fuel) pos s (next_token pos s)

-- tokenize
unfoldable pub tokenize : Chars → Text → Lexed (List Token)
unfolding tokens_from
tokenize C source = tokens_from C (suc (length source)) 0 source
