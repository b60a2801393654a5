-- ===== src/Scripting/Lexer.antt =====
-- src/bqemulator/scripting/lexer.py: the tokens of a script. Each reader takes the source from the
-- token on; `pos` is the offset of that place. Loops over the source count down their fuel.
pub mod Lengths
pub mod Blanks
pub mod Readers
pub mod Spelling
pub mod Tiling
use bqemulator.Prelude.{
  ℕ, zero, suc, ◌+◌, ◌-◌, ◌≡◌, Bool, true, false, not, ◌&&◌, ◌||◌, Option, none, some, List, [],
  ◌∷◌, ◌++◌, length, take, drop, nat_eq, if◌then◌else◌, Text, text, text_eq, ◌==◌,
}

-- What the lexer asks of Python's str: its tables of Unicode are not written out.
pub record Chars : Type 0 where
  pub is_space : ℕ → Bool
  pub is_alpha : ℕ → Bool
  pub is_alnum : ℕ → Bool
  pub is_digit : ℕ → Bool
  pub upper : Text → Text
  pub lower : ℕ → Text
  pub is_alnum_of_is_alpha : (c : ℕ) → is_alpha c ≡ true → is_alnum c ≡ true

-- The strings in Token.kind
pub data TokenKind : Type 0 where
  keyword ident string_literal number op punct at at_at eof : TokenKind

abbrev pub is_eof : TokenKind → Bool
is_eof eof = true
is_eof other = false

pub record Token : Type 0 where
  pub kind : TokenKind
  pub value : Text
  pub start : ℕ
  pub end : ℕ
  pub raw_value : Text

-- The messages of InvalidQueryError
pub data LexError : Type 0 where
  unterminated_comment unterminated_backtick unterminated_string : LexError
  unexpected_character : ℕ → ℕ → LexError

pub data Lexed {ℓ} (A : Type ℓ) : Type ℓ where
  ok : A → Lexed A
  raised : LexError → Lexed A
  no_fuel : Lexed A

-- _KEYWORDS
abbrev keywords : List Text
keywords =
    text "AS"
    ∷ text "BEGIN"
    ∷ text "BREAK"
    ∷ text "CALL"
    ∷ text "CONTINUE"
    ∷ text "CREATE"
    ∷ text "DECLARE"
    ∷ text "DEFAULT"
    ∷ text "DELETE"
    ∷ text "DO"
    ∷ text "ELSE"
    ∷ text "ELSEIF"
    ∷ text "ELSIF"
    ∷ text "END"
    ∷ text "EXCEPTION"
    ∷ text "EXECUTE"
    ∷ text "FOR"
    ∷ text "FROM"
    ∷ text "FUNCTION"
    ∷ text "IF"
    ∷ text "IMMEDIATE"
    ∷ text "IN"
    ∷ text "INSERT"
    ∷ text "INTO"
    ∷ text "ITERATE"
    ∷ text "JAVASCRIPT"
    ∷ text "LANGUAGE"
    ∷ text "LEAVE"
    ∷ text "LOOP"
    ∷ text "MERGE"
    ∷ text "OR"
    ∷ text "PROCEDURE"
    ∷ text "RAISE"
    ∷ text "REPLACE"
    ∷ text "RETURN"
    ∷ text "RETURNS"
    ∷ text "SELECT"
    ∷ text "SET"
    ∷ text "TABLE"
    ∷ text "TEMP"
    ∷ text "TEMPORARY"
    ∷ text "THEN"
    ∷ text "TRUNCATE"
    ∷ text "UPDATE"
    ∷ text "USING"
    ∷ text "WHEN"
    ∷ text "WHILE"
    ∷ []

-- The operators of two characters.
abbrev two_character_operators : List Text
two_character_operators =
    text ">="
    ∷ text "<="
    ∷ text "<>"
    ∷ text "!="
    ∷ text "||"
    ∷ text "=>"
    ∷ text "<<"
    ∷ text ">>"
    ∷ []

unfoldable pub is_word_of : List Text → Text → Bool
is_word_of [] t = false
is_word_of (x ∷ xs) t = x == t || is_word_of xs t

-- c in s, for a character
unfoldable pub is_char_of : Text → ℕ → Bool
is_char_of [] c = false
is_char_of (d ∷ s) c = nat_eq d c || is_char_of s c

-- source.startswith(p, pos), of the source from pos on
unfoldable pub starts_with : Text → Text → Bool
starts_with [] s = true
starts_with (c ∷ p) [] = false
starts_with (c ∷ p) (d ∷ s) = nat_eq c d && starts_with p s

-- How far a loop runs that passes characters of the test.
unfoldable pub count_while : (ℕ → Bool) → Text → ℕ
count_while p [] = 0
count_while p (c ∷ s) = let more = count_while p s in if p c then suc more else 0

abbrev pub is_quote : ℕ → Bool
is_quote c = nat_eq c b'\'' || nat_eq c b'"'

abbrev pub not_newline : ℕ → Bool
not_newline c = not (nat_eq c b'\n')

abbrev pub not_backtick : ℕ → Bool
not_backtick c = not (nat_eq c b'`')

abbrev pub one_more : Option ℕ → Option ℕ
one_more none = none
one_more (some n) = some (suc n)

-- How far it is behind the end of a block comment, from within it.
unfoldable pub block_end : Text → Option ℕ
unfolding starts_with
block_end [] = none
block_end (c ∷ s) =
    let more = block_end s in if starts_with (text "*/") (c ∷ s) then some 2 else one_more more

abbrev pub block_length : Option ℕ → Lexed ℕ
block_length none = raised unterminated_comment
block_length (some n) = ok (2 + n)

-- How far it is behind the end of a string, from within it: a backslash skips what follows it.
unfoldable pub string_end : Bool → Text → Text → Option ℕ
unfolding starts_with
string_end raw end_marker [] = none
string_end raw end_marker (c ∷ []) =
    if not raw && nat_eq c b'\\'
    then none
    else (if starts_with end_marker (c ∷ []) then some (length end_marker) else none)
string_end raw end_marker (c ∷ d ∷ s) = elim (not raw && nat_eq c b'\\') [
  | true ↦ one_more (one_more (string_end raw end_marker s))
  | false ↦ elim (starts_with end_marker (c ∷ d ∷ s)) [
    | true ↦ some (length end_marker)
    | false ↦ one_more (string_end raw end_marker (d ∷ s))
  ]
]

abbrev pub token : TokenKind → Text → Text → ℕ → ℕ → Token
token kind value raw_value start n = record {
  kind = kind;
  value = value;
  start = start;
  end = start + n;
  raw_value = raw_value;
}

abbrev pub further : ℕ → Lexed ℕ → Lexed ℕ
further n (ok m) = ok (n + m)
further n (raised e) = raised e
further n no_fuel = no_fuel

-- A round and what follows it, unless it breaks.
unfoldable pub after_step : (Text → Lexed ℕ) → Text → Lexed ℕ → Lexed ℕ
after_step more s (ok zero) = ok 0
after_step more s (ok (suc n)) = further (suc n) (more (drop (suc n) s))
after_step more s (raised e) = raised e
after_step more s no_fuel = no_fuel

module _ (C : Chars) where
  open C use {is_space, is_alpha, is_alnum, is_digit, upper, lower}

  -- One round of _skip_whitespace_and_comments: how far it goes, 0 for the break.
  unfoldable pub skip_step : Text → Lexed ℕ
  unfolding count_while block_end starts_with
  skip_step [] = ok 0
  skip_step (c ∷ s) =
      if is_space c
      then ok 1
      else (if nat_eq c b'-' && starts_with (text "--") (c ∷ s)
          then ok (count_while not_newline (c ∷ s))
          else (if nat_eq c b'#'
              then ok (count_while not_newline (c ∷ s))
              else (if nat_eq c b'/' && starts_with (text "/*") (c ∷ s)
                  then block_length (block_end (drop 2 (c ∷ s)))
                  else ok 0)))

  -- _skip_whitespace_and_comments
  unfoldable pub skip_whitespace_and_comments : ℕ → Text → Lexed ℕ
  unfolding skip_step after_step
  skip_whitespace_and_comments zero s = no_fuel
  skip_whitespace_and_comments (suc fuel) s =
      after_step (skip_whitespace_and_comments fuel) s (skip_step s)

  -- _is_ident_start, and the test of the loop of _read_identifier
  abbrev pub is_ident_start : ℕ → Bool
  is_ident_start c = is_alpha c || nat_eq c b'_'

  abbrev pub is_ident_part : ℕ → Bool
  is_ident_part c = is_alnum c || nat_eq c b'_'

  -- _peek_digit: a digit follows.
  abbrev pub peek_digit : Text → Bool
  peek_digit [] = false
  peek_digit (d ∷ s) = is_digit d

  -- _is_number_start, with what follows the character
  abbrev pub is_number_start : ℕ → Text → Bool
  is_number_start c s = is_digit c || (nat_eq c b'.' && peek_digit s)

  -- How far _read_number goes; `signed` says that an exponent's sign may follow.
  unfoldable pub number_length : Bool → Bool → Bool → Text → ℕ
  number_length has_dot has_exp signed [] = 0
  number_length has_dot has_exp signed (c ∷ s) = elim (signed && (nat_eq c b'+' || nat_eq c b'-')) [
    | true ↦ suc (number_length has_dot has_exp false s)
    | false ↦ elim (is_digit c) [
      | true ↦ suc (number_length has_dot has_exp false s)
      | false ↦ elim (nat_eq c b'.' && (not has_dot && not has_exp)) [
        | true ↦ suc (number_length true has_exp false s)
        | false ↦ elim ((nat_eq c b'e' || nat_eq c b'E') && not has_exp) [
          | true ↦ suc (number_length has_dot true true s)
          | false ↦ 0
        ]
      ]
    ]
  ]
