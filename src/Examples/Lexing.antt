-- ===== src/Examples/Lexing.antt =====
-- Tokens of small scripts.
use bqemulator.Prelude.{
  ℕ, ◌+◌, ◌-◌, ◌≡◌, refl, Bool, true, ◌||◌, ◌&&◌, List, [], ◌∷◌, Text, text, ◌⊎◌, leb, list_beq,
  if◌then◌else◌,
}
use bqemulator.Scripting.Lexer.{
  LexError, after_step, Chars, Token, ok, raised, unterminated_string, Lexed, skip_step,
  count_while, starts_with, string_end, skip_whitespace_and_comments, is_word_of,
}
use bqemulator.Scripting.Lexer.Tiling.{Tiled, tokenize-Lexes}
use bqemulator.Scripting.Lexer.Readers.{
  after_token, tokenize, tokens_from, next_token, skipped, read_token, read_ident_or_raw_string,
  read_identifier, read_string, string_token,
}

abbrev letter : ℕ → Bool
letter c = (leb b'A' c && leb c b'Z') || (leb b'a' c && leb c b'z')

abbrev digit : ℕ → Bool
digit c = leb b'0' c && leb c b'9'

abbrev upper_letter : ℕ → ℕ
upper_letter c = if leb b'a' c && leb c b'z' then c - 32 else c

abbrev uppered : Text → Text
uppered [] = []
uppered (c ∷ s) = upper_letter c ∷ uppered s

ascii_alnum : (c : ℕ) → letter c ≡ true → letter c || digit c ≡ true
ascii_alnum c h = rw h refl

-- The ASCII part of Python's classes.
abbrev ascii : Chars
ascii = record {
  is_space = λ c. leb 9 c && leb c 13 || leb c 32 && leb 28 c;
  is_alpha = letter;
  is_alnum = λ c. letter c || digit c;
  is_digit = digit;
  upper = uppered;
  lower = λ c. (if leb b'A' c && leb c b'Z' then c + 32 else c) ∷ [];
  is_alnum_of_is_alpha = ascii_alnum;
}

a_script : Lexed (List Token)
unfolding tokenize
a_script = tokenize ascii (text "set x = r'a' /* c */ || 1.5e-2;")

tokenize-Lexes_example :
    ((e : LexError) × (tokenize ascii (text "set x = r'a' /* c */ || 1.5e-2;") ≡ raised e))
    ⊎ ((tokens : List Token) × (tokenize ascii (text "set x = r'a' /* c */ || 1.5e-2;") ≡ ok tokens)
        × Tiled ascii 0 (text "set x = r'a' /* c */ || 1.5e-2;") tokens)
tokenize-Lexes_example = tokenize-Lexes ascii (text "set x = r'a' /* c */ || 1.5e-2;")

open_string : tokenize ascii (text "x '\\'") ≡ raised unterminated_string
unfolding tokenize tokens_from next_token skipped read_token skip_whitespace_and_comments skip_step
    after_step starts_with read_ident_or_raw_string read_identifier count_while is_word_of list_beq
    after_token read_string string_end string_token
open_string = refl
