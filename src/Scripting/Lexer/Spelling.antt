-- ===== src/Scripting/Lexer/Spelling.antt =====
-- scripting/lexer.py: each reader gives a token that is spelt as the source at its place.
use bqemulator.Prelude.{
  ℕ, zero, suc, ◌+◌, ◌-◌, ◌≤◌, ◌<◌, ◌≡◌, refl, sym, ap, ◌∙◌, inl, inr, ◌⊎◌, Bool, true, false, ◌&&◌,
  Option, none, some, List, [], ◌∷◌, length, take, drop, arith, nat_eq, ltb, Text, text, text_eq,
  ◌==◌, ==_iff, All, Bool-cases, length-drop, length-take,
}
use mathlib.Core.Path.{subst}
use bqemulator.Scripting.Lexer.{
  Chars, TokenKind, keyword, ident, string_literal, number, op, punct, at, at_at, is_eof, Token,
  token, Lexed, ok, raised, no_fuel, keywords, two_character_operators, is_word_of, is_char_of,
  starts_with, count_while, is_quote, not_backtick, string_end, is_ident_start, is_ident_part,
  is_number_start, number_length,
}
use bqemulator.Scripting.Lexer.Lengths.{
  starts_with-length, count_while_le, count_while-pos, Within, string_end_le, number_length_le,
}
use bqemulator.Scripting.Lexer.Readers.{
  read_backtick_ident, string_token, marker, read_string, read_at, one_character,
  read_operator_or_punct, quote_follows, read_identifier, read_ident_or_raw_string, read_number,
  read_token,
}

abbrev raw_or : Text → Text → Text
raw_or value [] = value
raw_or value (c ∷ raw) = c ∷ raw

-- The text of a token: its raw value where it has one.
abbrev pub text_of : Token → Text
text_of t = raw_or t.value t.raw_value

-- A token of `n` characters at `start`, where the source goes on with `s`.
abbrev pub Spelt : ℕ → Text → Token → ℕ → Type 0
Spelt start s t n =
    (1 ≤ n)
    × (n ≤ length s)
    × (t.start ≡ start)
    × (t.end ≡ start + n)
    × (text_of t ≡ take n s)
    × (is_eof t.kind ≡ false)

-- A reader gives a token at its place or raises.
abbrev pub Reads : ℕ → Text → Lexed Token → Type 0
Reads start s (ok t) = (n : ℕ) × Spelt start s t n
Reads start s (raised e) = Unit
Reads start s no_fuel = ⊥

raw_or-take : (value s : Text) (n : ℕ) → 1 ≤ n → n ≤ length s → raw_or value (take n s) ≡ take n s
raw_or-take value s zero h fits = elim h [ ]
raw_or-take value [] (suc n) h fits = elim fits [ ]
raw_or-take value (c ∷ s) (suc n) h fits = refl

Reads-raw :
    (kind : TokenKind) (value : Text) (start n : ℕ) (s : Text)
    → is_eof kind ≡ false
    → 1 ≤ n
    → n ≤ length s
    → Reads start s (ok (token kind value (take n s) start n))
Reads-raw kind value start n s other h fits =
    (n, (h, fits, refl, refl, raw_or-take value s n h fits, other))

read_backtick_ident-Reads : (start : ℕ) (s : Text) → Reads start s (read_backtick_ident start s)
unfolding read_backtick_ident
read_backtick_ident-Reads start s =
    let n = count_while not_backtick (drop 1 s) in
    elim (Bool-cases (ltb (1 + n) (length s))) [
      | inl e ↦
          rw e
            (Reads-raw ident (take n (drop 1 s)) start (n + 2) s refl (omega arith) (ground arith))
      | inr e ↦ rw e tt
    ]

string_token-Reads :
    (start : ℕ) (s : Text) (before : ℕ) (o : Option ℕ)
    → 1 ≤ before
    → before ≤ length s
    → Within (length s - before) o
    → Reads start s (string_token start s before o)
unfolding string_token
string_token-Reads start s before none h fits within = tt
string_token-Reads start s before (some n) h fits within =
    Reads-raw string_literal _ start (before + n) s refl (omega (arith, h))
      (omega (arith, fits, within))

-- The marker is the beginning of the text, and not empty if the text is not.
marker-length : (s : Text) → 1 ≤ length s → (1 ≤ length (marker s)) × (length (marker s) ≤ length s)
unfolding starts_with
marker-length [] h = elim h [ ]
marker-length (q ∷ s) h = elim (Bool-cases (starts_with (q ∷ q ∷ q ∷ []) (q ∷ s))) [
  | inl e ↦ rw e (omega arith, (starts_with-length (q ∷ q ∷ q ∷ []) (q ∷ s) e).0)
  | inr e ↦ rw e (omega arith, omega arith)
]

read_string-Reads :
    (start : ℕ) (raw : Bool) (prefix : ℕ) (s : Text)
    → prefix < length s
    → Reads start s (read_string start raw prefix s)
unfolding read_string
read_string-Reads start raw prefix s h =
    let rest = drop prefix s in
    let long : length rest ≡ length s - prefix = length-drop prefix s in
    let (some_marker, fits) = marker-length rest (omega (arith, long, h)) in
    let before = prefix + length (marker rest) in
    string_token-Reads start s before (string_end raw (marker rest) (drop before s))
      (omega (arith, some_marker)) (omega (arith, fits, long, h))
      (subst (λ k. Within k (string_end raw (marker rest) (drop before s))) (length-drop before s)
        (string_end_le raw (marker rest) (drop before s)))

Reads-value :
    (kind : TokenKind) (start n : ℕ) (s : Text)
    → is_eof kind ≡ false
    → 1 ≤ n
    → n ≤ length s
    → Reads start s (ok (token kind (take n s) [] start n))
Reads-value kind start n s other h fits = (n, (h, fits, refl, refl, refl, other))

read_at-Reads : (start c : ℕ) (s : Text) → Reads start (c ∷ s) (read_at start (c ∷ s))
unfolding read_at
read_at-Reads start c s = elim (Bool-cases (starts_with (text "@") s)) [
  | inl e ↦ rw e (
      Reads-value at_at start 2 (c ∷ s) refl (omega arith)
        (omega (arith, (starts_with-length (text "@") s e).0)))
  | inr e ↦ rw e (Reads-value at start 1 (c ∷ s) refl (omega arith) (omega arith))
]

one_character-Reads : (start c : ℕ) (s : Text) → Reads start (c ∷ s) (one_character start (c ∷ s))
unfolding one_character
one_character-Reads start c s = elim (Bool-cases (is_char_of (text "()[]{},;.?") c)) [
  | inl e ↦ rw e (Reads-value punct start 1 (c ∷ s) refl (omega arith) (omega arith))
  | inr e ↦ rw e (elim (Bool-cases (is_char_of (text "+-*/%<>=|&^~!") c)) [
    | inl k ↦ rw k (Reads-value op start 1 (c ∷ s) refl (omega arith) (omega arith))
    | inr k ↦ rw k tt
  ])
]

is_word_of-length :
    (n : ℕ) (xs : List Text) (t : Text)
    → All (λ x. length x ≡ n) xs
    → is_word_of xs t ≡ true
    → length t ≡ n
unfolding is_word_of
is_word_of-length n [] t h e = cc
is_word_of-length n (x ∷ xs) t (this, others) e = elim (Bool-cases (x == t)) [
  | inl same ↦ ap length (sym ((==_iff x t).0 same)) ∙ this
  | inr other ↦ is_word_of-length n xs t others (rest other)
]
  where
    rest : (x == t) ≡ false → is_word_of xs t ≡ true
    rest other = ground arith

two_characters : (s : Text) → is_word_of two_character_operators (take 2 s) ≡ true → 2 ≤ length s
two_characters s h =
    let two =
      is_word_of-length 2 two_character_operators (take 2 s)
        (refl, (refl, (refl, (refl, (refl, (refl, (refl, (refl, tt)))))))) h in
    omega (arith, two, length-take 2 s)

read_operator_or_punct-Reads :
    (start c : ℕ) (s : Text) → Reads start (c ∷ s) (read_operator_or_punct start (c ∷ s))
unfolding read_operator_or_punct
read_operator_or_punct-Reads start c s =
    elim (Bool-cases (is_word_of two_character_operators (take 2 (c ∷ s)))) [
      | inl e ↦ rw e (Reads-value op start 2 (c ∷ s) refl (omega arith) (two_characters (c ∷ s) e))
      | inr e ↦ rw e (one_character-Reads start c s)
    ]

module _ (C : Chars) where
  open C use {is_alpha, is_alnum, is_digit, upper, lower}

  read_identifier-Reads :
      (start c : ℕ) (s : Text)
      → is_ident_start C c ≡ true
      → Reads start (c ∷ s) (read_identifier C start (c ∷ s))
  unfolding read_identifier
  read_identifier-Reads start c s h =
      let n = count_while (is_ident_part C) (c ∷ s) in
      let more : 1 ≤ n = count_while-pos (is_ident_part C) c s (part (Bool-cases (is_alpha c))) in
      let fits = count_while_le (is_ident_part C) (c ∷ s) in
      elim (Bool-cases (is_word_of keywords (upper (take n (c ∷ s))))) [
        | inl e ↦ rw e (Reads-raw keyword _ start n (c ∷ s) refl more fits)
        | inr e ↦ rw e (Reads-raw ident _ start n (c ∷ s) refl more fits)
      ]
    where
      part : (is_alpha c ≡ true) ⊎ (is_alpha c ≡ false) → is_ident_part C c ≡ true
      part (inl e) = rw (C.is_alnum_of_is_alpha c e) refl
      part (inr e) = ground (arith, h, e)

  read_ident_or_raw_string-Reads :
      (start c : ℕ) (s : Text)
      → is_ident_start C c ≡ true
      → Reads start (c ∷ s) (read_ident_or_raw_string C c start (c ∷ s))
  unfolding read_ident_or_raw_string
  read_ident_or_raw_string-Reads start c s h =
      elim (Bool-cases (lower c == text "r" && quote_follows s)) [
        | inl e ↦ rw e (read_string-Reads start true 1 (c ∷ s) (longer s (ground arith)))
        | inr e ↦ rw e (read_identifier-Reads start c s h)
      ]
    where
      longer : (s : Text) → quote_follows s ≡ true → 1 < length (c ∷ s)
      longer [] h = cc
      longer (d ∷ s) h = omega arith

  read_number-Reads :
      (start c : ℕ) (s : Text)
      → is_number_start C c s ≡ true
      → Reads start (c ∷ s) (read_number C start (c ∷ s))
  unfolding read_number number_length
  read_number-Reads start c s h =
      Reads-raw number _ start (number_length C false false false (c ∷ s)) (c ∷ s) refl
        number_starts (number_length_le C false false false (c ∷ s))
    where
      number_starts : 1 ≤ number_length C false false false (c ∷ s)
      number_starts = elim (Bool-cases (is_digit c)) [
        | inl e ↦ rw (number_length, e) (omega arith)
        | inr e ↦
            let dot : nat_eq c b'.' ≡ true = ground (arith, h, e) in
            rw (number_length, e) (rw (number_length, dot) (omega arith))
      ]

  pub read_token-Reads : (start c : ℕ) (s : Text) → Reads start (c ∷ s) (read_token C start (c ∷ s))
  unfolding read_token
  read_token-Reads start c s = elim (Bool-cases (nat_eq c b'`')) [
    | inl e ↦ rw e (read_backtick_ident-Reads start (c ∷ s))
    | inr e ↦ rw e (elim (Bool-cases (is_quote c)) [
      | inl f ↦ rw f (read_string-Reads start false 0 (c ∷ s) (omega arith))
      | inr f ↦ rw f (elim (Bool-cases (is_ident_start C c)) [
        | inl g ↦ rw g (read_ident_or_raw_string-Reads start c s g)
        | inr g ↦ rw g (elim (Bool-cases (is_number_start C c s)) [
          | inl h ↦ rw h (read_number-Reads start c s h)
          | inr h ↦ rw h (elim (Bool-cases (nat_eq c b'@')) [
            | inl k ↦ rw k (read_at-Reads start c s)
            | inr k ↦ rw k (read_operator_or_punct-Reads start c s)
          ])
        ])
      ])
    ])
  ]
