-- ===== src/Scripting/Lexer/Blanks.antt =====
-- scripting/lexer.py: what the lexer skips between tokens.
use bqemulator.Prelude.{
  ℕ, zero, suc, ◌+◌, ◌≤◌, ◌<◌, ◌≡◌, refl, sym, ap, ◌∙◌, inl, inr, Bool, true, ◌&&◌, ◌||◌, Option,
  none, some, [], ◌∷◌, ◌++◌, length, take, drop, arith, nat_eq, Text, text, Bool-cases,
  take-append-take-drop, length-drop,
}
use mathlib.Core.Path.{subst}
use bqemulator.Identifiers.{all_chars}
use bqemulator.Scripting.Lexer.{
  Chars, Lexed, ok, raised, no_fuel, further, starts_with, count_while, one_more, block_end,
  block_length, not_newline, skip_step, after_step, skip_whitespace_and_comments,
}
use bqemulator.Scripting.Lexer.Lengths.{starts_with-length, count_while_le}

module _ (C : Chars) where
  -- A character of white space, a comment up to its line's end, or a comment with its end.
  pub data Piece : Text → Type 0 where
    space : (c : ℕ) → C.is_space c ≡ true → Piece (c ∷ [])
    line_comment :
        (w : Text)
        → starts_with (text "--") w || starts_with (text "#") w ≡ true
        → all_chars not_newline w ≡ true
        → Piece w
    block_comment : (body : Text) → Piece (text "/*" ++ (body ++ text "*/"))

  -- Pieces one after the other.
  pub data Blank : Text → Type 0 where
    blank_end : Blank []
    blank_piece : (w s : Text) → Piece w → Blank s → Blank (w ++ s)

count_while-all : (p : ℕ → Bool) (s : Text) → all_chars p (take (count_while p s) s) ≡ true
unfolding all_chars count_while
count_while-all p [] = refl
count_while-all p (c ∷ s) = elim (Bool-cases (p c)) [
  | inl e ↦ rw e (rw e (count_while-all p s))
  | inr e ↦ rw e refl
]

starts_with-take :
    (q : ℕ → Bool) (p s : Text)
    → all_chars q p ≡ true
    → starts_with p s ≡ true
    → starts_with p (take (count_while q s) s) ≡ true
unfolding all_chars starts_with count_while
starts_with-take q [] s plain h = refl
starts_with-take q (c ∷ p) [] plain h = cc
starts_with-take q (c ∷ p) (d ∷ s) plain h =
    let same : d ≡ c = ground arith in
    let passes : q d ≡ true = rw same (ground arith) in
    let first : nat_eq c d ≡ true = ground arith in
    rw (passes, first) (starts_with-take q p s (ground arith) (ground arith))

-- The text up to there ends a block comment.
abbrev Closes : Text → Option ℕ → Type 0
Closes s none = Unit
Closes s (some n) = (n ≤ length s) × ((body : Text) × (take n s ≡ body ++ text "*/"))

Closes-one_more : (c : ℕ) (s : Text) (o : Option ℕ) → Closes s o → Closes (c ∷ s) (one_more o)
Closes-one_more c s none h = tt
Closes-one_more c s (some n) (fits, (body, same)) =
    (omega (arith, fits), (c ∷ body, ap (λ t. c ∷ t) same))

block_end-Closes : (s : Text) → Closes s (block_end s)
unfolding block_end
block_end-Closes [] = tt
block_end-Closes (c ∷ s) = elim (Bool-cases (starts_with (text "*/") (c ∷ s))) [
  | inl e ↦ rw e (let (fits, same) = starts_with-length (text "*/") (c ∷ s) e in (fits, ([], same)))
  | inr e ↦ rw e (Closes-one_more c s (block_end s) (block_end-Closes s))
]

module _ (C : Chars) where
  open C use {is_space}

  -- What a round skips is one piece; it does not run out of fuel.
  abbrev Steps : Text → Lexed ℕ → Type 0
  Steps s (ok zero) = Unit
  Steps s (ok (suc n)) = (suc n ≤ length s) × Piece C (take (suc n) s)
  Steps s (raised e) = Unit
  Steps s no_fuel = ⊥

  Steps-piece : (s : Text) (n : ℕ) → n ≤ length s → Piece C (take n s) → Steps s (ok n)
  Steps-piece s zero fits p = tt
  Steps-piece s (suc n) fits p = (fits, p)

  -- A comment that begins with one of the two marks.
  Steps-line :
      (mark s : Text)
      → all_chars not_newline mark ≡ true
      → starts_with mark s ≡ true
      → ((w : Text)
          → starts_with mark w ≡ true
          → starts_with (text "--") w || starts_with (text "#") w ≡ true)
      → Steps s (ok (count_while not_newline s))
  Steps-line mark s plain start marks =
      Steps-piece s (count_while not_newline s) (count_while_le not_newline s) (
        line_comment (take (count_while not_newline s) s)
          (marks (take (count_while not_newline s) s)
            (starts_with-take not_newline mark s plain start))
          (count_while-all not_newline s))

  joined : {a b c d : Text} → a ≡ c → b ≡ d → a ++ b ≡ c ++ d
  joined h k i = h i ++ k i

  Steps-block :
      (s : Text) (o : Option ℕ)
      → starts_with (text "/*") s ≡ true
      → Closes (drop 2 s) o
      → Steps s (block_length o)
  Steps-block s none start closes = tt
  Steps-block s (some n) start (fits, (body, same)) =
      let (room, mark) = starts_with-length (text "/*") s start in
      let word : take (2 + n) s ≡ text "/*" ++ (body ++ text "*/") =
        sym (take-append-take-drop 2 n s) ∙ joined mark same in
      Steps-piece s (2 + n) (omega (arith, fits, length-drop 2 s, room))
        (subst (Piece C) (sym word) (block_comment body))

  skip_step-Steps : (s : Text) → Steps s (skip_step C s)
  unfolding skip_step all_chars starts_with
  skip_step-Steps [] = tt
  skip_step-Steps (c ∷ s) = elim (Bool-cases (is_space c)) [
    | inl e ↦ rw e (omega arith, space c e)
    | inr e ↦ rw e (elim (Bool-cases (nat_eq c b'-' && starts_with (text "--") (c ∷ s))) [
      | inl k ↦ rw k (Steps-line (text "--") (c ∷ s) refl (ground arith) (λ w h. rw h refl))
      | inr k ↦ rw k (elim (Bool-cases (nat_eq c b'#')) [
        | inl h ↦
            rw h (Steps-line (text "#") (c ∷ s) refl (ground arith) (λ w h. ground (arith, h)))
        | inr h ↦ rw h (elim (Bool-cases (nat_eq c b'/' && starts_with (text "/*") (c ∷ s))) [
          | inl b ↦ rw b (
              Steps-block (c ∷ s) (block_end (drop 1 s)) (ground arith)
                (block_end-Closes (drop 1 s)))
          | inr b ↦ rw b tt
        ])
      ])
    ])
  ]

  -- What the loop skips is blank, and enough fuel lets it end.
  abbrev pub Skips : Text → Lexed ℕ → Type 0
  Skips s (ok n) = (n ≤ length s) × Blank C (take n s)
  Skips s (raised e) = Unit
  Skips s no_fuel = ⊥

  Skips-further :
      (n : ℕ) (s : Text) (r : Lexed ℕ)
      → n ≤ length s
      → Piece C (take n s)
      → Skips (drop n s) r
      → Skips s (further n r)
  Skips-further n s (ok m) fits p (within, blank) = (
    omega (arith, fits, within, length-drop n s),
    subst (Blank C) (take-append-take-drop n m s)
        (blank_piece (take n s) (take m (drop n s)) p blank),
  )
  Skips-further n s (raised e) fits p h = tt
  Skips-further n s no_fuel fits p h = h

  after_step-Skips :
      (more : Text → Lexed ℕ) (s : Text) (r : Lexed ℕ)
      → Steps s r
      → ((u : Text) → length u < length s → Skips u (more u))
      → Skips s (after_step more s r)
  unfolding after_step
  after_step-Skips more s (ok zero) h k = (omega arith, blank_end)
  after_step-Skips more s (ok (suc n)) (fits, p) k =
      Skips-further (suc n) s (more (drop (suc n) s)) fits p
        (k (drop (suc n) s) (omega (arith, fits, length-drop (suc n) s)))
  after_step-Skips more s (raised e) h k = tt
  after_step-Skips more s no_fuel h k = h

  pub skip_whitespace_and_comments-Skips :
      (fuel : ℕ) (s : Text) → length s < fuel → Skips s (skip_whitespace_and_comments C fuel s)
  unfolding skip_whitespace_and_comments
  skip_whitespace_and_comments-Skips zero s h = elim h [ ]
  skip_whitespace_and_comments-Skips (suc fuel) s h =
      after_step-Skips (skip_whitespace_and_comments C fuel) s (skip_step C s) (skip_step-Steps s)
        (λ u shorter. skip_whitespace_and_comments-Skips fuel u (omega (arith, h, shorter)))
