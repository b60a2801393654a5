-- ===== src/Scripting/Lexer/Tiling.antt =====
-- scripting/lexer.py: the tokens of a script and what is between them make up its source.
use bqemulator.Prelude.{
  ℕ, zero, suc, ◌+◌, ◌-◌, ◌≤◌, ◌<◌, ◌≡◌, refl, sym, ap, ◌∙◌, inl, inr, ◌⊎◌, true, List, [], ◌∷◌,
  length, take, drop, arith, Text, length-drop, take-length,
}
use mathlib.Core.Path.{subst}
use bqemulator.Scripting.Lexer.{
  Chars, is_eof, Token, LexError, Lexed, ok, raised, no_fuel, skip_whitespace_and_comments,
}
use bqemulator.Scripting.Lexer.Blanks.{Blank, Skips, skip_whitespace_and_comments-Skips}
use bqemulator.Scripting.Lexer.Readers.{
  read_token, skipped, next_token, before_all, after_token, tokens_from, tokenize,
}
use bqemulator.Scripting.Lexer.Spelling.{Spelt, Reads, read_token-Reads}

module _ (C : Chars) where
  -- The end: only blanks are left.
  abbrev pub AtEnd : ℕ → Text → Token → Type 0
  AtEnd pos s t =
      (is_eof t.kind ≡ true) × (t.start ≡ pos + length s) × (t.end ≡ pos + length s) × Blank C s

  -- A token behind a gap of blanks.
  abbrev pub Stands : ℕ → Text → Token → ℕ → ℕ → Type 0
  Stands pos s t gap n =
      (gap ≤ length s) × Blank C (take gap s) × Spelt (pos + gap) (drop gap s) t n

  -- The tokens of the text from the offset `pos` on: each stands behind a gap, the last is the end.
  unfoldable pub Tiled : ℕ → Text → List Token → Type 0
  Tiled pos s [] = ⊥
  Tiled pos s (t ∷ []) = AtEnd pos s t
  Tiled pos s (t ∷ u ∷ tokens) =
      (gap : ℕ) × (n : ℕ) × Stands pos s t gap n × Tiled t.end (drop (gap + n) s) (u ∷ tokens)

  -- What a call of the lexer comes to: an error, or a token at its place.
  abbrev Next : ℕ → Text → Lexed Token → Type 0
  Next pos s (ok t) = AtEnd pos s t ⊎ ((gap : ℕ) × (n : ℕ) × Stands pos s t gap n)
  Next pos s (raised e) = Unit
  Next pos s no_fuel = ⊥

  Next-Reads :
      (pos gap : ℕ) (s : Text) (r : Lexed Token)
      → gap ≤ length s
      → Blank C (take gap s)
      → Reads (pos + gap) (drop gap s) r
      → Next pos s r
  Next-Reads pos gap s (ok t) fits blank (n, spelt) = inr (gap, n, (fits, blank, spelt))
  Next-Reads pos gap s (raised e) fits blank h = tt
  Next-Reads pos gap s no_fuel fits blank h = h

  read_token-Next :
      (pos gap : ℕ) (s rest : Text)
      → drop gap s ≡ rest
      → gap ≤ length s
      → Blank C (take gap s)
      → Next pos s (read_token C (pos + gap) rest)
  unfolding read_token
  read_token-Next pos gap s [] e fits blank =
      let all : gap ≡ length s = omega (arith, fits, sym (length-drop gap s) ∙ ap length e) in
      inl (refl, ap (λ k. pos + k) all, omega (arith, all), subst (Blank C) (whole all) blank)
    where
      whole : gap ≡ length s → take gap s ≡ s
      whole all = ap (λ k. take k s) all ∙ take-length s
  read_token-Next pos gap s (c ∷ rest) e fits blank =
      Next-Reads pos gap s (read_token C (pos + gap) (c ∷ rest)) fits blank (
        subst (λ u. Reads (pos + gap) u (read_token C (pos + gap) (c ∷ rest))) (sym e)
          (read_token-Reads C (pos + gap) c rest))

  skipped-Next : (pos : ℕ) (s : Text) (r : Lexed ℕ) → Skips C s r → Next pos s (skipped C pos s r)
  unfolding skipped
  skipped-Next pos s (ok gap) (fits, blank) = read_token-Next pos gap s (drop gap s) refl fits blank
  skipped-Next pos s (raised e) h = tt
  skipped-Next pos s no_fuel h = h

  next_token-Next : (pos : ℕ) (s : Text) → Next pos s (next_token C pos s)
  unfolding next_token
  next_token-Next pos s =
      skipped-Next pos s (skip_whitespace_and_comments C (suc (length s)) s)
        (skip_whitespace_and_comments-Skips C (suc (length s)) s (omega arith))

  -- A result that is an error or the tokens of the text.
  abbrev pub Lexes : ℕ → Text → Lexed (List Token) → Type 0
  Lexes pos s (ok tokens) = Tiled pos s tokens
  Lexes pos s (raised e) = Unit
  Lexes pos s no_fuel = ⊥

  before_all-Lexes :
      (pos gap n : ℕ) (s : Text) (t : Token) (r : Lexed (List Token))
      → Stands pos s t gap n
      → Lexes t.end (drop (gap + n) s) r
      → Lexes pos s (before_all t r)
  unfolding Tiled
  before_all-Lexes pos gap n s t (ok []) stands h = absurd h
  before_all-Lexes pos gap n s t (ok (u ∷ tokens)) stands h = (gap, n, stands, h)
  before_all-Lexes pos gap n s t (raised e) stands h = tt
  before_all-Lexes pos gap n s t no_fuel stands h = h

  after_token-Lexes :
      (more : ℕ → Text → Lexed (List Token)) (pos : ℕ) (s : Text) (r : Lexed Token)
      → Next pos s r
      → ((place : ℕ) (u : Text) → length u < length s → Lexes place u (more place u))
      → Lexes pos s (after_token more pos s r)
  unfolding after_token Tiled
  after_token-Lexes more pos s (ok t) (inl (kind, starts, ends, blank)) k =
      rw (Lexes, kind) (kind, starts, ends, blank)
  after_token-Lexes more pos s (ok t) (inr (gap, n, stands)) k =
      let (fits, blank, (some, short, starts, ends, spelling, kind)) = stands in
      let behind : t.end - pos ≡ gap + n = omega (arith, ends) in
      rw (Lexes, kind, behind)
        (before_all-Lexes pos gap n s t (more t.end (drop (gap + n) s)) stands (
          k t.end (drop (gap + n) s)
            (omega (arith, length-drop (gap + n) s, fits, some, short, length-drop gap s))))
  after_token-Lexes more pos s (raised e) h k = tt
  after_token-Lexes more pos s no_fuel h k = h

  tokens_from-Lexes :
      (fuel pos : ℕ) (s : Text) → length s < fuel → Lexes pos s (tokens_from C fuel pos s)
  unfolding tokens_from
  tokens_from-Lexes zero pos s h = elim h [ ]
  tokens_from-Lexes (suc fuel) pos s h =
      after_token-Lexes (tokens_from C fuel) pos s (next_token C pos s) (next_token-Next pos s)
        (λ place u shorter. tokens_from-Lexes fuel place u (omega (arith, h, shorter)))

-- The lexer ends on every source: with an error, or with tokens that, with the white space and the
-- comments in the gaps between them, make up the source, in order, up to the token of its end.
pub tokenize-Lexes :
    (C : Chars) (source : Text)
    → ((e : LexError) × (tokenize C source ≡ raised e))
      ⊎ ((tokens : List Token) × (tokenize C source ≡ ok tokens) × Tiled C 0 source tokens)
unfolding tokenize
tokenize-Lexes C source =
    outcome (tokens_from C (suc (length source)) 0 source)
      (tokens_from-Lexes C (suc (length source)) 0 source (omega arith))
  where
    outcome :
        (r : Lexed (List Token))
        → Lexes C 0 source r
        → ((e : LexError) × (r ≡ raised e))
          ⊎ ((tokens : List Token) × (r ≡ ok tokens) × Tiled C 0 source tokens)
    outcome (ok tokens) h = inr (tokens, refl, h)
    outcome (raised e) h = inl (e, refl)
    outcome no_fuel h = absurd h
