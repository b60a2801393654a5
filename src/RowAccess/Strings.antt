-- ===== src/RowAccess/Strings.antt =====
-- The methods of Python's `str` that row_access uses: strip, split(sep, 1) and startswith.
use bqemulator.Prelude.{
  ℕ, ◌≡◌, ◌≢◌, inl, inr, refl, Bool, true, ◌&&◌, ◌||◌, Option, none, some, [], ◌∷◌, ◌++◌, arith,
  leb, nat_eq, if◌then◌else◌, Text, not, Option-cases, nat_eq_iff,
}
use bqemulator.Identifiers.{all_chars}

-- str.isspace of one character: every code point that Unicode counts as white space or a separator.
unfoldable pub is_space : ℕ → Bool
is_space c =
    (leb 9 c && leb c 13)
    || (leb 28 c && leb c 32)
    || nat_eq c 133
    || nat_eq c 160
    || nat_eq c 5760
    || (leb 8192 c && leb c 8202)
    || nat_eq c 8232
    || nat_eq c 8233
    || nat_eq c 8239
    || nat_eq c 8287
    || nat_eq c 12288

unfoldable pub lstrip : Text → Text
lstrip [] = []
lstrip (c ∷ s) = let rest = lstrip s in if is_space c then rest else c ∷ s

-- The space characters at the end are dropped.
unfoldable pub rstrip : Text → Text
rstrip [] = []
rstrip (c ∷ s) = elim (rstrip s) [ [] ↦ if is_space c then [] else c ∷ [] | d ∷ t ↦ c ∷ d ∷ t ]

-- s.strip()
unfoldable pub strip : Text → Text
unfolding lstrip rstrip
strip s = rstrip (lstrip s)

abbrev cut_behind : ℕ → Option (Text × Text) → Option (Text × Text)
cut_behind c none = none
cut_behind c (some (before, after)) = some (c ∷ before, after)

-- s.split(sep, 1), or `none` if `sep` is not in `s`.
unfoldable pub cut : ℕ → Text → Option (Text × Text)
cut sep [] = none
cut sep (c ∷ s) = let rest = cut_behind c (cut sep s) in if nat_eq c sep then some ([], s) else rest

-- s[len(prefix):] if s.startswith(prefix), or `none`.
unfoldable pub drop_prefix : Text → Text → Option Text
drop_prefix [] s = some s
drop_prefix (c ∷ p) [] = none
drop_prefix (c ∷ p) (d ∷ s) = let rest = drop_prefix p s in if nat_eq c d then rest else none

-- The character is not in the text.
abbrev pub Lacks : ℕ → Text → Type 0
Lacks c s = all_chars (λ d. not (nat_eq d c)) s ≡ true

-- A text is cut at the first separator.
pub cut-append : (sep : ℕ) (s t : Text) → Lacks sep s → cut sep (s ++ sep ∷ t) ≡ some (s, t)
unfolding cut all_chars
cut-append sep [] t h = ground (arith, nat_eq_iff sep sep)
cut-append sep (c ∷ s) t h = ground (arith, cut-append sep s t)

pub cut-Lacks : (sep : ℕ) (s : Text) → Lacks sep s → cut sep s ≡ none
unfolding cut all_chars
cut-Lacks sep [] h = refl
cut-Lacks sep (c ∷ s) h = ground (arith, cut-Lacks sep s)

-- The way back: what a cut gives, put together, is the text.
pub cut_inv : (sep : ℕ) (s a b : Text) → cut sep s ≡ some (a, b) → (s ≡ a ++ sep ∷ b) × Lacks sep a
unfolding cut all_chars
cut_inv sep [] a b h = cc
cut_inv sep (c ∷ s) a b h = elim (Option-cases (cut sep s)) [
  | inl n ↦ ground (arith, nat_eq_iff c sep)
  | inr ((x, y), e) ↦ ground (arith, nat_eq_iff c sep, cut_inv sep s x y e)
]

pub cut-none_inv : (sep : ℕ) (s : Text) → cut sep s ≡ none → Lacks sep s
unfolding cut all_chars
cut-none_inv sep [] h = refl
cut-none_inv sep (c ∷ s) h = ground (arith, cut-none_inv sep s)

pub rstrip-keep : (c d : ℕ) (s : Text) → rstrip (d ∷ s) ≡ d ∷ s → rstrip (c ∷ d ∷ s) ≡ c ∷ d ∷ s
unfolding rstrip
rstrip-keep c d s h = rw (h, rstrip) refl

-- Where nothing is stripped at the end of the end, nothing is.
pub rstrip-append : (s t : Text) → t ≢ [] → rstrip t ≡ t → rstrip (s ++ t) ≡ s ++ t
rstrip-append [] t n h = h
rstrip-append (c ∷ []) [] n h = absurd (n refl)
rstrip-append (c ∷ []) (d ∷ t) n h = rstrip-keep c d t h
rstrip-append (c ∷ d ∷ s) t n h = rstrip-keep c d (s ++ t) (rstrip-append (d ∷ s) t n h)
