-- ===== src/Identifiers/Safety.antt =====
-- What the identifier whitelists let through.
use bqemulator.Prelude.{
  ℕ, suc, ◌+◌, ◌≡◌, ◌≢◌, ◌⊎◌, ◌↔◌, inl, inr, refl, Bool, true, false, some, [], ◌∷◌, ◌++◌, arith,
  nat_eq, nat_eq_iff, &&-left, &&-right, Bool-cases, ap, ◌∙◌, if◌then◌else◌, Text, text, All,
}
use bqemulator.Identifiers.{
  quoted, newline, quote, is_word, is_word_dash, all_chars, drop_final_newline, is_sql_safe,
  matches_sql_safe, validate_sql_id, quoted_table_ref,
}

-- Not a quote, a semicolon, a space, a dot, a slash or a parenthesis: what an injection needs.
abbrev pub IsHarmless : ℕ → Type 0
IsHarmless c =
    (c ≢ b'"') × (c ≢ 39) × (c ≢ b';') × (c ≢ b' ') × (c ≢ b'(') × (c ≢ b'/') × (c ≢ b'.') × (c ≢ 0)

word_dash-IsHarmless : (c : ℕ) → is_word_dash c ≡ true → IsHarmless c
unfolding is_word_dash
word_dash-IsHarmless c h = ground arith

All-of_all_chars :
    {P : ℕ → Type 0} (p : ℕ → Bool) (s : Text)
    → ((c : ℕ) → p c ≡ true → P c)
    → all_chars p s ≡ true
    → All P s
unfolding all_chars
All-of_all_chars p [] f h = tt
All-of_all_chars p (c ∷ s) f h = (
  f c (&&-left (p c) (all_chars p s) h),
  All-of_all_chars p s f (&&-right (p c) (all_chars p s) h),
)

-- A text is what `$` sees of it, or that and one newline.
pub drop_final_newline-cases :
    (s : Text) → (s ≡ drop_final_newline s) ⊎ (s ≡ drop_final_newline s ++ newline ∷ [])
unfolding drop_final_newline
drop_final_newline-cases [] = inl refl
drop_final_newline-cases (c ∷ []) = ground (arith, nat_eq_iff c newline)
drop_final_newline-cases (c ∷ d ∷ s) = elim (drop_final_newline-cases (d ∷ s)) [
  | inl e ↦ inl (ap (λ t. c ∷ t) e)
  | inr e ↦ inr (ap (λ t. c ∷ t) e)
]

pub drop_final_newline-append : (s : Text) → drop_final_newline (s ++ newline ∷ []) ≡ s
unfolding drop_final_newline
drop_final_newline-append [] = refl
drop_final_newline-append (c ∷ []) = refl
drop_final_newline-append (c ∷ d ∷ s) = ap (λ t. c ∷ t) (drop_final_newline-append (d ∷ s))

all_chars-drop_final_newline :
    (p : ℕ → Bool) (s : Text) → p newline ≡ false → all_chars p s ≡ true → drop_final_newline s ≡ s
unfolding drop_final_newline all_chars
all_chars-drop_final_newline p [] n h = refl
all_chars-drop_final_newline p (c ∷ []) n h = ground (arith, nat_eq_iff c newline)
all_chars-drop_final_newline p (c ∷ d ∷ s) n h =
    ap (λ t. c ∷ t)
      (all_chars-drop_final_newline p (d ∷ s) n (&&-right (p c) (all_chars p (d ∷ s)) h))

all_chars_weaken : (s : Text) → all_chars is_word s ≡ true → all_chars is_word_dash s ≡ true
unfolding all_chars is_word_dash
all_chars_weaken [] h = refl
all_chars_weaken (c ∷ s) h = ground (arith, all_chars_weaken s)

sql_safe-all_chars : (s : Text) → is_sql_safe s ≡ true → all_chars is_word_dash s ≡ true
sql_safe-all_chars [] h = unfold is_sql_safe in cc
sql_safe-all_chars (c ∷ s) h = unfold is_sql_safe all_chars in ground (arith)

word_dash-newline : is_word_dash newline ≡ false
unfolding is_word_dash
word_dash-newline = refl

-- Exactly the whitelisted ids pass, and those with one newline behind them.
pub matches_sql_safe_iff :
    (s : Text)
    → (matches_sql_safe s ≡ true)
      ↔ ((is_sql_safe s ≡ true) ⊎ ((t : Text) × (s ≡ t ++ newline ∷ []) × (is_sql_safe t ≡ true)))
matches_sql_safe_iff s = (
  λ h.
      unfold matches_sql_safe in
      elim (drop_final_newline-cases s) [
        | inl e ↦ inl (ap is_sql_safe e ∙ h)
        | inr e ↦ inr (drop_final_newline s, e, h)
      ],
  elim [
    | inl h ↦
        unfold matches_sql_safe in
        rw (all_chars-drop_final_newline is_word_dash s word_dash-newline (sql_safe-all_chars s h))
          h
    | inr (t, e, h) ↦ rw e (unfold matches_sql_safe in rw (drop_final_newline-append t) h)
  ],
)

All-append_one : (s : Text) (c : ℕ) → All IsHarmless s → IsHarmless c → All IsHarmless (s ++ c ∷ [])
All-append_one [] c h k = (k, tt)
All-append_one (x ∷ s) c h k = (h.0, All-append_one s c h.1 k)

pub sql_safe-IsHarmless : (s : Text) → matches_sql_safe s ≡ true → All IsHarmless s
sql_safe-IsHarmless s h = elim ((matches_sql_safe_iff s).0 h) [
  | inl k ↦ safe s k
  | inr (t, e, k) ↦ rw e (All-append_one t newline (safe t k) (omega arith))
]
  where
    safe : (t : Text) → is_sql_safe t ≡ true → All IsHarmless t
    safe t k = All-of_all_chars is_word_dash t word_dash-IsHarmless (sql_safe-all_chars t k)

validate_sql_id-eq_some :
    (s r : Text) → validate_sql_id s ≡ some r → (s ≡ r) × (matches_sql_safe s ≡ true)
validate_sql_id-eq_some s r h = elim (Bool-cases (matches_sql_safe s)) [
  | inl e ↦ (unfold validate_sql_id in ground arith, e)
  | inr e ↦ unfold validate_sql_id in ground arith
]

-- How often a character stands in a text.
pub occurrences : ℕ → Text → ℕ
occurrences c [] = 0
occurrences c (d ∷ s) = let rest = occurrences c s in if nat_eq c d then suc rest else rest

occurrences-append :
    (c : ℕ) (s t : Text) → occurrences c (s ++ t) ≡ occurrences c s + occurrences c t
unfolding occurrences
occurrences-append c [] t = omega arith
occurrences-append c (d ∷ s) t = ground (arith, occurrences-append c s t)

occurrences_none : (s : Text) → All IsHarmless s → occurrences quote s ≡ 0
unfolding occurrences
occurrences_none [] h = refl
occurrences_none (c ∷ s) h = ground (arith, occurrences_none s h.1)

occurrences-quoted : (s : Text) → occurrences quote (quoted s) ≡ occurrences quote s + 2
unfolding occurrences
occurrences-quoted s = omega (arith, occurrences-append quote s (quote ∷ []))

underscores : occurrences quote (text "__") ≡ 0
unfolding occurrences
underscores = refl

dot : occurrences quote (text ".") ≡ 0
unfolding occurrences
dot = refl

counted :
    (p d t : Text)
    → All IsHarmless p
    → All IsHarmless d
    → All IsHarmless t
    → occurrences quote (quoted (p ++ text "__" ++ d) ++ text "." ++ quoted t) ≡ 4
counted p d t hp hd ht = omega (
  arith,
  occurrences-append quote (quoted (p ++ text "__" ++ d) ++ text ".") (quoted t),
  occurrences-append quote (quoted (p ++ text "__" ++ d)) (text "."),
  occurrences-quoted (p ++ text "__" ++ d),
  occurrences-append quote (p ++ text "__") d,
  occurrences-append quote p (text "__"),
  occurrences-quoted t,
  occurrences_none p hp,
  occurrences_none d hd,
  occurrences_none t ht,
  underscores,
  dot,
)

quoted_table_ref-eq_some :
    (p d t r : Text)
    → quoted_table_ref p d t ≡ some r
    → (r ≡ quoted (p ++ text "__" ++ d) ++ text "." ++ quoted t)
      × (matches_sql_safe p ≡ true)
      × (matches_sql_safe d ≡ true)
      × (matches_sql_safe t ≡ true)
quoted_table_ref-eq_some p d t r h = elim (Bool-cases (matches_sql_safe p)) [
  | inl a ↦ elim (Bool-cases (matches_sql_safe d)) [
    | inl b ↦ elim (Bool-cases (matches_sql_safe t)) [
      | inl c ↦ unfold quoted_table_ref in ground arith
      | inr c ↦ unfold quoted_table_ref in ground arith
    ]
    | inr b ↦ unfold quoted_table_ref in ground arith
  ]
  | inr a ↦ unfold quoted_table_ref in ground arith
]

-- A table reference that is built has exactly four double quotes.
pub quoted_table_ref-quotes :
    (p d t r : Text) → quoted_table_ref p d t ≡ some r → occurrences quote r ≡ 4
quoted_table_ref-quotes p d t r h =
    let q = quoted_table_ref-eq_some p d t r h in
    rw q.0 (
      counted p d t (sql_safe-IsHarmless p q.1) (sql_safe-IsHarmless d q.2)
        (sql_safe-IsHarmless t q.3))
