-- ===== src/RowAccess/Trimmed.antt =====
-- row_access/identity.py: which values of a caller header are accepted, said without strip.
use bqemulator.Prelude.{
  ℕ, ◌≡◌, ◌↔◌, ◌⊎◌, ◌≢◌, refl, sym, ap, ◌∙◌, inl, inr, Bool, true, false, not, some, [], ◌∷◌, ◌++◌,
  arith, if◌then◌else◌, Text, Bool-cases,
}
use mathlib.Core.Path.{subst}
use bqemulator.Identifiers.{all_chars, last_is}
use bqemulator.RowAccess.Strings.{is_space, lstrip, rstrip, strip}
use bqemulator.RowAccess.Identity.{has_bad, parse_trimmed, parse_caller}

abbrev pub first_is_solid : Text → Bool
first_is_solid [] = false
first_is_solid (c ∷ s) = not (is_space c)

abbrev pub last_is_solid : Text → Bool
last_is_solid s = last_is (λ c. not (is_space c)) s

-- The value is white space, then `v`, then white space; `v` is not empty, begins and ends with another
-- character, and holds no space, tab, line end or comma.
abbrev pub Accepts : Text → Text → Type 0
Accepts value v =
    (before : Text) × (after : Text) × (value ≡ before ++ (v ++ after))
    × (all_chars is_space before ≡ true)
    × (all_chars is_space after ≡ true)
    × (first_is_solid v ≡ true)
    × (last_is_solid v ≡ true)
    × (has_bad v ≡ false)

-- What is stripped in front.
lstrip-parts :
    (s : Text) → (before : Text) × (s ≡ before ++ lstrip s) × (all_chars is_space before ≡ true)
unfolding lstrip all_chars
lstrip-parts [] = ([], refl, refl)
lstrip-parts (c ∷ s) = elim (Bool-cases (is_space c)) [
  | inl e ↦
      let (before, parts, blank) = lstrip-parts s in
      rw e (c ∷ before, ap (λ t. c ∷ t) parts, rw e blank)
  | inr e ↦ rw e ([], refl, refl)
]

first_is_solid-lstrip : (s : Text) (c : ℕ) (t : Text) → lstrip s ≡ c ∷ t → is_space c ≡ false
unfolding lstrip
first_is_solid-lstrip [] c t h = cc
first_is_solid-lstrip (d ∷ s) c t h = ground (arith, first_is_solid-lstrip s c t)

abbrev rstrip_onto : ℕ → Text → Text
rstrip_onto c [] = if is_space c then [] else c ∷ []
rstrip_onto c (d ∷ t) = c ∷ d ∷ t

rstrip-onto : (c : ℕ) (s : Text) → rstrip (c ∷ s) ≡ rstrip_onto c (rstrip s)
unfolding rstrip
rstrip-onto c s = onto (rstrip s)
  where
    onto :
        (t : Text)
        → elim t [ [] ↦ if is_space c then [] else c ∷ [] | d ∷ u ↦ c ∷ d ∷ u ] ≡ rstrip_onto c t
    onto [] = refl
    onto (d ∷ t) = refl

rstrip_onto-parts :
    (c : ℕ) (t after : Text)
    → all_chars is_space after ≡ true
    → (after' : Text) × (c ∷ (t ++ after) ≡ rstrip_onto c t ++ after')
      × (all_chars is_space after' ≡ true)
unfolding all_chars
rstrip_onto-parts c [] after blank = elim (Bool-cases (is_space c)) [
  | inl e ↦ rw e (c ∷ after, refl, rw e blank)
  | inr e ↦ rw e (after, refl, blank)
]
rstrip_onto-parts c (d ∷ t) after blank = (after, refl, blank)

-- What is stripped behind.
rstrip-parts :
    (s : Text) → (after : Text) × (s ≡ rstrip s ++ after) × (all_chars is_space after ≡ true)
unfolding rstrip all_chars
rstrip-parts [] = ([], refl, refl)
rstrip-parts (c ∷ s) =
    let (after, parts, blank) = rstrip-parts s in
    let (after', onto, blank') = rstrip_onto-parts c (rstrip s) after blank in
    (after', ap (λ t. c ∷ t) parts ∙ onto ∙ ap (λ t. t ++ after') (sym (rstrip-onto c s)), blank')

rstrip_onto-solid :
    (c : ℕ) (t : Text)
    → (t ≡ []) ⊎ (last_is_solid t ≡ true)
    → (rstrip_onto c t ≡ []) ⊎ (last_is_solid (rstrip_onto c t) ≡ true)
unfolding last_is
rstrip_onto-solid c [] h = elim (Bool-cases (is_space c)) [
  | inl e ↦ rw e (inl refl)
  | inr e ↦ rw e (inr (rw e refl))
]
rstrip_onto-solid c (d ∷ t) (inl e) = absurd (full e)
  where
    full : d ∷ t ≡ [] → ⊥
    full e = cc
rstrip_onto-solid c (d ∷ t) (inr h) = inr h

last_is_solid-rstrip : (s : Text) → (rstrip s ≡ []) ⊎ (last_is_solid (rstrip s) ≡ true)
unfolding rstrip
last_is_solid-rstrip [] = inl refl
last_is_solid-rstrip (c ∷ s) =
    subst (λ t. (t ≡ []) ⊎ (last_is_solid t ≡ true)) (sym (rstrip-onto c s))
      (rstrip_onto-solid c (rstrip s) (last_is_solid-rstrip s))

rstrip_onto-first :
    (c : ℕ) (t : Text) → is_space c ≡ false → first_is_solid (rstrip_onto c t) ≡ true
rstrip_onto-first c [] h = rw h (rw h refl)
rstrip_onto-first c (d ∷ t) h = rw h refl

-- A text that is stripped is empty or begins with another character than white space.
first_is_solid-strip : (s : Text) → (strip s ≡ []) ⊎ (first_is_solid (strip s) ≡ true)
unfolding strip
first_is_solid-strip s = go (lstrip s) refl
  where
    go : (t : Text) → lstrip s ≡ t → (rstrip t ≡ []) ⊎ (first_is_solid (rstrip t) ≡ true)
    go [] e = inl (unfold rstrip in refl)
    go (c ∷ t) e = inr (
        ap first_is_solid (rstrip-onto c t)
        ∙ rstrip_onto-first c (rstrip t) (first_is_solid-lstrip s c t e))

lstrip-blank :
    (before t : Text) → all_chars is_space before ≡ true → lstrip (before ++ t) ≡ lstrip t
unfolding lstrip all_chars
lstrip-blank [] t h = refl
lstrip-blank (c ∷ before) t h =
    let e : is_space c ≡ true = ground arith in rw e (lstrip-blank before t (ground arith))

lstrip-solid : (v t : Text) → first_is_solid v ≡ true → lstrip (v ++ t) ≡ v ++ t
unfolding lstrip
lstrip-solid [] t h = cc
lstrip-solid (c ∷ v) t h = ground arith

rstrip-blank : (after : Text) → all_chars is_space after ≡ true → rstrip after ≡ []
unfolding rstrip all_chars
rstrip-blank [] h = refl
rstrip-blank (c ∷ after) h =
    let e : is_space c ≡ true = ground arith in
    rstrip-onto c after ∙ ap (rstrip_onto c) (rstrip-blank after (ground arith)) ∙ rw e refl

rstrip-solid :
    (v after : Text)
    → last_is_solid v ≡ true
    → all_chars is_space after ≡ true
    → rstrip (v ++ after) ≡ v
unfolding last_is
rstrip-solid [] after h blank = cc
rstrip-solid (c ∷ []) after h blank =
    let e : is_space c ≡ false = ground arith in
    rstrip-onto c after ∙ ap (rstrip_onto c) (rstrip-blank after blank) ∙ rw e refl
rstrip-solid (c ∷ d ∷ v) after h blank =
    rstrip-onto c (d ∷ (v ++ after)) ∙ ap (rstrip_onto c) (rstrip-solid (d ∷ v) after h blank)

parse_trimmed-some :
    (t v : Text) → parse_trimmed t ≡ some v → (t ≡ v) × (t ≢ []) × (has_bad v ≡ false)
parse_trimmed-some [] v h = cc
parse_trimmed-some (c ∷ t) v h =
    let clean : has_bad (c ∷ t) ≡ false = ground arith in
    let same : c ∷ t ≡ v = ground arith in
    (same, (λ e. cc), subst (λ u. has_bad u ≡ false) same clean)

parse_trimmed-clean :
    (v : Text) → first_is_solid v ≡ true → has_bad v ≡ false → parse_trimmed v ≡ some v
parse_trimmed-clean [] h k = cc
parse_trimmed-clean (c ∷ v) h k = rw k refl

-- The one of two cases that is left.
left_over : {A : Type 0} {s : Text} → (s ≡ []) ⊎ A → s ≢ [] → A
left_over (inl e) n = absurd (n e)
left_over (inr a) n = a

-- The text between the white space is what strip gives.
pub strip-between :
    (before v after : Text)
    → all_chars is_space before ≡ true
    → all_chars is_space after ≡ true
    → first_is_solid v ≡ true
    → last_is_solid v ≡ true
    → strip (before ++ (v ++ after)) ≡ v
unfolding strip
strip-between before v after blank blank' first last =
    ap rstrip (lstrip-blank before (v ++ after) blank ∙ lstrip-solid v after first)
    ∙ rstrip-solid v after last blank'

-- parse_caller accepts exactly these values, and returns what is between the white space.
pub parse_caller_iff : (value v : Text) → (parse_caller (some value) ≡ some v) ↔ Accepts value v
unfolding parse_caller
parse_caller_iff value v = (accepted, returned)
  where
    accepted : parse_trimmed (strip value) ≡ some v → Accepts value v
    accepted h =
        let (same, full, clean) = parse_trimmed-some (strip value) v h in
        let (before, parts, blank) = lstrip-parts value in
        let (after, parts', blank') = rstrip-parts (lstrip value) in
        let core : rstrip (lstrip value) ≡ v = unfold strip in same in
        (
          before,
          after,
          parts ∙ ap (λ t. before ++ t) (parts' ∙ ap (λ t. t ++ after) core),
          blank,
          blank',
          subst (λ t. first_is_solid t ≡ true) same (left_over (first_is_solid-strip value) full),
          subst (λ t. last_is_solid t ≡ true) core
              (left_over (last_is_solid-rstrip (lstrip value)) (λ e. full (unfold strip in e))),
          clean,
        )

    returned : Accepts value v → parse_trimmed (strip value) ≡ some v
    returned (before, after, parts, blank, blank', first, last, clean) =
        ap (λ t. parse_trimmed (strip t)) parts
        ∙ ap parse_trimmed (strip-between before v after blank blank' first last)
        ∙ parse_trimmed-clean v first clean
