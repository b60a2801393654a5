-- ===== src/Identifiers/Names.antt =====
-- Which names that are built from identifiers can be confused.
use bqemulator.Prelude.{
  ◌+◌, ◌≡◌, ◌↔◌, refl, ap, ◌∙◌, true, if◌then◌else◌, Option, none, some, [], ◌∷◌, ◌++◌,
  append_assoc, arith, Text, text,
}
use mathlib.Core.List.{tail-eq_of_cons-eq}
use bqemulator.Identifiers.{
  is_upper, is_project_char, all_chars, matches_sql_safe, schema_name, sanitize,
  qualified_routine_name_parts,
}

-- Texts of project characters that an underscore follows are told apart by the first underscore.
split_at_underscore :
    (p q x y : Text)
    → all_chars is_project_char p ≡ true
    → all_chars is_project_char q ≡ true
    → p ++ b'_' ∷ x ≡ q ++ b'_' ∷ y
    → (p ≡ q) × (x ≡ y)
unfolding all_chars is_project_char
split_at_underscore [] [] x y hp hq e = ground arith
split_at_underscore [] (c ∷ q) x y hp hq e = ground arith
split_at_underscore (b ∷ p) [] x y hp hq e = ground arith
split_at_underscore (b ∷ p) (c ∷ q) x y hp hq e = ground (arith, split_at_underscore p q x y)

-- The identifiers pass the SQL whitelist.
abbrev pub Pass : Text → Type 0
Pass s = matches_sql_safe s ≡ true

pub schema_name-eq : (p d : Text) → Pass p → Pass d → schema_name p d ≡ some (p ++ text "__" ++ d)
unfolding schema_name
schema_name-eq p d hp hd = ground arith

-- The text with its ASCII letters in lower case. DuckDB compares the names of schemas up to case, and
-- every identifier that passes is ASCII.
unfoldable pub folded : Text → Text
folded [] = []
folded (c ∷ s) = (if is_upper c then c + 32 else c) ∷ folded s

folded-append : (s t : Text) → folded (s ++ t) ≡ folded s ++ folded t
unfolding folded
folded-append [] t = refl
folded-append (c ∷ s) t = ap (λ u. (if is_upper c then c + 32 else c) ∷ u) (folded-append s t)

folded-project : (p : Text) → all_chars is_project_char p ≡ true → folded p ≡ p
unfolding folded all_chars is_project_char
folded-project [] h = refl
folded-project (c ∷ p) h =
    let same : (if is_upper c then c + 32 else c) ≡ c = ground arith in
    rw (same, folded-project p (ground arith)) refl

-- Both names are built, and they differ at most in the case of their letters.
unfoldable pub SameSchema : Option Text → Option Text → Type 0
SameSchema none o = ⊥
SameSchema (some x) none = ⊥
SameSchema (some x) (some y) = folded x ≡ folded y

folded-schema :
    (p d : Text)
    → all_chars is_project_char p ≡ true
    → folded (p ++ text "__" ++ d) ≡ p ++ b'_' ∷ (b'_' ∷ folded d)
unfolding folded
folded-schema p d h =
    folded-append (p ++ text "__") d
    ∙ ap (λ t. t ++ folded d)
        (folded-append p (text "__") ∙ ap (λ t. t ++ text "__") (folded-project p h))
    ∙ append_assoc p (text "__") (folded d)

-- Of two datasets whose ids pass the whitelist, and whose project ids hold only lower-case letters,
-- digits and hyphens, the schema names are equal up to the case of their letters, as DuckDB compares
-- them, exactly if the projects are the same and the dataset ids are equal up to case.
pub schema_name_iff :
    (p d q e : Text)
    → all_chars is_project_char p ≡ true
    → all_chars is_project_char q ≡ true
    → Pass p
    → Pass d
    → Pass q
    → Pass e
    → SameSchema (schema_name p d) (schema_name q e) ↔ ((p ≡ q) × (folded d ≡ folded e))
unfolding SameSchema
schema_name_iff p d q e hp hq vp vd vq ve =
    rw
      (
        schema_name-eq p d vp vd,
        schema_name-eq q e vq ve,
        folded-schema p d hp,
        folded-schema q e hq,
      )
      (
        (λ h.
            let (same, rest) =
              split_at_underscore p q (b'_' ∷ folded d) (b'_' ∷ folded e) hp hq h in
            (same, tail-eq_of_cons-eq rest)),
        (λ h i. (h.0) i ++ b'_' ∷ (b'_' ∷ (h.1) i)),
      )

-- Without that condition they can: `a__b`, `c` and `a`, `b__c` have one schema.
pub schema_name-collision :
    (a b c : Text)
    → Pass a
    → Pass c
    → Pass (a ++ text "__" ++ b)
    → Pass (b ++ text "__" ++ c)
    → schema_name (a ++ text "__" ++ b) c ≡ schema_name a (b ++ text "__" ++ c)
schema_name-collision a b c ha hc hab hbc =
    rw
      (schema_name-eq (a ++ text "__" ++ b) c hab hc, schema_name-eq a (b ++ text "__" ++ c) ha hbc)
      (simp append_assoc)

sanitize-append : (s t : Text) → sanitize (s ++ t) ≡ sanitize s ++ sanitize t
unfolding sanitize
sanitize-append [] t = refl
sanitize-append (c ∷ s) t = ground (arith, sanitize-append s t)

sanitize_underscores : sanitize (text "__") ≡ text "__"
unfolding sanitize
sanitize_underscores = refl

routine_name-eq :
    (p d r : Text)
    → Pass p
    → Pass d
    → Pass r
    → qualified_routine_name_parts p d r
      ≡ some (sanitize p ++ text "__" ++ sanitize d ++ text "__" ++ sanitize r)
unfolding qualified_routine_name_parts
routine_name-eq p d r hp hd hr = ground arith

-- For ids that pass the whitelist, the routine `c` of the dataset `a__b` and the routine `b__c` of the
-- dataset `a` in one project have the same DuckDB name.
pub routine_name-collision :
    (p a b c : Text)
    → Pass p
    → Pass a
    → Pass c
    → Pass (a ++ text "__" ++ b)
    → Pass (b ++ text "__" ++ c)
    → qualified_routine_name_parts p (a ++ text "__" ++ b) c
      ≡ qualified_routine_name_parts p a (b ++ text "__" ++ c)
routine_name-collision p a b c hp ha hc hab hbc =
    rw
      (
        routine_name-eq p (a ++ text "__" ++ b) c hp hab hc,
        routine_name-eq p a (b ++ text "__" ++ c) hp ha hbc,
      )
      (simp (sanitize-append, sanitize_underscores, append_assoc))
