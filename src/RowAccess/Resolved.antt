-- ===== src/RowAccess/Resolved.antt =====
-- What holds of every identity that row_access/identity.py resolves.
use bqemulator.Prelude.{
  ◌≡◌, ◌↔◌, refl, sym, ap, ◌∙◌, Bool, true, false, ◌||◌, Option, none, some, List, [], ◌∷◌, ◌++◌,
  append-nil, arith, Text, text, text_eq,
}
use bqemulator.Identifiers.{all_chars}
use bqemulator.Dict.{Dict, get, put}
use bqemulator.RowAccess.Strings.{strip, lstrip, rstrip}
use bqemulator.RowAccess.Trimmed.{Accepts, first_is_solid, parse_caller_iff, strip-between}
use mathlib.Core.Path.{subst}
use bqemulator.RowAccess.Identity.{
  default_caller, caller_header, user_project_header, has_bad, parse_caller, parse_trimmed,
  identity_for_user_project, or_unknown, resolve_from_pairs, resolve_parsed, lower_names,
  resolve_caller_from_headers,
}

has_bad-append : (s t : Text) → has_bad (s ++ t) ≡ (has_bad s || has_bad t)
unfolding has_bad
has_bad-append [] t = refl
has_bad-append (c ∷ s) t = ground (arith, has_bad-append s t)

has_bad-lstrip : (s : Text) → has_bad s ≡ false → has_bad (lstrip s) ≡ false
unfolding has_bad lstrip
has_bad-lstrip [] h = refl
has_bad-lstrip (c ∷ s) h = ground (arith, has_bad-lstrip s)

has_bad-rstrip : (s : Text) → has_bad s ≡ false → has_bad (rstrip s) ≡ false
unfolding has_bad rstrip
has_bad-rstrip [] h = refl
has_bad-rstrip (c ∷ s) h = ground (arith, has_bad-rstrip s)

parse_trimmed-clean : (s v : Text) → parse_trimmed s ≡ some v → has_bad v ≡ false
parse_trimmed-clean [] v h = cc
parse_trimmed-clean (c ∷ s) v h = ground arith

parse_caller-clean : (o : Option Text) (v : Text) → parse_caller o ≡ some v → has_bad v ≡ false
unfolding parse_caller
parse_caller-clean none v h = cc
parse_caller-clean (some s) v h = parse_trimmed-clean (strip s) v h

or_unknown-clean : (s : Text) → has_bad s ≡ false → has_bad (or_unknown s) ≡ false
or_unknown-clean [] h = unfold has_bad in refl
or_unknown-clean (c ∷ s) h = h

identity_for_user_project-clean :
    (p : Text) → has_bad p ≡ false → has_bad (identity_for_user_project p) ≡ false
unfolding identity_for_user_project strip
identity_for_user_project-clean p h =
    let c = or_unknown-clean (strip p) (has_bad-rstrip (lstrip p) (has_bad-lstrip p h)) in
    has_bad-append (text "user:caller@") (or_unknown (strip p) ++ text ".iam.gserviceaccount.com")
    ∙ rw (has_bad-append (or_unknown (strip p)) (text ".iam.gserviceaccount.com"))
        (rw c (unfold has_bad in refl))

resolve_parsed-clean :
    (a b : Option Text) (gs : List Text)
    → ((v : Text) → a ≡ some v → has_bad v ≡ false)
    → ((v : Text) → b ≡ some v → has_bad v ≡ false)
    → has_bad (resolve_parsed a b gs).principal ≡ false
resolve_parsed-clean (some v) b gs f g = f v refl
resolve_parsed-clean none (some v) gs f g = identity_for_user_project-clean v (g v refl)
resolve_parsed-clean none none gs f g = unfold has_bad in refl

-- The header is there with a value that is accepted, and `v` is what stands between its white space.
abbrev pub Gives : Dict Text Text → Text → Text → Type 0
Gives pairs header v = (value : Text) × (get pairs header ≡ some value) × Accepts value v

parse_caller-Gives :
    (pairs : Dict Text Text) (header v : Text)
    → (parse_caller (get pairs header) ≡ some v) ↔ Gives pairs header v
unfolding parse_caller
parse_caller-Gives pairs header v = go (get pairs header)
  where
    nothing : {A : Type 0} {a : A} → none ≡ some a → ⊥
    nothing e = cc

    found : {a b : Text} → some a ≡ some b → a ≡ b
    found e = cc

    go :
        (o : Option Text)
        → (parse_caller o ≡ some v) ↔ ((value : Text) × (o ≡ some value) × Accepts value v)
    go none = ((λ h. absurd (nothing h)), (λ (value, e, h). absurd (nothing e)))
    go (some s) = (
      (λ h. (s, refl, (parse_caller_iff s v).0 h)),
      (λ (value, e, h). (parse_caller_iff s v).1 (subst (λ u. Accepts u v) (sym (found e)) h)),
    )

parse_caller-none :
    (pairs : Dict Text Text) (header : Text)
    → (parse_caller (get pairs header) ≡ none) ↔ ((v : Text) → Gives pairs header v → ⊥)
parse_caller-none pairs header = (
  (λ e v given. nothing (sym e ∙ (parse_caller-Gives pairs header v).1 given)),
  go (parse_caller (get pairs header)) refl,
)
  where
    nothing : {v : Text} → none ≡ some v → ⊥
    nothing e = cc

    go :
        (o : Option Text)
        → parse_caller (get pairs header) ≡ o
        → ((v : Text) → Gives pairs header v → ⊥)
        → o ≡ none
    go none e given = refl
    go (some v) e given = absurd (given v ((parse_caller-Gives pairs header v).0 e))

-- The header gives nothing: it is missing, or its value is not accepted.
abbrev pub Silent : Dict Text Text → Text → Type 0
Silent pairs header = (v : Text) → Gives pairs header v → ⊥

-- Who the caller is, and whether they count as authenticated.
pub data Resolves (pairs : Dict Text Text) : Text → Bool → Type 0 where
  by_caller : (v : Text) → Gives pairs caller_header v → Resolves pairs v true
  by_project :
      (v : Text)
      → Silent pairs caller_header
      → Gives pairs user_project_header v
      → Resolves pairs (text "user:caller@" ++ (v ++ text ".iam.gserviceaccount.com")) true
  by_default :
      Silent pairs caller_header
      → Silent pairs user_project_header
      → Resolves pairs default_caller false

strip-Gives :
    (pairs : Dict Text Text) (header v : Text) → Gives pairs header v → or_unknown (strip v) ≡ v
unfolding strip all_chars
strip-Gives pairs header v
      (value, there, (before, after, parts, blank, blank', first, last, clean)) =
    ap (λ t. or_unknown (strip t)) (sym (append-nil v))
    ∙ ap or_unknown (strip-between [] v [] refl refl first last)
    ∙ full v first
  where
    full : (v : Text) → first_is_solid v ≡ true → or_unknown v ≡ v
    full [] h = cc
    full (c ∷ v) h = refl

resolve_parsed-Resolves :
    (pairs : Dict Text Text) (a b : Option Text) (gs : List Text)
    → parse_caller (get pairs caller_header) ≡ a
    → parse_caller (get pairs user_project_header) ≡ b
    → Resolves pairs (resolve_parsed a b gs).principal (resolve_parsed a b gs).is_authenticated
unfolding identity_for_user_project
resolve_parsed-Resolves pairs (some v) b gs e f =
    by_caller v ((parse_caller-Gives pairs caller_header v).0 e)
resolve_parsed-Resolves pairs none (some v) gs e f =
    let given = (parse_caller-Gives pairs user_project_header v).0 f in
    rw (strip-Gives pairs user_project_header v given)
      (by_project v ((parse_caller-none pairs caller_header).0 e) given)
resolve_parsed-Resolves pairs none none gs e f =
    by_default ((parse_caller-none pairs caller_header).0 e)
      ((parse_caller-none pairs user_project_header).0 f)

-- Whatever the headers hold, the caller is the one that the caller header gives; where it gives none,
-- the one made of the project that the project header gives; and where neither does, the default, who
-- alone is unauthenticated. The principal has no space, tab, line end or comma.
pub resolve_from_pairs-principal :
    (pairs : Dict Text Text)
    → Resolves pairs
        (resolve_from_pairs pairs).principal
        (resolve_from_pairs pairs).is_authenticated
      × (has_bad (resolve_from_pairs pairs).principal ≡ false)
unfolding resolve_from_pairs
resolve_from_pairs-principal pairs = (
  resolve_parsed-Resolves pairs (parse_caller (get pairs caller_header))
      (parse_caller (get pairs user_project_header)) _ refl refl,
  resolve_parsed-clean (parse_caller (get pairs caller_header))
      (parse_caller (get pairs user_project_header)) _
      (parse_caller-clean (get pairs caller_header))
      (parse_caller-clean (get pairs user_project_header)),
)

abbrev pub lowered : (Text → Text) → List (Text × Text) → List (Text × Text)
lowered lower [] = []
lowered lower ((n, v) ∷ items) = (lower n, v) ∷ lowered lower items

module _ (lower : Text → Text) (lower-lower : (s : Text) → lower (lower s) ≡ lower s) where
  lower_names-lowered :
      (d : Dict Text Text) (items : List (Text × Text))
      → lower_names lower d (lowered lower items) ≡ lower_names lower d items
  unfolding lower_names
  lower_names-lowered d [] = refl
  lower_names-lowered d ((n, v) ∷ items) =
      ap (λ x. lower_names lower (put d x v) (lowered lower items)) (lower-lower n)
      ∙ lower_names-lowered (put d (lower n) v) items

  -- If lowering a text twice is lowering it once, the names of the headers count up to their case.
  pub resolve_caller_from_headers-lowered :
      (items : List (Text × Text))
      → resolve_caller_from_headers lower (some (lowered lower items))
        ≡ resolve_caller_from_headers lower (some items)
  resolve_caller_from_headers-lowered items =
      unfold resolve_caller_from_headers in ap resolve_from_pairs (lower_names-lowered [] items)
