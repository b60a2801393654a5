-- ===== src/RowAccess/Addresses.antt =====
-- When two e-mail addresses are the same mailbox, and `_normalise_email` of row_access/matcher.py.
use bqemulator.Prelude.{
  ◌≡◌, ◌≢◌, ◌⊎◌, inl, inr, ◌↔◌, refl, sym, ap, ◌∙◌, Bool, true, false, ◌||◌, Option, some, List, [],
  ◌∷◌, ◌++◌, arith, Text, text_eq, ==_iff, Option-cases,
}
use bqemulator.RowAccess.Strings.{cut, Lacks, cut-append, cut_inv, cut-Lacks, cut-none_inv}
use bqemulator.RowAccess.Matcher.{normalise_email, any_same}

pub iff_trans : {P Q R : Type 0} → (P ↔ Q) → (Q ↔ R) → P ↔ R
iff_trans f g = (λ p. g.0 (f.0 p), λ r. f.1 (g.1 r))

pub or_iff :
    {p q : Bool} {P Q : Type 0} → ((p ≡ true) ↔ P) → ((q ≡ true) ↔ Q) → ((p || q) ≡ true) ↔ (P ⊎ Q)
or_iff {p = true} f g = (λ h. inl (f.0 refl), λ h. refl)
or_iff {p = false} f g = (λ h. inr (g.0 h), λ h. elim h [ inl x ↦ cc (f.1 x) | inr y ↦ g.1 y ])

module _ (lower : Text → Text) where
  -- The same mailbox: the same local part and the same host up to case, or one text without a host.
  pub data SameAddress (a b : Text) : Type 0 where
    no_host : a ≡ b → Lacks b'@' a → SameAddress a b
    with_host :
        (l h k : Text)
        → Lacks b'@' l
        → a ≡ l ++ b'@' ∷ h
        → b ≡ l ++ b'@' ∷ k
        → lower h ≡ lower k
        → SameAddress a b

  pub normalise_email-at :
      (l h : Text) → Lacks b'@' l → normalise_email lower (l ++ b'@' ∷ h) ≡ l ++ b'@' ∷ lower h
  normalise_email-at l h p = unfold normalise_email in rw (cut-append b'@' l h p) refl

  pub normalise_email-plain : (a : Text) → Lacks b'@' a → normalise_email lower a ≡ a
  normalise_email-plain a p = unfold normalise_email in rw (cut-Lacks b'@' a p) refl

  pub address_cases :
      (a : Text) → Lacks b'@' a ⊎ ((l : Text) × (h : Text) × Lacks b'@' l × (a ≡ l ++ b'@' ∷ h))
  address_cases a = elim (Option-cases (cut b'@' a)) [
    | inl n ↦ inl (cut-none_inv b'@' a n)
    | inr ((l, h), e) ↦ let (p, q) = cut_inv b'@' a l h e in inr (l, h, q, p)
  ]

  pub at-Lacks : (a l h : Text) → Lacks b'@' a → Lacks b'@' l → a ≢ l ++ b'@' ∷ h
  at-Lacks a l h p q e =
      let c : cut b'@' a ≡ some (l, h) = ap (cut b'@') e ∙ cut-append b'@' l h q in
      let d = cut-Lacks b'@' a p in cc

  pub SameAddress-of_normalised :
      (a b : Text) → normalise_email lower a ≡ normalise_email lower b → SameAddress a b
  SameAddress-of_normalised a b e = elim (address_cases a) [
    | inl p ↦ elim (address_cases b) [
      | inl q ↦ no_host (sym (normalise_email-plain a p) ∙ e ∙ normalise_email-plain b q) p
      | inr (l, h, q, eq) ↦ absurd (
          at-Lacks a l (lower h) p q (
            sym (normalise_email-plain a p)
            ∙ e
            ∙ ap (normalise_email lower) eq
            ∙ normalise_email-at l h q))
    ]
    | inr (l, h, q, eq) ↦ elim (address_cases b) [
      | inl p ↦ absurd (
          at-Lacks b l (lower h) p q (
            sym (normalise_email-plain b p)
            ∙ sym e
            ∙ ap (normalise_email lower) eq
            ∙ normalise_email-at l h q))
      | inr (m, k, r, eq') ↦ both_hosts l h m k q r eq eq' (
          sym (normalise_email-at l h q)
          ∙ ap (normalise_email lower) (sym eq)
          ∙ e
          ∙ ap (normalise_email lower) eq'
          ∙ normalise_email-at m k r)
    ]
  ]
    where
      both_hosts :
          (l h m k : Text)
          → Lacks b'@' l
          → Lacks b'@' m
          → a ≡ l ++ b'@' ∷ h
          → b ≡ m ++ b'@' ∷ k
          → l ++ b'@' ∷ lower h ≡ m ++ b'@' ∷ lower k
          → SameAddress a b
      both_hosts l h m k q r eq eq' whole =
          let parts : ◌≡◌ {A = Option (Text × Text)} (some (l, lower h)) (some (m, lower k)) =
            sym (cut-append b'@' l (lower h) q)
            ∙ ap (cut b'@') whole
            ∙ cut-append b'@' m (lower k) r in
          let same : l ≡ m = cc in
          let low : lower h ≡ lower k = cc in
          with_host l h k q eq (eq' ∙ ap (λ x. x ++ b'@' ∷ k) (sym same)) low

  pub SameAddress-normalised :
      (a b : Text) → SameAddress a b → normalise_email lower a ≡ normalise_email lower b
  SameAddress-normalised a b (no_host e p) = ap (normalise_email lower) e
  SameAddress-normalised a b (with_host l h k p e e' low) =
      ap (normalise_email lower) e
      ∙ normalise_email-at l h p
      ∙ ap (λ x. l ++ b'@' ∷ x) low
      ∙ sym (normalise_email-at l k p)
      ∙ ap (normalise_email lower) (sym e')

  -- Two addresses are normalised to one text exactly if they are the same mailbox.
  pub normalise_email_iff :
      (a b : Text) → (normalise_email lower a ≡ normalise_email lower b) ↔ SameAddress a b
  normalise_email_iff a b = (SameAddress-of_normalised a b, SameAddress-normalised a b)

  abbrev pub MemberOf : Text → List Text → Type 0
  MemberOf v [] = ⊥
  MemberOf v (g ∷ gs) = SameAddress g v ⊎ MemberOf v gs

  pub any_same_iff :
      (v : Text) (gs : List Text)
      → (any_same lower (normalise_email lower v) gs ≡ true) ↔ MemberOf v gs
  unfolding any_same
  any_same_iff v [] = ground arith
  any_same_iff v (g ∷ gs) =
      or_iff
        (iff_trans (==_iff (normalise_email lower g) (normalise_email lower v))
          (normalise_email_iff g v))
        (any_same_iff v gs)
