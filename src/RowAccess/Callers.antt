-- ===== src/RowAccess/Callers.antt =====
-- The three matchers of row_access/matcher.py that look into the caller's identity.
use bqemulator.Prelude.{
  ◌≡◌, ◌⊎◌, inl, inr, ◌↔◌, refl, ap, ◌∙◌, true, false, ◌||◌, Option, none, some, ◌∷◌, ◌++◌, arith,
  if◌then◌else◌, Text, text, text_eq, ◌==◌, ==_iff, ==_refl, list_beq, Bool-cases,
}
use mathlib.Core.Path.{subst}
use bqemulator.Identifiers.{all_chars}
use bqemulator.RowAccess.Strings.{cut, Lacks, cut-append, cut_inv}
use bqemulator.RowAccess.Identity.{
  CallerIdentity, kind, email, domain, domain_of_email, email_of_cut, kind_of_cut,
}
use bqemulator.RowAccess.Matcher.{
  same_email, same_domain, email_matches, domain_matches, group_matches,
}
use bqemulator.RowAccess.Addresses.{
  SameAddress, MemberOf, any_same_iff, SameAddress-of_normalised, SameAddress-normalised,
}

-- The kinds of caller that have an address.
abbrev pub IsPerson : Text → Type 0
IsPerson k = (k ≡ text "user") ⊎ (k ≡ text "serviceAccount")

abbrev pub IsCaller : CallerIdentity → Text → Text → Type 0
IsCaller c k e = IsPerson k × (c.principal ≡ k ++ b':' ∷ e)

pub IsPerson-Lacks : (k : Text) → IsPerson k → Lacks b':' k
IsPerson-Lacks k (inl e) = rw e (unfold all_chars in refl)
IsPerson-Lacks k (inr e) = rw e (unfold all_chars in refl)

pub email-of_caller :
    (c : CallerIdentity) (k e : Text) → IsCaller c k e → (kind c ≡ k) × (email c ≡ some e)
unfolding kind email
email-of_caller c k e m =
    rw (ap (cut b':') m.1 ∙ cut-append b':' k e (IsPerson-Lacks k m.0)) (person m.0)
  where
    person :
        IsPerson k
        → (k ≡ k)
          × ((if k == text "user" || k == text "serviceAccount" then some e else none) ≡ some e)
    person (inl p) = rw p (unfold list_beq in (refl, refl))
    person (inr p) = rw p (unfold list_beq in (refl, refl))

pub from_cut :
    (p e : Text) (o : Option (Text × Text))
    → email_of_cut o ≡ some e
    → IsPerson (kind_of_cut p o) × (o ≡ some (kind_of_cut p o, e))
from_cut p e none h = cc
from_cut p e (some (k, a)) h =
    ground (arith, ==_iff k (text "user"), ==_iff k (text "serviceAccount"))

pub IsCaller-of_email : (c : CallerIdentity) (e : Text) → email c ≡ some e → IsCaller c (kind c) e
unfolding kind email
IsCaller-of_email c e h =
    let (p, q) = from_cut c.principal e (cut b':' c.principal) h in
    (p, (cut_inv b':' c.principal (kind c) e q).0)

module _ (lower : Text → Text) where
  pub email_matches_iff :
      (c : CallerIdentity) (k v : Text)
      → IsPerson k
      → (email_matches lower v c k ≡ true) ↔ ((e : Text) × IsCaller c k e × SameAddress lower v e)
  email_matches_iff c k v p = (
    λ h. matched (email c) refl (unfold email_matches in h),
    λ h.
        let (e, m, same) = h in
        let (a, b) = email-of_caller c k e m in
        unfold email_matches in
        rw (a, b) (rw (==_refl k) ((==_iff _ _).1 (SameAddress-normalised lower v e same))),
  )
    where
      matched :
          (o : Option Text)
          → email c ≡ o
          → (if kind c == k then same_email lower v o else false) ≡ true
          → (e : Text) × IsCaller c k e × SameAddress lower v e
      matched none f h = ground arith
      matched (some e) f h = elim (Bool-cases (kind c == k)) [
        | inl same ↦ (
          e,
          subst (λ x. IsCaller c x e) ((==_iff (kind c) k).0 same) (IsCaller-of_email c e f),
          SameAddress-of_normalised lower v e ((==_iff _ _).0 (rw same at h)),
        )
        | inr other ↦ absurd (cc (rw other at h))
      ]

  pub domain_matches_iff :
      (c : CallerIdentity) (v : Text)
      → (domain_matches lower v c ≡ true) ↔ (
          (k : Text) × (l : Text) × (h : Text) × IsCaller c k (l ++ b'@' ∷ h)
          × Lacks b'@' l
          × (lower h ≡ lower v))
  domain_matches_iff c v = (
    λ h. matched (email c) refl (unfold domain_matches domain in h),
    λ h.
        let (k, l, h, m, p, same) = h in
        unfold domain_matches domain in
        rw (email-of_caller c k (l ++ b'@' ∷ h) m).1 (
          ap
            (λ o.
              same_domain lower v (elim o [ none ↦ none | some (_, there) ↦ some (lower there) ]))
            (cut-append b'@' l h p)
          ∙ (==_iff (lower h) (lower v)).1 same),
  )
    where
      hosted :
          (e : Text) (o : Option (Text × Text))
          → email c ≡ some e
          → cut b'@' e ≡ o
          → same_domain lower v (elim o [ none ↦ none | some (l, there) ↦ some (lower there) ])
            ≡ true
          → (k : Text) × (l : Text) × (h : Text) × IsCaller c k (l ++ b'@' ∷ h)
            × Lacks b'@' l
            × (lower h ≡ lower v)
      hosted e none f g h = cc
      hosted e (some (l, there)) f g h =
          let (q, p) = cut_inv b'@' e l there g in
          (
            kind c,
            l,
            there,
            subst (λ x. IsCaller c (kind c) x) q (IsCaller-of_email c e f),
            p,
            (==_iff (lower there) (lower v)).0 h,
          )

      matched :
          (o : Option Text)
          → email c ≡ o
          → same_domain lower v (domain_of_email lower o) ≡ true
          → (k : Text) × (l : Text) × (h : Text) × IsCaller c k (l ++ b'@' ∷ h)
            × Lacks b'@' l
            × (lower h ≡ lower v)
      matched none f h = cc
      matched (some e) f h = hosted e (cut b'@' e) f refl h

  pub group_matches_iff :
      (c : CallerIdentity) (v : Text) → (group_matches lower v c ≡ true) ↔ MemberOf lower v c.groups
  group_matches_iff c v = unfold group_matches in any_same_iff lower v c.groups
