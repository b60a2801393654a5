-- ===== src/RowAccess/Policies.antt =====
-- Which row access policies apply to a caller.
use bqemulator.Prelude.{
  Member, ◌≡◌, ◌⊎◌, inl, inr, ◌↔◌, refl, sym, ap, ◌∙◌, Bool, true, false, List, [], ◌∷◌, arith,
  if◌then◌else◌, Text, text_eq,
}
use bqemulator.RowAccess.Strings.{strip}
use bqemulator.RowAccess.Identity.{CallerIdentity}
use bqemulator.RowAccess.Matcher.{RowAccessPolicyMeta, matches_any, applicable_policies}
use bqemulator.RowAccess.Addresses.{or_iff}
use bqemulator.RowAccess.Grants.{Grants, grantee_matches_iff}

module _ (lower : Text → Text) where
  -- One of the grantees grants the caller access.
  abbrev pub SomeGrants : CallerIdentity → List Text → Type 0
  SomeGrants c [] = ⊥
  SomeGrants c (g ∷ gs) = Grants lower c (strip g) ⊎ SomeGrants c gs

  pub matches_any_iff :
      (c : CallerIdentity) (gs : List Text) → (matches_any lower c gs ≡ true) ↔ SomeGrants c gs
  unfolding matches_any
  matches_any_iff c [] = ground arith
  matches_any_iff c (g ∷ gs) = or_iff (grantee_matches_iff lower g c) (matches_any_iff c gs)

  pub kept :
      (b : Bool) (p q : RowAccessPolicyMeta) (rest : List RowAccessPolicyMeta)
      → Member p (if b then q ∷ rest else rest)
      → ((p ≡ q) × (b ≡ true)) ⊎ Member p rest
  kept true p q rest (inl e) = inl (e, refl)
  kept true p q rest (inr m) = inr m
  kept false p q rest m = inr m

  pub keep_head :
      (b : Bool) (p q : RowAccessPolicyMeta) (rest : List RowAccessPolicyMeta)
      → p ≡ q
      → b ≡ true
      → Member p (if b then q ∷ rest else rest)
  keep_head true p q rest e h = inl e
  keep_head false p q rest e h = cc

  pub keep_tail :
      (b : Bool) (p q : RowAccessPolicyMeta) (rest : List RowAccessPolicyMeta)
      → Member p rest
      → Member p (if b then q ∷ rest else rest)
  keep_tail true p q rest m = inr m
  keep_tail false p q rest m = m

  pub Member-applicable_policies :
      (c : CallerIdentity) (p : RowAccessPolicyMeta) (ps : List RowAccessPolicyMeta)
      → Member p ps
      → SomeGrants c p.grantees
      → Member p (applicable_policies lower c ps)
  unfolding applicable_policies
  Member-applicable_policies c p [] m g = absurd m
  Member-applicable_policies c p (q ∷ ps) (inl e) g =
      keep_head (matches_any lower c q.grantees) p q (applicable_policies lower c ps) e (
        ap (λ (x : RowAccessPolicyMeta). matches_any lower c x.grantees) (sym e)
        ∙ (matches_any_iff c p.grantees).1 g)
  Member-applicable_policies c p (q ∷ ps) (inr m) g =
      keep_tail (matches_any lower c q.grantees) p q (applicable_policies lower c ps)
        (Member-applicable_policies c p ps m g)

  pub Member-of_applicable :
      (c : CallerIdentity) (p : RowAccessPolicyMeta) (ps : List RowAccessPolicyMeta)
      → Member p (applicable_policies lower c ps)
      → Member p ps × SomeGrants c p.grantees
  unfolding applicable_policies
  Member-of_applicable c p [] m = absurd m
  Member-of_applicable c p (q ∷ ps) m =
      elim (kept (matches_any lower c q.grantees) p q (applicable_policies lower c ps) m) [
        | inl (e, h) ↦ (
          inl e,
          (matches_any_iff c p.grantees).0
              (ap (λ (x : RowAccessPolicyMeta). matches_any lower c x.grantees) e ∙ h),
        )
        | inr n ↦ let (a, b) = Member-of_applicable c p ps n in (inr a, b)
      ]

  -- A policy is applicable exactly if it is one of the table's and one of its grantees grants the
  -- caller access.
  pub applicable_policies_iff :
      (c : CallerIdentity) (p : RowAccessPolicyMeta) (ps : List RowAccessPolicyMeta)
      → Member p (applicable_policies lower c ps) ↔ (Member p ps × SomeGrants c p.grantees)
  applicable_policies_iff c p ps =
      (Member-of_applicable c p ps, λ h. Member-applicable_policies c p ps h.0 h.1)
