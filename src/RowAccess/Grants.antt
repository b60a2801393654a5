-- ===== src/RowAccess/Grants.antt =====
-- What a grantee means, told apart from the code of `grantee_matches` in row_access/matcher.py.
use bqemulator.Prelude.{
  ◌≡◌, ◌≢◌, ◌⊎◌, inl, inr, ◌↔◌, refl, sym, ap, ◌∙◌, true, [], ◌∷◌, ◌++◌, Text, text, text_eq, ◌==◌,
  ==_iff, list_beq, Option-cases, Bool-cases,
}
use mathlib.Core.Path.{subst}
use bqemulator.RowAccess.Strings.{strip, cut, Lacks, cut_inv}
use bqemulator.RowAccess.Identity.{CallerIdentity}
use bqemulator.RowAccess.Matcher.{
  value_matches, stripped_matches, grantee_matches, email_matches, domain_matches, group_matches,
  kind_matches,
}
use bqemulator.RowAccess.Addresses.{SameAddress, MemberOf}
use bqemulator.RowAccess.Callers.{
  IsPerson, IsCaller, email_matches_iff, domain_matches_iff, group_matches_iff,
}

module _ (lower : Text → Text) where
  -- What a grantee without outer spaces grants.
  pub data Grants (c : CallerIdentity) (g : Text) : Type 0 where
    all_users : g ≡ text "allUsers" → Grants c g
    all_authenticated : g ≡ text "allAuthenticatedUsers" → c.is_authenticated ≡ true → Grants c g
    member :
        (k v e : Text)
        → g ≡ k ++ b':' ∷ v
        → strip v ≢ []
        → IsCaller c k e
        → SameAddress lower (strip v) e
        → Grants c g
    host :
        (k v l h : Text)
        → g ≡ text "domain" ++ b':' ∷ v
        → strip v ≢ []
        → IsCaller c k (l ++ b'@' ∷ h)
        → Lacks b'@' l
        → lower h ≡ lower (strip v)
        → Grants c g
    group :
        (v : Text)
        → g ≡ text "group" ++ b':' ∷ v
        → strip v ≢ []
        → MemberOf lower (strip v) c.groups
        → Grants c g

  pub value_matches-kind :
      (k w : Text) (c : CallerIdentity)
      → w ≢ []
      → value_matches lower k w c ≡ kind_matches lower k w c
  value_matches-kind k [] c h = absurd (h refl)
  value_matches-kind k (d ∷ w) c h = refl

  -- Which matcher a kind is looked up to.
  pub kind_cases :
      (k v : Text) (c : CallerIdentity)
      → kind_matches lower k v c ≡ true
      → (IsPerson k × (email_matches lower v c k ≡ true))
        ⊎ (((k ≡ text "domain") × (domain_matches lower v c ≡ true))
            ⊎ ((k ≡ text "group") × (group_matches lower v c ≡ true)))
  unfolding kind_matches
  kind_cases k v c h = elim (Bool-cases (k == text "user")) [
    | inl a ↦ let e = (==_iff k (text "user")).0 a in inl (inl e, rw e (rw a at h))
    | inr a ↦ elim (Bool-cases (k == text "serviceAccount")) [
      | inl b ↦ let e = (==_iff k (text "serviceAccount")).0 b in inl (inr e, rw e (rw (a, b) at h))
      | inr b ↦ elim (Bool-cases (k == text "domain")) [
        | inl d ↦ inr (inl ((==_iff k (text "domain")).0 d, rw (a, b, d) at h))
        | inr d ↦ elim (Bool-cases (k == text "group")) [
          | inl f ↦ inr (inr ((==_iff k (text "group")).0 f, rw (a, b, d, f) at h))
          | inr f ↦ cc (rw (a, b, d, f) at h)
        ]
      ]
    ]
  ]

  pub Grants-of_kind :
      (g k v : Text) (c : CallerIdentity)
      → g ≡ k ++ b':' ∷ v
      → strip v ≢ []
      → kind_matches lower k (strip v) c ≡ true
      → Grants c g
  Grants-of_kind g k v c e n h = elim (kind_cases k (strip v) c h) [
    | inl (p, m) ↦
        let (a, who, same) = (email_matches_iff lower c k (strip v) p).0 m in
        Grants.member k v a e n who same
    | inr (inl (p, m)) ↦
        let (j, l, h', who, lacks, same) = (domain_matches_iff lower c (strip v)).0 m in
        Grants.host j v l h' (e ∙ ap (λ x. x ++ b':' ∷ v) p) n who lacks same
    | inr (inr (p, m)) ↦
        Grants.group v (e ∙ ap (λ x. x ++ b':' ∷ v) p) n ((group_matches_iff lower c (strip v)).0 m)
  ]

  pub Grants-of_value :
      (g k v w : Text) (c : CallerIdentity)
      → strip v ≡ w
      → g ≡ k ++ b':' ∷ v
      → value_matches lower k w c ≡ true
      → Grants c g
  Grants-of_value g k v [] c q e h = cc
  Grants-of_value g k v (d ∷ w) c q e h =
      Grants-of_kind g k v c e (λ z. cc) (subst (λ x. kind_matches lower k x c ≡ true) (sym q) h)

  pub Grants-of_stripped :
      (g : Text) (c : CallerIdentity) → stripped_matches lower g c ≡ true → Grants c g
  Grants-of_stripped [] c h = cc
  Grants-of_stripped (d ∷ s) c h = elim (Bool-cases ((d ∷ s) == text "allUsers")) [
    | inl a ↦ all_users ((==_iff (d ∷ s) (text "allUsers")).0 a)
    | inr a ↦ elim (Bool-cases ((d ∷ s) == text "allAuthenticatedUsers")) [
      | inl b ↦
          all_authenticated ((==_iff (d ∷ s) (text "allAuthenticatedUsers")).0 b) (rw (a, b) at h)
      | inr b ↦ elim (Option-cases (cut b':' (d ∷ s))) [
        | inl n ↦ cc (rw (a, b, n) at h)
        | inr ((k, v), f) ↦
            Grants-of_value (d ∷ s) k v (strip v) c refl (cut_inv b':' (d ∷ s) k v f).0
              (rw (a, b, f) at h)
      ]
    ]
  ]

  abbrev pub IsKind : Text → Type 0
  IsKind k = IsPerson k ⊎ ((k ≡ text "domain") ⊎ (k ≡ text "group"))

  -- The way back, for a grantee of the form kind:value.
  pub dispatched :
      (k v : Text) (c : CallerIdentity)
      → IsKind k
      → stripped_matches lower (k ++ b':' ∷ v) c ≡ value_matches lower k (strip v) c
  unfolding list_beq cut
  dispatched k v c (inl (inl e)) = rw e refl
  dispatched k v c (inl (inr e)) = rw e refl
  dispatched k v c (inr (inl e)) = rw e refl
  dispatched k v c (inr (inr e)) = rw e refl

  pub of_kind :
      (k v : Text) (c : CallerIdentity)
      → IsKind k
      → strip v ≢ []
      → kind_matches lower k (strip v) c ≡ true
      → stripped_matches lower (k ++ b':' ∷ v) c ≡ true
  of_kind k v c p n h = dispatched k v c p ∙ value_matches-kind k (strip v) c n ∙ h

  pub kind_matches-person :
      (k v : Text) (c : CallerIdentity)
      → IsPerson k
      → kind_matches lower k v c ≡ email_matches lower v c k
  unfolding kind_matches list_beq
  kind_matches-person k v c (inl e) = rw e refl
  kind_matches-person k v c (inr e) = rw e refl

  pub kind_matches-domain :
      (v : Text) (c : CallerIdentity)
      → kind_matches lower (text "domain") v c ≡ domain_matches lower v c
  unfolding kind_matches list_beq
  kind_matches-domain v c = refl

  pub kind_matches-group :
      (v : Text) (c : CallerIdentity)
      → kind_matches lower (text "group") v c ≡ group_matches lower v c
  unfolding kind_matches list_beq
  kind_matches-group v c = refl

  pub stripped_matches-Grants :
      (g : Text) (c : CallerIdentity) → Grants c g → stripped_matches lower g c ≡ true
  stripped_matches-Grants g c (all_users e) = rw e (unfold list_beq in refl)
  stripped_matches-Grants g c (all_authenticated e h) = rw e (unfold list_beq in h)
  stripped_matches-Grants g c (member k v e q n m same) = rw q (
      of_kind k v c (inl m.0) n (
        kind_matches-person k (strip v) c m.0
        ∙ (email_matches_iff lower c k (strip v) m.0).1 (e, m, same)))
  stripped_matches-Grants g c (host k v l h q n m lacks same) = rw q (
      of_kind (text "domain") v c (inr (inl refl)) n (
        kind_matches-domain (strip v) c
        ∙ (domain_matches_iff lower c (strip v)).1 (k, l, h, m, lacks, same)))
  stripped_matches-Grants g c (group v q n m) = rw q (
      of_kind (text "group") v c (inr (inr refl)) n
        (kind_matches-group (strip v) c ∙ (group_matches_iff lower c (strip v)).1 m))

  -- The code lets a grantee match exactly the callers whom it grants access.
  pub grantee_matches_iff :
      (grantee : Text) (c : CallerIdentity)
      → (grantee_matches lower grantee c ≡ true) ↔ Grants c (strip grantee)
  grantee_matches_iff grantee c = (
    λ h. Grants-of_stripped (strip grantee) c (unfold grantee_matches in h),
    λ h. unfold grantee_matches in stripped_matches-Grants (strip grantee) c h,
  )
