-- ===== src/RowAccess/Matcher.antt =====
-- row_access/matcher.py: the grantees of a policy against the caller.
use bqemulator.Prelude.{
  Bool, true, false, ◌||◌, Option, none, some, List, [], ◌∷◌, ◌++◌, if◌then◌else◌, Text, text,
  text_eq, ◌==◌,
}
use bqemulator.RowAccess.Strings.{strip, cut}
use bqemulator.RowAccess.Identity.{CallerIdentity, kind, email, domain}

-- RowAccessPolicyMeta of catalog/models.py, without its times and its tag.
pub record RowAccessPolicyMeta : Type 0 where
  pub project_id : Text
  pub dataset_id : Text
  pub table_id : Text
  pub policy_id : Text
  pub filter_predicate : Text
  pub grantees : List Text

-- `lower` is str.lower.
module _ (lower : Text → Text) where
  abbrev pub normalise_cut : Text → Option (Text × Text) → Text
  normalise_cut e none = e
  normalise_cut e (some (local, host)) = local ++ b'@' ∷ lower host

  -- _normalise_email
  unfoldable pub normalise_email : Text → Text
  normalise_email e = normalise_cut e (cut b'@' e)

  abbrev pub same_email : Text → Option Text → Bool
  same_email e none = false
  same_email e (some caller_email) = normalise_email e == normalise_email caller_email

  -- _email_matches
  unfoldable pub email_matches : Text → CallerIdentity → Text → Bool
  unfolding kind email normalise_email
  email_matches e c expect_kind = if kind c == expect_kind then same_email e (email c) else false

  abbrev pub same_domain : Text → Option Text → Bool
  same_domain host none = false
  same_domain host (some caller_domain) = caller_domain == lower host

  -- _domain_matches
  unfoldable pub domain_matches : Text → CallerIdentity → Bool
  unfolding domain
  domain_matches host c = same_domain host (domain lower c)

  unfoldable pub any_same : Text → List Text → Bool
  any_same norm_value [] = false
  any_same norm_value (g ∷ gs) = normalise_email g == norm_value || any_same norm_value gs

  -- _group_matches
  unfoldable pub group_matches : Text → CallerIdentity → Bool
  unfolding any_same normalise_email
  group_matches value c = any_same (normalise_email value) c.groups

  -- _KIND_MATCHERS, and the result for a kind that it has not.
  unfoldable pub kind_matches : Text → Text → CallerIdentity → Bool
  unfolding email_matches domain_matches group_matches
  kind_matches k value c =
      if k == text "user"
      then email_matches value c (text "user")
      else if k == text "serviceAccount"
      then email_matches value c (text "serviceAccount")
      else if k == text "domain"
      then domain_matches value c
      else if k == text "group"
      then group_matches value c
      else false

  abbrev pub value_matches : Text → Text → CallerIdentity → Bool
  value_matches k [] c = false
  value_matches k (d ∷ value) c = kind_matches k (d ∷ value) c

  abbrev pub cut_matches : Option (Text × Text) → CallerIdentity → Bool
  cut_matches none c = false
  cut_matches (some (k, value)) c = value_matches k (strip value) c

  abbrev pub stripped_matches : Text → CallerIdentity → Bool
  stripped_matches [] c = false
  stripped_matches (d ∷ g) c =
      if (d ∷ g) == text "allUsers"
      then true
      else if (d ∷ g) == text "allAuthenticatedUsers"
      then c.is_authenticated
      else cut_matches (cut b':' (d ∷ g)) c

  unfoldable pub grantee_matches : Text → CallerIdentity → Bool
  unfolding kind_matches
  grantee_matches grantee c = stripped_matches (strip grantee) c

  -- GranteeMatcher.matches_any
  unfoldable pub matches_any : CallerIdentity → List Text → Bool
  unfolding grantee_matches
  matches_any c [] = false
  matches_any c (g ∷ gs) = grantee_matches g c || matches_any c gs

  -- GranteeMatcher.applicable_policies
  unfoldable pub applicable_policies :
      CallerIdentity → List RowAccessPolicyMeta → List RowAccessPolicyMeta
  unfolding matches_any
  applicable_policies c [] = []
  applicable_policies c (p ∷ ps) =
      let rest = applicable_policies c ps in if matches_any c p.grantees then p ∷ rest else rest
