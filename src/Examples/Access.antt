-- ===== src/Examples/Access.antt =====
-- Row access: callers, grantees and policies, with the ASCII letters lowered.
use bqemulator.Prelude.{
  ◌+◌, ◌≡◌, ◌↔◌, refl, true, false, some, List, [], ◌∷◌, ◌++◌, arith, if◌then◌else◌, Text, text,
  text_eq, list_beq, Member,
}
use bqemulator.Identifiers.{is_upper}
use bqemulator.Dict.{Dict, get, put}
use bqemulator.RowAccess.Strings.{strip, is_space, cut}
use bqemulator.RowAccess.Identity.{
  CallerIdentity, parse_caller, has_bad, identity_for_user_project, resolve_from_pairs,
  resolve_caller_from_headers,
}
use bqemulator.RowAccess.Matcher.{
  RowAccessPolicyMeta, grantee_matches, normalise_email, applicable_policies,
}
use bqemulator.RowAccess.Addresses.{SameAddress, normalise_email_iff}
use bqemulator.RowAccess.Grants.{Grants, grantee_matches_iff}
use bqemulator.RowAccess.Policies.{SomeGrants, applicable_policies_iff}
use bqemulator.RowAccess.Resolved.{
  lowered, Resolves, resolve_from_pairs-principal, resolve_caller_from_headers-lowered,
}

abbrev lower : Text → Text
lower [] = []
lower (c ∷ s) = (if is_upper c then c + 32 else c) ∷ lower s

lower-lower : (s : Text) → lower (lower s) ≡ lower s
lower-lower [] = refl
lower-lower (c ∷ s) = ground (arith, lower-lower s)

abbrev alice : CallerIdentity
alice = record { principal = text "user:alice@Example.com"; groups = []; is_authenticated = true }

abbrev policy : Text → RowAccessPolicyMeta
policy grantee = record {
  project_id = text "p";
  dataset_id = text "d";
  table_id = text "t";
  policy_id = grantee;
  filter_predicate = text "TRUE";
  grantees = grantee ∷ [];
}

abbrev policies : List RowAccessPolicyMeta
policies = policy (text "user:bob@example.com") ∷ policy (text "domain:EXAMPLE.com") ∷ []

alice-policies : applicable_policies lower alice policies ≡ policy (text "domain:EXAMPLE.com") ∷ []
unfolding applicable_policies strip list_beq is_space cut
alice-policies = refl

grantee_matches_iff_example :
    (grantee_matches lower (text " domain:EXAMPLE.com") alice ≡ true)
    ↔ Grants lower alice (strip (text " domain:EXAMPLE.com"))
grantee_matches_iff_example = grantee_matches_iff lower (text " domain:EXAMPLE.com") alice

normalise_email_iff_example :
    (normalise_email lower (text "a@B.c") ≡ normalise_email lower (text "a@b.C"))
    ↔ SameAddress lower (text "a@B.c") (text "a@b.C")
normalise_email_iff_example = normalise_email_iff lower (text "a@B.c") (text "a@b.C")

applicable_policies_iff_example :
    let p = policy (text "domain:EXAMPLE.com") in
    Member p (applicable_policies lower alice policies)
    ↔ (Member p policies × SomeGrants lower alice p.grantees)
applicable_policies_iff_example =
    applicable_policies_iff lower alice (policy (text "domain:EXAMPLE.com")) policies

abbrev headers : Dict Text Text
headers = (text "X-Bqemu-Caller", text " user:alice@example.com ") ∷ []

abbrev pairs : Dict Text Text
pairs =
    (text "x-goog-user-project", text "billing")
    ∷ (text "x-bqemu-caller", text " user:alice@example.com ")
    ∷ []

-- The caller header counts, not the project's, and its white space does not.
resolve_from_pairs-principal_example :
    Resolves pairs (text "user:alice@example.com") true
    × (has_bad (text "user:alice@example.com") ≡ false)
unfolding resolve_from_pairs parse_caller has_bad strip is_space get list_beq
resolve_from_pairs-principal_example = resolve_from_pairs-principal pairs

by_billing :
    (resolve_from_pairs ((text "x-goog-user-project", text "billing") ∷ [])).principal
    ≡ text "user:caller@billing.iam.gserviceaccount.com"
unfolding resolve_from_pairs parse_caller has_bad identity_for_user_project strip is_space get
    list_beq
by_billing = refl

-- A control character inside the value passes.
control_passes :
    parse_caller (some (text "user:a" ++ 1 ∷ text "b")) ≡ some (text "user:a" ++ 1 ∷ text "b")
unfolding parse_caller has_bad strip is_space
control_passes = refl

resolve_caller_from_headers-lowered_example :
    resolve_caller_from_headers lower (some (lowered lower headers))
    ≡ resolve_caller_from_headers lower (some headers)
resolve_caller_from_headers-lowered_example =
    resolve_caller_from_headers-lowered lower lower-lower headers

resolved_alice :
    (resolve_caller_from_headers lower (some headers)).principal ≡ text "user:alice@example.com"
unfolding resolve_caller_from_headers strip list_beq parse_caller get put is_space
resolved_alice = refl
