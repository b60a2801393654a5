-- ===== src/RowAccess/Identity.antt =====
-- row_access/identity.py: the caller's identity, from HTTP headers or gRPC metadata.
use bqemulator.Prelude.{
  ℕ, Bool, true, false, ◌||◌, Option, none, some, List, [], ◌∷◌, ◌++◌, nat_eq, if◌then◌else◌, Text,
  text, text_eq, ◌==◌,
}
use bqemulator.Dict.{Dict, get, put}
use bqemulator.Streaming.Names.{split}
use bqemulator.RowAccess.Strings.{strip, cut, drop_prefix}

abbrev pub caller_header : Text
caller_header = text "x-bqemu-caller"

abbrev pub user_project_header : Text
user_project_header = text "x-goog-user-project"

abbrev pub groups_header : Text
groups_header = text "x-bqemu-groups"

abbrev pub default_caller : Text
default_caller = text "user:anonymous@bqemulator.local"

pub record CallerIdentity : Type 0 where
  pub principal : Text
  pub groups : List Text
  pub is_authenticated : Bool

abbrev pub kind_of_cut : Text → Option (Text × Text) → Text
kind_of_cut principal none = principal
kind_of_cut principal (some (kind, rest)) = kind

-- CallerIdentity.kind
unfoldable pub kind : CallerIdentity → Text
kind c = kind_of_cut c.principal (cut b':' c.principal)

abbrev pub email_of_cut : Option (Text × Text) → Option Text
email_of_cut none = none
email_of_cut (some (kind, rest)) =
    if kind == text "user" || kind == text "serviceAccount" then some rest else none

-- CallerIdentity.email
unfoldable pub email : CallerIdentity → Option Text
email c = email_of_cut (cut b':' c.principal)

-- One of the characters that no IAM member has: a space, a tab, a line end, a comma.
abbrev pub is_bad : ℕ → Bool
is_bad c = nat_eq c 32 || nat_eq c 9 || nat_eq c 10 || nat_eq c 13 || nat_eq c b','

unfoldable pub has_bad : Text → Bool
has_bad [] = false
has_bad (c ∷ s) = is_bad c || has_bad s

abbrev pub parse_trimmed : Text → Option Text
parse_trimmed [] = none
parse_trimmed (c ∷ s) = if has_bad (c ∷ s) then none else some (c ∷ s)

-- parse_caller
unfoldable pub parse_caller : Option Text → Option Text
unfolding has_bad
parse_caller none = none
parse_caller (some value) = parse_trimmed (strip value)

abbrev pub keep_entry : Text → List Text → List Text
keep_entry [] parts = parts
keep_entry (c ∷ s) parts = (c ∷ s) ∷ parts

abbrev pub bare_group : Text → Option Text → Text
bare_group trimmed none = trimmed
bare_group trimmed (some rest) = strip rest

unfoldable pub parse_entries : List Text → List Text
parse_entries [] = []
parse_entries (e ∷ es) =
    keep_entry (bare_group (strip e) (drop_prefix (text "group:") (strip e))) (parse_entries es)

-- _parse_groups
unfoldable pub parse_groups : Option Text → List Text
unfolding parse_entries
parse_groups none = []
parse_groups (some raw) = parse_entries (split b',' raw)

abbrev pub or_unknown : Text → Text
or_unknown [] = text "unknown"
or_unknown (c ∷ s) = c ∷ s

-- _identity_for_user_project
unfoldable pub identity_for_user_project : Text → Text
identity_for_user_project p =
    text "user:caller@" ++ (or_unknown (strip p) ++ text ".iam.gserviceaccount.com")

abbrev pub resolve_parsed : Option Text → Option Text → List Text → CallerIdentity
resolve_parsed (some primary) user_project gs = record {
  principal = primary;
  groups = gs;
  is_authenticated = true;
}
resolve_parsed none (some p) gs = record {
  principal = identity_for_user_project p;
  groups = gs;
  is_authenticated = true;
}
resolve_parsed none none gs = record {
  principal = default_caller;
  groups = gs;
  is_authenticated = false;
}

-- _resolve_from_pairs
unfoldable pub resolve_from_pairs : Dict Text Text → CallerIdentity
unfolding identity_for_user_project
resolve_from_pairs pairs =
    resolve_parsed (parse_caller (get pairs caller_header))
      (parse_caller (get pairs user_project_header)) (parse_groups (get pairs groups_header))

abbrev pub anonymous : CallerIdentity
anonymous = record { principal = default_caller; groups = []; is_authenticated = false }

-- `lower` is str.lower, whose tables of Unicode are not written out.
module _ (lower : Text → Text) where
  abbrev pub domain_of_email : Option Text → Option Text
  domain_of_email none = none
  domain_of_email (some e) = elim (cut b'@' e) [ none ↦ none | some (l, host) ↦ some (lower host) ]

  -- CallerIdentity.domain
  unfoldable pub domain : CallerIdentity → Option Text
  unfolding email
  domain c = domain_of_email (email c)

  -- {name.lower(): value}: a later value of one name replaces an earlier one.
  unfoldable pub lower_names : Dict Text Text → List (Text × Text) → Dict Text Text
  lower_names pairs [] = pairs
  lower_names pairs ((name, value) ∷ items) = lower_names (put pairs (lower name) value) items

  -- resolve_caller_from_headers: `none` is a headers object without items.
  unfoldable pub resolve_caller_from_headers : Option (List (Text × Text)) → CallerIdentity
  unfolding lower_names resolve_from_pairs
  resolve_caller_from_headers none = anonymous
  resolve_caller_from_headers (some items) = resolve_from_pairs (lower_names [] items)

  -- resolve_caller_from_metadata
  unfoldable pub resolve_caller_from_metadata : List (Text × Text) → CallerIdentity
  unfolding lower_names resolve_from_pairs
  resolve_caller_from_metadata [] = anonymous
  resolve_caller_from_metadata (m ∷ metadata) = resolve_from_pairs (lower_names [] (m ∷ metadata))
