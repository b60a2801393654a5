-- ===== src/Identifiers.antt =====
-- storage/sql_identifiers.py, domain/ids.py and udf/naming.py: which identifiers are let through to
-- DuckDB, and the names that are built from them. The regular expressions are matched by
-- `re.match`, whose `$` also stands before one newline at the very end.
pub mod Safety
pub mod Names
use bqemulator.Prelude.{
  ℕ, ◌+◌, Bool, true, false, ◌&&◌, ◌||◌, Option, none, some, List, [], ◌∷◌, ◌++◌, length, leb,
  nat_eq, if◌then◌else◌, Text, text,
}

abbrev pub newline : ℕ
newline = 10

abbrev pub is_digit : ℕ → Bool
is_digit c = leb b'0' c && leb c b'9'

abbrev pub is_lower : ℕ → Bool
is_lower c = leb b'a' c && leb c b'z'

abbrev pub is_upper : ℕ → Bool
is_upper c = leb b'A' c && leb c b'Z'

-- [A-Za-z0-9_]
unfoldable pub is_word : ℕ → Bool
is_word c = is_digit c || is_lower c || is_upper c || nat_eq c b'_'

-- [A-Za-z0-9_\-]
unfoldable pub is_word_dash : ℕ → Bool
unfolding is_word
is_word_dash c = is_word c || nat_eq c b'-'

-- [a-z0-9-]
unfoldable pub is_project_char : ℕ → Bool
is_project_char c = is_digit c || is_lower c || nat_eq c b'-'

unfoldable pub all_chars : (ℕ → Bool) → Text → Bool
all_chars p [] = true
all_chars p (c ∷ s) = p c && all_chars p s

unfoldable pub last_is : (ℕ → Bool) → Text → Bool
last_is p [] = false
last_is p (c ∷ []) = p c
last_is p (c ∷ d ∷ s) = last_is p (d ∷ s)

-- What `$` looks past.
unfoldable pub drop_final_newline : Text → Text
drop_final_newline [] = []
drop_final_newline (c ∷ []) = if nat_eq c newline then [] else c ∷ []
drop_final_newline (c ∷ d ∷ s) = c ∷ drop_final_newline (d ∷ s)

-- [A-Za-z0-9_][A-Za-z0-9_\-]{0,254}, the whole text
unfoldable pub is_sql_safe : Text → Bool
unfolding is_word is_word_dash all_chars
is_sql_safe [] = false
is_sql_safe (c ∷ s) = is_word c && all_chars is_word_dash s && leb (length s) 254

-- _SQL_SAFE_ID_RE
unfoldable pub matches_sql_safe : Text → Bool
unfolding is_sql_safe drop_final_newline
matches_sql_safe s = is_sql_safe (drop_final_newline s)

-- _validate_sql_id: `none` is the ValidationError.
unfoldable pub validate_sql_id : Text → Option Text
unfolding matches_sql_safe
validate_sql_id s = if matches_sql_safe s then some s else none

infixl 5 ◌>>=◌
abbrev ◌>>=◌ {ℓ κ} : {A : Type ℓ} {B : Type κ} → Option A → (A → Option B) → Option B
none >>= f = none
some a >>= f = f a

-- schema_name
unfoldable pub schema_name : Text → Text → Option Text
unfolding validate_sql_id
schema_name p d = do p' ← validate_sql_id p; d' ← validate_sql_id d; some (p' ++ text "__" ++ d')

abbrev pub quote : ℕ
quote = b'"'

abbrev pub quoted : Text → Text
quoted s = quote ∷ (s ++ quote ∷ [])

-- quoted_schema
unfoldable pub quoted_schema : Text → Text → Option Text
unfolding schema_name
quoted_schema p d = do s ← schema_name p d; some (quoted s)

-- quoted_table_ref: the table is validated first.
unfoldable pub quoted_table_ref : Text → Text → Text → Option Text
unfolding quoted_schema validate_sql_id
quoted_table_ref p d t = do
  t' ← validate_sql_id t
  s ← quoted_schema p d
  some (s ++ text "." ++ quoted t')

-- _PROJECT_RE of domain/ids.py: [a-z][a-z0-9-]{4,28}[a-z0-9]
unfoldable pub is_project : Text → Bool
unfolding is_project_char all_chars last_is
is_project [] = false
is_project (c ∷ s) =
    is_lower c
    && all_chars is_project_char s
    && last_is (λ d. is_digit d || is_lower d) s
    && leb 5 (length s)
    && leb (length s) 29

unfoldable pub validate_project_id : Text → Option Text
unfolding is_project drop_final_newline
validate_project_id s = if is_project (drop_final_newline s) then some s else none

-- _DATASET_RE and _ROUTINE_RE: [A-Za-z0-9_]{1,1024}
unfoldable pub is_dataset : Text → Bool
unfolding is_word all_chars
is_dataset s = all_chars is_word s && leb 1 (length s) && leb (length s) 1024

unfoldable pub validate_dataset_id : Text → Option Text
unfolding is_dataset drop_final_newline
validate_dataset_id s = if is_dataset (drop_final_newline s) then some s else none

unfoldable pub validate_routine_id : Text → Option Text
unfolding is_dataset drop_final_newline
validate_routine_id s = if is_dataset (drop_final_newline s) then some s else none

-- _TABLE_RE and _JOB_RE: [A-Za-z0-9_\-]{1,1024}
unfoldable pub is_table : Text → Bool
unfolding is_word_dash all_chars
is_table s = all_chars is_word_dash s && leb 1 (length s) && leb (length s) 1024

unfoldable pub validate_table_id : Text → Option Text
unfolding is_table drop_final_newline
validate_table_id s = if is_table (drop_final_newline s) then some s else none

unfoldable pub validate_job_id : Text → Option Text
unfolding is_table drop_final_newline
validate_job_id s = if is_table (drop_final_newline s) then some s else none

-- validate_table_ref
unfoldable pub validate_table_ref : Text → Text → Text → Option (Text × Text × Text)
unfolding validate_project_id validate_dataset_id validate_table_id
validate_table_ref p d t = do
  p' ← validate_project_id p
  d' ← validate_dataset_id d
  t' ← validate_table_id t
  some (p', d', t')

-- _sanitize of udf/naming.py: name.replace("-", "_h_")
unfoldable pub sanitize : Text → Text
sanitize [] = []
sanitize (c ∷ s) = let rest = sanitize s in if nat_eq c b'-' then text "_h_" ++ rest else c ∷ rest

-- qualified_routine_name_parts
unfoldable pub qualified_routine_name_parts : Text → Text → Text → Option Text
unfolding validate_sql_id sanitize
qualified_routine_name_parts p d r = do
  p' ← validate_sql_id p
  d' ← validate_sql_id d
  r' ← validate_sql_id r
  some (sanitize p' ++ text "__" ++ sanitize d' ++ text "__" ++ sanitize r')
