-- ===== src/Examples/Ids.antt =====
-- Identifiers.
use bqemulator.Prelude.{◌≡◌, ◌↔◌, ◌++◌, refl, true, [], ◌∷◌, Text, text}
use bqemulator.Identifiers.{
  newline, quote, matches_sql_safe, quoted_table_ref, schema_name, all_chars, is_project_char,
}
use bqemulator.Identifiers.Safety.{occurrences, quoted_table_ref-quotes}
use bqemulator.Identifiers.Names.{Pass, folded, SameSchema, schema_name_iff}

newline_passes : matches_sql_safe (text "ab" ++ newline ∷ []) ≡ true
unfolding matches_sql_safe
newline_passes = refl

abbrev orders : Text
orders = text "\"p__d\".\"t\""

quoted_table_ref-quotes_example : occurrences quote orders ≡ 4
unfolding quoted_table_ref
quoted_table_ref-quotes_example =
    quoted_table_ref-quotes (text "p") (text "d") (text "t") orders refl

passing :
    Pass (text "my-project")
    × Pass (text "sales")
    × Pass (text "sales__eu")
    × Pass (text "total")
    × Pass (text "eu__total")
unfolding matches_sql_safe
passing = (refl, refl, refl, refl, refl)

project_chars : all_chars is_project_char (text "my-project") ≡ true
unfolding all_chars is_project_char
project_chars = refl

sales_capital : Pass (text "Sales")
unfolding matches_sql_safe
sales_capital = refl

-- `Sales` and `sales` of one project are one schema to DuckDB.
schema_name_iff_example :
    SameSchema
      (schema_name (text "my-project") (text "Sales"))
      (schema_name (text "my-project") (text "sales"))
    ↔ ((text "my-project" ≡ text "my-project") × (folded (text "Sales") ≡ folded (text "sales")))
schema_name_iff_example =
    schema_name_iff (text "my-project") (text "Sales") (text "my-project") (text "sales")
      project_chars project_chars passing.0 sales_capital passing.0 passing.1

one_schema :
    SameSchema
      (schema_name (text "my-project") (text "Sales"))
      (schema_name (text "my-project") (text "sales"))
unfolding SameSchema folded schema_name matches_sql_safe
one_schema = refl
