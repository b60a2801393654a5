-- ===== src/Scripting/Database.antt =====
-- What scripting/interpreter.py calls: the SQL pipeline with the script's variables bound, and the
-- tables that a transaction copies and puts back.
use bqemulator.Prelude.{◌≡◌, Bool, Option, some, List, Text, text_eq, if◌then◌else◌, ◌==◌}
use bqemulator.Dict.{Dict}
use bqemulator.Scripting.Syntax.{Value, DomainError}
use bqemulator.Scripting.Frames.{Variable}

-- A call that gives a value or raises a DomainError.
pub data Result (A : Type 0) : Type 0 where
  fine : A → Result A
  fails : DomainError → Result A

-- `O` is the type of the other Python objects, `R` that of a row in a table.
pub record Database (O R : Type 0) : Type 1 where
  pub E : Type 0
  pub scalar : Text → Dict Text (Variable O) → E → Result (Value O)
  pub row : Text → Dict Text (Variable O) → E → Result (List (Value O))
  pub query : Text → Dict Text (Variable O) → E → Result (List O)
  -- A statement that is no transaction control: the result set that it leaves, if it is a query.
  pub run_sql : Text → Dict Text (Variable O) → E → Result (Option (List O)) × E
  -- sqlglot's view of the tables that a DML statement writes.
  pub dml_targets : Text → List Text
  -- The rows of a table, if there is one; the rows put back by DELETE and INSERT.
  pub contents : E → Text → Option (List R)
  pub write_back : Text → List R → E → E
  pub float_is_zero : O → Bool
  pub to_text : Value O → Text
  pub contents-write_back :
      (t j : Text) (old rs : List R) (e : E)
      → contents e t ≡ some old
      → contents (write_back t rs e) j ≡ (if t == j then some rs else contents e j)
