-- ===== src/Scripting/Syntax.antt =====
-- scripting/ast.py and scripting/exceptions.py: the statements, and how a statement can end.
use bqemulator.Prelude.{ℕ, Bool, Option, List, Text, ℤ}

-- domain/errors.py, the errors that the interpreter raises itself, by what their text interpolates, and
-- those that its calls raise.
pub data DomainError : Type 0 where
  too_many_statements : ℕ → DomainError
  while_exceeded loop_exceeded for_exceeded : ℕ → DomainError
  already_declared unknown_variable : Text → DomainError
  no_frame underflow : DomainError
  set_count : ℕ → ℕ → DomainError
  user_raised : Option Text → DomainError
  reported : Text → DomainError

-- A value of a script: what Python holds for it. `other` is any other object, a row among them.
pub data Value (O : Type 0) : Type 0 where
  null : Value O
  boolean : Bool → Value O
  int : ℤ → Value O
  float : O → Value O
  str : Text → Value O
  error_text : DomainError → Value O
  other : O → Value O

mutual
  pub data Stmt : Type 0 where
    declare_stmt : List Text → Text → Option Text → Stmt
    set_stmt : List Text → Text → Stmt
    if_stmt : Branches → Stmt
    while_stmt : Text → Stmts → Stmt
    loop_stmt : Stmts → Stmt
    for_stmt : Text → Text → Stmts → Stmt
    break_stmt continue_stmt : Stmt
    return_stmt : Option Text → Stmt
    begin_stmt : Stmts → Stmt
    begin_except_stmt : Stmts → Stmts → Stmt
    raise_stmt : Option Text → Stmt
    sql_stmt : Text → Stmt

  pub data Stmts : Type 0 where
    empty : Stmts
    followed : Stmt → Stmts → Stmts

  -- The branches of an IF, and its ELSE if there is one.
  pub data Branches : Type 0 where
    no_else : Branches
    else_body : Stmts → Branches
    branch : Text → Stmts → Branches → Branches

-- How a statement ends: normally, or by a Python exception.
pub data Ending (O : Type 0) : Type 0 where
  finished : Ending O
  break_signal continue_signal : Ending O
  return_signal : Value O → Ending O
  script_raise : Option Text → Ending O
  domain_error : DomainError → Ending O
