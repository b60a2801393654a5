-- ===== src/Scripting/Simple.antt =====
-- scripting/interpreter.py: the statements that hold no other statements, and how outcomes are chained.
use bqemulator.Prelude.{
  ℕ, Bool, true, false, not, Option, none, some, List, [], ◌∷◌, length, nat_eq, pos, negsuc,
  if◌then◌else◌, Text,
}
use bqemulator.RowAccess.Strings.{strip}
use bqemulator.Scripting.Syntax.{
  Value, Ending, finished, return_signal, script_raise, domain_error, set_count, null, boolean, int,
  float, str, error_text, other,
}
use bqemulator.Scripting.Frames.{Framed, framed, refused, declare, set, all_visible}
use bqemulator.Scripting.Database.{Database, Result, fine, fails}
use bqemulator.Scripting.Transactions.{
  Script, TxnOp, classify_txn_statement, snapshot_dml_targets, handle_txn_statement,
}

-- The two settings.
pub record Limits : Type 0 where
  pub max_statements : ℕ
  pub max_loop_iters : ℕ

abbrev pub text_is_empty : Text → Bool
text_is_empty [] = true
text_is_empty (c ∷ s) = false

module _ {O R : Type 0} (D : Database O R) (L : Limits) where
  open D use {E, scalar, row, query, run_sql, float_is_zero, to_text}

  -- _is_truthy
  unfoldable pub is_truthy : Value O → Bool
  is_truthy null = false
  is_truthy (boolean b) = b
  is_truthy (int (pos n)) = not (nat_eq n 0)
  is_truthy (int (negsuc n)) = true
  is_truthy (float x) = not (float_is_zero x)
  is_truthy (str s) = not (text_is_empty s)
  is_truthy (error_text e) = true
  is_truthy (other x) = true

  abbrev pub Outcome : Type 0
  Outcome = Ending O × Script O R E

  -- The next statement, unless an exception is on its way.
  abbrev pub and_then : Outcome → (Script O R E → Outcome) → Outcome
  and_then (finished, s) k = k s
  and_then (o, s) k = (o, s)

  abbrev pub with_value : {A : Type 0} → Result A → Script O R E → (A → Outcome) → Outcome
  with_value (fine v) s k = k v
  with_value (fails e) s k = (domain_error e, s)

  abbrev pub value_of : Text → Script O R E → Result (Value O)
  value_of expr s = scalar expr (all_visible s.frames) s.store

  abbrev pub optional_value : Option Text → Script O R E → Result (Value O)
  optional_value none s = fine null
  optional_value (some expr) s = value_of expr s

  unfoldable pub with_frames : Framed O → Script O R E → Outcome
  with_frames (framed fs) s = (finished, record s { frames = fs })
  with_frames (refused e) s = (domain_error e, s)

  unfoldable pub declare_all : List Text → Text → Value O → Script O R E → Outcome
  unfolding with_frames
  declare_all [] t v s = (finished, s)
  declare_all (n ∷ ns) t v s =
      and_then (with_frames (declare n t v s.frames) s) (declare_all ns t v)

  -- _exec_declare
  unfoldable pub exec_declare : List Text → Text → Option Text → Script O R E → Outcome
  unfolding declare_all
  exec_declare ns t default_expr s =
      with_value (optional_value default_expr s) s (λ v. declare_all ns t v s)

  unfoldable pub set_all : List Text → List (Value O) → Script O R E → Outcome
  unfolding with_frames
  set_all (n ∷ ns) (v ∷ vs) s = and_then (with_frames (set n v s.frames) s) (set_all ns vs)
  set_all _ _ s = (finished, s)

  -- _exec_set
  unfoldable pub exec_set : List Text → Text → Script O R E → Outcome
  unfolding set_all with_frames
  exec_set (n ∷ []) source s =
      with_value (value_of source s) s (λ v. with_frames (set n v s.frames) s)
  exec_set targets source s = with_value (row source (all_visible s.frames) s.store) s (λ vs.
      if nat_eq (length vs) (length targets)
      then set_all targets vs s
      else (domain_error (set_count (length targets) (length vs)), s))

  -- _exec_return
  unfoldable pub exec_return : Option Text → Script O R E → Outcome
  exec_return value_expr s = with_value (optional_value value_expr s) s (λ v. (return_signal v, s))

  abbrev pub message_of : Value O → Option Text
  message_of null = none
  message_of v = if text_is_empty (to_text v) then none else some (to_text v)

  -- _exec_raise: no message, or an empty one, becomes the standard text.
  unfoldable pub exec_raise : Option Text → Script O R E → Outcome
  exec_raise message_expr s =
      with_value (optional_value message_expr s) s (λ v. (script_raise (message_of v), s))

  unfoldable pub after_sql : Result (Option (List O)) × E → Script O R E → Outcome
  after_sql (fine table, e) s = (finished, record s { final_table = table; store = e })
  after_sql (fails err, e) s = (domain_error err, record s { store = e })

  unfoldable pub sql_or_txn : Option TxnOp → Text → Script O R E → Outcome
  unfolding after_sql
  sql_or_txn (some op) sql s =
      (finished, record (handle_txn_statement D op s) { final_table = none })
  sql_or_txn none sql s =
      let s' = snapshot_dml_targets D sql s in
      after_sql (run_sql sql (all_visible s'.frames) s'.store) s'

  -- _exec_sql
  unfoldable pub exec_sql : Text → Script O R E → Outcome
  unfolding sql_or_txn
  exec_sql sql s =
      if text_is_empty (strip sql)
      then (finished, s)
      else sql_or_txn (classify_txn_statement (strip sql)) (strip sql) s
