-- ===== src/Scripting/Interpreter.antt =====
-- scripting/interpreter.py: the statements of a script. CALL, EXECUTE IMMEDIATE and the CREATE
-- statements of routines have no constructor here.
pub mod Leak
pub mod Preserves
pub mod Control
use bqemulator.Prelude.{
  ℕ, ◌+◌, Bool, true, false, ◌&&◌, not, Option, none, some, List, [], ◌∷◌, length, ltb, nat_eq, pos,
  negsuc, if◌then◌else◌, Text, text,
}
use bqemulator.RowAccess.Strings.{strip}
use bqemulator.Scripting.Syntax.{
  Value, Stmt, Stmts, Branches, Ending, finished, break_signal, continue_signal, return_signal,
  script_raise, domain_error, too_many_statements, while_exceeded, loop_exceeded, for_exceeded,
  set_count, user_raised, null, boolean, int, float, str, error_text, other, declare_stmt, set_stmt,
  if_stmt, while_stmt, loop_stmt, for_stmt, break_stmt, continue_stmt, return_stmt, begin_stmt,
  begin_except_stmt, raise_stmt, sql_stmt, no_else, else_body, branch,
}
use bqemulator.Scripting.Syntax.{empty, followed}
use bqemulator.Scripting.Frames.{
  FrameKind, Framed, framed, refused, root, block, loop, push, pop, declare, set, all_visible,
}
use bqemulator.Scripting.Database.{Database, Result, fine, fails}
use bqemulator.Scripting.Transactions.{
  Script, TxnOp, classify_txn_statement, drop_txn_snapshots, restore_txn_snapshots,
  snapshot_dml_targets, handle_txn_statement,
}
use bqemulator.Scripting.Simple.{
  Limits, Outcome, after_sql, and_then, declare_all, exec_declare, exec_raise, exec_return,
  exec_set, exec_sql, is_truthy, message_of, optional_value, set_all, sql_or_txn, text_is_empty,
  value_of, with_frames, with_value,
}

-- The parentheses around the source of a FOR, if both stand there.
abbrev drop_last : Text → Text
drop_last [] = []
drop_last (c ∷ []) = []
drop_last (c ∷ d ∷ s) = c ∷ drop_last (d ∷ s)

abbrev ends_in : ℕ → Text → Bool
ends_in x [] = false
ends_in x (c ∷ []) = nat_eq c x
ends_in x (c ∷ d ∷ s) = ends_in x (d ∷ s)

unfoldable pub unparenthesised : Text → Text
unparenthesised [] = []
unparenthesised (c ∷ s) = if nat_eq c b'(' && ends_in b')' (c ∷ s) then drop_last s else c ∷ s

module _ {O R : Type 0} (D : Database O R) (L : Limits) where
  open D use {E, query}

  -- `finally: self._frames.pop()`
  abbrev pub popped : Outcome D L → Outcome D L
  popped (o, s) = (o, record s { frames = pop s.frames })

  abbrev pub pushed : FrameKind → Script O R E → Script O R E
  pushed k s = record s { frames = push k s.frames }

  -- _run_block, by what runs the statements
  abbrev pub run_block : FrameKind → (Script O R E → Outcome D L) → Script O R E → Outcome D L
  run_block k body s = popped (body (pushed k s))

  -- What a loop does with the ending of its body.
  abbrev pub loop_on : Outcome D L → (Script O R E → Outcome D L) → Outcome D L
  loop_on (finished, s) next = next s
  loop_on (continue_signal, s) next = next s
  loop_on (break_signal, s) next = (finished, s)
  loop_on (o, s) next = (o, s)

  -- _exec_loop, with the number of iterations that are left.
  unfoldable pub loop_from : ℕ → (Script O R E → Outcome D L) → Script O R E → Outcome D L
  loop_from ℕ.zero body s = (domain_error (loop_exceeded L.max_loop_iters), s)
  loop_from (ℕ.suc n) body s = loop_on (body s) (loop_from n body)

  -- _exec_while
  unfoldable pub while_from : ℕ → Text → (Script O R E → Outcome D L) → Script O R E → Outcome D L
  unfolding is_truthy
  while_from ℕ.zero cond body s = with_value D L (value_of D L cond s) s (λ v.
      if is_truthy D L v
      then (domain_error (while_exceeded L.max_loop_iters), s)
      else (finished, s))
  while_from (ℕ.suc n) cond body s =
      with_value D L (value_of D L cond s) s
        (λ v. if is_truthy D L v then loop_on (body s) (while_from n cond body) else (finished, s))

  -- The ending of one round of a FOR: the frame is popped unless another exception passes.
  abbrev pub for_on : Outcome D L → (Script O R E → Outcome D L) → Outcome D L
  for_on (finished, s) next = next (record s { frames = pop s.frames })
  for_on (continue_signal, s) next = next (record s { frames = pop s.frames })
  for_on (break_signal, s) next = (finished, record s { frames = pop s.frames })
  for_on (o, s) next = (o, s)

  -- The rounds of _exec_for over the rows that are left.
  unfoldable pub for_rows :
      ℕ → List O → Text → (Script O R E → Outcome D L) → Script O R E → Outcome D L
  unfolding with_frames
  for_rows n [] x body s = (finished, s)
  for_rows ℕ.zero (r ∷ rs) x body s = (domain_error (for_exceeded L.max_loop_iters), s)
  for_rows (ℕ.suc n) (r ∷ rs) x body s =
      let s' = pushed loop s in
      for_on
        (and_then D L (with_frames D L (declare x (text "STRUCT") (other r) s'.frames) s') body)
        (for_rows n rs x body)

  unfoldable pub exec_for : Text → Text → (Script O R E → Outcome D L) → Script O R E → Outcome D L
  unfolding for_rows unparenthesised
  exec_for x source body s =
      with_value D L (query (unparenthesised (strip source)) (all_visible s.frames) s.store) s
        (λ rs. for_rows L.max_loop_iters rs x body s)

  abbrev error_message : Text
  error_message = text "__error_message__"

  -- The handler of a BEGIN block, in a frame of its own with the error's message.
  unfoldable pub handle_error : Value O → (Script O R E → Outcome D L) → Script O R E → Outcome D L
  unfolding with_frames drop_txn_snapshots
  handle_error message handler s =
      let s' = pushed block (drop_txn_snapshots D s) in
      popped (
        and_then D L (with_frames D L (declare error_message (text "STRING") message s'.frames) s')
          handler)

  abbrev raised_text : Option Text → Value O
  raised_text none = error_text (user_raised none)
  raised_text (some m) = str m

  -- The two `except` clauses of _exec_begin, where there is a handler.
  unfoldable pub catching : Outcome D L → (Script O R E → Outcome D L) → Outcome D L
  unfolding handle_error
  catching (script_raise m, s) handler = handle_error (raised_text m) handler s
  catching (domain_error e, s) handler = handle_error (error_text e) handler s
  catching (o, s) handler = (o, s)

  unfoldable pub counted : Script O R E → Script O R E
  counted s = record s { statements_executed = s.statements_executed + 1 }

  -- _exec_statement: the count and its limit, before the dispatch.
  unfoldable pub dispatch : Script O R E → (Script O R E → Outcome D L) → Outcome D L
  unfolding counted
  dispatch s run =
      if ltb L.max_statements (s.statements_executed + 1)
      then (domain_error (too_many_statements L.max_statements), counted s)
      else run (counted s)

  unfoldable mutual
    unfolding exec_declare exec_set exec_return exec_raise exec_sql loop_from while_from exec_for
        catching dispatch

    pub exec_statement : Stmt → Script O R E → Outcome D L
    exec_statement (declare_stmt ns t d) s = dispatch s (exec_declare D L ns t d)
    exec_statement (set_stmt targets source) s = dispatch s (exec_set D L targets source)
    exec_statement (if_stmt branches) s = dispatch s (exec_if branches)
    exec_statement (while_stmt cond body) s =
        dispatch s (while_from L.max_loop_iters cond (run_block loop (exec_all body)))
    exec_statement (loop_stmt body) s =
        dispatch s (loop_from L.max_loop_iters (run_block loop (exec_all body)))
    exec_statement (for_stmt x source body) s = dispatch s (exec_for x source (exec_all body))
    exec_statement break_stmt s = dispatch s (λ s'. (break_signal, s'))
    exec_statement continue_stmt s = dispatch s (λ s'. (continue_signal, s'))
    exec_statement (return_stmt value) s = dispatch s (exec_return D L value)
    exec_statement (begin_stmt body) s = dispatch s (run_block block (exec_all body))
    exec_statement (begin_except_stmt body handler) s =
        dispatch s (λ s'. catching (run_block block (exec_all body) s') (exec_all handler))
    exec_statement (raise_stmt message) s = dispatch s (exec_raise D L message)
    exec_statement (sql_stmt sql) s = dispatch s (exec_sql D L sql)

    pub exec_all : Stmts → Script O R E → Outcome D L
    exec_all empty s = (finished, s)
    exec_all (followed st ss) s = and_then D L (exec_statement st s) (exec_all ss)

    -- _exec_if
    pub exec_if : Branches → Script O R E → Outcome D L
    exec_if no_else s = (finished, s)
    exec_if (else_body ss) s = run_block block (exec_all ss) s
    exec_if (branch cond ss rest) s =
        let others = exec_if rest s in
        let taken = run_block block (exec_all ss) s in
        with_value D L (value_of D L cond s) s (λ v. if is_truthy D L v then taken else others)

  -- run: an open transaction is committed at the end, and rolled back if an exception escapes.
  unfoldable pub ended : Outcome D L → Outcome D L
  ended (finished, s) = (finished, drop_txn_snapshots D s)
  ended (o, s) = (o, restore_txn_snapshots D s)

  unfoldable pub run : Stmts → Script O R E → Outcome D L
  unfolding exec_all ended
  run script s = ended (exec_all script s)

  -- The interpreter before its first statement.
  unfoldable pub new_script : E → Script O R E
  new_script e = record {
    frames = push root [];
    final_table = none;
    statements_executed = 0;
    active_txn = none;
    store = e;
  }
