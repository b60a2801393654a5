-- ===== src/Scripting/Interpreter/Control.antt =====
-- BREAK and CONTINUE of scripting/interpreter.py: which signals leave a statement.
pub mod Scripts
use bqemulator.Prelude.{
  ℕ, ◌≡◌, refl, Bool, true, false, Option, none, some, List, [], ◌∷◌, if◌then◌else◌, Text, text,
  ltb, nat_eq, length, ◌+◌,
}
use bqemulator.RowAccess.Strings.{strip}
use bqemulator.Scripting.Syntax.{
  Value, Stmt, Stmts, Branches, Ending, finished, break_signal, continue_signal, return_signal,
  script_raise, domain_error, declare_stmt, set_stmt, if_stmt, while_stmt, loop_stmt, for_stmt,
  break_stmt, continue_stmt, return_stmt, begin_stmt, begin_except_stmt, raise_stmt, sql_stmt,
  no_else, else_body, branch, empty, followed, other,
}
use bqemulator.Scripting.Frames.{Framed, framed, refused, block, loop, declare, set, all_visible}
use bqemulator.Scripting.Database.{Database, Result, fine, fails}
use bqemulator.Scripting.Transactions.{
  Script, TxnOp, classify_txn_statement, drop_txn_snapshots, snapshot_dml_targets,
}
use bqemulator.Scripting.Interpreter.{
  pushed, run_block, loop_on, loop_from, while_from, for_on, for_rows, exec_for, handle_error,
  catching, counted, dispatch, exec_statement, exec_all, exec_if, unparenthesised,
}
use bqemulator.Scripting.Simple.{
  Limits, Outcome, and_then, with_value, with_frames, declare_all, set_all, exec_declare, exec_set,
  exec_return, exec_raise, exec_sql, after_sql, sql_or_txn, text_is_empty, is_truthy,
  optional_value, value_of, message_of,
}

-- Whether an ending is one of the two signals of a loop.
abbrev pub is_loop_signal : {O : Type 0} → Ending O → Bool
is_loop_signal break_signal = true
is_loop_signal continue_signal = true
is_loop_signal finished = false
is_loop_signal (return_signal v) = false
is_loop_signal (script_raise m) = false
is_loop_signal (domain_error e) = false

-- Every BREAK and CONTINUE stands in a loop.
unfoldable mutual
  pub InLoops : Stmt → Type 0
  InLoops break_stmt = ⊥
  InLoops continue_stmt = ⊥
  InLoops (if_stmt bs) = InLoopsBranches bs
  InLoops (begin_stmt b) = InLoopsAll b
  InLoops (begin_except_stmt b h) = InLoopsAll b × InLoopsAll h
  InLoops (while_stmt c b) = Unit
  InLoops (loop_stmt b) = Unit
  InLoops (for_stmt x q b) = Unit
  InLoops (declare_stmt ns t d) = Unit
  InLoops (set_stmt ns q) = Unit
  InLoops (return_stmt v) = Unit
  InLoops (raise_stmt m) = Unit
  InLoops (sql_stmt q) = Unit

  pub InLoopsAll : Stmts → Type 0
  InLoopsAll empty = Unit
  InLoopsAll (followed st ss) = InLoops st × InLoopsAll ss

  pub InLoopsBranches : Branches → Type 0
  InLoopsBranches no_else = Unit
  InLoopsBranches (else_body ss) = InLoopsAll ss
  InLoopsBranches (branch c ss bs) = InLoopsAll ss × InLoopsBranches bs

module _ {O R : Type 0} (D : Database O R) (L : Limits) where
  open D use {E}

  -- The outcome is no signal of a loop.
  abbrev pub Stays : Outcome D L → Type 0
  Stays r = is_loop_signal r.0 ≡ false

  pub Stays-then :
      (r : Outcome D L) (f : Script O R E → Outcome D L)
      → ((s : Script O R E) → Stays (f s))
      → Stays r
      → Stays (and_then D L r f)
  Stays-then (finished, s) f k h = k s
  Stays-then (break_signal, s) f k h = h
  Stays-then (continue_signal, s) f k h = h
  Stays-then (return_signal v, s) f k h = h
  Stays-then (script_raise m, s) f k h = h
  Stays-then (domain_error e, s) f k h = h

  pub Stays-value :
      {A : Type 0} (r : Result A) (s : Script O R E) (f : A → Outcome D L)
      → ((v : A) → Stays (f v))
      → Stays (with_value D L r s f)
  Stays-value (fine v) s f k = k v
  Stays-value (fails e) s f k = refl

  pub Stays-if : (b : Bool) (f g : Outcome D L) → Stays f → Stays g → Stays (if b then f else g)
  Stays-if true f g h k = h
  Stays-if false f g h k = k

  pub Stays-frames : (r : Framed O) (s : Script O R E) → Stays (with_frames D L r s)
  unfolding with_frames
  Stays-frames (framed fs) s = refl
  Stays-frames (refused e) s = refl

  pub Stays-declare_all :
      (ns : List Text) (t : Text) (v : Value O) (s : Script O R E)
      → Stays (declare_all D L ns t v s)
  unfolding declare_all
  Stays-declare_all [] t v s = refl
  Stays-declare_all (n ∷ ns) t v s =
      Stays-then (with_frames D L (declare n t v s.frames) s) (declare_all D L ns t v)
        (Stays-declare_all ns t v) (Stays-frames (declare n t v s.frames) s)

  pub Stays-set_all :
      (ns : List Text) (vs : List (Value O)) (s : Script O R E) → Stays (set_all D L ns vs s)
  unfolding set_all
  Stays-set_all [] vs s = refl
  Stays-set_all (n ∷ ns) [] s = refl
  Stays-set_all (n ∷ ns) (v ∷ vs) s =
      Stays-then (with_frames D L (set n v s.frames) s) (set_all D L ns vs) (Stays-set_all ns vs)
        (Stays-frames (set n v s.frames) s)

  pub Stays-set : (ns : List Text) (q : Text) (s : Script O R E) → Stays (exec_set D L ns q s)
  unfolding exec_set
  Stays-set [] q s =
      Stays-value (D.row q (all_visible s.frames) s.store) s _
        (λ vs. Stays-if (nat_eq (length vs) 0) _ _ (Stays-set_all [] vs s) refl)
  Stays-set (n ∷ []) q s =
      Stays-value (value_of D L q s) s _ (λ v. Stays-frames (set n v s.frames) s)
  Stays-set (n ∷ m ∷ ns) q s =
      Stays-value (D.row q (all_visible s.frames) s.store) s _
        (λ vs. Stays-if (nat_eq (length vs) _) _ _ (Stays-set_all (n ∷ m ∷ ns) vs s) refl)

  pub Stays-after_sql :
      (r : Result (Option (List O)) × E) (s : Script O R E) → Stays (after_sql D L r s)
  unfolding after_sql
  Stays-after_sql (fine t, e) s = refl
  Stays-after_sql (fails x, e) s = refl

  pub Stays-sql_or_txn :
      (o : Option TxnOp) (q : Text) (s : Script O R E) → Stays (sql_or_txn D L o q s)
  unfolding sql_or_txn
  Stays-sql_or_txn (some op) q s = refl
  Stays-sql_or_txn none q s =
      let s' = snapshot_dml_targets D q s in
      Stays-after_sql (D.run_sql q (all_visible s'.frames) s'.store) s'

  pub Stays-sql : (q : Text) (s : Script O R E) → Stays (exec_sql D L q s)
  unfolding exec_sql
  Stays-sql q s =
      Stays-if (text_is_empty (strip q)) (finished, s)
        (sql_or_txn D L (classify_txn_statement (strip q)) (strip q) s) refl
        (Stays-sql_or_txn (classify_txn_statement (strip q)) (strip q) s)

  -- A loop keeps the signals of its body, whatever the body is.
  pub Stays-loop_on :
      (r : Outcome D L) (f : Script O R E → Outcome D L)
      → ((s : Script O R E) → Stays (f s))
      → Stays (loop_on D L r f)
  Stays-loop_on (finished, s) f k = k s
  Stays-loop_on (break_signal, s) f k = refl
  Stays-loop_on (continue_signal, s) f k = k s
  Stays-loop_on (return_signal v, s) f k = refl
  Stays-loop_on (script_raise m, s) f k = refl
  Stays-loop_on (domain_error e, s) f k = refl

  pub Stays-loop :
      (n : ℕ) (f : Script O R E → Outcome D L) (s : Script O R E) → Stays (loop_from D L n f s)
  unfolding loop_from
  Stays-loop ℕ.zero f s = refl
  Stays-loop (ℕ.suc n) f s = Stays-loop_on (f s) (loop_from D L n f) (Stays-loop n f)

  pub Stays-while :
      (n : ℕ) (c : Text) (f : Script O R E → Outcome D L) (s : Script O R E)
      → Stays (while_from D L n c f s)
  unfolding while_from
  Stays-while ℕ.zero c f s =
      Stays-value (value_of D L c s) s _ (λ v. Stays-if (is_truthy D L v) _ _ refl refl)
  Stays-while (ℕ.suc n) c f s = Stays-value (value_of D L c s) s _ (λ v.
      Stays-if (is_truthy D L v) _ _
        (Stays-loop_on (f s) (while_from D L n c f) (Stays-while n c f)) refl)

  pub Stays-for_on :
      (r : Outcome D L) (f : Script O R E → Outcome D L)
      → ((s : Script O R E) → Stays (f s))
      → Stays (for_on D L r f)
  Stays-for_on (finished, s) f k = k _
  Stays-for_on (break_signal, s) f k = refl
  Stays-for_on (continue_signal, s) f k = k _
  Stays-for_on (return_signal v, s) f k = refl
  Stays-for_on (script_raise m, s) f k = refl
  Stays-for_on (domain_error e, s) f k = refl

  pub Stays-rows :
      (n : ℕ) (rs : List O) (x : Text) (f : Script O R E → Outcome D L) (s : Script O R E)
      → Stays (for_rows D L n rs x f s)
  unfolding for_rows
  Stays-rows n [] x f s = refl
  Stays-rows ℕ.zero (r ∷ rs) x f s = refl
  Stays-rows (ℕ.suc n) (r ∷ rs) x f s =
      let s' = pushed D L loop s in
      Stays-for_on
        (and_then D L (with_frames D L (declare x (text "STRUCT") (other r) s'.frames) s') f)
        (for_rows D L n rs x f) (Stays-rows n rs x f)

  pub Stays-for :
      (x q : Text) (f : Script O R E → Outcome D L) (s : Script O R E)
      → Stays (exec_for D L x q f s)
  unfolding exec_for
  Stays-for x q f s =
      Stays-value (D.query (unparenthesised (strip q)) (all_visible s.frames) s.store) s _
        (λ rs. Stays-rows L.max_loop_iters rs x f s)

  pub Stays-return : (v : Option Text) (s : Script O R E) → Stays (exec_return D L v s)
  unfolding exec_return
  Stays-return v s = Stays-value (optional_value D L v s) s (λ x. (return_signal x, s)) (λ x. refl)

  pub Stays-raise : (m : Option Text) (s : Script O R E) → Stays (exec_raise D L m s)
  unfolding exec_raise
  Stays-raise m s =
      Stays-value (optional_value D L m s) s (λ x. (script_raise (message_of D L x), s)) (λ x. refl)

  pub Stays-declare :
      (ns : List Text) (t : Text) (d : Option Text) (s : Script O R E)
      → Stays (exec_declare D L ns t d s)
  unfolding exec_declare
  Stays-declare ns t d s =
      Stays-value (optional_value D L d s) s (λ v. declare_all D L ns t v s)
        (λ v. Stays-declare_all ns t v s)

  pub Stays-handler :
      (m : Value O) (f : Script O R E → Outcome D L) (s : Script O R E)
      → ((s : Script O R E) → Stays (f s))
      → Stays (handle_error D L m f s)
  unfolding handle_error
  Stays-handler m f s k =
      let s' = pushed D L block (drop_txn_snapshots D s) in
      let fs = declare (text "__error_message__") (text "STRING") m s'.frames in
      Stays-then (with_frames D L fs s') f k (Stays-frames fs s')

  pub Stays-catching :
      (r : Outcome D L) (f : Script O R E → Outcome D L)
      → ((s : Script O R E) → Stays (f s))
      → Stays r
      → Stays (catching D L r f)
  unfolding catching
  Stays-catching (finished, s) f k h = h
  Stays-catching (break_signal, s) f k h = h
  Stays-catching (continue_signal, s) f k h = h
  Stays-catching (return_signal v, s) f k h = h
  Stays-catching (script_raise m, s) f k h = Stays-handler _ f s k
  Stays-catching (domain_error e, s) f k h = Stays-handler _ f s k

  pub Stays-dispatch :
      (f : Script O R E → Outcome D L) (s : Script O R E)
      → ((s : Script O R E) → Stays (f s))
      → Stays (dispatch D L s f)
  unfolding dispatch
  Stays-dispatch f s k =
      Stays-if (ltb L.max_statements (s.statements_executed + 1)) _ _ refl (k (counted D L s))
