-- ===== src/Scripting/Interpreter/Preserves.antt =====
-- A property of the interpreter's state that every part of a statement keeps is kept by the script.
pub mod Scripts
use bqemulator.Prelude.{
  ℕ, Bool, true, false, Option, List, [], ◌∷◌, if◌then◌else◌, Text, text, ltb, nat_eq, length, ◌+◌,
}
use bqemulator.RowAccess.Strings.{strip}
use bqemulator.Scripting.Syntax.{
  Value, Stmt, Stmts, Branches, finished, break_signal, continue_signal, return_signal,
  script_raise, domain_error, declare_stmt, set_stmt, if_stmt, while_stmt, loop_stmt, for_stmt,
  break_stmt, continue_stmt, return_stmt, begin_stmt, begin_except_stmt, raise_stmt, sql_stmt,
  no_else, else_body, branch, empty, followed, other,
}
use bqemulator.Scripting.Frames.{
  Frame, FrameKind, Framed, framed, refused, block, loop, push, pop, declare, set, all_visible,
}
use bqemulator.Scripting.Database.{Database, Result, fine, fails}
use bqemulator.Scripting.Transactions.{Script, drop_txn_snapshots}
use bqemulator.Scripting.Interpreter.{
  popped, pushed, run_block, loop_on, loop_from, while_from, for_on, for_rows, exec_for,
  handle_error, catching, counted, dispatch, exec_statement, exec_all, exec_if, unparenthesised,
}
use bqemulator.Scripting.Simple.{
  Limits, Outcome, and_then, with_value, with_frames, declare_all, set_all, exec_declare, exec_set,
  exec_return, exec_raise, exec_sql, is_truthy, optional_value, value_of, message_of,
}

-- Every SQL statement satisfies `P`, and handlers are used only if `H` holds.
unfoldable mutual
  pub Only : (Text → Type 0) → Type 0 → Stmt → Type 0
  Only P H (if_stmt bs) = OnlyBranches P H bs
  Only P H (while_stmt c b) = OnlyAll P H b
  Only P H (loop_stmt b) = OnlyAll P H b
  Only P H (for_stmt x q b) = OnlyAll P H b
  Only P H (begin_stmt b) = OnlyAll P H b
  Only P H (begin_except_stmt b h) = H × OnlyAll P H b × OnlyAll P H h
  Only P H (sql_stmt sql) = P sql
  Only P H (declare_stmt ns t d) = Unit
  Only P H (set_stmt ns e) = Unit
  Only P H break_stmt = Unit
  Only P H continue_stmt = Unit
  Only P H (return_stmt v) = Unit
  Only P H (raise_stmt m) = Unit

  pub OnlyAll : (Text → Type 0) → Type 0 → Stmts → Type 0
  OnlyAll P H empty = Unit
  OnlyAll P H (followed st ss) = Only P H st × OnlyAll P H ss

  pub OnlyBranches : (Text → Type 0) → Type 0 → Branches → Type 0
  OnlyBranches P H no_else = Unit
  OnlyBranches P H (else_body ss) = OnlyAll P H ss
  OnlyBranches P H (branch c ss bs) = OnlyAll P H ss × OnlyBranches P H bs

-- What the property has to satisfy: it does not look at frames and counts, and the allowed SQL and the
-- start of a handler keep it.
pub record Kept {O R : Type 0} (D : Database O R) (L : Limits) (P : Text → Type 0) (H : Type 0)
    (I : Script O R (D.E) → Type 0) : Type 0 where
  pub frames : (fs : List (Frame O)) (s : Script O R (D.E)) → I s → I (record s { frames = fs })
  pub count : (s : Script O R (D.E)) → I s → I (counted D L s)
  pub sql : (q : Text) (s : Script O R (D.E)) → P q → I s → I (exec_sql D L q s).1
  pub drop : H → (s : Script O R (D.E)) → I s → I (drop_txn_snapshots D s)

module _ {O R : Type 0} (D : Database O R) (L : Limits) {P : Text → Type 0} {H : Type 0}
    {I : Script O R (D.E) → Type 0} (K : Kept D L P H I) where
  open D use {E}

  -- The run keeps the property from every state.
  abbrev pub Keeps : (Script O R E → Outcome D L) → Type 0
  Keeps f = (s : Script O R E) → I s → I (f s).1

  pub Keeps-then :
      (r : Outcome D L) (f : Script O R E → Outcome D L) → Keeps f → I r.1 → I (and_then D L r f).1
  Keeps-then (finished, s) f k h = k s h
  Keeps-then (break_signal, s) f k h = h
  Keeps-then (continue_signal, s) f k h = h
  Keeps-then (return_signal v, s) f k h = h
  Keeps-then (script_raise m, s) f k h = h
  Keeps-then (domain_error e, s) f k h = h

  pub Keeps-value :
      {A : Type 0} (r : Result A) (s : Script O R E) (f : A → Outcome D L)
      → ((v : A) → I (f v).1)
      → I s
      → I (with_value D L r s f).1
  Keeps-value (fine v) s f k h = k v
  Keeps-value (fails e) s f k h = h

  pub Keeps-frames : (r : Framed O) → Keeps (with_frames D L r)
  unfolding with_frames
  Keeps-frames (framed fs) s h = K.frames fs s h
  Keeps-frames (refused e) s h = h

  pub Keeps-declare_all : (ns : List Text) (t : Text) (v : Value O) → Keeps (declare_all D L ns t v)
  unfolding declare_all
  Keeps-declare_all [] t v s h = h
  Keeps-declare_all (n ∷ ns) t v s h =
      Keeps-then (with_frames D L (declare n t v s.frames) s) (declare_all D L ns t v)
        (Keeps-declare_all ns t v) (Keeps-frames (declare n t v s.frames) s h)

  pub Keeps-set_all : (ns : List Text) (vs : List (Value O)) → Keeps (set_all D L ns vs)
  unfolding set_all
  Keeps-set_all [] vs s h = h
  Keeps-set_all (n ∷ ns) [] s h = h
  Keeps-set_all (n ∷ ns) (v ∷ vs) s h =
      Keeps-then (with_frames D L (set n v s.frames) s) (set_all D L ns vs) (Keeps-set_all ns vs)
        (Keeps-frames (set n v s.frames) s h)

  pub Keeps-declare :
      (ns : List Text) (t : Text) (d : Option Text) → Keeps (exec_declare D L ns t d)
  unfolding exec_declare
  Keeps-declare ns t d s h =
      Keeps-value (optional_value D L d s) s (λ v. declare_all D L ns t v s)
        (λ v. Keeps-declare_all ns t v s h) h

  pub Keeps-if : (b : Bool) (f g : Outcome D L) → I f.1 → I g.1 → I (if b then f else g).1
  Keeps-if true f g h k = h
  Keeps-if false f g h k = k

  pub Keeps-set : (ns : List Text) (q : Text) → Keeps (exec_set D L ns q)
  unfolding exec_set
  Keeps-set [] q s h =
      Keeps-value (D.row q (all_visible s.frames) s.store) s _
        (λ vs. Keeps-if (nat_eq (length vs) 0) _ _ (Keeps-set_all [] vs s h) h) h
  Keeps-set (n ∷ []) q s h =
      Keeps-value (value_of D L q s) s _ (λ v. Keeps-frames (set n v s.frames) s h) h
  Keeps-set (n ∷ m ∷ ns) q s h =
      Keeps-value (D.row q (all_visible s.frames) s.store) s _
        (λ vs. Keeps-if (nat_eq (length vs) _) _ _ (Keeps-set_all (n ∷ m ∷ ns) vs s h) h) h

  pub Keeps-return : (v : Option Text) → Keeps (exec_return D L v)
  unfolding exec_return
  Keeps-return v s h = Keeps-value (optional_value D L v s) s (λ x. (return_signal x, s)) (λ x. h) h

  pub Keeps-raise : (v : Option Text) → Keeps (exec_raise D L v)
  unfolding exec_raise
  Keeps-raise v s h =
      Keeps-value (optional_value D L v s) s (λ x. (script_raise (message_of D L x), s)) (λ x. h) h

  pub Keeps-popped : (r : Outcome D L) → I r.1 → I (popped D L r).1
  Keeps-popped r h = K.frames (pop r.1.frames) r.1 h

  pub Keeps-pushed : (k : FrameKind) (s : Script O R E) → I s → I (pushed D L k s)
  Keeps-pushed k s h = K.frames (push k s.frames) s h

  pub Keeps-block :
      (k : FrameKind) (f : Script O R E → Outcome D L) → Keeps f → Keeps (run_block D L k f)
  Keeps-block k f h s i =
      Keeps-popped (f (pushed D L k s)) (h (pushed D L k s) (Keeps-pushed k s i))

  pub Keeps-loop_on :
      (r : Outcome D L) (f : Script O R E → Outcome D L) → Keeps f → I r.1 → I (loop_on D L r f).1
  Keeps-loop_on (finished, s) f k h = k s h
  Keeps-loop_on (break_signal, s) f k h = h
  Keeps-loop_on (continue_signal, s) f k h = k s h
  Keeps-loop_on (return_signal v, s) f k h = h
  Keeps-loop_on (script_raise m, s) f k h = h
  Keeps-loop_on (domain_error e, s) f k h = h

  pub Keeps-loop : (n : ℕ) (f : Script O R E → Outcome D L) → Keeps f → Keeps (loop_from D L n f)
  unfolding loop_from
  Keeps-loop ℕ.zero f k s h = h
  Keeps-loop (ℕ.suc n) f k s h = Keeps-loop_on (f s) (loop_from D L n f) (Keeps-loop n f k) (k s h)

  pub Keeps-while :
      (n : ℕ) (c : Text) (f : Script O R E → Outcome D L) → Keeps f → Keeps (while_from D L n c f)
  unfolding while_from
  Keeps-while ℕ.zero c f k s h =
      Keeps-value (value_of D L c s) s _ (λ v. Keeps-if (is_truthy D L v) _ _ h h) h
  Keeps-while (ℕ.suc n) c f k s h =
      Keeps-value (value_of D L c s) s _
        (λ v.
          Keeps-if (is_truthy D L v) _ _
            (Keeps-loop_on (f s) (while_from D L n c f) (Keeps-while n c f k) (k s h)) h)
        h

  pub Keeps-for_on :
      (r : Outcome D L) (f : Script O R E → Outcome D L) → Keeps f → I r.1 → I (for_on D L r f).1
  Keeps-for_on (finished, s) f k h = k _ (K.frames (pop s.frames) s h)
  Keeps-for_on (break_signal, s) f k h = K.frames (pop s.frames) s h
  Keeps-for_on (continue_signal, s) f k h = k _ (K.frames (pop s.frames) s h)
  Keeps-for_on (return_signal v, s) f k h = h
  Keeps-for_on (script_raise m, s) f k h = h
  Keeps-for_on (domain_error e, s) f k h = h

  pub Keeps-rows :
      (n : ℕ) (rs : List O) (x : Text) (f : Script O R E → Outcome D L)
      → Keeps f
      → Keeps (for_rows D L n rs x f)
  unfolding for_rows
  Keeps-rows n [] x f k s h = h
  Keeps-rows ℕ.zero (r ∷ rs) x f k s h = h
  Keeps-rows (ℕ.suc n) (r ∷ rs) x f k s h =
      let s' = pushed D L loop s in
      let declared = with_frames D L (declare x (text "STRUCT") (other r) s'.frames) s' in
      Keeps-for_on (and_then D L declared f) (for_rows D L n rs x f) (Keeps-rows n rs x f k) (
        Keeps-then declared f k
          (Keeps-frames (declare x (text "STRUCT") (other r) s'.frames) s' (Keeps-pushed loop s h)))

  pub Keeps-for :
      (x q : Text) (f : Script O R E → Outcome D L) → Keeps f → Keeps (exec_for D L x q f)
  unfolding exec_for
  Keeps-for x q f k s h =
      Keeps-value (D.query (unparenthesised (strip q)) (all_visible s.frames) s.store) s _
        (λ rs. Keeps-rows L.max_loop_iters rs x f k s h) h

  pub Keeps-handler :
      (m : Value O) (f : Script O R E → Outcome D L) → H → Keeps f → Keeps (handle_error D L m f)
  unfolding handle_error
  Keeps-handler m f d k s h =
      let s' = pushed D L block (drop_txn_snapshots D s) in
      let declared =
        with_frames D L (declare (text "__error_message__") (text "STRING") m s'.frames) s' in
      Keeps-popped (and_then D L declared f) (
        Keeps-then declared f k (
          Keeps-frames (declare (text "__error_message__") (text "STRING") m s'.frames) s'
            (Keeps-pushed block _ (K.drop d s h))))

  pub Keeps-catching :
      (r : Outcome D L) (f : Script O R E → Outcome D L)
      → H
      → Keeps f
      → I r.1
      → I (catching D L r f).1
  unfolding catching
  Keeps-catching (finished, s) f d k h = h
  Keeps-catching (break_signal, s) f d k h = h
  Keeps-catching (continue_signal, s) f d k h = h
  Keeps-catching (return_signal v, s) f d k h = h
  Keeps-catching (script_raise m, s) f d k h = Keeps-handler _ f d k s h
  Keeps-catching (domain_error e, s) f d k h = Keeps-handler _ f d k s h

  pub Keeps-dispatch : (f : Script O R E → Outcome D L) → Keeps f → Keeps (λ s. dispatch D L s f)
  unfolding dispatch
  Keeps-dispatch f k s h =
      Keeps-if (ltb L.max_statements (s.statements_executed + 1)) _ _ (K.count s h)
        (k _ (K.count s h))
