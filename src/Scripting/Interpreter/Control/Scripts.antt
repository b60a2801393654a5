-- ===== src/Scripting/Interpreter/Control/Scripts.antt =====
-- No signal of a loop leaves a statement whose BREAKs and CONTINUEs stand in loops.
use bqemulator.Prelude.{◌≡◌, refl, false, if◌then◌else◌}
use bqemulator.Scripting.Syntax.{
  Stmt, Stmts, Branches, declare_stmt, set_stmt, if_stmt, while_stmt, loop_stmt, for_stmt,
  break_stmt, continue_stmt, return_stmt, begin_stmt, begin_except_stmt, raise_stmt, sql_stmt,
  no_else, else_body, branch, empty, followed,
}
use bqemulator.Scripting.Frames.{block, loop}
use bqemulator.Scripting.Database.{Database}
use bqemulator.Scripting.Transactions.{Script}
use bqemulator.Scripting.Interpreter.{
  pushed, run_block, loop_from, while_from, exec_for, catching, exec_statement, exec_all, exec_if,
}
use bqemulator.Scripting.Simple.{
  Limits, exec_declare, exec_set, exec_return, exec_raise, exec_sql, is_truthy, value_of,
}
use bqemulator.Scripting.Interpreter.Control.{
  is_loop_signal, InLoops, InLoopsAll, InLoopsBranches, Stays, Stays-then, Stays-value, Stays-if,
  Stays-set, Stays-sql, Stays-loop, Stays-while, Stays-for, Stays-return, Stays-raise,
  Stays-declare, Stays-catching, Stays-dispatch,
}

module _ {O R : Type 0} (D : Database O R) (L : Limits) where
  open D use {E}

  mutual
    unfolding exec_statement InLoops

    -- A statement whose BREAKs and CONTINUEs all stand in loops never ends in one of their signals.
    pub exec_statement-Stays :
        (st : Stmt) (s : Script O R E)
        → InLoops st
        → is_loop_signal (exec_statement D L st s).0 ≡ false
    exec_statement-Stays (declare_stmt ns t d) s o =
        Stays-dispatch D L (exec_declare D L ns t d) s (Stays-declare D L ns t d)
    exec_statement-Stays (set_stmt ns q) s o =
        Stays-dispatch D L (exec_set D L ns q) s (Stays-set D L ns q)
    exec_statement-Stays (if_stmt bs) s o =
        Stays-dispatch D L (exec_if D L bs) s (λ s'. exec_if-Stays bs s' o)
    exec_statement-Stays (while_stmt c b) s o =
        let body = run_block D L loop (exec_all D L b) in
        Stays-dispatch D L (while_from D L L.max_loop_iters c body) s
          (Stays-while D L L.max_loop_iters c body)
    exec_statement-Stays (loop_stmt b) s o =
        let body = run_block D L loop (exec_all D L b) in
        Stays-dispatch D L (loop_from D L L.max_loop_iters body) s
          (Stays-loop D L L.max_loop_iters body)
    exec_statement-Stays (for_stmt x q b) s o =
        Stays-dispatch D L (exec_for D L x q (exec_all D L b)) s
          (Stays-for D L x q (exec_all D L b))
    exec_statement-Stays break_stmt s o = absurd o
    exec_statement-Stays continue_stmt s o = absurd o
    exec_statement-Stays (return_stmt v) s o =
        Stays-dispatch D L (exec_return D L v) s (Stays-return D L v)
    exec_statement-Stays (begin_stmt b) s o =
        Stays-dispatch D L (run_block D L block (exec_all D L b)) s
          (λ s'. exec_all-Stays b (pushed D L block s') o)
    exec_statement-Stays (begin_except_stmt b h) s o =
        Stays-dispatch D L
          (λ s'. catching D L (run_block D L block (exec_all D L b) s') (exec_all D L h)) s
          (λ s'.
            Stays-catching D L (run_block D L block (exec_all D L b) s') (exec_all D L h)
              (λ s''. exec_all-Stays h s'' o.1) (exec_all-Stays b (pushed D L block s') o.0))
    exec_statement-Stays (raise_stmt m) s o =
        Stays-dispatch D L (exec_raise D L m) s (Stays-raise D L m)
    exec_statement-Stays (sql_stmt q) s o = Stays-dispatch D L (exec_sql D L q) s (Stays-sql D L q)

    pub exec_all-Stays :
        (ss : Stmts) (s : Script O R E)
        → InLoopsAll ss
        → is_loop_signal (exec_all D L ss s).0 ≡ false
    exec_all-Stays empty s o = refl
    exec_all-Stays (followed st ss) s o =
        Stays-then D L (exec_statement D L st s) (exec_all D L ss) (λ s'. exec_all-Stays ss s' o.1)
          (exec_statement-Stays st s o.0)

    exec_if-Stays :
        (bs : Branches) (s : Script O R E) → InLoopsBranches bs → Stays D L (exec_if D L bs s)
    exec_if-Stays no_else s o = refl
    exec_if-Stays (else_body ss) s o = exec_all-Stays ss (pushed D L block s) o
    exec_if-Stays (branch c ss bs) s o =
        let taken = run_block D L block (exec_all D L ss) s in
        let others = exec_if D L bs s in
        Stays-value D L (value_of D L c s) s (λ v. if is_truthy D L v then taken else others)
          (λ v.
            Stays-if D L (is_truthy D L v) taken others (exec_all-Stays ss (pushed D L block s) o.0)
              (exec_if-Stays bs s o.1))
