-- ===== src/Scripting/Interpreter/Preserves/Scripts.antt =====
-- Statements and scripts keep what each of their parts keeps.
use bqemulator.Prelude.{if◌then◌else◌, Text}
use bqemulator.Scripting.Syntax.{
  Stmt, Stmts, Branches, break_signal, continue_signal, declare_stmt, set_stmt, if_stmt, while_stmt,
  loop_stmt, for_stmt, break_stmt, continue_stmt, return_stmt, begin_stmt, begin_except_stmt,
  raise_stmt, sql_stmt, no_else, else_body, branch, empty, followed,
}
use bqemulator.Scripting.Frames.{block, loop}
use bqemulator.Scripting.Database.{Database}
use bqemulator.Scripting.Transactions.{Script}
use bqemulator.Scripting.Interpreter.{
  run_block, loop_from, while_from, exec_for, catching, exec_statement, exec_all, exec_if,
}
use bqemulator.Scripting.Simple.{
  Limits, exec_declare, exec_set, exec_return, exec_raise, exec_sql, is_truthy, value_of,
}
use bqemulator.Scripting.Interpreter.Preserves.{
  Kept, Only, OnlyAll, OnlyBranches, Keeps, Keeps-then, Keeps-value, Keeps-declare, Keeps-if,
  Keeps-set, Keeps-return, Keeps-raise, Keeps-block, Keeps-loop, Keeps-while, Keeps-for,
  Keeps-catching, Keeps-dispatch,
}

module _ {O R : Type 0} (D : Database O R) (L : Limits) {P : Text → Type 0} {H : Type 0}
    {I : Script O R (D.E) → Type 0} (K : Kept D L P H I) where
  open D use {E}

  mutual
    unfolding exec_statement Only

    pub Keeps-statement : (st : Stmt) → Only P H st → Keeps D L K (exec_statement D L st)
    Keeps-statement (declare_stmt ns t d) o =
        Keeps-dispatch D L K (exec_declare D L ns t d) (Keeps-declare D L K ns t d)
    Keeps-statement (set_stmt ns q) o =
        Keeps-dispatch D L K (exec_set D L ns q) (Keeps-set D L K ns q)
    Keeps-statement (if_stmt bs) o = Keeps-dispatch D L K (exec_if D L bs) (Keeps-branches bs o)
    Keeps-statement (while_stmt c b) o =
        Keeps-dispatch D L K
          (while_from D L L.max_loop_iters c (run_block D L loop (exec_all D L b)))
          (Keeps-while D L K L.max_loop_iters c (run_block D L loop (exec_all D L b))
            (Keeps-block D L K loop (exec_all D L b) (Keeps-all b o)))
    Keeps-statement (loop_stmt b) o =
        Keeps-dispatch D L K (loop_from D L L.max_loop_iters (run_block D L loop (exec_all D L b)))
          (Keeps-loop D L K L.max_loop_iters (run_block D L loop (exec_all D L b))
            (Keeps-block D L K loop (exec_all D L b) (Keeps-all b o)))
    Keeps-statement (for_stmt x q b) o =
        Keeps-dispatch D L K (exec_for D L x q (exec_all D L b))
          (Keeps-for D L K x q (exec_all D L b) (Keeps-all b o))
    Keeps-statement break_stmt o = Keeps-dispatch D L K (λ s. (break_signal, s)) (λ s h. h)
    Keeps-statement continue_stmt o = Keeps-dispatch D L K (λ s. (continue_signal, s)) (λ s h. h)
    Keeps-statement (return_stmt v) o =
        Keeps-dispatch D L K (exec_return D L v) (Keeps-return D L K v)
    Keeps-statement (begin_stmt b) o =
        Keeps-dispatch D L K (run_block D L block (exec_all D L b))
          (Keeps-block D L K block (exec_all D L b) (Keeps-all b o))
    Keeps-statement (begin_except_stmt b h) o =
        Keeps-dispatch D L K
          (λ s. catching D L (run_block D L block (exec_all D L b) s) (exec_all D L h))
          (λ s i.
            Keeps-catching D L K (run_block D L block (exec_all D L b) s) (exec_all D L h) o.0
              (Keeps-all h o.2) (Keeps-block D L K block (exec_all D L b) (Keeps-all b o.1) s i))
    Keeps-statement (raise_stmt m) o = Keeps-dispatch D L K (exec_raise D L m) (Keeps-raise D L K m)
    Keeps-statement (sql_stmt q) o = Keeps-dispatch D L K (exec_sql D L q) (λ s h. K.sql q s o h)

    pub Keeps-all : (ss : Stmts) → OnlyAll P H ss → Keeps D L K (exec_all D L ss)
    Keeps-all empty o s h = h
    Keeps-all (followed st ss) o s h =
        Keeps-then D L K (exec_statement D L st s) (exec_all D L ss) (Keeps-all ss o.1)
          (Keeps-statement st o.0 s h)

    pub Keeps-branches : (bs : Branches) → OnlyBranches P H bs → Keeps D L K (exec_if D L bs)
    Keeps-branches no_else o s h = h
    Keeps-branches (else_body ss) o s h =
        Keeps-block D L K block (exec_all D L ss) (Keeps-all ss o) s h
    Keeps-branches (branch c ss bs) o s h =
        let taken = run_block D L block (exec_all D L ss) s in
        let others = exec_if D L bs s in
        Keeps-value D L K (value_of D L c s) s (λ v. if is_truthy D L v then taken else others)
          (λ v.
            Keeps-if D L K (is_truthy D L v) taken others
              (Keeps-block D L K block (exec_all D L ss) (Keeps-all ss o.0) s h)
              (Keeps-branches bs o.1 s h))
          h
