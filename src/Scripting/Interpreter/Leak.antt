-- ===== src/Scripting/Interpreter/Leak.antt =====
-- A frame that FOR of scripting/interpreter.py leaves behind when an exception passes.
use bqemulator.Prelude.{
  ℕ, suc, ◌+◌, ◌≤◌, ◌≡◌, ◌∙◌, refl, none, List, [], ◌∷◌, arith, length, Text, text, text_eq,
}
use bqemulator.Dict.{get, put}
use bqemulator.RowAccess.Strings.{strip}
use bqemulator.Scripting.Syntax.{
  finished, script_raise, other, begin_except_stmt, for_stmt, raise_stmt, followed, empty,
}
use bqemulator.Scripting.Frames.{push, block, loop, declare, all_visible}
use bqemulator.Scripting.Database.{Database, fine}
use bqemulator.Scripting.Transactions.{Script, drop_txn_snapshots}
use bqemulator.Scripting.Interpreter.{
  exec_all, exec_statement, unparenthesised, exec_for, for_rows, dispatch, counted, catching,
  handle_error, pushed, popped, run_block,
}
use bqemulator.Scripting.Simple.{Limits, Outcome, exec_raise}

module _ {O R : Type 0} (D : Database O R) (L : Limits) where
  open D use {E, query}

  dispatch-within :
      (s : Script O R E) (f : Script O R E → Outcome D L)
      → s.statements_executed + 1 ≤ L.max_statements
      → dispatch D L s f ≡ f (counted D L s)
  unfolding dispatch
  dispatch-within s f h = ground arith

  -- The state in which the body of a FOR begins a round.
  abbrev in_round : Text → O → Script O R E → Script O R E
  in_round x r s = record s {
    frames =
        record {
          kind = loop;
          variables = (x, record { type_name = text "STRUCT"; value = other r }) ∷ [];
        }
        ∷ s.frames;
  }

  for_rows_raise :
      (n : ℕ) (r : O) (rs : List O) (x : Text) (f : Script O R E → Outcome D L)
      (s s' : Script O R E)
      → 1 ≤ n
      → f (in_round x r s) ≡ (script_raise none, s')
      → for_rows D L n (r ∷ rs) x f s ≡ (script_raise none, s')
  unfolding for_rows push declare
  for_rows_raise ℕ.zero r rs x f s s' h e = ground arith
  for_rows_raise (ℕ.suc n) r rs x f s s' h e = unfold get put in rw e refl

  raise_all :
      (s : Script O R E)
      → s.statements_executed + 1 ≤ L.max_statements
      → exec_all D L (followed (raise_stmt none) empty) s ≡ (script_raise none, counted D L s)
  unfolding exec_all exec_raise
  raise_all s h = rw (dispatch-within s (exec_raise D L none) h) refl

  for_raise :
      (x q : Text) (s : Script O R E) (r : O) (rs : List O)
      → query (unparenthesised (strip q)) (all_visible s.frames) s.store ≡ fine (r ∷ rs)
      → 1 ≤ L.max_loop_iters
      → s.statements_executed + 2 ≤ L.max_statements
      → exec_statement D L (for_stmt x q (followed (raise_stmt none) empty)) s
        ≡ (script_raise none, counted D L (in_round x r (counted D L s)))
  unfolding exec_statement exec_for counted
  for_raise x q s r rs h few more =
      dispatch-within s (exec_for D L x q (exec_all D L (followed (raise_stmt none) empty)))
        (omega arith)
      ∙ rw h (
          for_rows_raise L.max_loop_iters r rs x (exec_all D L (followed (raise_stmt none) empty))
            (counted D L s) (counted D L (in_round x r (counted D L s))) few
            (raise_all (in_round x r (counted D L s)) (omega arith)))

  caught :
      (x : Text) (r : O) (s : Script O R E)
      → let s' = counted D L (in_round x r (counted D L (pushed D L block (counted D L s)))) in
        let out = catching D L (popped D L (script_raise none, s')) (exec_all D L empty) in
        (out.0 ≡ finished) × (length out.1.frames ≡ suc (length s.frames))
  unfolding catching handle_error counted push declare exec_all drop_txn_snapshots get put
  caught x r s = (refl, refl)

  -- BEGIN FOR x IN (q) DO RAISE; END FOR; EXCEPTION WHEN ERROR THEN END, where the query has a row and the
  -- limits are not met, finishes with one frame more on the stack than before.
  pub begin_for_leak :
      (x q : Text) (s : Script O R E) (r : O) (rs : List O)
      → query (unparenthesised (strip q)) (all_visible (push block s.frames)) s.store
        ≡ fine (r ∷ rs)
      → 1 ≤ L.max_loop_iters
      → s.statements_executed + 3 ≤ L.max_statements
      → let out =
          exec_statement D L
            (begin_except_stmt
              (followed (for_stmt x q (followed (raise_stmt none) empty)) empty)
              empty)
            s in
        (out.0 ≡ finished) × (length out.1.frames ≡ suc (length s.frames))
  unfolding exec_statement counted
  begin_for_leak x q s r rs h few more =
      let loops = followed (for_stmt x q (followed (raise_stmt none) empty)) empty in
      let sb = pushed D L block (counted D L s) in
      rw
        (
          dispatch-within s
              (λ s'.
                catching D L (run_block D L block (exec_all D L loops) s') (exec_all D L empty))
              (omega arith),
          for_raise x q sb r rs h few (omega arith),
        )
        (caught x r s)
