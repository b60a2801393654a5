-- ===== src/Scripting/Aborted.antt =====
-- Scripts of scripting/interpreter.py that open a transaction and end in an error.
use mathlib.Core.Path.{subst}
use bqemulator.Prelude.{
  Bool, if◌then◌else◌, ◌≡◌, ◌≢◌, refl, sym, ◌∙◌, true, false, Option, none, some, List, [], ◌∷◌,
  Bool-cases, inl, inr, Text, ltb, ◌+◌,
}
use bqemulator.Dict.{Dict}
use bqemulator.RowAccess.Strings.{strip}
use bqemulator.Scripting.Syntax.{
  Stmts, finished, break_signal, continue_signal, return_signal, script_raise, domain_error,
  too_many_statements, sql_stmt, followed,
}
use bqemulator.Scripting.Frames.{all_visible}
use bqemulator.Scripting.Database.{Database, Result, fine, fails}
use bqemulator.Scripting.Transactions.{
  Script, snapshot_all, begin_op, classify_txn_statement, classify_txn_statement-empty,
  restore_txn_snapshots, snapshot_dml_targets, handle_txn_statement,
}
use bqemulator.Scripting.Interpreter.{dispatch, counted, exec_all, ended, run}
use bqemulator.Scripting.Simple.{Limits, Outcome, and_then, exec_sql, after_sql, text_is_empty}
use bqemulator.Scripting.Interpreter.Preserves.{OnlyAll, Kept}
use bqemulator.Scripting.Interpreter.Preserves.Scripts.{Keeps-all}
use bqemulator.Scripting.Rollback.{
  IsDml, Covers, InTxn, Covers-run_sql, restore_txn_snapshots-contents,
}

module _ {O R : Type 0} (D : Database O R) (L : Limits) where
  open D use {E, contents, run_sql, dml_targets}

  -- A script whose SQL is DML, without handlers.
  abbrev pub OnlyDml : Stmts → Type 0
  OnlyDml ss = OnlyAll (λ q. IsDml D (strip q)) ⊥ ss

  InTxn-after_sql :
      (start : E) (r : Result (Option (List O)) × E) (s : Script O R E) (txn : Dict Text (List R))
      → s.active_txn ≡ some txn
      → Covers D start r.1 txn
      → InTxn D start (after_sql D L r s).1
  unfolding after_sql
  InTxn-after_sql start (fine table, e) s txn o c = record { txn = txn; is_open = o; covers = c }
  InTxn-after_sql start (fails err, e) s txn o c = record { txn = txn; is_open = o; covers = c }

  InTxn-sql :
      (start : E) (q : Text) (s : Script O R E)
      → IsDml D (strip q)
      → InTxn D start s
      → InTxn D start (exec_sql D L q s).1
  unfolding exec_sql snapshot_dml_targets
  InTxn-sql start q s d h = elim (Bool-cases (text_is_empty (strip q))) [
    | inl nothing ↦ rw nothing h
    | inr some_sql ↦
        rw (some_sql, d.plain)
          (InTxn-after_sql start (run_sql (strip q) (all_visible s.frames) s.store)
            (snapshot_dml_targets D (strip q) s)
            (snapshot_all D (dml_targets (strip q)) s.store h.txn) (rw h.is_open refl)
            (Covers-run_sql D (strip q) start (all_visible s.frames) s.store h.txn d h.covers))
  ]

  InTxn-kept : (start : E) → Kept D L (λ q. IsDml D (strip q)) ⊥ (InTxn D start)
  unfolding counted
  InTxn-kept start = record {
    frames = λ fs s h. record { txn = h.txn; is_open = h.is_open; covers = h.covers };
    count = λ s h. record { txn = h.txn; is_open = h.is_open; covers = h.covers };
    sql = λ q s d h. InTxn-sql start q s d h;
    drop = λ no. absurd no;
  }

  InTxn-begin :
      (s : Script O R E) → s.active_txn ≡ none → InTxn D s.store (handle_txn_statement D begin_op s)
  unfolding handle_txn_statement
  InTxn-begin s h = record {
    txn = [];
    is_open = rw h refl;
    covers = record { entries = tt; others = λ t n. refl };
  }

  ended-aborted :
      (start : E) (r : Outcome D L) (t : Text)
      → InTxn D start r.1
      → (ended D L r).0 ≢ finished
      → contents (ended D L r).1.store t ≡ contents start t
  unfolding ended
  ended-aborted start (finished, s) t h n = absurd (n refl)
  ended-aborted start (break_signal, s) t h n = restore_txn_snapshots-contents D start s t h
  ended-aborted start (continue_signal, s) t h n = restore_txn_snapshots-contents D start s t h
  ended-aborted start (return_signal v, s) t h n = restore_txn_snapshots-contents D start s t h
  ended-aborted start (script_raise m, s) t h n = restore_txn_snapshots-contents D start s t h
  ended-aborted start (domain_error e, s) t h n = restore_txn_snapshots-contents D start s t h

  nothing_begins : (q : Text) → text_is_empty q ≡ true → classify_txn_statement q ≢ some begin_op
  nothing_begins [] e c = absurd (cc (sym classify_txn_statement-empty ∙ c))
  nothing_begins (x ∷ q) e c = absurd (cc e)

  -- The state behind the opening statement.
  abbrev begun : Script O R E → Script O R E
  begun s = record (handle_txn_statement D begin_op (counted D L s)) { final_table = none }

  InTxn-begun : (s : Script O R E) → s.active_txn ≡ none → InTxn D s.store (begun s)
  unfolding counted
  InTxn-begun s h =
      let b = InTxn-begin (counted D L s) h in
      record { txn = b.txn; is_open = b.is_open; covers = b.covers }

  exec_sql-begin :
      (q : Text) (s : Script O R E)
      → classify_txn_statement (strip q) ≡ some begin_op
      → exec_sql D L q (counted D L s) ≡ (finished, begun s)
  unfolding exec_sql
  exec_sql-begin q s c = elim (Bool-cases (text_is_empty (strip q))) [
    | inl nothing ↦ absurd (nothing_begins (strip q) nothing c)
    | inr some_sql ↦ rw (some_sql, c) refl
  ]

  aborted_by :
      (body : Stmts) (s : Script O R E) (t : Text) (over : Bool) (first : Outcome D L)
      → s.active_txn ≡ none
      → OnlyDml body
      → first ≡ (finished, begun s)
      → let r =
          and_then D L
            (if over
              then (domain_error (too_many_statements L.max_statements), counted D L s)
              else first)
            (exec_all D L body) in
        (ended D L r).0 ≢ finished → contents (ended D L r).1.store t ≡ contents s.store t
  aborted_by body s t true first a o f n = unfold ended counted restore_txn_snapshots in rw a refl
  aborted_by body s t false first a o f n =
      subst
        (λ (r : Outcome D L).
          (ended D L (and_then D L r (exec_all D L body))).0 ≢ finished
          → contents (ended D L (and_then D L r (exec_all D L body))).1.store t
            ≡ contents s.store t)
        (sym f)
        (ended-aborted s.store (exec_all D L body (begun s)) t
          (Keeps-all D L (InTxn-kept s.store) body o (begun s) (InTxn-begun s a)))
        n

  -- A script, started with no transaction open, that opens one in its first statement, and whose other
  -- statements run DML under any control flow without handlers, where DML writes only the tables that
  -- sqlglot names and makes and drops none, leaves every table as it was if it ends in any exception.
  pub run-aborted :
      (opening : Text) (body : Stmts) (s : Script O R E) (t : Text)
      → classify_txn_statement (strip opening) ≡ some begin_op
      → s.active_txn ≡ none
      → OnlyDml body
      → (run D L (followed (sql_stmt opening) body) s).0 ≢ finished
      → contents (run D L (followed (sql_stmt opening) body) s).1.store t ≡ contents s.store t
  unfolding run exec_all dispatch
  run-aborted opening body s t c a o n =
      aborted_by body s t (ltb L.max_statements (s.statements_executed + 1))
        (exec_sql D L opening (counted D L s)) a o (exec_sql-begin opening s c) n
