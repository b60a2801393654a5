-- ===== src/Examples/Scripts.antt =====
-- Scripts over a small database.
use bqemulator.Prelude.{
  length, ℕ, ◌≡◌, ◌⊎◌, inl, refl, sym, ◌∙◌, false, Option, none, some, List, [], ◌∷◌, arith, Text,
  text, text_eq, list_beq, ==_iff, Member, is_some,
}
use bqemulator.Dict.{Dict, get, put, get-put}
use bqemulator.RowAccess.Strings.{strip, rstrip, lstrip, is_space}
use bqemulator.Scripting.Syntax.{
  finished, Stmts, null, sql_stmt, raise_stmt, begin_except_stmt, for_stmt, followed, empty,
  script_raise,
}
use bqemulator.Scripting.Database.{Database, fine}
use bqemulator.Scripting.Transactions.{
  Script, handle_txn_statement, snapshot_dml_targets, classify_txn_statement, begin_op, words,
}
use bqemulator.Scripting.Interpreter.{run, exec_statement, dispatch, exec_all}
use bqemulator.Scripting.Simple.{Limits, exec_sql, exec_raise}
use bqemulator.Scripting.Interpreter.Preserves.{OnlyAll}
use bqemulator.Scripting.Interpreter.Control.{is_loop_signal, InLoops}
use bqemulator.Scripting.Interpreter.Leak.{begin_for_leak}
use bqemulator.Scripting.Settled.{run-settled}
use bqemulator.Scripting.Rollback.{IsDml}
use bqemulator.Scripting.Aborted.{OnlyDml, run-aborted}

abbrev target : Text
target = text "t"

-- Any statement puts a 7 in front of the rows of the one target.
abbrev insert_into : Option (List ℕ) → Dict Text (List ℕ) → Dict Text (List ℕ)
insert_into none e = e
insert_into (some rows) e = put e target (7 ∷ rows)

abbrev small : Database Unit ℕ
small = record {
  E = Dict Text (List ℕ);
  scalar = λ q vars e. fine null;
  row = λ q vars e. fine [];
  query = λ q vars e. fine [];
  run_sql = λ q vars e. (fine none, insert_into (get e target) e);
  dml_targets = λ q. target ∷ [];
  contents = λ e t. get e t;
  write_back = λ t rs e. put e t rs;
  float_is_zero = λ x. false;
  to_text = λ v. [];
  contents-write_back = λ t j old rs e h. get-put e t j rs;
}

abbrev limits : Limits
limits = record { max_statements = 100; max_loop_iters = 10 }

small-untouched :
    (o : Option (List ℕ)) (e : Dict Text (List ℕ)) (t : Text)
    → (get (insert_into o e) t ≡ get e t) ⊎ Member t (target ∷ [])
small-untouched none e t = inl refl
small-untouched (some rows) e t = ground (arith, get-put e target t (7 ∷ rows), ==_iff target t)

small-kept :
    (o : Option (List ℕ)) (e : Dict Text (List ℕ)) (t : Text)
    → get e target ≡ o
    → is_some (get (insert_into o e) t) ≡ is_some (get e t)
small-kept none e t h = refl
small-kept (some rows) e t h = ground (arith, get-put e target t (7 ∷ rows), ==_iff target t)

abbrev insert : Text
insert = text "INSERT INTO t VALUES (7)"

insert-IsDml : IsDml small (strip insert)
unfolding classify_txn_statement words strip rstrip lstrip is_space list_beq
insert-IsDml = record {
  plain = refl;
  untouched = λ vars e t. small-untouched (get e target) e t;
  kept = λ vars e t. small-kept (get e target) e t refl;
}

abbrev body : Stmts
body = followed (sql_stmt insert) (followed (raise_stmt none) empty)

abbrev tables : Dict Text (List ℕ)
tables = (target, 1 ∷ []) ∷ []

abbrev start : Script Unit ℕ (Dict Text (List ℕ))
start = record {
  frames = [];
  final_table = none;
  statements_executed = 0;
  active_txn = none;
  store = tables;
}

begins : classify_txn_statement (strip (text "BEGIN TRANSACTION;")) ≡ some begin_op
unfolding classify_txn_statement words strip rstrip lstrip is_space list_beq
begins = refl

body-OnlyDml : OnlyDml small limits body
unfolding OnlyAll
body-OnlyDml = (insert-IsDml, (tt, tt))

raises :
    (run small limits (followed (sql_stmt (text "BEGIN TRANSACTION;")) body) start).0
    ≡ script_raise none
unfolding run exec_statement exec_all exec_sql exec_raise dispatch classify_txn_statement
    handle_txn_statement snapshot_dml_targets words strip rstrip lstrip is_space list_beq
raises = refl

run-aborted_example :
    get
      (run small limits (followed (sql_stmt (text "BEGIN TRANSACTION;")) body) start).1.store
      target
    ≡ get tables target
run-aborted_example =
    run-aborted small limits (text "BEGIN TRANSACTION;") body start target begins refl body-OnlyDml
      (λ e. cc (sym raises ∙ e))

-- The same database, whose queries have one row.
abbrev one_row : Database Unit ℕ
one_row = record small { query = λ q vars e. fine (tt ∷ []) }

run-settled_example :
    (is_loop_signal (run small limits body start).0 ≡ false)
    × ((run small limits body start).1.active_txn ≡ none)
run-settled_example = run-settled small limits body start (unfold InLoops in (tt, (tt, tt)))

begin_for_leak_example :
    let out =
      exec_statement one_row limits
        (begin_except_stmt
          (followed
            (for_stmt (text "x") (text "SELECT 1") (followed (raise_stmt none) empty))
            empty)
          empty)
        start in
    (out.0 ≡ finished) × (length out.1.frames ≡ 1)
begin_for_leak_example =
    begin_for_leak one_row limits (text "x") (text "SELECT 1") start tt [] refl (omega arith)
      (omega arith)
