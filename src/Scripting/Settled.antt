-- ===== src/Scripting/Settled.antt =====
-- The end of a script in scripting/interpreter.py.
use bqemulator.Prelude.{◌≡◌, refl, false, none}
use bqemulator.Scripting.Syntax.{
  Stmts, finished, break_signal, continue_signal, return_signal, script_raise, domain_error,
}
use bqemulator.Scripting.Database.{Database}
use bqemulator.Scripting.Transactions.{Script, drop_txn_snapshots, restore_txn_snapshots, restored}
use bqemulator.Scripting.Interpreter.{exec_all, ended, run}
use bqemulator.Scripting.Simple.{Limits, Outcome}
use bqemulator.Scripting.Interpreter.Control.{is_loop_signal, InLoopsAll}
use bqemulator.Scripting.Interpreter.Control.Scripts.{exec_all-Stays}
use bqemulator.Prelude.{Option, some, Text, List}
use bqemulator.Dict.{Dict}

module _ {O R : Type 0} (D : Database O R) (L : Limits) where
  open D use {E}

  restored-none :
      (o : Option (Dict Text (List R))) (s : Script O R E)
      → s.active_txn ≡ o
      → (restored D o s).active_txn ≡ none
  unfolding restored
  restored-none none s h = h
  restored-none (some txn) s h = refl

  restore_txn_snapshots-none : (s : Script O R E) → (restore_txn_snapshots D s).active_txn ≡ none
  unfolding restore_txn_snapshots
  restore_txn_snapshots-none s = restored-none s.active_txn s refl

  ended-settled :
      (r : Outcome D L)
      → is_loop_signal r.0 ≡ false
      → (is_loop_signal (ended D L r).0 ≡ false) × ((ended D L r).1.active_txn ≡ none)
  unfolding ended drop_txn_snapshots
  ended-settled (finished, s) h = (refl, refl)
  ended-settled (break_signal, s) h = (h, restore_txn_snapshots-none s)
  ended-settled (continue_signal, s) h = (h, restore_txn_snapshots-none s)
  ended-settled (return_signal v, s) h = (refl, restore_txn_snapshots-none s)
  ended-settled (script_raise m, s) h = (refl, restore_txn_snapshots-none s)
  ended-settled (domain_error e, s) h = (refl, restore_txn_snapshots-none s)

  -- A script whose BREAKs and CONTINUEs all stand in loops ends in neither of their signals, and leaves
  -- no transaction open.
  pub run-settled :
      (script : Stmts) (s : Script O R E)
      → InLoopsAll script
      → (is_loop_signal (run D L script s).0 ≡ false) × ((run D L script s).1.active_txn ≡ none)
  unfolding run
  run-settled script s h = ended-settled (exec_all D L script s) (exec_all-Stays D L script s h)
