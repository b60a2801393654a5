-- ===== src/Scripting/Transactions.antt =====
-- scripting/interpreter.py: transactions, which are copies of the tables that DML is about to write.
use bqemulator.Prelude.{
  ◌≡◌, refl, ℕ, ◌-◌, Bool, false, ◌||◌, Option, none, some, List, [], ◌∷◌, nat_eq, if◌then◌else◌,
  Text, text, text_eq, list_beq,
}
use bqemulator.Identifiers.{is_lower}
use bqemulator.Dict.{Dict, has, put}
use bqemulator.RowAccess.Strings.{is_space, rstrip}
use bqemulator.Scripting.Frames.{Frame}
use bqemulator.Scripting.Database.{Database}

-- The attributes of ScriptInterpreter that change. The copies of a transaction are kept by value:
-- their tables have random names that no statement reads.
pub record Script (O R E : Type 0) : Type 0 where
  pub frames : List (Frame O)
  pub final_table : Option (List O)
  pub statements_executed : ℕ
  pub active_txn : Option (Dict Text (List R))
  pub store : E

pub data TxnOp : Type 0 where
  begin_op commit_op rollback_op : TxnOp

-- re.IGNORECASE of an ASCII letter, with the four other characters that fold to one.
abbrev fold_case : ℕ → ℕ
fold_case c =
    if is_lower c
    then c - 32
    else if nat_eq c 304 || nat_eq c 305
    then b'I'
    else if nat_eq c 383
    then b'S'
    else if nat_eq c 8490
    then b'K'
    else c

-- The words between white space.
abbrev add_char : ℕ → List Text → List Text
add_char c [] = (fold_case c ∷ []) ∷ []
add_char c (w ∷ ws) = (fold_case c ∷ w) ∷ ws

abbrev end_word : List Text → List Text
end_word [] = []
end_word ([] ∷ ws) = [] ∷ ws
end_word ((c ∷ w) ∷ ws) = [] ∷ (c ∷ w) ∷ ws

unfoldable words_from : Text → List Text
words_from [] = [] ∷ []
words_from (c ∷ s) =
    let rest = words_from s in if is_space c then end_word rest else add_char c rest

abbrev drop_empty : List Text → List Text
drop_empty [] = []
drop_empty ([] ∷ ws) = drop_empty ws
drop_empty ((c ∷ w) ∷ ws) = (c ∷ w) ∷ drop_empty ws

abbrev drop_last_semicolon : Text → Text
drop_last_semicolon [] = []
drop_last_semicolon (c ∷ []) = if nat_eq c b';' then [] else c ∷ []
drop_last_semicolon (c ∷ d ∷ s) = c ∷ drop_last_semicolon (d ∷ s)

unfoldable pub words : Text → List Text
unfolding words_from
words s = drop_empty (words_from (drop_last_semicolon (rstrip s)))

abbrev is_one_of : List Text → List (List Text) → Bool
is_one_of ws [] = false
is_one_of ws (p ∷ ps) = list_beq ws p || is_one_of ws ps

abbrev begin_words : List (List Text)
begin_words =
    (text "BEGIN" ∷ [])
    ∷ (text "BEGIN" ∷ text "TRANSACTION" ∷ [])
    ∷ (text "START" ∷ text "TRANSACTION" ∷ [])
    ∷ []

abbrev commit_words : List (List Text)
commit_words =
    (text "COMMIT" ∷ [])
    ∷ (text "COMMIT" ∷ text "TRANSACTION" ∷ [])
    ∷ (text "COMMIT" ∷ text "WORK" ∷ [])
    ∷ (text "END" ∷ text "TRANSACTION" ∷ [])
    ∷ []

abbrev rollback_words : List (List Text)
rollback_words =
    (text "ROLLBACK" ∷ [])
    ∷ (text "ROLLBACK" ∷ text "TRANSACTION" ∷ [])
    ∷ (text "ROLLBACK" ∷ text "WORK" ∷ [])
    ∷ []

-- _classify_txn_statement
unfoldable pub classify_txn_statement : Text → Option TxnOp
unfolding words
classify_txn_statement sql =
    if is_one_of (words sql) begin_words
    then some begin_op
    else if is_one_of (words sql) commit_words
    then some commit_op
    else if is_one_of (words sql) rollback_words
    then some rollback_op
    else none

pub classify_txn_statement-empty : classify_txn_statement [] ≡ none
unfolding classify_txn_statement rstrip words_from list_beq
classify_txn_statement-empty = refl

module _ {O R : Type 0} (D : Database O R) where
  open D use {E, contents, write_back, dml_targets}

  -- _drop_txn_snapshots
  unfoldable pub drop_txn_snapshots : Script O R E → Script O R E
  drop_txn_snapshots s = record s { active_txn = none }

  unfoldable pub write_all_back : Dict Text (List R) → E → E
  write_all_back [] e = e
  write_all_back ((target, backup) ∷ txn) e = write_all_back txn (write_back target backup e)

  unfoldable pub restored : Option (Dict Text (List R)) → Script O R E → Script O R E
  unfolding write_all_back
  restored none s = s
  restored (some txn) s = record s { active_txn = none; store = write_all_back txn s.store }

  -- _restore_txn_snapshots
  unfoldable pub restore_txn_snapshots : Script O R E → Script O R E
  unfolding restored
  restore_txn_snapshots s = restored s.active_txn s

  unfoldable pub copy : Text → Option (List R) → Dict Text (List R) → Dict Text (List R)
  copy target none txn = txn
  copy target (some rows) txn = put txn target rows

  unfoldable pub snapshot_all : List Text → E → Dict Text (List R) → Dict Text (List R)
  unfolding copy
  snapshot_all [] e txn = txn
  snapshot_all (target ∷ targets) e txn =
      snapshot_all targets e (if has txn target then txn else copy target (contents e target) txn)

  snapshots : Option (Dict Text (List R)) → Text → E → Option (Dict Text (List R))
  unfolding snapshot_all
  snapshots none sql e = none
  snapshots (some txn) sql e = some (snapshot_all (dml_targets sql) e txn)

  -- _snapshot_dml_targets
  unfoldable pub snapshot_dml_targets : Text → Script O R E → Script O R E
  unfolding snapshots
  snapshot_dml_targets sql s = record s { active_txn = snapshots s.active_txn sql s.store }

  opened_txn : Option (Dict Text (List R)) → Option (Dict Text (List R))
  opened_txn none = some []
  opened_txn (some txn) = some txn

  -- _handle_txn_statement
  unfoldable pub handle_txn_statement : TxnOp → Script O R E → Script O R E
  unfolding opened_txn drop_txn_snapshots restore_txn_snapshots
  handle_txn_statement begin_op s = record s { active_txn = opened_txn s.active_txn }
  handle_txn_statement commit_op s = drop_txn_snapshots s
  handle_txn_statement rollback_op s = restore_txn_snapshots s
