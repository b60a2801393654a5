-- ===== src/WriteApi/Target.antt =====
-- grpc_api/write_servicer.py: `_flush_to_target`, FlushRows and BatchCommitWriteStreams.
pub mod Invariant
pub mod Atomic
pub mod Rows
use bqemulator.Prelude.{
  ℕ, ◌+◌, Bool, true, false, ◌&&◌, Option, none, some, List, [], ◌∷◌, ◌++◌, length, ltb,
  if◌then◌else◌, Text, text_eq, triple_eq, ℤ,
}
use bqemulator.Dict.{Dict, get, has, put}
use bqemulator.Identifiers.{quoted_table_ref}
use bqemulator.Streaming.Stream.{
  StreamType, StreamState, WriteStream, Table, opened, finalized, batch_committed, same_type,
}
use bqemulator.Streaming.Strategies.{FlushOutcome, CommitOutcome, flush, commit, is_finalized}
use bqemulator.Streaming.Strategies.Delivery.{rows_of}
use bqemulator.WriteApi.{
  TableKey, TableMeta, TargetStore, Server, Status, Message, Reply, reply, failed, raised,
}
use bqemulator.WriteApi.Handlers.{key_of, set_stream}

-- rows is not None and rows.num_rows > 0
abbrev pub has_rows : {R : Type 0} → Option (Table R) → Bool
has_rows none = false
has_rows (some t) = ltb 0 (length t)

module _ {R : Type 0} (T : TargetStore R) where
  open T use {E, insert, record_change}

  -- catalog.update_table with the new row count, if the table is in the catalog
  count_rows : Option TableMeta → TableKey → ℕ → Server R E → Server R E
  count_rows none k n sv = sv
  count_rows (some m) k n sv = record sv {
    tables = put sv.tables k (record m { num_rows = m.num_rows + n });
  }

  record_changed : Option E → Server R E → Bool × Server R E
  record_changed none sv = (false, sv)
  record_changed (some e) sv = (true, record sv { store = e })

  inserted : Option E → TableKey → ℕ → Server R E → Bool × Server R E
  unfolding count_rows record_changed
  inserted none k n sv = (false, sv)
  inserted (some e) k n sv =
      record_changed (record_change k e)
        (count_rows (get sv.tables k) k n (record sv { store = e }))

  insert_into : Option Text → TableKey → Table R → Server R E → Bool × Server R E
  unfolding inserted
  insert_into none k rows sv = (false, sv)
  insert_into (some ref) k rows sv = inserted (insert ref rows sv.store) k (length rows) sv

  -- _flush_to_target: `false` is an exception, and the state is what was done before it.
  unfoldable pub flush_to_target : WriteStream R → Table R → Server R E → Bool × Server R E
  unfolding insert_into
  flush_to_target s rows sv =
      insert_into (quoted_table_ref s.project_id s.dataset_id s.table_id) (key_of s) rows sv

  -- if rows is not None and rows.num_rows > 0: self._flush_to_target(stream, rows)
  unfoldable pub flush_if_rows : WriteStream R → Option (Table R) → Server R E → Bool × Server R E
  unfolding flush_to_target
  flush_if_rows s rows sv =
      if has_rows rows then flush_to_target s (rows_of rows) sv else (true, sv)

  -- A handler's reply behind a step that may have raised.
  abbrev pub or_raised : {A : Type 0} → A → Bool × Server R E → Reply A × Server R E
  or_raised a (true, sv) = (reply a, sv)
  or_raised a (false, sv) = (raised, sv)

  flush_stream : WriteStream R → Text → ℤ → Server R E → Reply ℤ × Server R E
  unfolding flush_if_rows
  flush_stream s name o sv =
      let (s', outcome) = flush s o in
      if outcome.is_ok
      then or_raised outcome.offset
          (flush_if_rows s' outcome.committed_rows (set_stream sv name s'))
      else (
        failed Status.out_of_range (Message.outcome_detail outcome.detail),
        set_stream sv name s',
      )

  flush_found : Option (WriteStream R) → Text → ℤ → Server R E → Reply ℤ × Server R E
  unfolding flush_stream
  flush_found none name o sv = (failed Status.not_found (Message.stream_not_found name), sv)
  flush_found (some s) name o sv =
      if same_type s.stream_type StreamType.buffered
      then flush_stream s name o sv
      else (failed Status.invalid_argument (Message.flush_only_buffered s.stream_type), sv)

  -- _handle_flush_rows
  unfoldable pub handle_flush_rows : Text → ℤ → Server R E → Reply ℤ × Server R E
  unfolding flush_found
  handle_flush_rows name o sv = flush_found (get sv.streams name) name o sv

-- types.StorageError, by its code
pub data StorageError : Type 0 where
  stream_not_found : Text → StorageError
  invalid_stream_type : Text → StreamType → StorageError
  invalid_stream_state : Text → StreamState → StorageError

abbrev add_error : Option StorageError → List StorageError → List StorageError
add_error none es = es
add_error (some e) es = e ∷ es

module _ {R : Type 0} where
  -- What pass 1 finds of one name: `none` is a valid stream.
  unfoldable pub commit_error_of : Text → Option (WriteStream R) → Option StorageError
  commit_error_of name none = some (stream_not_found name)
  commit_error_of name (some s) =
      if same_type s.stream_type StreamType.pending
      then if is_finalized s.state then none else some (invalid_stream_state name s.state)
      else some (invalid_stream_type name s.stream_type)

  -- Pass 1 of _handle_batch_commit_write_streams
  unfoldable pub commit_errors : Dict Text (WriteStream R) → List Text → List StorageError
  unfolding commit_error_of
  commit_errors streams [] = []
  commit_errors streams (name ∷ names) =
      add_error (commit_error_of name (get streams name)) (commit_errors streams names)

module _ {R : Type 0} (T : TargetStore R) where
  open T use {E}

  commit_found : Option (WriteStream R) → Text → Server R E → Bool × Server R E
  unfolding flush_if_rows
  commit_found none name sv = (true, sv)
  commit_found (some s) name sv =
      let (s', outcome) = commit s in
      flush_if_rows T s' outcome.committed_rows (set_stream sv name s')

  -- One round of pass 2. The list of streams holds objects, which are those of the dictionary.
  unfoldable pub commit_one : Text → Server R E → Bool × Server R E
  unfolding commit_found
  commit_one name sv = commit_found (get sv.streams name) name sv

  abbrev commit_next : Bool × Server R E → (Server R E → Bool × Server R E) → Bool × Server R E
  commit_next (true, sv) rest = rest sv
  commit_next (false, sv) rest = (false, sv)

  -- Pass 2: an exception ends the loop.
  unfoldable pub commit_all : List Text → Server R E → Bool × Server R E
  commit_all [] sv = (true, sv)
  commit_all (name ∷ names) sv = commit_next (commit_one name sv) (commit_all names)

  answer : List StorageError → List Text → Server R E → Reply (List StorageError) × Server R E
  answer (e ∷ es) names sv = (reply (e ∷ es), sv)
  answer [] names sv = or_raised T [] (commit_all names sv)

  -- _handle_batch_commit_write_streams. The reply: the errors (then there is no commit time), or none of them.
  unfoldable pub handle_batch_commit_write_streams :
      List Text → Server R E → Reply (List StorageError) × Server R E
  unfolding answer
  handle_batch_commit_write_streams names sv = answer (commit_errors sv.streams names) names sv
