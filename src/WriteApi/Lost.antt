-- ===== src/WriteApi/Lost.antt =====
-- What an insertion that raises does to rows that the stream has already counted.
use bqemulator.Prelude.{
  ℕ, ◌+◌, ◌<◌, ◌≡◌, refl, ap, ◌∙◌, false, Option, none, some, List, [], ◌∷◌, arith, length, lt→ltb,
  concat, Text, text_eq, triple_eq, pos,
}
use bqemulator.Dict.{get, get-put_self}
use bqemulator.Identifiers.{quoted_table_ref}
use bqemulator.Streaming.Stream.{StreamType, WriteStream, Table, opened, batch_committed}
use bqemulator.Streaming.Strategies.{append, commit, already_exists, offset_taken, accept, reject}
use bqemulator.Streaming.Strategies.Delivery.{rows_of}
use bqemulator.WriteApi.{Server, TargetStore, Reply, reply, raised, Status, Message}
use bqemulator.WriteApi.Handlers.{set_stream}
use bqemulator.WriteApi.Target.{
  flush_if_rows, commit_one, commit_all, commit_errors, commit_error_of, StorageError,
  invalid_stream_state, handle_batch_commit_write_streams, or_raised,
}
use bqemulator.WriteApi.Target.Rows.{IsReady, commit_ready}
use bqemulator.WriteApi.Target.Atomic.{committed_stream, commit_one-eq, handle_ready}
use bqemulator.WriteApi.Append.{Response, error_response, perform_append, proto_to_grpc_status}

module _ {R : Type 0} (s : WriteStream R) (t : Table R) (most : Option ℕ)
    (k : s.stream_type ≡ StreamType.committed) (o : s.state ≡ opened) where
  abbrev moved : WriteStream R
  moved = record s { next_offset = s.next_offset + length t; row_count = s.row_count + length t }

  append_at_end :
      append s t (some (pos s.next_offset)) most ≡ (moved, accept (some t) s.next_offset)
  unfolding append
  append_at_end = ground arith

  append_behind :
      0 < length t
      → append moved t (some (pos s.next_offset)) most ≡ (
        moved,
        reject already_exists
            (pos s.next_offset)
            (offset_taken (pos s.next_offset) (s.next_offset + length t)),
      )
  unfolding append
  append_behind few = ground arith

module _ {R : Type 0} (T : TargetStore R) where
  open T use {E, rows, insert}

  -- The insertion raises: nothing changes, and the caller's state stays as it is.
  flush_raises :
      (s : WriteStream R) (t : Option (Table R)) (sv : Server R E) (ref : Text)
      → quoted_table_ref s.project_id s.dataset_id s.table_id ≡ some ref
      → 0 < length (rows_of t)
      → insert ref (rows_of t) sv.store ≡ none
      → flush_if_rows T s t sv ≡ (false, sv)
  flush_raises s none sv ref q few h = absurd (omega arith)
  flush_raises s (some t) sv ref q few h =
      unfold flush_if_rows in rw (lt→ltb 0 (length t) few, q, h)

  raised_by :
      (n : Text) (sv sv' : Server R E)
      → commit_one T n sv ≡ (false, sv')
      → or_raised T {A = List StorageError} [] (commit_all T (n ∷ []) sv) ≡ (raised, sv')
  unfolding commit_all
  raised_by n sv sv' h = rw h

  refused_after :
      (n : Text) (s : WriteStream R) (sv : Server R E)
      → get sv.streams n ≡ some s
      → s.stream_type ≡ StreamType.pending
      → s.state ≡ batch_committed
      → handle_batch_commit_write_streams T (n ∷ []) sv
        ≡ (reply (invalid_stream_state n batch_committed ∷ []), sv)
  unfolding handle_batch_commit_write_streams commit_errors commit_error_of
  refused_after n s sv f k st = rw f (ground arith)

  -- A batch commit of one ready stream with rows whose insertion raises leaves the stream COMMITTED with
  -- an empty buffer and all else unchanged, and the same request is refused from then on.
  pub batch_commit_lost :
      (n : Text) (s : WriteStream R) (sv : Server R E) (ref : Text)
      → get sv.streams n ≡ some s
      → IsReady (some s)
      → quoted_table_ref s.project_id s.dataset_id s.table_id ≡ some ref
      → 0 < length (concat s.buffer)
      → insert ref (concat s.buffer) sv.store ≡ none
      → let sv' = set_stream sv n (committed_stream s) in
        (handle_batch_commit_write_streams T (n ∷ []) sv ≡ (raised, sv'))
        × (handle_batch_commit_write_streams T (n ∷ []) sv'
            ≡ (reply (invalid_stream_state n batch_committed ∷ []), sv'))
  batch_commit_lost n s sv ref f h q few e =
      let sv' = set_stream sv n (committed_stream s) in
      let c = (commit_ready s h).1 in
      let one : commit_one T n sv ≡ (false, sv') =
        commit_one-eq T n s sv f h
        ∙ flush_raises (committed_stream s) (commit s).1.committed_rows sv' ref q (rw c few)
            (rw c e) in
      (
        handle_ready T (n ∷ []) sv (rw f h, tt) ∙ raised_by n sv sv' one,
        refused_after n (committed_stream s) sv' (get-put_self sv.streams n (committed_stream s))
            h.0 refl,
      )

  retry_refused :
      (s : WriteStream R) (t : Table R) (most : ℕ) (sv : Server R E)
      → (k : s.stream_type ≡ StreamType.committed) → (o : s.state ≡ opened) → 0 < length t
      → let at = pos s.next_offset in
        perform_append T (moved s t (some most) k o) t (some at) most sv ≡ (
          reply (
              error_response s.name
                (Message.outcome_detail (offset_taken at (s.next_offset + length t)))
                Status.already_exists),
          set_stream sv s.name (moved s t (some most) k o),
        )
  retry_refused s t most sv k o few =
      unfold perform_append in
      rw (append_behind s t (some most) k o few) (unfold proto_to_grpc_status in refl)

  -- An append of some rows at the end of an open COMMITTED stream whose insertion raises has moved the
  -- offset on, and the retry at the same offset is answered ALREADY_EXISTS with the store unchanged.
  pub append_lost :
      (s : WriteStream R) (t : Table R) (most : ℕ) (sv : Server R E) (ref : Text)
      → s.stream_type ≡ StreamType.committed
      → s.state ≡ opened
      → quoted_table_ref s.project_id s.dataset_id s.table_id ≡ some ref
      → 0 < length t
      → insert ref t sv.store ≡ none
      → let o = pos s.next_offset in
        let s' = record s {
          next_offset = s.next_offset + length t;
          row_count = s.row_count + length t;
        } in
        let sv' = set_stream sv s.name s' in
        (perform_append T s t (some o) most sv ≡ (raised, sv'))
        × ((perform_append T s' t (some o) most sv').0
            ≡ reply (
                error_response s.name
                  (Message.outcome_detail (offset_taken o s'.next_offset))
                  Status.already_exists))
        × ((perform_append T s' t (some o) most sv').1.store ≡ sv.store)
  append_lost s t most sv ref k o q few e =
      let s' = record s {
        next_offset = s.next_offset + length t;
        row_count = s.row_count + length t;
      } in
      let sv' = set_stream sv s.name s' in
      (
        unfold perform_append in
            rw (append_at_end s t (some most) k o) (rw (flush_raises s' (some t) sv' ref q few e)),
        ap (λ (r : Reply Response × Server R E). r.0) (retry_refused s t most sv' k o few),
        ap (λ (r : Reply Response × Server R E). r.1.store) (retry_refused s t most sv' k o few),
      )
