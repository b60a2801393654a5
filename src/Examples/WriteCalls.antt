-- ===== src/Examples/WriteCalls.antt =====
-- Calls of the Storage Write API on a small server.
use bqemulator.Prelude.{
  ℕ, ◌≡◌, ◌≢◌, ◌+◌, ◌++◌, refl, Bool, true, false, none, some, List, [], ◌∷◌, arith, Text, text,
  text_eq, triple_eq, list_beq, pos,
}
use bqemulator.Dict.{Dict, get, put}
use bqemulator.Identifiers.{quoted_table_ref}
use bqemulator.Streaming.Stream.{
  StreamType, WriteStream, new_stream, opened, finalized, batch_committed,
}
use bqemulator.Streaming.Names.{build_stream_name}
use bqemulator.Streaming.Strategies.{commit, offset_taken}
use bqemulator.Streaming.Strategies.Sound.{IsSound}
use bqemulator.WriteApi.{Server, TableMeta, TableKey, reply, raised, Status, Message}
use bqemulator.WriteApi.Handlers.{
  ProtoType, handle_create_write_stream, handle_finalize_write_stream, set_stream,
}
use bqemulator.WriteApi.Target.{
  handle_batch_commit_write_streams, commit_errors, commit_all, commit_one, invalid_stream_state,
}
use bqemulator.WriteApi.Target.Atomic.{
  AllReady, committed_stream, batch_commit_refused, batch_commit_rows,
}
use bqemulator.WriteApi.Target.Rows.{batch_rows}
use bqemulator.WriteApi.Append.{
  Codec, Connection, Request, append_request, perform_append, error_response, proto_rows,
}
use bqemulator.WriteApi.Consistent.{registered}
use bqemulator.WriteApi.Lost.{batch_commit_lost, append_lost}
use bqemulator.WriteApi.Runs.{
  Run, here, next, fresh, create_stream, finalize_stream, append_rows, gauge-eq-registered,
}
use bqemulator.Examples.Store.{Db, memory}

abbrev codec : Codec ℕ ℕ (List ℕ)
codec = record {
  max_request_bytes = 1000;
  max_stream_rows = 100;
  decode_proto = λ s p fields. some p;
  decode_arrow = λ s p fields. none;
}

abbrev tables : Dict TableKey TableMeta
tables = ((text "p", text "d", text "t"), record { fields = []; num_rows = 0 }) ∷ []

abbrev parent : Text
parent = text "projects/p/datasets/d/tables/t"

abbrev id : Text
id = text "0123456789abcdef"

abbrev start : Bool → Server ℕ Db
start failing = fresh memory codec tables (failing, [])

abbrev stream_name : Text
stream_name = build_stream_name (text "p") (text "d") (text "t") id

-- Create a PENDING stream, append two rows and finalize it.
abbrev request : Request ℕ (List ℕ)
request = record {
  size = 10;
  write_stream = stream_name;
  payload = proto_rows (some 1) (5 ∷ 6 ∷ []);
  offset = some (pos 0);
}

abbrev connection : Connection ℕ
connection = record { bound = none; proto_decoder = none; arrow_schema = none }

abbrev created : Server ℕ Db
created = (handle_create_write_stream parent ProtoType.pending id (start false)).1

abbrev filled : Server ℕ Db
filled = (append_request memory codec request connection created).2

abbrev sealed : Server ℕ Db
sealed = (handle_finalize_write_stream stream_name filled).1

Run-to_sealed : Run memory codec (start false) sealed
Run-to_sealed =
    next
      (next (next here (create_stream parent ProtoType.pending id))
        (append_rows request connection))
      (finalize_stream stream_name)

gauge-eq-registered_example :
    ((k : StreamType) → sealed.gauge k ≡ pos (registered k sealed.streams))
    × ((n : Text) (s : WriteStream ℕ) → get sealed.streams n ≡ some s → IsSound s × (s.name ≡ n))
gauge-eq-registered_example = gauge-eq-registered memory codec tables (false, []) Run-to_sealed

-- A PENDING stream with two rows, finalized, by hand.
abbrev ready : WriteStream ℕ
ready = record (new_stream (text "s") (text "p") (text "d") (text "t") StreamType.pending) {
  state = finalized;
  next_offset = 2;
  row_count = 2;
  buffer = (5 ∷ 6 ∷ []) ∷ [];
}

abbrev server : Bool → WriteStream ℕ → Server ℕ Db
server failing s = record {
  streams = (text "s", s) ∷ [];
  gauge = λ k. pos 0;
  tables = tables;
  store = (failing, []);
}

abbrev names : List Text
names = text "s" ∷ []

all_ready : AllReady (server false ready).streams names
unfolding get list_beq
all_ready = ((refl, refl), tt)

batch_commit_rows_example :
    memory.rows
      (handle_batch_commit_write_streams memory names (server false ready)).1.store
      (text "\"p__d\".\"t\"")
    ≡ [] ++ batch_rows (text "\"p__d\".\"t\"") (server false ready).streams names
unfolding handle_batch_commit_write_streams get put list_beq commit_errors commit_all commit_one
    commit quoted_table_ref
batch_commit_rows_example =
    batch_commit_rows memory names (server false ready) (text "\"p__d\".\"t\"") (tt, tt) all_ready
      refl

not_ready : ¬ AllReady (server false (record ready { state = opened })).streams names
unfolding get list_beq
not_ready h = cc (h.0.1)

batch_commit_refused_example :
    let sv = server false (record ready { state = opened }) in
    (commit_errors sv.streams names ≢ [])
    × (handle_batch_commit_write_streams memory names sv
        ≡ (reply (commit_errors sv.streams names), sv))
batch_commit_refused_example =
    batch_commit_refused memory names (server false (record ready { state = opened })) not_ready

batch_commit_lost_example :
    let sv' = set_stream (server true ready) (text "s") (committed_stream ready) in
    (handle_batch_commit_write_streams memory names (server true ready) ≡ (raised, sv'))
    × (handle_batch_commit_write_streams memory names sv'
        ≡ (reply (invalid_stream_state (text "s") batch_committed ∷ []), sv'))
unfolding get list_beq quoted_table_ref
batch_commit_lost_example =
    batch_commit_lost memory (text "s") ready (server true ready) (text "\"p__d\".\"t\"") refl
      (refl, refl) refl (omega arith) refl

abbrev direct : WriteStream ℕ
direct = new_stream (text "s") (text "p") (text "d") (text "t") StreamType.committed

append_lost_example :
    let s' = record direct { next_offset = 0 + 2; row_count = 0 + 2 } in
    let sv' = set_stream (server true direct) (text "s") s' in
    (perform_append memory direct (5 ∷ 6 ∷ []) (some (pos 0)) 100 (server true direct)
      ≡ (raised, sv'))
    × ((perform_append memory s' (5 ∷ 6 ∷ []) (some (pos 0)) 100 sv').0
        ≡ reply (
            error_response
              (text "s")
              (Message.outcome_detail (offset_taken (pos 0) (0 + 2)))
              Status.already_exists))
    × ((perform_append memory s' (5 ∷ 6 ∷ []) (some (pos 0)) 100 sv').1.store ≡ (true, []))
unfolding quoted_table_ref
append_lost_example =
    append_lost memory direct (5 ∷ 6 ∷ []) 100 (server true direct) (text "\"p__d\".\"t\"") refl
      refl refl (omega arith) refl
