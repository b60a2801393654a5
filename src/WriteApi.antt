-- ===== src/WriteApi.antt =====
-- grpc_api/write_servicer.py and the manager of streaming/write_stream.py: the state that the
-- Storage Write API keeps, its interface to the target database, and the replies.
pub mod Manager
pub mod Handlers
pub mod Target
pub mod Append
pub mod Runs
pub mod Lost
pub mod Consistent
use bqemulator.Prelude.{ℕ, ◌≡◌, ◌++◌, Option, some, List, Text, ℤ, if◌then◌else◌, ◌==◌, text_eq}
use bqemulator.Dict.{Dict}
use bqemulator.Streaming.Stream.{StreamType, StreamState, WriteStream, Table}
use bqemulator.Streaming.Strategies.{Detail}

abbrev pub TableKey : Type 0
TableKey = Text × Text × Text

pub record FieldSchema : Type 0 where
  pub name : Text
  pub type : Text
  pub mode : Text

-- The part of the catalog's TableMeta that the servicer reads or writes.
pub record TableMeta : Type 0 where
  pub fields : List FieldSchema
  pub num_rows : ℕ

-- DuckDB and the snapshot manager, as far as `_flush_to_target` calls them. A table is named by its
-- quoted reference; `none` is an exception, which leaves the rows as they were.
pub record TargetStore (R : Type 0) : Type 1 where
  pub E : Type 0
  pub rows : E → Text → List R
  pub insert : Text → Table R → E → Option E
  pub record_change : TableKey → E → Option E
  pub rows-insert :
      (ref j : Text) (t : Table R) (e e' : E)
      → insert ref t e ≡ some e'
      → rows e' j ≡ (if ref == j then rows e ref ++ t else rows e j)
  pub rows-record_change :
      (k : TableKey) (j : Text) (e e' : E) → record_change k e ≡ some e' → rows e' j ≡ rows e j

-- The gauge `write_streams_active`, by the label `stream_type`.
abbrev pub Gauge : Type 0
Gauge = StreamType → ℤ

pub record Server (R E : Type 0) : Type 0 where
  pub streams : Dict Text (WriteStream R)
  pub gauge : Gauge
  pub tables : Dict TableKey TableMeta
  pub store : E

-- grpc.StatusCode, those in use
pub data Status : Type 0 where
  already_exists out_of_range failed_precondition invalid_argument resource_exhausted : Status
  not_found unknown : Status

-- The details of a failed call, by what they interpolate.
pub data Message : Type 0 where
  invalid_parent invalid_name entity_not_found stream_not_found default_table_missing :
      Text → Message
  invalid_ids table_not_found table_gone : TableKey → Message
  unsupported_type default_not_finalizable already_committed bad_rows : Message
  flush_only_buffered : StreamType → Message
  outcome_detail : Detail → Message
  oversize : ℕ → ℕ → Message

-- A reply, a status set on the context, or a Python exception that leaves the handler.
pub data Reply (A : Type 0) : Type 0 where
  reply : A → Reply A
  failed : Status → Message → Reply A
  raised : Reply A
