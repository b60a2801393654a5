-- ===== src/WriteApi/Handlers.antt =====
-- The unary calls of grpc_api/write_servicer.py but for the batch commit: CreateWriteStream,
-- GetWriteStream, FinalizeWriteStream and FlushRows, and `_flush_to_target`.
pub mod Invariant
use bqemulator.Prelude.{
  ℕ, ◌+◌, ◌≡◌, ◌++◌, Bool, true, false, ◌&&◌, Option, none, some, List, [], ◌∷◌, length, ltb,
  if◌then◌else◌, Text, text, text_eq, triple_eq, ℤ, is_some,
}
use bqemulator.Dict.{Dict, get, has, put}
use bqemulator.Identifiers.{quoted_table_ref}
use bqemulator.Streaming.Stream.{
  StreamType, StreamState, WriteStream, Table, opened, finalized, batch_committed, is_opened,
}
use bqemulator.Streaming.Names.{
  parse_table_parent, parse_stream_name, is_valid_stream_name, ends_with,
}
use bqemulator.Streaming.Strategies.{FlushOutcome, flush}
use bqemulator.WriteApi.{
  TableKey, FieldSchema, TableMeta, TargetStore, Server, Status, Message, Reply, reply, failed,
  raised,
}
use bqemulator.WriteApi.Manager.{create, get_or_create_default, gauge_inc, gauge_dec}

-- WriteStream.Type of the wire protocol.
pub data ProtoType : Type 0 where
  unspecified committed pending buffered : ProtoType

unfoldable pub proto_type_to_strategy : ProtoType → Option StreamType
proto_type_to_strategy ProtoType.committed = some StreamType.committed
proto_type_to_strategy ProtoType.pending = some StreamType.pending
proto_type_to_strategy ProtoType.buffered = some StreamType.buffered
proto_type_to_strategy ProtoType.unspecified = none

unfoldable pub strategy_type_to_proto : StreamType → ProtoType
strategy_type_to_proto StreamType.default = ProtoType.committed
strategy_type_to_proto StreamType.committed = ProtoType.committed
strategy_type_to_proto StreamType.pending = ProtoType.pending
strategy_type_to_proto StreamType.buffered = ProtoType.buffered

-- The response types.WriteStream, without its creation time.
pub record StreamInfo : Type 0 where
  pub name : Text
  pub type_ : ProtoType
  pub table_schema : Option (List FieldSchema)
  pub location : Text

abbrev pub key_of : {R : Type 0} → WriteStream R → TableKey
key_of s = (s.project_id, s.dataset_id, s.table_id)

abbrev schema_of : Option TableMeta → Option (List FieldSchema)
schema_of none = none
schema_of (some m) = some m.fields

abbrev pub is_default : StreamType → Bool
is_default StreamType.default = true
is_default _ = false

module _ {R E : Type 0} where
  abbrev pub set_stream : Server R E → Text → WriteStream R → Server R E
  set_stream sv name s = record sv { streams = put sv.streams name s }

  create_registered :
      Option (WriteStream R × Server R E)
      → ProtoType
      → StreamType
      → TableMeta
      → Server R E
      → Reply StreamInfo × Server R E
  create_registered none requested k m sv = (raised, sv)
  create_registered (some (s, sv')) requested k m sv = (
    reply
        (record { name = s.name; type_ = requested; table_schema = some m.fields; location = [] }),
    record (set_stream sv' s.name (record s { metric_registered = true })) {
      gauge = gauge_inc k sv'.gauge;
    },
  )

  create_typed :
      Option StreamType
      → ProtoType
      → TableKey
      → TableMeta
      → Text
      → Server R E
      → Reply StreamInfo × Server R E
  unfolding create_registered create
  create_typed none requested key m i sv =
      (failed Status.invalid_argument Message.unsupported_type, sv)
  create_typed (some k) requested key m i sv =
      create_registered (create key.0 key.1 key.2 i k sv) requested k m sv

  create_for :
      Option TableMeta → ProtoType → TableKey → Text → Server R E → Reply StreamInfo × Server R E
  unfolding create_typed proto_type_to_strategy
  create_for none requested key i sv = (failed Status.not_found (Message.table_not_found key), sv)
  create_for (some m) requested key i sv =
      create_typed (proto_type_to_strategy requested) requested key m i sv

  create_under :
      Option TableKey → Text → ProtoType → Text → Server R E → Reply StreamInfo × Server R E
  unfolding create_for
  create_under none parent requested i sv =
      (failed Status.invalid_argument (Message.invalid_parent parent), sv)
  create_under (some key) parent requested i sv =
      if is_some (quoted_table_ref key.0 key.1 key.2)
      then create_for (get sv.tables key) requested key i sv
      else (failed Status.invalid_argument (Message.invalid_ids key), sv)

  -- _handle_create_write_stream; `i` is the stream id that uuid4 gives.
  unfoldable pub handle_create_write_stream :
      Text → ProtoType → Text → Server R E → Reply StreamInfo × Server R E
  unfolding create_under
  handle_create_write_stream parent requested i sv =
      create_under (parse_table_parent parent) parent requested i sv

  stream_info : WriteStream R → Server R E → Reply StreamInfo × Server R E
  unfolding strategy_type_to_proto
  stream_info s sv = (
    reply (record {
      name = s.name;
      type_ = strategy_type_to_proto s.stream_type;
      table_schema = schema_of (get sv.tables (key_of s));
      location = text "us";
    }),
    sv,
  )

  get_default :
      Option (Text × Text × Text × Text) → Text → Server R E → Reply StreamInfo × Server R E
  unfolding stream_info get_or_create_default
  get_default none name sv = (failed Status.invalid_argument (Message.invalid_name name), sv)
  get_default (some (p, d, t, i)) name sv =
      let (s, sv') = get_or_create_default p d t sv in
      if has sv.tables (p, d, t)
      then stream_info s sv'
      else (failed Status.not_found (Message.entity_not_found name), sv)

  get_found : Option (WriteStream R) → Text → Server R E → Reply StreamInfo × Server R E
  unfolding get_default stream_info
  get_found (some s) name sv = stream_info s sv
  get_found none name sv =
      if ends_with (text "/streams/_default") name
      then get_default (parse_stream_name name) name sv
      else (failed Status.not_found (Message.entity_not_found name), sv)

  -- _handle_get_write_stream
  unfoldable pub handle_get_write_stream : Text → Server R E → Reply StreamInfo × Server R E
  unfolding get_found
  handle_get_write_stream name sv =
      if is_valid_stream_name name
      then get_found (get sv.streams name) name sv
      else (failed Status.invalid_argument (Message.invalid_name name), sv)

  finalize_open : WriteStream R → Text → Server R E → Reply ℕ × Server R E
  finalize_open s name sv = (
    reply s.row_count,
    record (set_stream sv name (record s { state = finalized; metric_registered = false })) {
      gauge = if s.metric_registered then gauge_dec s.stream_type sv.gauge else sv.gauge;
    },
  )

  finalize_state : StreamState → WriteStream R → Text → Server R E → Reply ℕ × Server R E
  unfolding finalize_open
  finalize_state batch_committed s name sv =
      (failed Status.failed_precondition Message.already_committed, sv)
  finalize_state finalized s name sv = (reply s.row_count, sv)
  finalize_state opened s name sv = finalize_open s name sv

  finalize_found : Option (WriteStream R) → Text → Server R E → Reply ℕ × Server R E
  unfolding finalize_state
  finalize_found none name sv = (failed Status.not_found (Message.entity_not_found name), sv)
  finalize_found (some s) name sv =
      if is_default s.stream_type
      then (failed Status.invalid_argument Message.default_not_finalizable, sv)
      else finalize_state s.state s name sv

  -- _handle_finalize_write_stream; the reply is the row count.
  unfoldable pub handle_finalize_write_stream : Text → Server R E → Reply ℕ × Server R E
  unfolding finalize_found
  handle_finalize_write_stream name sv = finalize_found (get sv.streams name) name sv
