-- ===== src/WriteApi/Append.antt =====
-- grpc_api/write_servicer.py: AppendRows, one connection with its sticky decoders.
pub mod Invariant
use bqemulator.Prelude.{
  ℕ, ◌+◌, Bool, true, false, ◌&&◌, Option, none, some, List, [], ◌∷◌, ◌++◌, length, ltb,
  if◌then◌else◌, Text, text, text_eq, triple_eq, ℤ, ◌==◌, is_some,
}
use bqemulator.Dict.{Dict, get, has, put}
use bqemulator.Streaming.Stream.{StreamType, WriteStream, Table}
use bqemulator.Streaming.Names.{parse_stream_name, ends_with}
use bqemulator.Streaming.Strategies
use bqemulator.Streaming.Strategies.{AppendStatus, AppendOutcome, append}
use bqemulator.WriteApi.{
  TableKey, FieldSchema, TableMeta, TargetStore, Server, Status, Message, Reply, reply, failed,
  raised,
}
use bqemulator.WriteApi.Manager.{get_or_create_default}
use bqemulator.WriteApi.Handlers.{key_of, set_stream}
use bqemulator.WriteApi.Target.{flush_if_rows}

-- _proto_to_grpc_status
unfoldable pub proto_to_grpc_status : AppendStatus → Status
proto_to_grpc_status AppendStatus.already_exists = Status.already_exists
proto_to_grpc_status AppendStatus.out_of_range = Status.out_of_range
proto_to_grpc_status AppendStatus.stream_finalized = Status.failed_precondition
proto_to_grpc_status AppendStatus.invalid_argument = Status.invalid_argument
proto_to_grpc_status AppendStatus.resource_exhausted = Status.resource_exhausted
proto_to_grpc_status AppendStatus.ok = Status.unknown

-- AppendRowsResponse: the offset echoed, or the error. The connection stays open on an error.
pub data Response : Type 0 where
  ok_response : Text → ℤ → Response
  error_response : Text → Message → Status → Response

abbrev is_ok : AppendStatus → Bool
is_ok AppendStatus.ok = true
is_ok _ = false

-- The rows of a request: protobuf or Arrow data with a schema that the connection may have seen
-- already, or nothing.
pub data Payload (S P : Type 0) : Type 0 where
  proto_rows : Option S → P → Payload S P
  arrow_rows : Option S → P → Payload S P
  no_rows : Payload S P

pub record Request (S P : Type 0) : Type 0 where
  pub size : ℕ
  pub write_stream : Text
  pub payload : Payload S P
  pub offset : Option ℤ

-- The locals of `_handle_append_rows`: the bound stream, by its name, with the target's schema, and
-- the two decoders.
pub record Connection (S : Type 0) : Type 0 where
  pub bound : Option (Text × List FieldSchema)
  pub proto_decoder : Option S
  pub arrow_schema : Option S

-- The settings, and the decoders of protobuf and Arrow data: `none` is the ValueError.
pub record Codec (R S P : Type 0) : Type 0 where
  pub max_request_bytes : ℕ
  pub max_stream_rows : ℕ
  pub decode_proto : S → P → List FieldSchema → Option (Table R)
  pub decode_arrow : S → P → List FieldSchema → Option (Table R)

abbrev pub newer {ℓ} : {A : Type ℓ} → Option A → Option A → Option A
newer (some a) old = some a
newer none old = old

module _ {R S P : Type 0} (C : Codec R S P) where
  decode_with :
      (S → P → List FieldSchema → Option (Table R))
      → Option S
      → P
      → List FieldSchema
      → Option (Table R)
  decode_with decode none p fields = none
  decode_with decode (some d) p fields = decode d p fields

  -- _rows_for_request: the rows, and the connection with its decoders refreshed.
  unfoldable pub rows_for_request :
      Payload S P → List FieldSchema → Connection S → Option (Table R) × Connection S
  unfolding decode_with
  rows_for_request (proto_rows schema p) fields c =
      let decoder = newer schema c.proto_decoder in
      (decode_with C.decode_proto decoder p fields, record c { proto_decoder = decoder })
  rows_for_request (arrow_rows schema p) fields c =
      let decoder = newer schema c.arrow_schema in
      (decode_with C.decode_arrow decoder p fields, record c { arrow_schema = decoder })
  rows_for_request no_rows fields c = (some [], c)

module _ {R : Type 0} (T : TargetStore R) where
  open T use {E}

  appended : WriteStream R → AppendOutcome R → Bool × Server R E → Reply Response × Server R E
  appended s outcome (true, sv) = (reply (ok_response s.name outcome.offset), sv)
  appended s outcome (false, sv) = (raised, sv)

  -- _perform_append
  unfoldable pub perform_append :
      WriteStream R → Table R → Option ℤ → ℕ → Server R E → Reply Response × Server R E
  unfolding appended
  perform_append s rows offset most sv =
      let (s', outcome) = append s rows offset (some most) in
      let sv' = set_stream sv s.name s' in
      if is_ok outcome.status
      then appended s' outcome (flush_if_rows T s' outcome.committed_rows sv')
      else (
        reply (
            error_response s.name (Message.outcome_detail outcome.detail)
              (proto_to_grpc_status outcome.status)),
        sv',
      )

module _ {R : Type 0} where
  bind_table : Option TableMeta → WriteStream R → Reply (WriteStream R × List FieldSchema)
  bind_table none s = failed Status.not_found (Message.table_gone (key_of s))
  bind_table (some m) s = reply (s, m.fields)

module _ {R E : Type 0} where
  resolve_default :
      Option (Text × Text × Text × Text) → Text → Server R E → Reply (WriteStream R) × Server R E
  resolve_default none name sv = (failed Status.invalid_argument (Message.invalid_name name), sv)
  resolve_default (some (p, d, t, i)) name sv =
      let (s, sv') = get_or_create_default p d t sv in
      if has sv.tables (p, d, t)
      then (reply s, sv')
      else (failed Status.not_found (Message.default_table_missing name), sv)

  resolve_found : Option (WriteStream R) → Text → Server R E → Reply (WriteStream R) × Server R E
  resolve_found none name sv = (failed Status.not_found (Message.stream_not_found name), sv)
  resolve_found (some s) name sv = (reply s, sv)

  -- _resolve_append_stream
  unfoldable pub resolve_append_stream : Text → Server R E → Reply (WriteStream R) × Server R E
  unfolding resolve_default resolve_found get_or_create_default
  resolve_append_stream name sv =
      if ends_with (text "/streams/_default") name
      then resolve_default (parse_stream_name name) name sv
      else resolve_found (get sv.streams name) name sv

  bind_stream :
      Reply (WriteStream R) × Server R E → Reply (WriteStream R × List FieldSchema) × Server R E
  unfolding bind_table
  bind_stream (reply s, sv) = (bind_table (get sv.tables (key_of s)) s, sv)
  bind_stream (failed st m, sv) = (failed st m, sv)
  bind_stream (raised, sv) = (raised, sv)

  -- _bind_stream_to_target
  unfoldable pub bind_stream_to_target :
      Text → Server R E → Reply (WriteStream R × List FieldSchema) × Server R E
  unfolding bind_stream resolve_append_stream
  bind_stream_to_target name sv = bind_stream (resolve_append_stream name sv)

  -- A bound stream is in the dictionary as long as the connection lives, since no handler deletes.
  rebound :
      Option (WriteStream R)
      → List FieldSchema
      → Server R E
      → Reply (WriteStream R × List FieldSchema) × Server R E
  rebound none fields sv = (raised, sv)
  rebound (some s) fields sv = (reply (s, fields), sv)

  -- _ensure_stream_bound
  unfoldable pub ensure_stream_bound :
      Text
      → Option (Text × List FieldSchema)
      → Server R E
      → Reply (WriteStream R × List FieldSchema) × Server R E
  unfolding rebound bind_stream_to_target
  ensure_stream_bound name none sv = bind_stream_to_target name sv
  ensure_stream_bound name (some (n, fields)) sv =
      if n == name then rebound (get sv.streams n) fields sv else bind_stream_to_target name sv

bound_name : Option (Text × List FieldSchema) → Text
bound_name none = []
bound_name (some (n, fields)) = n

-- How a connection ends: the client's requests are used up, a status is set on the context, or an
-- exception leaves the handler.
pub data CallEnding : Type 0 where
  closed crashed : CallEnding
  terminated : Status → Message → CallEnding

module _ {R S P : Type 0} (T : TargetStore R) (C : Codec R S P) where
  open T use {E}

  decoded :
      Request S P
      → WriteStream R
      → List FieldSchema
      → Connection S
      → Option (Table R) × Connection S
      → Server R E
      → Reply Response × Connection S × Server R E
  decoded q s fields old (none, c) sv =
      (reply (error_response s.name Message.bad_rows Status.invalid_argument), old, sv)
  decoded q s fields old (some rows, c) sv =
      let (r, sv') = perform_append T s rows q.offset C.max_stream_rows sv in (r, c, sv')

  append_bound :
      Request S P
      → Connection S
      → Reply (WriteStream R × List FieldSchema) × Server R E
      → Reply Response × Connection S × Server R E
  unfolding decoded
  append_bound q c (reply (s, fields), sv) =
      let c' = record c { bound = some (s.name, fields) } in
      decoded q s fields c' (rows_for_request C q.payload fields c') sv
  append_bound q c (failed st m, sv) = (failed st m, c, sv)
  append_bound q c (raised, sv) = (raised, c, sv)

  -- The body of the loop of `_handle_append_rows`; `failed` ends the connection.
  unfoldable pub append_request :
      Request S P → Connection S → Server R E → Reply Response × Connection S × Server R E
  unfolding append_bound ensure_stream_bound bound_name
  append_request q c sv =
      if ltb C.max_request_bytes q.size
      then (
        reply (
            error_response (bound_name c.bound) (Message.oversize C.max_request_bytes q.size)
              Status.resource_exhausted),
        c,
        sv,
      )
      else append_bound q c (ensure_stream_bound q.write_stream c.bound sv)

  abbrev next_request :
      Reply Response × Connection S × Server R E
      → (Connection S → Server R E → List Response × CallEnding × Server R E)
      → List Response × CallEnding × Server R E
  next_request (reply r, c, sv) rest = let (rs, e, sv') = rest c sv in (r ∷ rs, e, sv')
  next_request (failed st m, c, sv) rest = ([], terminated st m, sv)
  next_request (raised, c, sv) rest = ([], crashed, sv)

  unfoldable pub append_requests :
      List (Request S P) → Connection S → Server R E → List Response × CallEnding × Server R E
  append_requests [] c sv = ([], closed, sv)
  append_requests (q ∷ qs) c sv = next_request (append_request q c sv) (append_requests qs)

  -- _handle_append_rows
  unfoldable pub handle_append_rows :
      List (Request S P) → Server R E → List Response × CallEnding × Server R E
  unfolding append_requests append_request
  handle_append_rows qs sv =
      append_requests qs (record { bound = none; proto_decoder = none; arrow_schema = none }) sv
