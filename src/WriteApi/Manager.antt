-- ===== src/WriteApi/Manager.antt =====
-- WriteStreamManager of streaming/write_stream.py, over the dictionary of streams, with the removal
-- callback `_release_metric_slot` of grpc_api/write_servicer.py.
use bqemulator.Prelude.{Option, none, some, List, [], ◌∷◌, Text, text_eq, inc, dec, if◌then◌else◌}
use bqemulator.Dict.{get, has, put, remove, values}
use bqemulator.Streaming.Stream.{StreamType, WriteStream, same_type, new_stream}
use bqemulator.Streaming.Names.{build_stream_name, default_stream_name}
use bqemulator.WriteApi.{Gauge, Server}

abbrev pub gauge_inc : StreamType → Gauge → Gauge
gauge_inc k g j = if same_type k j then inc (g j) else g j

abbrev pub gauge_dec : StreamType → Gauge → Gauge
gauge_dec k g j = if same_type k j then dec (g j) else g j

module _ {R E : Type 0} where
  -- list_active
  unfoldable pub list_active : Server R E → List (WriteStream R)
  unfolding values
  list_active sv = values sv.streams

  -- create: `none` is the ValueError on a duplicate name.
  unfoldable pub create :
      Text → Text → Text → Text → StreamType → Server R E → Option (WriteStream R × Server R E)
  create p d t i k sv =
      let name = build_stream_name p d t i in
      let s = new_stream name p d t k in
      if has sv.streams name then none else some (s, record sv { streams = put sv.streams name s })

  default_or_new :
      Option (WriteStream R) → Text → Text → Text → Server R E → WriteStream R × Server R E
  default_or_new (some s) p d t sv = (s, sv)
  default_or_new none p d t sv =
      let name = default_stream_name p d t in
      let s = new_stream name p d t StreamType.default in
      (s, record sv { streams = put sv.streams name s })

  -- get_or_create_default
  unfoldable pub get_or_create_default :
      Text → Text → Text → Server R E → WriteStream R × Server R E
  unfolding default_or_new
  get_or_create_default p d t sv =
      default_or_new (get sv.streams (default_stream_name p d t)) p d t sv

module _ {R : Type 0} where
  -- _release_metric_slot: the stream has left the dictionary, so only the gauge is seen to change.
  unfoldable pub release_metric_slot : WriteStream R → Gauge → Gauge
  release_metric_slot s g = if s.metric_registered then gauge_dec s.stream_type g else g

  release : Option (WriteStream R) → Gauge → Gauge
  release none g = g
  release (some s) g = release_metric_slot s g

  unfoldable pub release_all : List (WriteStream R) → Gauge → Gauge
  unfolding release_metric_slot
  release_all [] g = g
  release_all (s ∷ ss) g = release_all ss (release_metric_slot s g)

module _ {R E : Type 0} where
  -- delete
  unfoldable pub delete : Text → Server R E → Server R E
  unfolding release release_metric_slot
  delete name sv = record sv {
    streams = remove sv.streams name;
    gauge = release (get sv.streams name) sv.gauge;
  }

  -- clear
  unfoldable pub clear : Server R E → Server R E
  unfolding release_all values
  clear sv = record sv { streams = []; gauge = release_all (values sv.streams) sv.gauge }
