-- ===== src/Streaming/Stream.antt =====
-- streaming/write_stream.py: the kinds and states of a write stream, and its record.
use bqemulator.Prelude.{ℕ, Bool, false, List, [], Text}

pub data StreamType : Type 0 where
  default committed pending buffered : StreamType

-- OPEN, FINALIZED and COMMITTED of `WriteStreamState`.
pub data StreamState : Type 0 where
  opened finalized batch_committed : StreamState

abbrev pub is_opened : StreamState → Bool
is_opened opened = Bool.true
is_opened finalized = false
is_opened batch_committed = false

abbrev pub same_type : StreamType → StreamType → Bool
same_type default default = Bool.true
same_type committed committed = Bool.true
same_type pending pending = Bool.true
same_type buffered buffered = Bool.true
same_type _ _ = false

-- A pyarrow table is the list of its rows.
abbrev pub Table : Type 0 → Type 0
Table R = List R

pub record WriteStream (R : Type 0) : Type 0 where
  pub name : Text
  pub project_id : Text
  pub dataset_id : Text
  pub table_id : Text
  pub stream_type : StreamType
  pub state : StreamState
  pub next_offset : ℕ
  pub buffer : List (Table R)
  pub flushed_rows : ℕ
  pub row_count : ℕ
  pub metric_registered : Bool

-- The constructor's call with the defaults of the dataclass.
abbrev pub new_stream : {R : Type 0} → Text → Text → Text → Text → StreamType → WriteStream R
new_stream n p d t k = record {
  name = n;
  project_id = p;
  dataset_id = d;
  table_id = t;
  stream_type = k;
  state = opened;
  next_offset = 0;
  buffer = [];
  flushed_rows = 0;
  row_count = 0;
  metric_registered = false;
}
