-- ===== src/ReadSession.antt =====
-- src/bqemulator/streaming/read_session.py: the sessions of the Storage Read API. The new ids are
-- arguments; the serialised schemas are calls of pyarrow on the table and stand for themselves.
pub mod Cover
pub mod Halves
pub mod Bounds
use bqemulator.Prelude.{
  ℕ, zero, suc, ◌+◌, ◌-◌, ◌*◌, ◌/◌, ◌≤◌, ◌≡◌, Bool, true, false, ◌||◌, Option, none, some, List, [],
  ◌∷◌, ◌++◌, length, take, drop, ltb, leb, nat_eq, if◌then◌else◌, Text, text, text_eq, ◌==◌, ℤ, pos,
  negsuc, select,
}
use bqemulator.Dict.{Dict, get, put}
use bqemulator.Numerals.{to_digits}

-- pyarrow.Table, as far as sessions use it, with rows `R`.
pub record ArrowTable (R : Type 0) : Type 1 where
  pub Frame : Type 0
  pub column_names : Frame → List Text
  pub num_rows : Frame → ℕ
  pub nbytes : Frame → ℕ
  pub projected : List Text → Frame → Frame
  pub slice : Frame → ℕ → ℕ → Frame
  pub rows : Frame → List R
  pub num_rows_lem : (t : Frame) → num_rows t ≡ length (rows t)
  pub rows-slice :
      (t : Frame) (offset n : ℕ) → rows (slice t offset n) ≡ take n (drop offset (rows t))

-- ReadStream: `end_row` is exclusive.
pub record ReadStream : Type 0 where
  pub name : Text
  pub start_row : ℕ
  pub end_row : ℕ

pub data DataFormat : Type 0 where
  arrow avro : DataFormat

-- ReadSessionState, less the serialised schemas
pub record ReadSessionState (F : Type 0) : Type 0 where
  pub session_name : Text
  pub table : F
  pub streams : List ReadStream
  pub data_format : DataFormat

-- _SMALL_TABLE_BYTE_THRESHOLD
abbrev pub small_table_byte_threshold : ℕ
small_table_byte_threshold = 1000000

abbrev pub max : ℕ → ℕ → ℕ
max a b = if ltb a b then b else a

abbrev pub min : ℕ → ℕ → ℕ
min a b = if ltb b a then b else a

-- n // d, for d > 0
abbrev chunk_of : ℕ → ℕ → ℕ
chunk_of n zero = 0
chunk_of n (suc d) = max (n / suc d) 1

-- effective_streams of _compute_stream_layout
unfoldable pub effective_streams : ℕ → ℕ → ℕ → ℕ
effective_streams num_rows table_bytes max_streams =
    if ltb table_bytes small_table_byte_threshold
    then (if ltb 0 num_rows then 1 else 0)
    else min (min (max max_streams 1) 10) (max num_rows 1)

-- _compute_stream_layout
unfoldable pub compute_stream_layout : ℕ → ℕ → ℕ → ℕ × ℕ
unfolding effective_streams
compute_stream_layout num_rows table_bytes max_streams =
    let n = effective_streams num_rows table_bytes max_streams in (n, chunk_of num_rows n)

unfoldable pub stream_name : Text → Text → Text
stream_name session id = session ++ (text "/streams/" ++ id)

-- The rounds of _build_streams from `i` on, of which `n` are left.
unfoldable pub streams_from : Text → ℕ → ℕ → ℕ → ℕ → List ReadStream
unfolding stream_name
streams_from session chunk_size num_rows i zero = []
streams_from session chunk_size num_rows i (suc n) =
    let s : ReadStream = record {
      name = stream_name session (to_digits i);
      start_row = i * chunk_size;
      end_row = if ltb 0 n then (i + 1) * chunk_size else num_rows;
    } in
    let more = s ∷ streams_from session chunk_size num_rows (i + 1) n in
    if leb num_rows (i * chunk_size) then [] else more

-- _build_streams
unfoldable pub build_streams : Text → ℕ → ℕ → ℕ → List ReadStream
unfolding streams_from
build_streams session effective_streams chunk_size num_rows =
    streams_from session chunk_size num_rows 0 effective_streams

unfoldable pub is_in : List Text → Text → Bool
is_in [] t = false
is_in (x ∷ xs) t = x == t || is_in xs t

-- f"projects/{project_id}/locations/US/sessions/{session_id}"
unfoldable pub session_name_of : Text → Text → Text
session_name_of project_id session_id =
    text "projects/" ++ (project_id ++ (text "/locations/US/sessions/" ++ session_id))

-- The text before the last '/', if there is one.
unfoldable pub before_last_slash : Text → Option Text
before_last_slash [] = none
before_last_slash (c ∷ s) = elim (before_last_slash s) [
  | some t ↦ some (c ∷ t)
  | none ↦ if nat_eq c b'/' then some [] else none
]

abbrev or_empty : Option Text → Text
or_empty none = []
or_empty (some t) = t

-- "/".join(stream_name.split("/")[:-2])
unfoldable pub session_of_stream : Text → Text
unfolding before_last_slash
session_of_stream name =
    or_empty (elim (before_last_slash name) [ none ↦ none | some t ↦ before_last_slash t ])

-- The first stream of the name.
unfoldable pub find_stream : List ReadStream → Text → Option ReadStream
find_stream [] name = none
find_stream (s ∷ streams) name =
    let rest = find_stream streams name in if s.name == name then some s else rest

-- max(0, min(width, n))
abbrev pub clamped : ℕ → ℤ → ℕ
clamped width (pos n) = min width n
clamped width (negsuc n) = 0

module _ {R : Type 0} (A : ArrowTable R) where
  open A use {Frame, column_names, num_rows, nbytes, projected, slice}

  abbrev selected : Frame → List Text → Frame
  selected t [] = t
  selected t (c ∷ cols) = projected (c ∷ cols) t

  -- _project_columns: an empty list selects all.
  unfoldable pub project_columns : Frame → List Text → Frame
  unfolding is_in select
  project_columns t [] = t
  project_columns t (c ∷ fields) = selected t (select (is_in (column_names t)) (c ∷ fields))

  -- create_read_session: the store of sessions behind it, and the session
  unfoldable pub create_read_session :
      Text
      → Text
      → Frame
      → ℕ
      → List Text
      → DataFormat
      → Dict Text (ReadSessionState Frame)
      → Dict Text (ReadSessionState Frame) × ReadSessionState Frame
  unfolding project_columns compute_stream_layout build_streams session_name_of
  create_read_session session_id project_id arrow_table max_streams selected_fields format
        sessions =
      let t = project_columns arrow_table selected_fields in
      let name = session_name_of project_id session_id in
      let layout = compute_stream_layout (num_rows t) (nbytes t) max_streams in
      let state : ReadSessionState Frame = record {
        session_name = name;
        table = t;
        streams = build_streams name (layout.0) (layout.1) (num_rows t);
        data_format = format;
      } in
      (put sessions name state, state)

  -- state.table.slice(start_row, end_row - start_row)
  abbrev pub stream_slice : Frame → ReadStream → Frame
  stream_slice t s = slice t s.start_row (s.end_row - s.start_row)

  unfoldable pub stream_of : ReadSessionState Frame → Option ReadStream → Option Frame
  stream_of state none = none
  stream_of state (some s) = some (stream_slice state.table s)

  unfoldable pub data_of : Option (ReadSessionState Frame) → Text → Option Frame
  unfolding find_stream stream_of
  data_of none name = none
  data_of (some state) name = stream_of state (find_stream state.streams name)

  -- get_stream_data
  unfoldable pub get_stream_data : Dict Text (ReadSessionState Frame) → Text → Text → Option Frame
  unfolding data_of
  get_stream_data sessions session name = data_of (get sessions session) name

-- The streams after a split of `target` at `split_row`
unfoldable pub split_streams :
    Text → Text → Text → ℕ → ReadStream → List ReadStream → List ReadStream
unfolding stream_name
split_streams session primary remainder split_row target streams =
    streams
    ++ record {
      name = stream_name session (b'p' ∷ primary);
      start_row = target.start_row;
      end_row = split_row;
    }
      ∷ record {
        name = stream_name session (b'r' ∷ remainder);
        start_row = split_row;
        end_row = target.end_row;
      }
      ∷ []

-- What split_stream comes to.
pub data Split : Type 0 where
  no_stream overflow : Split
  split_into : Text → Text → Split

module _ {F : Type 0} where
  unfoldable pub split_found :
      Text
      → Text
      → Text
      → ReadStream
      → ReadSessionState F
      → Dict Text (ReadSessionState F)
      → Option ℤ
      → Dict Text (ReadSessionState F) × Split
  unfolding stream_name split_streams
  split_found session primary remainder target state sessions none = (sessions, overflow)
  split_found session primary remainder target state sessions (some n) =
      let split_row = target.start_row + clamped (target.end_row - target.start_row) n in
      let state' = record state {
        streams = split_streams session primary remainder split_row target state.streams;
      } in
      (
        put sessions session state',
        split_into (stream_name session (b'p' ∷ primary)) (stream_name session (b'r' ∷ remainder)),
      )

  unfoldable pub split_target :
      Text
      → Text
      → Text
      → (ℕ → Option ℤ)
      → ReadSessionState F
      → Dict Text (ReadSessionState F)
      → Option ReadStream
      → Dict Text (ReadSessionState F) × Split
  unfolding split_found
  split_target session primary remainder scaled state sessions none = (sessions, no_stream)
  split_target session primary remainder scaled state sessions (some target) =
      split_found session primary remainder target state sessions
        (scaled (target.end_row - target.start_row))

  unfoldable pub split_session :
      Text
      → Text
      → Text
      → Text
      → (ℕ → Option ℤ)
      → Dict Text (ReadSessionState F)
      → Option (ReadSessionState F)
      → Dict Text (ReadSessionState F) × Split
  unfolding split_target find_stream
  split_session session name primary remainder scaled sessions none = (sessions, no_stream)
  split_session session name primary remainder scaled sessions (some state) =
      split_target session primary remainder scaled state sessions (find_stream state.streams name)

  -- split_stream: the argument takes a width to int(width * fraction), which raises on a product that
  -- is not finite; `primary` and `remainder` are the digits of uuid4 in the names of the new streams.
  unfoldable pub split_stream :
      Text
      → (ℕ → Option ℤ)
      → Text
      → Text
      → Dict Text (ReadSessionState F)
      → Dict Text (ReadSessionState F) × Split
  unfolding split_session session_of_stream
  split_stream name scaled primary remainder sessions =
      let session = session_of_stream name in
      split_session session name primary remainder scaled sessions (get sessions session)
