-- ===== src/Streaming/Strategies.antt =====
-- streaming/strategies: what `append`, `flush` and `commit` do for each kind of stream.
-- A method returns the mutated stream beside its outcome.
pub mod Sound
pub mod Identity
pub mod Retry
pub mod Delivery
use bqemulator.Prelude.{
  ℕ, ◌+◌, ◌-◌, Bool, true, false, Option, none, some, List, [], ◌∷◌, ◌++◌, ◌&&◌, length, take, drop,
  concat, ltb, nat_eq, if◌then◌else◌, ℤ, pos, lt_count, gt_count, le_count, pos_part,
}
use bqemulator.Streaming.Stream.{
  StreamType, StreamState, WriteStream, Table, opened, finalized, batch_committed, is_opened,
}

pub data AppendStatus : Type 0 where
  ok already_exists out_of_range stream_finalized invalid_argument resource_exhausted : AppendStatus

-- The message of an outcome, by what it interpolates.
pub data Detail : Type 0 where
  no_detail : Detail
  no_offsets_on_default : Detail
  stream_is : StreamState → Detail
  offset_taken : ℤ → ℕ → Detail
  offset_beyond_next : ℤ → ℕ → Detail
  cap_exceeded : ℕ → Detail
  not_supported_on : StreamType → Detail
  must_be_finalized : StreamState → Detail
  beyond_end : ℤ → Detail
  already_flushed : ℤ → ℕ → Detail
  buffer_empty : Detail

pub record AppendOutcome (R : Type 0) : Type 0 where
  pub status : AppendStatus
  pub committed_rows : Option (Table R)
  pub offset : ℤ
  pub detail : Detail

pub record FlushOutcome (R : Type 0) : Type 0 where
  pub is_ok : Bool
  pub offset : ℤ
  pub committed_rows : Option (Table R)
  pub detail : Detail

pub record CommitOutcome (R : Type 0) : Type 0 where
  pub is_ok : Bool
  pub committed_rows : Option (Table R)
  pub detail : Detail

-- `max_buffered_rows is not None and total > max_buffered_rows`
abbrev pub over_cap : Option ℕ → ℕ → Bool
over_cap none total = false
over_cap (some most) total = ltb most total

abbrev pub cap_of : Option ℕ → ℕ
cap_of none = 0
cap_of (some most) = most

-- The test `next_offset - flushed_rows + appended > most` of
-- BufferedWriteStrategy.append, on Python's integers, is written without the subtraction.
abbrev pub over_pending_cap : Option ℕ → ℕ → ℕ → Bool
over_pending_cap none flushed total = false
over_pending_cap (some most) flushed total = ltb (most + flushed) total

abbrev pub is_finalized : StreamState → Bool
is_finalized finalized = true
is_finalized opened = false
is_finalized batch_committed = false

module _ {R : Type 0} where
  abbrev pub reject : AppendStatus → ℤ → Detail → AppendOutcome R
  reject s o d = record { status = s; committed_rows = none; offset = o; detail = d }

  abbrev pub accept : Option (Table R) → ℕ → AppendOutcome R
  accept rows o = record { status = ok; committed_rows = rows; offset = pos o; detail = no_detail }

  abbrev pub flush_error : ℤ → Detail → FlushOutcome R
  flush_error o d = record { is_ok = false; offset = o; committed_rows = none; detail = d }

  abbrev pub commit_error : Detail → CommitOutcome R
  commit_error d = record { is_ok = false; committed_rows = none; detail = d }

  -- DefaultWriteStrategy.append
  unfoldable pub default_append :
      WriteStream R → Table R → Option ℤ → Option ℕ → WriteStream R × AppendOutcome R
  default_append s rows (some o) most = (s, reject invalid_argument (pos 0) no_offsets_on_default)
  default_append s rows none most =
      let appended = length rows in
      (
        record s { row_count = s.row_count + appended; next_offset = s.next_offset + appended },
        accept (some rows) s.next_offset,
      )

  -- The offset discipline that the three other strategies share: the refusal, if there is one.
  unfoldable pub offset_refusal : Option ℤ → ℕ → Option (AppendOutcome R)
  offset_refusal none expected = none
  offset_refusal (some o) expected =
      if lt_count o expected
      then some (reject already_exists o (offset_taken o expected))
      else if gt_count o expected
      then some (reject out_of_range o (offset_beyond_next o expected))
      else none

  commit_now : WriteStream R → Table R → Option (AppendOutcome R) → WriteStream R × AppendOutcome R
  commit_now s rows (some refusal) = (s, refusal)
  commit_now s rows none =
      let appended = length rows in
      (
        record s { next_offset = s.next_offset + appended; row_count = s.row_count + appended },
        accept (some rows) s.next_offset,
      )

  -- CommittedWriteStrategy.append
  unfoldable pub committed_append :
      WriteStream R → Table R → Option ℤ → Option ℕ → WriteStream R × AppendOutcome R
  unfolding commit_now offset_refusal
  committed_append s rows offset most =
      if is_opened s.state
      then commit_now s rows (offset_refusal offset s.next_offset)
      else (s, reject stream_finalized (pos 0) (stream_is s.state))

  -- The tail of the two buffering `append`s, behind the offset and the cap.
  buffer_rows : WriteStream R → Table R → WriteStream R × AppendOutcome R
  buffer_rows s rows =
      let appended = length rows in
      (
        record s {
          buffer = s.buffer ++ rows ∷ [];
          next_offset = s.next_offset + appended;
          row_count = s.row_count + appended;
        },
        accept none s.next_offset,
      )

  buffer_within :
      WriteStream R
      → Table R
      → Option ℕ
      → Bool
      → Option (AppendOutcome R)
      → WriteStream R × AppendOutcome R
  unfolding buffer_rows
  buffer_within s rows most over (some refusal) = (s, refusal)
  buffer_within s rows most true none =
      (s, reject resource_exhausted (pos 0) (cap_exceeded (cap_of most)))
  buffer_within s rows most false none = buffer_rows s rows

  -- PendingWriteStrategy.append
  unfoldable pub pending_append :
      WriteStream R → Table R → Option ℤ → Option ℕ → WriteStream R × AppendOutcome R
  unfolding buffer_within offset_refusal
  pending_append s rows offset most =
      if is_opened s.state
      then buffer_within s rows most (over_cap most (s.row_count + length rows))
          (offset_refusal offset s.next_offset)
      else (s, reject stream_finalized (pos 0) (stream_is s.state))

  -- BufferedWriteStrategy.append
  unfoldable pub buffered_append :
      WriteStream R → Table R → Option ℤ → Option ℕ → WriteStream R × AppendOutcome R
  unfolding buffer_within offset_refusal
  buffered_append s rows offset most =
      if is_opened s.state
      then buffer_within s rows most
          (over_pending_cap most s.flushed_rows (s.next_offset + length rows))
          (offset_refusal offset s.next_offset)
      else (s, reject stream_finalized (pos 0) (stream_is s.state))

  -- The end of BufferedWriteStrategy.flush: rows [flushed_rows, offset) of the whole buffer.
  publish : WriteStream R → ℤ → List (Table R) → WriteStream R × FlushOutcome R
  publish s o [] = (s, flush_error o buffer_empty)
  publish s o (t ∷ ts) =
      let rows_to_flush = pos_part o - s.flushed_rows in
      (
        record s { flushed_rows = pos_part o },
        record {
          is_ok = true;
          offset = o;
          committed_rows = some (take rows_to_flush (drop s.flushed_rows (concat (t ∷ ts))));
          detail = no_detail;
        },
      )

  -- BufferedWriteStrategy.flush
  unfoldable pub buffered_flush : WriteStream R → ℤ → WriteStream R × FlushOutcome R
  unfolding publish
  buffered_flush s o =
      if is_opened s.state
      then if gt_count o s.next_offset
        then (s, flush_error o (beyond_end o))
        else if le_count o s.flushed_rows
        then (
          s,
          flush_error o (
              if nat_eq s.flushed_rows 0 && nat_eq s.next_offset 0
              then beyond_end o
              else already_flushed o s.flushed_rows),
        )
        else if nat_eq (pos_part o - s.flushed_rows) 0
        then (s, record { is_ok = true; offset = o; committed_rows = none; detail = no_detail })
        else publish s o s.buffer
      else (s, flush_error (pos 0) (stream_is s.state))

  -- _concat
  unfoldable pub concat_buffer : List (Table R) → Option (Table R)
  concat_buffer [] = none
  concat_buffer (t ∷ []) = some t
  concat_buffer (t ∷ u ∷ ts) = some (concat (t ∷ u ∷ ts))

  -- PendingWriteStrategy.commit
  unfoldable pub pending_commit : WriteStream R → WriteStream R × CommitOutcome R
  unfolding concat_buffer
  pending_commit s =
      if is_finalized s.state
      then (
        record s { buffer = []; state = batch_committed },
        record { is_ok = true; committed_rows = concat_buffer s.buffer; detail = no_detail },
      )
      else (s, commit_error (must_be_finalized s.state))

-- The protocol WriteStrategy, and the singleton for each kind.
pub record WriteStrategy (R : Type 0) : Type 0 where
  pub append : WriteStream R → Table R → Option ℤ → Option ℕ → WriteStream R × AppendOutcome R
  pub flush : WriteStream R → ℤ → WriteStream R × FlushOutcome R
  pub commit : WriteStream R → WriteStream R × CommitOutcome R

module _ {R : Type 0} where
  abbrev no_flush : StreamType → WriteStream R → ℤ → WriteStream R × FlushOutcome R
  no_flush t s o = (s, flush_error (pos 0) (not_supported_on t))

  abbrev no_commit : StreamType → WriteStream R → WriteStream R × CommitOutcome R
  no_commit t s = (s, commit_error (not_supported_on t))

  unfoldable pub select_strategy : StreamType → WriteStrategy R
  select_strategy StreamType.default = record {
    append = default_append;
    flush = no_flush StreamType.default;
    commit = no_commit StreamType.default;
  }
  select_strategy StreamType.committed = record {
    append = committed_append;
    flush = no_flush StreamType.committed;
    commit = no_commit StreamType.committed;
  }
  select_strategy StreamType.pending = record {
    append = pending_append;
    flush = no_flush StreamType.pending;
    commit = pending_commit;
  }
  select_strategy StreamType.buffered = record {
    append = buffered_append;
    flush = buffered_flush;
    commit = no_commit StreamType.buffered;
  }

  -- The three calls as the servicer makes them: through the strategy of the stream's kind.
  unfoldable pub append :
      WriteStream R → Table R → Option ℤ → Option ℕ → WriteStream R × AppendOutcome R
  unfolding select_strategy default_append committed_append pending_append buffered_append
  append s = (select_strategy s.stream_type).append s

  unfoldable pub flush : WriteStream R → ℤ → WriteStream R × FlushOutcome R
  unfolding select_strategy buffered_flush
  flush s = (select_strategy s.stream_type).flush s

  unfoldable pub commit : WriteStream R → WriteStream R × CommitOutcome R
  unfolding select_strategy pending_commit
  commit s = (select_strategy s.stream_type).commit s
