-- ===== src/Streaming/Strategies/Sound.antt =====
-- What holds of a write stream between two calls, and that every strategy keeps it.
use bqemulator.Prelude.{
  ℕ, ◌+◌, ◌≤◌, ◌≡◌, ◌≢◌, Option, List, [], ◌∷◌, ◌++◌, arith, length, concat, concat-append,
  length-append, ℤ,
}
use bqemulator.Streaming.Stream.{
  StreamType, WriteStream, Table, opened, batch_committed, new_stream,
}
use bqemulator.Streaming.Strategies.{append, flush, commit}

-- The counters agree with the rows held.
pub record IsSound {R : Type 0} (s : WriteStream R) : Type 0 where
  pub counted : s.row_count ≡ s.next_offset
  pub within : s.flushed_rows ≤ s.next_offset
  pub flushes_only_buffered : s.stream_type ≢ StreamType.buffered → s.flushed_rows ≡ 0
  pub commits_only_pending : s.state ≡ batch_committed → s.stream_type ≡ StreamType.pending
  pub default_stays_open : s.stream_type ≡ StreamType.default → s.state ≡ opened
  pub default_holds_none : s.stream_type ≡ StreamType.default → s.buffer ≡ []
  pub committed_holds_none : s.stream_type ≡ StreamType.committed → s.buffer ≡ []
  pub released : s.state ≡ batch_committed → s.buffer ≡ []
  pub pending_holds_all :
      s.stream_type ≡ StreamType.pending
      → s.state ≢ batch_committed
      → length (concat s.buffer) ≡ s.next_offset
  pub buffered_holds_all :
      s.stream_type ≡ StreamType.buffered → length (concat s.buffer) ≡ s.next_offset

module _ {R : Type 0} where
  pub new_stream-IsSound :
      (n p d t : List ℕ) (k : StreamType) → IsSound (new_stream {R = R} n p d t k)
  new_stream-IsSound n p d t k = ground arith

  pub held-append :
      (ts : List (Table R)) (rows : Table R)
      → length (concat (ts ++ rows ∷ [])) ≡ length (concat ts) + length rows
  held-append ts rows = rw concat-append (length-append (concat ts) rows)

  pub append-IsSound :
      (s : WriteStream R) (rows : Table R) (offset : Option ℤ) (most : Option ℕ)
      → IsSound s
      → IsSound (append s rows offset most).0
  unfolding append
  append-IsSound s rows offset most h = ground (arith, held-append s.buffer rows)

  pub flush-IsSound : (s : WriteStream R) (o : ℤ) → IsSound s → IsSound (flush s o).0
  unfolding flush
  flush-IsSound s o h = ground arith

  pub commit-IsSound : (s : WriteStream R) → IsSound s → IsSound (commit s).0
  unfolding commit
  commit-IsSound s h = ground arith
